-- ===== src/Json.antt =====
-- A `map[string]any`, as it is decoded from JSON or BSON: the keys with their values, each key once.
use kd_server.Common.{List, [], ◌∷◌, if◌then◌else◌}
use kd_server.Text.{Text, same, trim_space}

-- What `asString` of internal/services/resolve.go tells apart: a string, a value with a `String`
-- method with what it returns, and any other value with its JSON text.
pub data Value : Type 0 where
  text stringer other : Text → Value

abbrev pub Json : Type 0
Json = List (Text × Value)

-- `asString(payload[key])`: the trimmed text, and the empty one for another value or none.
abbrev pub as_string : Value → Text
as_string (text s) = trim_space s
as_string (stringer s) = trim_space s
as_string (other s) = []

unfoldable pub string_at : Text → Json → Text
string_at key [] = []
string_at key ((name, v) ∷ fields) =
    let rest = string_at key fields in if same name key then as_string v else rest
