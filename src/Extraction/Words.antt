-- ===== src/Extraction/Words.antt =====
-- What the extraction uses of Go's strings package beyond Text.antt: words, joins, and positions. A
-- position counts code points; Go counts bytes, which is the same where no character changes its number
-- of bytes in lower case, as with ASCII.
use kd_server.Common.{
  ℕ, suc, Bool, false, not, ◌||◌, Option, none, some, List, [], ◌∷◌, ◌++◌, ◌==◌, if◌then◌else◌,
}
use kd_server.Text.{Text, is_empty, is_space, has_prefix}
use kd_server.Tenant.{is_none}

abbrev pub starts_word : Text → Bool
starts_word [] = false
starts_word (c ∷ s) = not (is_space c)

abbrev pub onto_first : ℕ → List Text → List Text
onto_first c [] = (c ∷ []) ∷ []
onto_first c (w ∷ ws) = (c ∷ w) ∷ ws

-- `strings.Fields`
unfoldable pub fields : Text → List Text
unfolding is_space
fields [] = []
fields (c ∷ s) =
    let rest = fields s in
    if is_space c then rest else if starts_word s then onto_first c rest else (c ∷ []) ∷ rest

-- `strings.Join(words, " ")`
unfoldable pub join_words : List Text → Text
join_words [] = []
join_words (w ∷ []) = w
join_words (w ∷ v ∷ vs) = w ++ b' ' ∷ join_words (v ∷ vs)

abbrev one_more : Option ℕ → Option ℕ
one_more none = none
one_more (some n) = some (suc n)

-- `strings.Index`, `none` for -1.
unfoldable pub index : Text → Text → Option ℕ
unfolding has_prefix
index sub [] = if is_empty sub then some 0 else none
index sub (c ∷ s) =
    let later = index sub s in if has_prefix sub (c ∷ s) then some 0 else one_more later

-- `strings.Contains`
unfoldable pub contains : Text → Text → Bool
unfolding index
contains s sub = not (is_none (index sub s))

-- `strings.TrimLeft(s, ":;- ")`
unfoldable pub trim_marks : Text → Text
trim_marks [] = []
trim_marks (c ∷ s) =
    let rest = trim_marks s in
    if c == b':' || c == b';' || c == b'-' || c == b' ' then rest else c ∷ s
