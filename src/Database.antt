-- ===== src/Database.antt =====
-- internal/store/mongo.go: the connection to MongoDB, and the indexes that a start of the server ensures.
-- The driver's calls are a parameter; what its documentation says of them is in Database/Laws.antt.
-- The contexts only bound how long a call takes, and the log lines are output.
pub mod Indexes
pub mod Laws
pub mod Ensured
mod Tests
use Prim.Native.String.{◌++◌ as ◌+++◌}
use kd_server.Common.{
  ℕ, zero, suc, String, Bool, true, false, List, [], ◌∷◌, Option, none, some, Result, ok, err,
  Error, message, wrap, if◌then◌else◌,
}
use kd_server.Text.{Text, codes, is_empty, is_blank}
use kd_server.Format.{ℤ, pos, negsuc}
use kd_server.Mongo.{Action, after, ◌>>=◌, ◌>>◌, pure, raise, require, writing}
use kd_server.Database.Indexes.{IndexModel, Spec}

-- The calls of the driver's clients `C`, over the state `S` of the deployment and of this process.
-- `is_open` tells the clients that are connected.
pub record Driver (S C : Type 0) : Type 0 where
  pub is_open : S → C → Bool
  pub connect_uri : Text → Action S C
  pub ping : C → Action S (Unit {0})
  pub disconnect : C → Action S (Unit {0})
  pub indexes : Text → S → List (String × IndexModel)
  pub create_many : C → Text → String → List IndexModel → Action S (List String)

-- The timeout is a `time.Duration`.
pub record Config : Type 0 where
  pub uri : Text
  pub database : Text
  pub timeout : ℤ

pub record MongoStore (C : Type 0) : Type 0 where
  pub client : C
  pub db : Text
  pub timeout : ℤ

abbrev pub default_uri : Text
default_uri = codes "mongodb://localhost:27017"

-- 10 seconds, in nanoseconds.
abbrev pub default_timeout : ℤ
default_timeout = pos 10000000000

abbrev pub uri_or_default : Text → Text
uri_or_default uri = if is_blank uri then default_uri else uri

abbrev pub timeout_or_default : ℤ → ℤ
timeout_or_default (pos zero) = default_timeout
timeout_or_default (pos (suc n)) = pos (suc n)
timeout_or_default (negsuc n) = default_timeout

module _ {S C : Type 0} (d : Driver S C) where
  abbrev pub after_ping : Config → C → S × Result (Unit {0}) → S × Result (MongoStore C)
  after_ping cfg client (s, ok _) = (
    s,
    ok (record { client = client; db = cfg.database; timeout = timeout_or_default cfg.timeout }),
  )
  after_ping cfg client (s, err e) = ((d.disconnect client s).0, err (wrap "store: ping" e))

  unfoldable pub connect : Config → Action S (MongoStore C)
  connect cfg s =
      if is_empty cfg.database
      then (s, err (message "store: database name is required"))
      else after (writing (wrap "store: connect") (d.connect_uri (uri_or_default cfg.uri)) s)
          (λ client s'. after_ping cfg client (d.ping client s'))

  -- `none` is a store that is nil or has no client.
  unfoldable pub close : Option (MongoStore C) → Action S (Unit {0})
  close none s = (s, ok tt)
  close (some store) s = d.disconnect store.client s

  -- `for collection, models := range specs`
  unfoldable pub ensure_each : MongoStore C → List Spec → Action S (Unit {0})
  ensure_each store [] s = (s, ok tt)
  ensure_each store ((collection, []) ∷ specs) s = ensure_each store specs s
  ensure_each store ((collection, m ∷ models) ∷ specs) s =
      after
        (writing (wrap ("store: ensure indexes for " +++ collection))
          (d.create_many store.client store.db collection (m ∷ models)) s)
        (λ _ s'. ensure_each store specs s')

  -- `specs` is the map of `defaultIndexSpecs` in the order in which it is ranged over.
  unfoldable pub ensure_indexes : List Spec → Option (MongoStore C) → Action S (Unit {0})
  unfolding ensure_each
  ensure_indexes specs none s = (s, err (message "store: EnsureIndexes on nil MongoStore"))
  ensure_indexes specs (some store) s = ensure_each store specs s
