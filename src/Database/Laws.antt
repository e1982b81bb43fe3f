-- ===== src/Database/Laws.antt =====
-- What the driver's documentation says of its calls, and how `Connect` ends.
use kd_server.Common.{
  String, ◌≡◌, refl, sym, ap, ◌∙◌, ◌⊎◌, inl, inr, true, false, some, List, Memᴰ, Bool-cases, All,
  Result, ok, err, Error, message, wrap,
}
use kd_server.Text.{Text, is_empty}
use kd_server.Mongo.{after, writing}
use kd_server.Database.{Driver, Config, MongoStore, after_ping, connect, close, uri_or_default}
use kd_server.Database.Indexes.{IndexModel}

-- A new client is connected until it is disconnected, whatever `Disconnect` answers. Creating indexes
-- drops none; behind a success all that were asked for are there.
pub record IsDriver {S C : Type 0} (d : Driver S C) : Type 0 where
  pub connect_done :
      (uri : Text) (s s' : S) (c : C)
      → d.connect_uri uri s ≡ (s', ok c)
      → (d.is_open s c ≡ false)
        × (d.is_open s' c ≡ true)
        × ((x : C) → (x ≡ c) ⊎ (d.is_open s' x ≡ d.is_open s x))
  pub connect_failed :
      (uri : Text) (s s' : S) (e : Error)
      → d.connect_uri uri s ≡ (s', err e)
      → (x : C) → d.is_open s' x ≡ d.is_open s x
  pub ping_keeps : (c : C) (s : S) (x : C) → d.is_open (d.ping c s).0 x ≡ d.is_open s x
  pub disconnect_done :
      (c : C) (s : S)
      → (d.is_open (d.disconnect c s).0 c ≡ false)
        × ((x : C) → (x ≡ c) ⊎ (d.is_open (d.disconnect c s).0 x ≡ d.is_open s x))
  pub create_many_done :
      (c : C) (db : Text) (collection : String) (models : List IndexModel) (s s' : S)
      (names : List String)
      → d.create_many c db collection models s ≡ (s', ok names)
      → All (λ m. Memᴰ (collection, m) (d.indexes db s')) models
  pub create_many_keeps :
      (c : C) (db : Text) (collection : String) (models : List IndexModel) (s : S)
      (x : String × IndexModel)
      → Memᴰ x (d.indexes db s)
      → Memᴰ x (d.indexes db (d.create_many c db collection models s).0)

module _ {S C : Type 0} (d : Driver S C) where
  -- How `Connect` ends: with a store of the database over a client that is new and has answered a ping,
  -- and whose `Close` leaves the clients open that were; or with an error and the same clients open.
  pub data Connected (cfg : Config) (s : S) (out : S × Result (MongoStore C)) : Type 0 where
    opened :
        (store : MongoStore C) (before s' : S)
        → out ≡ (s', ok store)
        → store.db ≡ cfg.database
        → d.is_open s store.client ≡ false
        → d.is_open s' store.client ≡ true
        → d.ping store.client before ≡ (s', ok tt)
        → ((x : C) → d.is_open (close d (some store) s').0 x ≡ d.is_open s x)
        → Connected cfg s out
    nothing_opened :
        (s' : S) (e : Error)
        → out ≡ (s', err e)
        → ((x : C) → d.is_open s' x ≡ d.is_open s x)
        → Connected cfg s out

  module _ (law : IsDriver d) where
    -- Behind a client's connection and its disconnection the same clients are open.
    closed_again :
        (c : C) (s t : S)
        → d.is_open s c ≡ false
        → ((x : C) → (x ≡ c) ⊎ (d.is_open t x ≡ d.is_open s x))
        → (x : C) → d.is_open (d.disconnect c t).0 x ≡ d.is_open s x
    closed_again c s t was others x =
        let (now, rest) = law.disconnect_done c t in
        elim (rest x) [
          | inl one ↦
              ap (d.is_open (d.disconnect c t).0) one
              ∙ (now ∙ (sym was ∙ ap (d.is_open s) (sym one)))
          | inr same_after ↦ elim (others x) [
            | inl one ↦
                ap (d.is_open (d.disconnect c t).0) one
                ∙ (now ∙ (sym was ∙ ap (d.is_open s) (sym one)))
            | inr same_before ↦ same_after ∙ same_before
          ]
        ]

    ping_apart :
        (c : C) (s t z : S) (r : Result (Unit {0}))
        → ((x : C) → (x ≡ c) ⊎ (d.is_open t x ≡ d.is_open s x))
        → d.ping c t ≡ (z, r)
        → (x : C) → (x ≡ c) ⊎ (d.is_open z x ≡ d.is_open s x)
    ping_apart c s t z r others pinged x = elim (others x) [
      | inl one ↦ inl one
      | inr same ↦ inr (
          ap (λ (y : S × Result (Unit {0})). d.is_open y.0 x) (sym pinged)
          ∙ (law.ping_keeps c t x ∙ same))
    ]

    after_ping-Connected :
        (cfg : Config) (c : C) (s t : S)
        → d.connect_uri (uri_or_default cfg.uri) s ≡ (t, ok c)
        → (r : S × Result (Unit {0})) → d.ping c t ≡ r
        → Connected cfg s (after_ping d cfg c r)
    unfolding close
    after_ping-Connected cfg c s t e (z, ok u) pinged =
        let (was, now, others) = law.connect_done _ s t c e in
        opened _ t z refl refl was
          (ap (λ (y : S × Result (Unit {0})). d.is_open y.0 c) (sym pinged)
            ∙ (law.ping_keeps c t c ∙ now))
          pinged (closed_again c s z was (ping_apart c s t z (ok u) others pinged))
    after_ping-Connected cfg c s t e (z, err failure) pinged =
        let (was, now, others) = law.connect_done _ s t c e in
        nothing_opened _ (wrap "store: ping" failure) refl
          (closed_again c s z was (ping_apart c s t z (err failure) others pinged))

    connect_uri-Connected :
        (cfg : Config) (s : S) (r : S × Result C)
        → d.connect_uri (uri_or_default cfg.uri) s ≡ r
        → Connected cfg s (
            after
              (writing (wrap "store: connect") (λ _. r) s)
              (λ client s'. after_ping d cfg client (d.ping client s')))
    connect_uri-Connected cfg s (t, ok c) e = after_ping-Connected cfg c s t e (d.ping c t) refl
    connect_uri-Connected cfg s (t, err failure) e =
        nothing_opened t (wrap "store: connect" failure) refl (law.connect_failed _ s t failure e)

    -- As the driver's documentation has it, `Connect` ends in one of two ways: with a store of the
    -- configured database over a client that was not connected before and is now, that has just answered
    -- a ping, and whose `Close` leaves exactly the clients connected that were before the call; or with
    -- an error, and exactly the clients connected that were.
    pub connect-Connected : (cfg : Config) (s : S) → Connected cfg s (connect d cfg s)
    unfolding connect
    connect-Connected cfg s = elim (Bool-cases (is_empty cfg.database)) [
      | inl missing ↦
          nothing_opened s (message "store: database name is required") (rw missing) (λ x. refl)
      | inr named ↦
          rw named (connect_uri-Connected cfg s (d.connect_uri (uri_or_default cfg.uri) s) refl)
    ]
