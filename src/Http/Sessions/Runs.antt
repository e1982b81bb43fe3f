-- ===== src/Http/Sessions/Runs.antt =====
-- Runs of the session table, and what one login does.
use kd_server.Common.{
  ℕ, ◌+◌, ◌≡◌, refl, inl, inr, true, not, ◌||◌, Option, List, [], ◌∷◌, arith, Bool-cases, Result,
  ok, err,
}
use kd_server.Text.{Text, is_empty, same_iff}
use kd_server.Text.Encode.{base64_encode}
use kd_server.Http.Sessions.{
  AdminAuthenticator, admin_session_ttl, put_session, remove_expired, constant_time_equal, login,
  logout, valid_session,
}

-- A call on the authenticator, with what its clock and its random source return.
pub data Event : Type 0 where
  logs_in : (username password : Text) (now later : ℕ) (random : Result (List ℕ)) → Event
  logs_out : Option Text → Event
  checks : (token : Text) (now : ℕ) → Event

abbrev pub step : Event → AdminAuthenticator → AdminAuthenticator
step (logs_in u p now later random) a = (login u p now later random a).0
step (logs_out cookie) a = logout cookie a
step (checks token now) a = (valid_session token now a).0

-- The events, the last one first.
abbrev pub run : List Event → AdminAuthenticator → AdminAuthenticator
run [] a = a
run (e ∷ es) a = step e (run es a)

-- What a login does: nothing to the table, or, with the right name and password, one entry more.
pub data LoginOutcome (u p : Text) (now later : ℕ) (random : Result (List ℕ))
    (a a' : AdminAuthenticator) : Type 0 where
  refused : a' ≡ a → LoginOutcome u p now later random a a'
  accepted :
      (bytes : List ℕ)
      → random ≡ ok bytes
      → u ≡ a.username
      → p ≡ a.password
      → a' ≡ record a {
        sessions =
            put_session
              (base64_encode bytes)
              (now + admin_session_ttl)
              (remove_expired later a.sessions);
      }
      → LoginOutcome u p now later random a a'

constant_time_equal-eq : (s t : Text) → constant_time_equal s t ≡ true → s ≡ t
unfolding constant_time_equal
constant_time_equal-eq s t h = (same_iff s t).0 (ground arith)

pub login-outcome :
    (u p : Text) (now later : ℕ) (random : Result (List ℕ)) (a : AdminAuthenticator)
    → LoginOutcome u p now later random a (login u p now later random a).0
unfolding login
login-outcome u p now later (err e) a =
    elim (Bool-cases (is_empty a.username || is_empty a.password)) [
      | inl off ↦ refused (simp (off))
      | inr on ↦
          elim (Bool-cases
            (not (constant_time_equal u a.username) || not (constant_time_equal p a.password))) [
              | inl wrong ↦ refused (simp (on, wrong))
              | inr right ↦ refused (simp (on, right))
            ]
    ]
login-outcome u p now later (ok bytes) a =
    elim (Bool-cases (is_empty a.username || is_empty a.password)) [
      | inl off ↦ refused (simp (off))
      | inr on ↦
          elim (Bool-cases
            (not (constant_time_equal u a.username) || not (constant_time_equal p a.password))) [
              | inl wrong ↦ refused (simp (on, wrong))
              | inr right ↦
                  accepted bytes refl (constant_time_equal-eq u a.username (ground arith))
                    (constant_time_equal-eq p a.password (ground arith)) (simp (on, right))
            ]
    ]
