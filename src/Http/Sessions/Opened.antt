-- ===== src/Http/Sessions/Opened.antt =====
-- Which sessions are valid: those that a login opened.
use kd_server.Common.{
  ℕ, ◌+◌, ◌<◌, ◌≡◌, refl, sym, ◌∙◌, ◌≢◌, inl, inr, true, none, some, List, [], ◌∷◌, arith, ltb,
  Bool-cases, Option-cases, All, All-map, ok,
}
use kd_server.Text.{Text, same, trim_space, same_iff}
use kd_server.Text.Encode.{base64_encode}
use kd_server.Http.Sessions.{
  AdminAuthenticator, Sessions, admin_session_ttl, session, delete, put_session, remove_expired,
  logout, valid_session, new_admin_authenticator,
}
use mathlib.Core.Path.{subst, subst₂}
use kd_server.Http.Sessions.Runs.{
  Event, logs_in, logs_out, checks, step, run, refused, accepted, login-outcome,
}

-- The session was opened by a login with the right name and password, and no logout of it follows.
pub data Opened (username password token : Text) (expires : ℕ) : List Event → Type 0 where
  now_opened :
      (u p : Text) (now later : ℕ) (bytes : List ℕ) (es : List Event)
      → u ≡ username
      → p ≡ password
      → token ≡ base64_encode bytes
      → expires ≡ now + admin_session_ttl
      → Opened username password token expires (logs_in u p now later (ok bytes) ∷ es)
  before :
      (e : Event) (es : List Event)
      → e ≢ logs_out (some token)
      → Opened username password token expires es
      → Opened username password token expires (e ∷ es)

module _ (P : Text × ℕ → Type 0) where
  All-remove_expired : (now : ℕ) (m : Sessions) → All P m → All P (remove_expired now m)
  unfolding remove_expired
  All-remove_expired now [] h = tt
  All-remove_expired now ((t, x) ∷ m) (p, h) = elim (Bool-cases (ltb now x)) [
    | inl lives ↦ rw lives (p, All-remove_expired now m h)
    | inr over ↦ rw over (All-remove_expired now m h)
  ]

  All-delete :
      (token : Text) (m : Sessions) → All P m → All (λ s. P s × (s.0 ≢ token)) (delete token m)
  unfolding delete
  All-delete token [] h = tt
  All-delete token ((t, x) ∷ m) (p, h) = elim (Bool-cases (same t token)) [
    | inl here ↦ rw here (All-delete token m h)
    | inr other ↦
        let differs : t ≢ token = λ equal.
          let twin : same t token ≡ true = (same_iff t token).1 equal in cc (twin, other) in
        rw other ((p, differs), All-delete token m h)
  ]

  All-session :
      (token : Text) (x : ℕ) (m : Sessions) → All P m → session token m ≡ some x → P (token, x)
  unfolding session
  All-session token x [] h found = cc
  All-session token x ((t, y) ∷ m) (p, h) found = elim (Bool-cases (same t token)) [
    | inl here ↦
        let name : t ≡ token = (same_iff t token).0 here in
        let time : y ≡ x = ground arith in subst₂ (λ n z. P (n, z)) name time p
    | inr other ↦ All-session token x m h (ground arith)
  ]

module _ (username password : Text) where
  abbrev OpenedEntry : List Event → Text × ℕ → Type 0
  OpenedEntry es s = Opened username password s.0 s.1 es

  -- All entries of the table were opened by a login, and the name and the password are as configured.
  abbrev pub Sound : List Event → AdminAuthenticator → Type 0
  Sound es a = (a.username ≡ username) × (a.password ≡ password) × All (OpenedEntry es) a.sessions

  later_event :
      (e : Event) (es : List Event)
      → ((t : Text) → e ≢ logs_out (some t))
      → (m : Sessions) → All (OpenedEntry es) m
      → All (OpenedEntry (e ∷ es)) m
  later_event e es no_logout m h = All-map (λ s opened. before e es (no_logout s.0) opened) m h

  step-Sound :
      (e : Event) (es : List Event) (a : AdminAuthenticator)
      → Sound es a
      → Sound (e ∷ es) (step e a)
  unfolding logout valid_session put_session
  step-Sound (logs_in u p now later random) es a (name, pass, all_opened) =
      elim (login-outcome u p now later random a) [
        | refused same_state ↦ subst (Sound (logs_in u p now later random ∷ es)) (sym same_state) (
          name,
          pass,
          later_event (logs_in u p now later random) es (λ t. cc) a.sessions all_opened,
        )
        | accepted bytes drawn right_name right_pass made ↦
            subst (Sound (logs_in u p now later random ∷ es)) (sym made) (
              name,
              pass,
              (
                subst
                    (λ r.
                      OpenedEntry (logs_in u p now later r ∷ es)
                        (base64_encode bytes, now + admin_session_ttl))
                    (sym drawn)
                    (now_opened u p now later bytes es (right_name ∙ name) (right_pass ∙ pass) refl
                      refl),
                later_event (logs_in u p now later random) es (λ t. cc)
                    (delete (base64_encode bytes) (remove_expired later a.sessions))
                    (All-map (λ s both. both.0)
                      (delete (base64_encode bytes) (remove_expired later a.sessions))
                      (All-delete (OpenedEntry es) (base64_encode bytes)
                        (remove_expired later a.sessions)
                        (All-remove_expired (OpenedEntry es) later a.sessions all_opened))),
              ),
            )
      ]
  step-Sound (logs_out none) es a (name, pass, all_opened) =
      (name, pass, later_event (logs_out none) es (λ t. cc) a.sessions all_opened)
  step-Sound (logs_out (some token)) es a (name, pass, all_opened) = (
    name,
    pass,
    All-map (λ s both. before (logs_out (some token)) es (λ equal. both.1 (cc equal)) both.0)
        (delete token a.sessions) (All-delete (OpenedEntry es) token a.sessions all_opened),
  )
  step-Sound (checks token now) es a (name, pass, all_opened) = (
    name,
    pass,
    later_event (checks token now) es (λ t. cc) (remove_expired now a.sessions)
        (All-remove_expired (OpenedEntry es) now a.sessions all_opened),
  )

  run-Sound : (es : List Event) (a : AdminAuthenticator) → Sound [] a → Sound es (run es a)
  run-Sound [] a h = h
  run-Sound (e ∷ es) a h = step-Sound e es (run es a) (run-Sound es a h)

-- In every run from a new authenticator, a token that is valid was made by a login with the configured
-- name and password, is not logged out since, and is less than eight hours old.
pub valid_session-Opened :
    (username password : Text) (es : List Event) (token : Text) (now : ℕ)
    → (valid_session token now (run es (new_admin_authenticator username password))).1 ≡ true
    → (x : ℕ) × Opened (trim_space username) password token x es × (now < x)
unfolding valid_session new_admin_authenticator
valid_session-Opened username password es token now h =
    let a = run es (new_admin_authenticator username password) in
    let (_, _, all_opened) =
      run-Sound (trim_space username) password es (new_admin_authenticator username password)
        (refl, refl, tt) in
    elim (Option-cases (session token (remove_expired now a.sessions))) [
      | inl missing ↦ absurd (ground arith)
      | inr (x, found) ↦
          let opened : OpenedEntry (trim_space username) password es (token, x) =
            All-session (OpenedEntry (trim_space username) password es) token x
              (remove_expired now a.sessions)
              (All-remove_expired (OpenedEntry (trim_space username) password es) now a.sessions
                all_opened)
              found in
          (x, opened, ground arith)
    ]
