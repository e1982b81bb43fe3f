-- ===== src/Http/Sessions/Lifetime.antt =====
-- For how long a session is valid.
use kd_server.Common.{
  ℕ, ◌+◌, ◌<◌, ◌≡◌, sym, ap, ◌∙◌, inl, inr, Bool, true, false, not, ◌&&◌, ◌||◌, none, some, List,
  [], ◌∷◌, arith, ltb, Bool-cases, all, Result, ok, err,
}
use kd_server.Text.{Text, same, is_empty, same_iff}
use kd_server.Text.Encode.{base64_encode}
use kd_server.Http.Sessions.{
  AdminAuthenticator, Sessions, Cookie, admin_session_ttl, session, delete, put_session,
  remove_expired, constant_time_equal, login, logout, valid_session,
}
use mathlib.Core.Path.{subst}
use kd_server.Http.Sessions.Runs.{
  Event, logs_in, logs_out, checks, step, run, refused, accepted, login-outcome,
}

-- The event leaves a session of the token that expires at the given moment in the table.
abbrev pub keeps : Text → ℕ → Event → Bool
keeps token x (logs_in u p now later (ok bytes)) =
    ltb later x && not (same (base64_encode bytes) token)
keeps token x (logs_in u p now later (err _)) = true
keeps token x (logs_out none) = true
keeps token x (logs_out (some t)) = not (same t token)
keeps token x (checks t now) = ltb now x

session-remove_expired :
    (token : Text) (now x : ℕ) (m : Sessions)
    → now < x
    → session token m ≡ some x
    → session token (remove_expired now m) ≡ some x
unfolding session remove_expired
session-remove_expired token now x [] alive h = cc
session-remove_expired token now x ((t, y) ∷ m) alive h = elim (Bool-cases (same t token)) [
  | inl here ↦
      let time : y ≡ x = ground arith in
      let lives : ltb now x ≡ true = ground arith in simp (time, lives, here)
  | inr other ↦
      let rest : session token (remove_expired now m) ≡ some x =
        session-remove_expired token now x m alive (ground arith) in
      elim (Bool-cases (ltb now y)) [
        | inl lives ↦ simp (lives, other, rest)
        | inr over ↦ simp (over, rest)
      ]
]

session-delete :
    (token other : Text) (x : ℕ) (m : Sessions)
    → same other token ≡ false
    → session token m ≡ some x
    → session token (delete other m) ≡ some x
unfolding session delete
session-delete token other x [] differs h = cc
session-delete token other x ((t, y) ∷ m) differs h = elim (Bool-cases (same t token)) [
  | inl here ↦
      let not_other : same t other ≡ false = elim (Bool-cases (same t other)) [
        | inl twin ↦ absurd (
            let one : same other token ≡ true =
              (same_iff other token).1
                (sym ((same_iff t other).0 twin) ∙ (same_iff t token).0 here) in
            cc (one, differs))
        | inr apart ↦ apart
      ] in
      let time : y ≡ x = ground arith in simp (not_other, here, time)
  | inr apart ↦
      let rest : session token (delete other m) ≡ some x =
        session-delete token other x m differs (ground arith) in
      elim (Bool-cases (same t other)) [
        | inl twin ↦ simp (twin, rest)
        | inr two ↦ simp (two, apart, rest)
      ]
]

step-session :
    (e : Event) (token : Text) (x : ℕ) (a : AdminAuthenticator)
    → keeps token x e ≡ true
    → session token a.sessions ≡ some x
    → session token (step e a).sessions ≡ some x
unfolding logout valid_session put_session session
step-session (logs_in u p now later (ok bytes)) token x a quiet found =
    let differs : same (base64_encode bytes) token ≡ false = ground arith in
    elim (login-outcome u p now later (ok bytes) a) [
      | refused same_state ↦
          ap (λ (b : AdminAuthenticator). session token b.sessions) same_state ∙ found
      | accepted other drawn _ _ made ↦
          let drawn_eq : bytes ≡ other = cc drawn in
          let differs_other : same (base64_encode other) token ≡ false =
            subst (λ b. same (base64_encode b) token ≡ false) drawn_eq differs in
          let kept : session token (delete (base64_encode other) (remove_expired later a.sessions))
              ≡ some x =
            session-delete token (base64_encode other) x (remove_expired later a.sessions)
              differs_other
              (session-remove_expired token later x a.sessions (ground arith) found) in
          ap (λ (b : AdminAuthenticator). session token b.sessions) made
          ∙ simp (differs_other, kept)
    ]
step-session (logs_in u p now later (err e)) token x a quiet found =
    elim (login-outcome u p now later (err e) a) [
      | refused same_state ↦
          ap (λ (b : AdminAuthenticator). session token b.sessions) same_state ∙ found
      | accepted other drawn _ _ made ↦ absurd (cc drawn)
    ]
step-session (logs_out none) token x a quiet found = found
step-session (logs_out (some t)) token x a quiet found =
    session-delete token t x a.sessions (ground arith) found
step-session (checks t now) token x a quiet found =
    session-remove_expired token now x a.sessions (ground arith) found

run-session :
    (es : List Event) (token : Text) (x : ℕ) (a : AdminAuthenticator)
    → all (keeps token x) es ≡ true
    → session token a.sessions ≡ some x
    → session token (run es a).sessions ≡ some x
run-session [] token x a quiet found = found
run-session (e ∷ es) token x a quiet found =
    step-session e token x (run es a) (ground arith) (run-session es token x a (ground arith) found)

login-session :
    (u p : Text) (now later : ℕ) (random : Result (List ℕ)) (a : AdminAuthenticator) (c : Cookie)
    → (login u p now later random a).1 ≡ ok c
    → session c.value (login u p now later random a).0.sessions ≡ some (now + admin_session_ttl)
unfolding login put_session session
login-session u p now later (err e) a c done =
    elim (Bool-cases (is_empty a.username || is_empty a.password)) [
      | inl off ↦ absurd (ground arith)
      | inr on ↦
          elim (Bool-cases
            (not (constant_time_equal u a.username) || not (constant_time_equal p a.password))) [
              | inl wrong ↦ absurd (ground arith)
              | inr right ↦ absurd (ground arith)
            ]
    ]
login-session u p now later (ok bytes) a c done =
    elim (Bool-cases (is_empty a.username || is_empty a.password)) [
      | inl off ↦ absurd (ground arith)
      | inr on ↦
          elim (Bool-cases
            (not (constant_time_equal u a.username) || not (constant_time_equal p a.password))) [
              | inl wrong ↦ absurd (ground arith)
              | inr right ↦
                  let made : Path (Result Cookie)
                      (ok
                        (record { value = base64_encode bytes; expires = now + admin_session_ttl }))
                      (ok c) =
                    simp (on, right) at done in
                  let cookie : record {
                    value = base64_encode bytes;
                    expires = now + admin_session_ttl;
                  }
                      ≡ c =
                    cc made in
                  let value : base64_encode bytes ≡ c.value = ap (λ (k : Cookie). k.value) cookie in
                  let found : same (base64_encode bytes) c.value ≡ true =
                    (same_iff (base64_encode bytes) c.value).1 value in
                  simp (on, right, found)
            ]
    ]

-- The session of a login that succeeds is valid at every moment of the eight hours behind it, through any
-- events that do not log it out, draw its token again, or read a clock beyond its end.
pub login-valid_session :
    (u p : Text) (now later : ℕ) (random : Result (List ℕ)) (a : AdminAuthenticator) (c : Cookie)
    → (login u p now later random a).1 ≡ ok c
    → (es : List Event) → all (keeps c.value (now + admin_session_ttl)) es ≡ true
    → (t : ℕ) → t < now + admin_session_ttl
    → (valid_session c.value t (run es (login u p now later random a).0)).1 ≡ true
unfolding valid_session
login-valid_session u p now later random a c done es quiet t soon =
    let x : ℕ = now + admin_session_ttl in
    let b = (login u p now later random a).0 in
    let opened : session c.value b.sessions ≡ some x =
      login-session u p now later random a c done in
    let still : session c.value (remove_expired t (run es b).sessions) ≡ some x =
      session-remove_expired c.value t x (run es b).sessions soon
        (run-session es c.value x b quiet opened) in
    let alive : ltb t (now + admin_session_ttl) ≡ true = ground arith in simp (still, alive)
