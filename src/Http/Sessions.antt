-- ===== src/Http/Sessions.antt =====
-- internal/http/admin_auth.go: the sessions of the admin console. A moment is a number of nanoseconds;
-- the mutex makes each operation one step. `login` reads the clock twice.
pub mod Runs
pub mod Opened
pub mod Lifetime
mod Tests
use kd_server.Common.{
  ℕ, zero, suc, ◌+◌, ◌-◌, ◌*◌, ◌/◌, ◌%◌, ◌^◌, ◌≤◌, ◌<◌, String, ◌≡◌, refl, sym, ap, ◌∙◌, ◌≢◌, ◌↔◌,
  ◌⊎◌, inl, inr, Bool, true, false, not, ◌&&◌, ◌||◌, Option, none, some, List, [], ◌∷◌, ◌++◌, map,
  Memᴰ, arith, ltb, leb, ◌==◌, ==_iff, within, if◌then◌else◌, Bool-cases, Option-cases,
  Result-cases, length, take, drop, any, all, keep, length-append, All, All-append, All-map,
  All-mem, Result, ok, err, Error, message, about, wrap, fault, no_documents, duplicate_key,
  is_no_documents,
}
use kd_server.Text.{
  Text, codes, same, is_empty, is_blank, is_space, trim_space, Casing, to_lower, to_upper,
  has_prefix, trim_prefix, cut, same_iff, same_refl,
}
use kd_server.Text.Encode.{base64_encode}
use kd_server.Http.{Reply, failed, Handler}

abbrev pub Sessions : Type 0
Sessions = List (Text × ℕ)

pub record AdminAuthenticator : Type 0 where
  pub username : Text
  pub password : Text
  pub sessions : Sessions

-- `adminSessionTTL`, 8 hours.
abbrev pub admin_session_ttl : ℕ
admin_session_ttl = 28800000000000

unfoldable pub new_admin_authenticator : Text → Text → AdminAuthenticator
new_admin_authenticator username password = record {
  username = trim_space username;
  password = password;
  sessions = [];
}

-- The value and the expiry of the cookie that `login` sets; the other attributes are constants.
pub record Cookie : Type 0 where
  pub value : Text
  pub expires : ℕ

-- `a.sessions[token]`
unfoldable pub session : Text → Sessions → Option ℕ
session token [] = none
session token ((t, expires) ∷ m) =
    let rest = session token m in if same t token then some expires else rest

-- `delete(a.sessions, token)`
unfoldable pub delete : Text → Sessions → Sessions
delete token [] = []
delete token ((t, expires) ∷ m) =
    let rest = delete token m in if same t token then rest else (t, expires) ∷ rest

-- `a.sessions[token] = expiresAt`
unfoldable pub put_session : Text → ℕ → Sessions → Sessions
unfolding delete
put_session token expires m = (token, expires) ∷ delete token m

-- `removeExpiredLocked`: what does not expire after the moment goes.
unfoldable pub remove_expired : ℕ → Sessions → Sessions
remove_expired now [] = []
remove_expired now ((t, expires) ∷ m) =
    let rest = remove_expired now m in if ltb now expires then (t, expires) ∷ rest else rest

-- `constantTimeEqual`
unfoldable pub constant_time_equal : Text → Text → Bool
constant_time_equal actual expected = length actual == length expected && same actual expected

abbrev pub with_token_bytes :
    AdminAuthenticator → ℕ → ℕ → Result (List ℕ) → AdminAuthenticator × Result Cookie
with_token_bytes a now later (err e) = (a, err (message "create admin session"))
with_token_bytes a now later (ok bytes) =
    let token = base64_encode bytes in
    let expires = now + admin_session_ttl in
    (
      record a { sessions = put_session token expires (remove_expired later a.sessions) },
      ok (record { value = token; expires = expires }),
    )

unfoldable pub login :
    Text
    → Text
    → (now later : ℕ) → (random : Result (List ℕ)) → AdminAuthenticator
    → AdminAuthenticator × Result Cookie
unfolding constant_time_equal put_session remove_expired
login username password now later random a =
    if is_empty a.username || is_empty a.password
    then (a, err (message "admin console is not configured"))
    else if not (constant_time_equal username a.username)
        || not (constant_time_equal password a.password)
    then (a, err (message "invalid username or password"))
    else with_token_bytes a now later random

-- From the request's cookie, if it has one.
unfoldable pub logout : Option Text → AdminAuthenticator → AdminAuthenticator
unfolding delete
logout none a = a
logout (some token) a = record a { sessions = delete token a.sessions }

abbrev expires_after : Option ℕ → ℕ → Bool
expires_after none now = false
expires_after (some expires) now = ltb now expires

unfoldable pub valid_session : Text → (now : ℕ) → AdminAuthenticator → AdminAuthenticator × Bool
unfolding remove_expired session
valid_session token now a =
    let m = remove_expired now a.sessions in
    (record a { sessions = m }, expires_after (session token m) now)

-- The handler behind the middleware works on its own state `S`.
module _ {S B : Type 0} (next : Handler S B) where
  abbrev pub after_check : S → AdminAuthenticator × Bool → (AdminAuthenticator × S) × Reply B
  after_check s (a, true) = let (s', r) = next s in ((a, s'), r)
  after_check s (a, false) = ((a, s), failed 401 "admin login required")

  -- `middleware`, from the request's cookie.
  unfoldable pub admin_middleware : Option Text → (now : ℕ) → Handler (AdminAuthenticator × S) B
  unfolding valid_session
  admin_middleware none now (a, s) = ((a, s), failed 401 "admin login required")
  admin_middleware (some token) now (a, s) = after_check s (valid_session token now a)
