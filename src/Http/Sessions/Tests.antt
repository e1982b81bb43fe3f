-- ===== src/Http/Sessions/Tests.antt =====
-- A login, and what comes behind it.
use kd_server.Common.{ℕ, ◌<◌, ◌≡◌, refl, true, some, List, [], ◌∷◌, ◌++◌, arith, ok}
use kd_server.Text.{codes, is_space, trim_space}
use kd_server.Text.Encode.{base64_encode, base64_digit}
use kd_server.Http.Sessions.{
  AdminAuthenticator, Cookie, session, delete, put_session, remove_expired, constant_time_equal,
  login, logout, valid_session, new_admin_authenticator,
}
use kd_server.Http.Sessions.Runs.{Event, logs_in, logs_out, checks, run}
use kd_server.Http.Sessions.Opened.{Opened, valid_session-Opened}
use kd_server.Http.Sessions.Lifetime.{login-valid_session}

code : Unit {0}
unfolding login logout valid_session new_admin_authenticator put_session delete remove_expired
    session constant_time_equal base64_encode base64_digit trim_space is_space
code = tt

abbrev fresh : AdminAuthenticator
fresh = record { username = codes "root"; password = codes "pw"; sessions = [] }

abbrev cookie : Cookie
cookie = record { value = codes "AQID"; expires = 28800000000005 }

abbrev history : List Event
history =
    checks (codes "AQID") 100
    ∷ logs_in (codes "root") (codes "no") 7 7 (ok (9 ∷ []))
    ∷ logs_out (some (codes "x"))
    ∷ []

-- The same, with the login at its start.
abbrev whole : List Event
whole = history ++ logs_in (codes "root") (codes "pw") 5 6 (ok (1 ∷ 2 ∷ 3 ∷ [])) ∷ []

login-valid_session_example :
    (valid_session cookie.value 200
      (run history (login (codes "root") (codes "pw") 5 6 (ok (1 ∷ 2 ∷ 3 ∷ [])) fresh).0)).1
    ≡ true
unfolding code
login-valid_session_example =
    login-valid_session (codes "root") (codes "pw") 5 6 (ok (1 ∷ 2 ∷ 3 ∷ [])) fresh cookie refl
      history refl 200 (omega arith)

valid_session-Opened_example :
    (x : ℕ) × Opened (trim_space (codes " root ")) (codes "pw") (codes "AQID") x whole × (200 < x)
unfolding code
valid_session-Opened_example =
    valid_session-Opened (codes " root ") (codes "pw") whole (codes "AQID") 200 refl
