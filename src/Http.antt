-- ===== src/Http.antt =====
-- internal/http: what a handler answers, and the tenant middleware of server.go.
pub mod Middleware
pub mod Sessions
pub mod Asset
pub mod Ingest
pub mod Person
pub mod Admin
pub mod Routes
use kd_server.Common.{ℕ, String, Error}

-- `writeJSON(w, status, …)`: an error with its text, the text of a Go error, or a payload.
pub data Reply (B : Type 0) : Type 0 where
  failed : ℕ → String → Reply B
  failed_with : ℕ → Error → Reply B
  done : ℕ → B → Reply B

-- A handler, behind the tenant that the middleware put into the context; `S` is the state of the
-- collections and of all that a call may change.
abbrev pub Handler : Type 0 → Type 0 → Type 0
Handler S B = S → S × Reply B
