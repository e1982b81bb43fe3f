-- ===== src/Http/Ingest.antt =====
-- `ingestHandler` of internal/http/ingest.go.
use kd_server.Common.{
  ℕ, String, Bool, false, ◌||◌, Option, none, some, List, if◌then◌else◌, Result, ok, err, Error,
  message,
}
use kd_server.Text.{Text, codes, same}
use kd_server.Mongo.{Collection}
use kd_server.Json.{Json}
use kd_server.Time.{Time}
use kd_server.Tenant.{ObjectId}
use kd_server.Ingest.{Source, RawRecord, IngestSource, IngestResult, Landing, ingest}
use kd_server.Http.{Reply, failed, failed_with, done, Handler}
use kd_server.Http.Asset.{in_tenant}

pub record IngestRequest : Type 0 where
  pub source : IngestSource
  pub records : List Json

-- `errors.Is(err, target)`, for an error that is not wrapped.
abbrev is_error : String → Error → Bool
is_error text (message m) = same (codes m) (codes text)
is_error text _ = false

-- The answer to an error of the service.
unfoldable pub ingest_error : {B : Type 0} → Error → Reply B
ingest_error e =
    if is_error "services: source slug required" e
      || is_error "services: at least one record required" e
    then failed_with 400 e
    else if is_error "services: tenant required" e
    then failed 500 "tenant missing"
    else failed 500 "ingest failed"

module _ {P R : Type 0} (sources : Collection P Source) (raw : Collection R RawRecord) where
  abbrev reply : Landing P R × Result IngestResult → Landing P R × Reply IngestResult
  reply (s, ok r) = (s, done 200 r)
  reply (s, err e) = (s, ingest_error e)

  abbrev ingest_request :
      (writer : Bool)
      → (now : Time) → (batch : Text) → (ids : ℕ → ObjectId) → Option IngestRequest
      → Text
      → Handler (Landing P R) IngestResult
  ingest_request writer now batch ids none tenant s = (s, failed 400 "invalid payload")
  ingest_request writer now batch ids (some q) tenant s = reply (
      ingest sources raw writer tenant (record { source = q.source; records = q.records }) now batch
        ids s)

  unfoldable pub ingest_handler :
      (writer : Bool)
      → (now : Time) → (batch : Text) → (ids : ℕ → ObjectId) → Option Text
      → Option IngestRequest
      → Handler (Landing P R) IngestResult
  unfolding in_tenant ingest_error
  ingest_handler writer now batch ids context body =
      in_tenant context (ingest_request writer now batch ids body)
