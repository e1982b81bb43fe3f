-- ===== src/Lib.antt =====
-- The verification library of kd-server, a multi-tenant server of identities and fixed assets in Go.
--
-- A request names its tenant in a header and carries a bearer token. The tenant middleware
-- (internal/http/server.go) checks the token, an API key (internal/store/tenant.go) or an HS256 token
-- (internal/auth/jwt.go), and hands the tenant to a handler. The asset handlers (internal/http/asset.go)
-- call the asset service (internal/services/asset.go), which takes names from the classification
-- (internal/services/classification.go) and keeps assets, links and history in MongoDB
-- (internal/store/asset.go).
--
-- - Common.antt: lists, Boolean tests, Go errors and results; below it Common/Lists.antt and
--   Common/Results.antt.
-- - Text.antt: the functions of Go's strings package on texts as lists of code points; Text/Encode.antt
--   has the hexadecimal and base64 encodings.
-- - Time.antt and Format.antt: `time.Time` in UTC with the layouts used, `strconv.Atoi`, and the padded
--   numbers of fmt, on a signed 64-bit `int`.
-- - Mongo.antt: the MongoDB driver, a parameter. A collection is a record of calls on a state; what the
--   driver's documentation says of them is the record IsMongo in Mongo/Laws.antt, and
--   Mongo/Memory.antt has a collection in memory that meets it.
-- - Database.antt: `Connect`, `EnsureIndexes` and `Close` of internal/store/mongo.go, with the indexes of
--   `defaultIndexSpecs` in Database/Indexes.antt; what they call of the driver is a parameter.
-- - Tenant.antt, Tenant/Slug.antt, Tenant/Keys.antt: internal/store/tenant.go (`ListTenants`,
--   `CreateTenant`, `UpdateTenantName`, `normalizeSlug`, `IssueAPIKey`, `VerifyAPIKey`,
--   `RevokeAPIKey`), and `slugify` of cmd/tui/tenants.go.
-- - Auth.antt: `NewHMACVerifier` and `Verify` of internal/auth/jwt.go; the JWT library is a parameter.
-- - Http.antt and Http/Middleware.antt: replies, and `authMiddleware` of internal/http/server.go.
-- - Http/Routes.antt: the routes of `NewHandler` of internal/http/server.go over any handlers, with the
--   pattern that `http.ServeMux` takes for a clean path; Http/Routes/Served.antt tells which requests a
--   route is for without the table of patterns.
-- - Http/Sessions.antt: internal/http/admin_auth.go; Http/Sessions/Runs.antt has the runs of its calls.
-- - Admin.antt: internal/services/admin.go over the interface `AdminStore`; Admin/Registry.antt has the map
--   from slugs to names that the tenants stand for. Http/Admin.antt: `adminAPIHandler` of
--   internal/http/admin.go.
-- - Document.antt: internal/store/identity_document.go; Document/Service.antt: the checks of
--   internal/services/identity_document.go.
-- - Extraction.antt: `parseIdentityText` of internal/services/document_extraction.go with its helpers;
--   Extraction/Regex.antt has the leftmost match of Go's regexp package for the patterns used.
-- - Ingest.antt, Http/Ingest.antt: `Ingest` of internal/services/ingest.go, `SaveBatch` of
--   internal/store/ingest.go, and the handler of internal/http/ingest.go.
-- - Json.antt: the payloads, as far as `asString` of internal/services/resolve.go reads them.
-- - Person.antt: internal/store/person.go and internal/store/raw.go. Person/Resolve.antt,
--   Person/Review.antt and Person/Lookup.antt: the services of internal/services/resolve.go, review.go
--   and lookup.go. Http/Person.antt: their handlers in internal/http.
-- - Asset.antt, Asset/Store.antt: internal/store/asset_models.go and internal/store/asset.go.
-- - Asset/Number.antt: `GenerateAssetNumber` and `assetNoRegex`.
-- - Asset/Service.antt, Asset/Ingest.antt: `GetAsset`, `TransferAsset`, `DisposeAsset`, and
--   `IngestAssets` with `validateAssetRecord`, of internal/services/asset.go.
-- - Classification.antt: internal/services/classification.go.
-- - Http/Asset.antt, Http/Asset/Handlers.antt: internal/http/asset.go.
--
-- A Go call that may fail is an `Action`: from the state of its collections to the next state and a
-- result. A nil or unconnected store is the field `configured` of a collection. `time.Now()`, new object
-- ids and random bytes are arguments. A `float64` is its bits. Texts are compared by code points; the
-- case tables beyond ASCII, SHA-256 and the format of a `float64` are parameters. Times are UTC, of the
-- years 0 to 9999 where they are printed. `digits` in Format.antt recurses on fuel; a number has fewer
-- digits than its own value plus one, the fuel given.
--
-- The extraction is modelled on code points; where it counts bytes, as for a position in a text in lower
-- case, the two agree on texts whose characters keep their number of bytes in lower case, as ASCII does.
--
-- Not modelled: the HTML pages of the admin console, the recognition of text in images and the table that
-- the recogniser prints; logging, the replies to /v1/version and /v1/healthz, JSON, the start of the
-- server, and the terminal menus, which only call the parts above.
pub mod Admin
pub mod Asset
pub mod Auth
pub mod Classification
pub mod Common
pub mod Database
pub mod Document
pub mod Extraction
pub mod Format
pub mod Http
pub mod Ingest
pub mod Json
pub mod Mongo
pub mod Person
pub mod Samples
pub mod Tenant
pub mod Text
pub mod Time
