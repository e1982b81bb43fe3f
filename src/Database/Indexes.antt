-- ===== src/Database/Indexes.antt =====
-- `defaultIndexSpecs` of internal/store/mongo.go: the indexes of each collection.
use kd_server.Common.{String, Bool, true, false, List, [], ◌∷◌}
use kd_server.Format.{ℤ, pos, negsuc}

-- `bson.D` of an index: its fields in their order, 1 for ascending and -1 for descending.
abbrev pub Keys : Type 0
Keys = List (String × ℤ)

pub record IndexModel : Type 0 where
  pub keys : Keys
  pub name : String
  pub unique : Bool

-- The models of one collection.
abbrev pub Spec : Type 0
Spec = String × List IndexModel

abbrev asc : String → String × ℤ
asc field = (field, pos 1)

abbrev desc : String → String × ℤ
desc field = (field, negsuc 0)

abbrev index : String → Keys → IndexModel
index name keys = record { keys = keys; name = name; unique = false }

-- `SetUnique(true)`
abbrev unique_index : String → Keys → IndexModel
unique_index name keys = record { keys = keys; name = name; unique = true }

abbrev people_indexes : List IndexModel
people_indexes =
    unique_index "people_tenant_person" (asc "tenantId" ∷ asc "personId" ∷ [])
    ∷ index "people_tenant_email" (asc "tenantId" ∷ asc "primaryEmail" ∷ [])
    ∷ index "people_tenant_phone" (asc "tenantId" ∷ asc "primaryPhone" ∷ [])
    ∷ []

abbrev links_indexes : List IndexModel
links_indexes =
    unique_index "links_external" (asc "tenantId" ∷ asc "externalId" ∷ asc "source" ∷ [])
    ∷ index "links_person" (asc "tenantId" ∷ asc "personId" ∷ [])
    ∷ []

abbrev sources_indexes : List IndexModel
sources_indexes = unique_index "sources_slug" (asc "tenantId" ∷ asc "slug" ∷ []) ∷ []

abbrev raw_indexes : List IndexModel
raw_indexes =
    index "raw_ingest_batch" (asc "tenantId" ∷ asc "ingestBatch" ∷ [])
    ∷ index "raw_status" (asc "tenantId" ∷ asc "status" ∷ [])
    ∷ []

abbrev identity_documents_indexes : List IndexModel
identity_documents_indexes =
    unique_index "identity_documents_tenant_document" (asc "tenantId" ∷ asc "documentId" ∷ [])
    ∷ index "identity_documents_tenant_person"
        (asc "tenantId" ∷ asc "personId" ∷ desc "updatedAt" ∷ [])
    ∷ index "identity_documents_tenant_national_id" (asc "tenantId" ∷ asc "nationalId" ∷ [])
    ∷ []

abbrev identity_document_history_indexes : List IndexModel
identity_document_history_indexes =
    unique_index "identity_document_history_version"
      (asc "tenantId" ∷ asc "documentId" ∷ desc "version" ∷ [])
    ∷ index "identity_document_history_person"
        (asc "tenantId" ∷ asc "personId" ∷ desc "createdAt" ∷ [])
    ∷ []

abbrev tenants_indexes : List IndexModel
tenants_indexes = unique_index "tenants_slug" (asc "slug" ∷ []) ∷ []

abbrev keys_indexes : List IndexModel
keys_indexes =
    unique_index "keys_tenant_key" (asc "tenantId" ∷ asc "keyId" ∷ [])
    ∷ index "keys_hash" (asc "keyHash" ∷ [])
    ∷ []

abbrev assets_indexes : List IndexModel
assets_indexes =
    unique_index "assets_number" (asc "assetNo" ∷ [])
    ∷ index "assets_tenant_number" (asc "tenantId" ∷ asc "assetNo" ∷ [])
    ∷ index "assets_number_sequence" (
        asc "office"
        ∷ asc "year"
        ∷ asc "categoryNo"
        ∷ asc "typeNumber"
        ∷ desc "serialIncrement"
        ∷ [])
    ∷ index "assets_tenant_office" (asc "tenantId" ∷ asc "office" ∷ [])
    ∷ index "assets_tenant_category" (asc "tenantId" ∷ asc "categoryNo" ∷ [])
    ∷ index "assets_tenant_status" (asc "tenantId" ∷ asc "status" ∷ [])
    ∷ index "assets_tenant_acqdate" (asc "tenantId" ∷ asc "acquisitionDate" ∷ [])
    ∷ []

abbrev asset_links_indexes : List IndexModel
asset_links_indexes =
    index "asset_links_asset" (asc "assetNo" ∷ [])
    ∷ index "asset_links_tenant_asset" (asc "tenantId" ∷ asc "assetNo" ∷ [])
    ∷ index "asset_links_source_external" (asc "source" ∷ asc "externalId" ∷ [])
    ∷ []

abbrev asset_history_indexes : List IndexModel
asset_history_indexes =
    index "asset_history_asset_time" (asc "assetNo" ∷ desc "timestamp" ∷ [])
    ∷ index "asset_history_tenant_event" (asc "tenantId" ∷ asc "eventType" ∷ [])
    ∷ []

-- The map; ranging over it has no order of its own.
abbrev pub default_index_specs : List Spec
default_index_specs =
    ("people", people_indexes)
    ∷ ("links", links_indexes)
    ∷ ("sources", sources_indexes)
    ∷ ("raw", raw_indexes)
    ∷ ("identity_documents", identity_documents_indexes)
    ∷ ("identity_document_history", identity_document_history_indexes)
    ∷ ("tenants", tenants_indexes)
    ∷ ("keys", keys_indexes)
    ∷ ("assets", assets_indexes)
    ∷ ("asset_links", asset_links_indexes)
    ∷ ("asset_history", asset_history_indexes)
    ∷ []
