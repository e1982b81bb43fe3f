-- ===== src/Person/Review/Tests.antt =====
-- A decision on one of the records.
use kd_server.Person.Listing.{Listed}
use kd_server.Common.{◌≤◌, ◌≡◌, refl, true, ◌&&◌, List, [], ◌∷◌, map, length, all, Result, ok}
use kd_server.Text.{Text, codes, same, is_space, trim_space, lower_rune}
use kd_server.Time.{before}
use kd_server.Ingest.{RawRecord}
use kd_server.Format.{pos}
use kd_server.Person.{
  raw_status_needs_review, set_status, is_raw, list_raw_by_status, update_raw_status,
  raw_needs_review,
}
use kd_server.Person.Review.{
  ReviewItem, review_item, object_id_from_hex, decided_status, list_review, decide,
}
use kd_server.Mongo.Memory.{memory, memory-IsMongo}
use kd_server.Samples.{noon, plain_casing}
use kd_server.Person.Samples.{raw_record}
use kd_server.Person.Review.Laws.{list_review-page}
use kd_server.Text.Encode.{hex_encode, hex_decode}

code : Unit {0}
unfolding memory decide list_review raw_needs_review list_raw_by_status update_raw_status is_raw
    set_status decided_status object_id_from_hex hex_decode hex_encode trim_space is_space
    lower_rune before
code = tt

abbrev item_id : Text
item_id = codes "0123456789abcdef01234567"

abbrev items : List RawRecord
items =
    record (raw_record (codes "acme") item_id []) { status = raw_status_needs_review }
    ∷ raw_record (codes "other") item_id []
    ∷ []

abbrev out : List RawRecord × Result (Unit {0})
out = decide memory true (codes "acme") item_id (codes "Accept") noon items

abbrev listed : List RawRecord × Result (List ReviewItem)
listed = list_review memory true (codes "acme") [] (pos 100) items

abbrev shown : List ReviewItem
shown =
    review_item (record (raw_record (codes "acme") item_id []) { status = raw_status_needs_review })
    ∷ []

listed_ok : listed ≡ (items, ok shown)
unfolding code
listed_ok = refl

list_review-page_example :
    (ds : List RawRecord) × (shown ≡ map review_item ds)
    × (all (λ d. same d.tenant_id (codes "acme") && same d.status raw_status_needs_review) ds
        ≡ true)
    × Listed (codes "acme") (codes "needs_review") 100 items ds
    × (length ds ≤ 100)
    × (items ≡ items)
unfolding memory
list_review-page_example =
    list_review-page memory memory-IsMongo true (codes "acme") [] (pos 100) items items shown
      listed_ok
