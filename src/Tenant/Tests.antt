-- ===== src/Tenant/Tests.antt =====
-- Tenants and keys on concrete values.
use kd_server.Common.{ℕ, ◌≡◌, refl, ◌≢◌, ◌↔◌, ◌⊎◌, List, [], ◌∷◌, All, Result, ok}
use kd_server.Text.{Text, codes, is_space, trim_space, has_prefix, cut, lower_rune, replace}
use kd_server.Mongo.Memory.{memory, memory-IsMongo}
use kd_server.Samples.{plain_casing, toy_digest, toy_digest-IsSha256, noon}
use kd_server.Text.Encode.{
  hex_digit, base64_digit, hex_encode, hex_decode, base64_encode, IsTokenChar,
}
use kd_server.Tenant.{Tenant, ApiKey, IssuedApiKey, Store}
use kd_server.Tenant.Slug.{
  normalize_slug, IsSlug, is_slug_char, matches_slug_pattern, slugify, normalize_slug-fixed_iff,
  normalize_slug-slugify,
}
use kd_server.Tenant.Keys.{check_record, verify_api_key, revoke_api_key, issue_api_key}
use kd_server.Tenant.Keys.Revoke.{Accepted, verify_api_key-Accepted, verify-revoke}
use kd_server.Tenant.Keys.Issue.{verify-issue, VerifyOutcome}

code : Unit {0}
unfolding issue_api_key verify_api_key check_record revoke_api_key normalize_slug
    matches_slug_pattern is_slug_char memory lower_rune replace trim_space cut has_prefix hex_encode
    hex_decode hex_digit base64_encode base64_digit slugify
code = tt

normalize_tests :
    (normalize_slug (codes "  Acme Co ") ≡ codes "acme-co") × (normalize_slug (codes "a_b") ≡ [])
unfolding code
normalize_tests = (refl, refl)

slugify_test : slugify (codes " Acme & Co. ") ≡ codes "acme--co"
unfolding code
slugify_test = refl

abbrev acme : Tenant
acme = record {
  id = codes "1";
  slug = codes "acme";
  name = codes "ACME";
  created_at = noon;
  updated_at = noon;
}

abbrev store : Store (List Tenant) (List ApiKey)
store = record { tenants = acme ∷ []; keys = [] }

abbrev bytes : List ℕ
bytes =
    1 ∷ 2 ∷ 3 ∷ 4 ∷ 5 ∷ 6 ∷ 7 ∷ 8 ∷ 9 ∷ 10 ∷ 11 ∷ 12 ∷ 13 ∷ 14 ∷ 15 ∷ 16 ∷ 17 ∷ 18 ∷ 19 ∷ 20 ∷ 21
    ∷ 22 ∷ 23 ∷ 250 ∷ []

abbrev secret : Text
secret = codes "key_ab12.AQIDBAUGBwgJCgsMDQ4PEBESExQVFhf6"

abbrev issue : Store (List Tenant) (List ApiKey) × Result IssuedApiKey
issue =
    issue_api_key memory memory (codes "Acme") (codes " laptop ") noon (codes "ab12") (codes "2")
      (ok bytes) store

abbrev issued : IssuedApiKey
issued = record {
  tenant = acme;
  key_id = codes "key_ab12";
  secret = secret;
  label = codes "laptop";
  issued_at = noon;
}

issue_test : issue.1 ≡ ok issued
unfolding code
issue_test = refl

verify_test : (verify_api_key memory (codes "ACME") secret issue.0.keys).1 ≡ ok tt
unfolding code
verify_test = refl

normalize_slug-fixed_iff_example :
    (normalize_slug (codes "acme") ≡ codes "acme") ↔ ((codes "acme" ≡ []) ⊎ IsSlug (codes "acme"))
normalize_slug-fixed_iff_example = normalize_slug-fixed_iff (codes "acme")

normalize_slug-slugify_example :
    normalize_slug (slugify (codes "Acme & Co")) ≡ slugify (codes "Acme & Co")
normalize_slug-slugify_example = normalize_slug-slugify (codes "Acme & Co")

key_chars : All IsTokenChar (codes "ab12")
unfolding is_space
key_chars = ((refl, refl), ((refl, refl), ((refl, refl), ((refl, refl), tt))))

verify-issue_example :
    VerifyOutcome (verify_api_key memory (codes "ACME") issued.secret issue.0.keys)
unfolding code
verify-issue_example =
    verify-issue toy_digest-IsSha256 memory memory memory-IsMongo memory-IsMongo (codes "Acme")
      (codes " laptop ") (codes "ACME") noon (codes "ab12") (codes "2") bytes store issued refl
      issue_test key_chars refl (tt, tt) refl

abbrev revoke : List ApiKey × Result (Unit {0})
revoke = revoke_api_key memory (codes "acme") (codes "key_ab12") noon issue.0.keys

verify-revoke_example : (verify_api_key memory (codes "Acme") secret revoke.0).1 ≢ ok tt
unfolding code
verify-revoke_example =
    verify-revoke memory memory-IsMongo (codes "acme") (codes "key_ab12") noon issue.0.keys
      (codes "Acme") (codes "AQIDBAUGBwgJCgsMDQ4PEBESExQVFhf6") secret refl (tt, tt) refl refl

verify_api_key-Accepted_example : Accepted issue.0.keys (codes "ACME") secret
unfolding code
verify_api_key-Accepted_example =
    verify_api_key-Accepted memory memory-IsMongo (codes "ACME") secret issue.0.keys verify_test
