-- ===== src/Tests/Records.antt =====
-- The theorems on the signed records of pkg/protocol at concrete inputs.
use libre_ping.Base.{
  ◌≡◌, refl, ◌↔◌, true, false, some, [], ◌∷◌, ◌++◌, length, take, pos, Str, Bytes, codes, str_dec,
  str_lt, Map, get, hex_encode,
}
use libre_ping.Base.Sorting.{insertion}
use libre_ping.Identity.{node_id, sign}
use libre_ping.Protocol.{SignedResult, SignedCatalogEntry, CatalogEntry, AlertRule, ok}
use libre_ping.Protocol.CheckId.{id_preimage, derive_id, id_preimage-injective}
use libre_ping.Protocol.Verify.{
  sign_result, verify_result, verify_catalog_entry, sign_catalog_entry,
}
use libre_ping.Protocol.SelfCertifying.{
  verify-sign_result, verify_result_iff, verify-sign_catalog_entry, verified_id_names_one_check,
}
use libre_ping.Tests.{toy, toy_json, alice, early, spec_with}

abbrev two_params : Map Str Str
two_params = (codes "method", codes "GET") ∷ (codes "body", codes "x") ∷ []

abbrev swapped_params : Map Str Str
swapped_params = (codes "body", codes "x") ∷ (codes "method", codes "GET") ∷ []

same_preimage :
    id_preimage insertion (spec_with two_params) ≡ id_preimage insertion (spec_with swapped_params)
unfolding id_preimage insertion get str_lt str_dec
same_preimage = refl

id_preimage-injective_example :
    ((spec_with two_params).check_type ≡ (spec_with swapped_params).check_type)
    × ((spec_with two_params).target ≡ (spec_with swapped_params).target)
    × ((k : Str) → get str_dec k two_params ≡ get str_dec k swapped_params)
id_preimage-injective_example =
    id_preimage-injective insertion (spec_with two_params) (spec_with swapped_params) same_preimage

verify_result_iff_example : (verify_result toy toy_json early ≡ ok tt) ↔ (
    (payload : Bytes) × (length early.pub_key ≡ 32)
    × (toy_json.result early.content ≡ some payload)
    × (toy.ed25519_verify early.pub_key payload early.signature ≡ true)
    × (early.content.probe_id ≡ hex_encode (take 16 (toy.sha256 early.pub_key))))
verify_result_iff_example = verify_result_iff toy toy_json early

abbrev pub signed : SignedResult
signed = record {
  content = record early.content { probe_id = node_id toy alice };
  pub_key = alice.pub_key;
  signature = alice.pub_key ++ (early.content.check_id ++ node_id toy alice);
}

pub signed_lem : sign_result toy toy_json alice early.content ≡ ok signed
unfolding sign_result sign toy
signed_lem = refl

verify-sign_result_example : verify_result toy toy_json signed ≡ ok tt
verify-sign_result_example =
    verify-sign_result toy toy_json alice early.content signed refl signed_lem

abbrev rule : AlertRule
rule = record {
  owner = [];
  check_id = codes "c1";
  channel = codes "ntfy";
  dest_hash = codes "d";
  recipients = (codes "h1", codes "sealed") ∷ [];
  fail_locations = pos 1;
  for_seconds = pos 0;
  expiry_ms = pos 0;
  updated_ms = pos 5;
  deleted = false;
}

-- A catalog entry whose spec carries its derived ID.
abbrev pub entry : CatalogEntry
entry = record {
  spec = record (spec_with two_params) { id = derive_id insertion toy (spec_with two_params) };
  hub_id = node_id toy alice;
}

abbrev pub signed_entry : SignedCatalogEntry
signed_entry = record {
  entry = entry;
  pub_key = alice.pub_key;
  signature = alice.pub_key ++ (entry.hub_id ++ entry.spec.target);
}

pub signed_entry_lem : sign_catalog_entry toy toy_json alice entry ≡ ok signed_entry
unfolding sign_catalog_entry sign toy
signed_entry_lem = refl

own_id : entry.spec.id ≡ derive_id insertion toy entry.spec
unfolding derive_id id_preimage
own_id = refl

verify-sign_catalog_entry_example : verify_catalog_entry toy toy_json insertion signed_entry ≡ ok tt
verify-sign_catalog_entry_example =
    verify-sign_catalog_entry insertion toy toy_json alice entry signed_entry refl own_id
      signed_entry_lem

verified_id_names_one_check_example :
    (entry.spec.check_type ≡ entry.spec.check_type)
    × (entry.spec.target ≡ entry.spec.target)
    × ((k : Str) → get str_dec k entry.spec.params ≡ get str_dec k entry.spec.params)
verified_id_names_one_check_example =
    verified_id_names_one_check insertion toy toy_json signed_entry signed_entry (λ e. refl)
      verify-sign_catalog_entry_example verify-sign_catalog_entry_example refl
