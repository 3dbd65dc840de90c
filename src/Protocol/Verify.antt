-- ===== src/Protocol/Verify.antt =====
-- Signing and verifying, in pkg/protocol/protocol.go and probe.go. encoding/json is a parameter: a
-- function for each signed type, with no value where json.Marshal fails.
use libre_ping.Base.{Option, none, some, [], ◌==◌, length, Bytes, str_eq}
use libre_ping.Base.Sorting.{Sorting}
use libre_ping.Identity.{Crypto, Identity, node_id, node_id_from_pub, sign, verify, public_key_size}
use libre_ping.Protocol.{
  ResultContent, SignedResult, CatalogEntry, SignedCatalogEntry, HubAnnouncement,
  SignedHubAnnouncement, DeliveryState, SignedDeliveryState, ProbeRegistration,
  SignedProbeRegistration, VerifyError, bad_key, bad_signature, id_mismatch, spec_id_mismatch,
  marshal_error, Result, ok, ◌>>=◌, ◌>>◌, guard, or_fail,
}
use libre_ping.Protocol.CheckId.{derive_id}

-- json.Marshal at the signed types.
pub record Json : Type 0 where
  pub result : ResultContent → Option Bytes
  pub catalog : CatalogEntry → Option Bytes
  pub hub : HubAnnouncement → Option Bytes
  pub delivery : DeliveryState → Option Bytes
  pub registration : ProbeRegistration → Option Bytes

module _ (c : Crypto) (json : Json) where
  unfoldable pub sign_result : Identity → ResultContent → Result VerifyError SignedResult
  sign_result id content = do
    let stamped = record content { probe_id = node_id c id }
    payload ← or_fail (json.result stamped) marshal_error
    ok (record { content = stamped; pub_key = id.pub_key; signature = sign c id payload })

  unfoldable pub verify_result : SignedResult → Result VerifyError (Unit {0})
  verify_result sr = do
    guard (length sr.pub_key == public_key_size) bad_key
    payload ← or_fail (json.result sr.content) marshal_error
    guard (verify c sr.pub_key payload sr.signature) bad_signature
    guard (str_eq sr.content.probe_id (node_id_from_pub c sr.pub_key)) id_mismatch

  unfoldable pub sign_catalog_entry :
      Identity → CatalogEntry → Result VerifyError SignedCatalogEntry
  sign_catalog_entry id entry = do
    let stamped = record entry { hub_id = node_id c id }
    payload ← or_fail (json.catalog stamped) marshal_error
    ok (record { entry = stamped; pub_key = id.pub_key; signature = sign c id payload })

  unfoldable pub verify_catalog_entry : Sorting → SignedCatalogEntry → Result VerifyError (Unit {0})
  verify_catalog_entry s sc = do
    guard (length sc.pub_key == public_key_size) bad_key
    payload ← or_fail (json.catalog sc.entry) marshal_error
    guard (verify c sc.pub_key payload sc.signature) bad_signature
    guard (str_eq sc.entry.hub_id (node_id_from_pub c sc.pub_key)) id_mismatch
    guard (str_eq sc.entry.spec.id (derive_id s c sc.entry.spec)) spec_id_mismatch

  unfoldable pub sign_hub_announcement :
      Identity → HubAnnouncement → Result VerifyError SignedHubAnnouncement
  sign_hub_announcement id a = do
    let stamped = record a { hub_id = node_id c id }
    payload ← or_fail (json.hub stamped) marshal_error
    ok (record { announcement = stamped; pub_key = id.pub_key; signature = sign c id payload })

  unfoldable pub verify_hub_announcement : SignedHubAnnouncement → Result VerifyError (Unit {0})
  verify_hub_announcement sa = do
    guard (length sa.pub_key == public_key_size) bad_key
    payload ← or_fail (json.hub sa.announcement) marshal_error
    guard (verify c sa.pub_key payload sa.signature) bad_signature
    guard (str_eq sa.announcement.hub_id (node_id_from_pub c sa.pub_key)) id_mismatch

  -- The error of json.Marshal is dropped here, so the payload is then empty.
  unfoldable pub sign_delivery_state : Identity → DeliveryState → SignedDeliveryState
  sign_delivery_state id d =
      let stamped : DeliveryState = record d { hub_id = node_id c id } in
      record {
        state = stamped;
        pub_key = id.pub_key;
        signature = sign c id (elim (json.delivery stamped) [ none ↦ [] | some p ↦ p ]);
      }

  unfoldable pub verify_delivery_state : SignedDeliveryState → Result VerifyError (Unit {0})
  verify_delivery_state sd = do
    guard (length sd.pub_key == public_key_size) bad_key
    payload ← or_fail (json.delivery sd.state) marshal_error
    guard (verify c sd.pub_key payload sd.signature) bad_signature
    guard (str_eq sd.state.hub_id (node_id_from_pub c sd.pub_key)) id_mismatch

  unfoldable pub sign_probe_registration :
      Identity → ProbeRegistration → Result VerifyError SignedProbeRegistration
  sign_probe_registration id reg = do
    let stamped = record reg { probe_id = node_id c id }
    payload ← or_fail (json.registration stamped) marshal_error
    ok (record { registration = stamped; pub_key = id.pub_key; signature = sign c id payload })

  unfoldable pub verify_probe_registration : SignedProbeRegistration → Result VerifyError (Unit {0})
  verify_probe_registration sp = do
    guard (length sp.pub_key == public_key_size) bad_key
    payload ← or_fail (json.registration sp.registration) marshal_error
    guard (verify c sp.pub_key payload sp.signature) bad_signature
    guard (str_eq sp.registration.probe_id (node_id_from_pub c sp.pub_key)) id_mismatch
