-- ===== src/Protocol/SelfCertifying.antt =====
-- Signing and verifying of pkg/protocol together.
use libre_ping.Base.{
  ◌≡◌, sym, ◌∙◌, ◌↔◌, inl, inr, true, some, arith, Option-cases, length, take, Str, Bytes, str_dec,
  get, hex_encode,
}
use libre_ping.Base.Decimal.{hex_encode-injective}
use libre_ping.Base.Lists.{All-take}
use libre_ping.Base.Sorting.{Sorting}
use libre_ping.Identity.{
  Crypto, Identity, node_id, node_id_from_pub, verify, IsKeyPair, verify-sign, pub_key-size,
}
use libre_ping.Protocol.{
  ResultContent, SignedResult, CatalogEntry, SignedCatalogEntry, AlertRule, ok,
}
use libre_ping.Protocol.CheckId.{id_preimage, derive_id, id_preimage-injective}
use libre_ping.Protocol.Verify.{
  Json, sign_result, verify_result, sign_catalog_entry, verify_catalog_entry,
}
use libre_ping.Protocol.Owner.{sign_alert_rule, verify_alert_rule, canonical_alert}

module _ (c : Crypto) (json : Json) where
  -- A result that a well-formed identity signs passes Verify, whatever probe ID it came with.
  pub verify-sign_result :
      (id : Identity) (content : ResultContent) (sr : SignedResult)
      → IsKeyPair c id
      → sign_result c json id content ≡ ok sr
      → verify_result c json sr ≡ ok tt
  unfolding sign_result verify_result node_id
  verify-sign_result id content sr k h =
      elim (Option-cases (json.result (record content { probe_id = node_id c id }))) [
        | inl e ↦ ground arith
        | inr (p, e) ↦ ground (arith, pub_key-size c id k, verify-sign c id p k)
      ]

  -- Verify accepts a result exactly when its key has the right size, its content can be marshalled,
  -- the signature is valid for that payload, and the probe ID is the one derived from the key.
  pub verify_result_iff :
      (sr : SignedResult)
      → (verify_result c json sr ≡ ok tt) ↔ (
          (payload : Bytes) × (length sr.pub_key ≡ 32)
          × (json.result sr.content ≡ some payload)
          × (c.ed25519_verify sr.pub_key payload sr.signature ≡ true)
          × (sr.content.probe_id ≡ hex_encode (take 16 (c.sha256 sr.pub_key))))
  unfolding verify_result verify node_id_from_pub
  verify_result_iff sr = (λ h. ground arith, λ (p, size, e, valid, same). ground arith)

module _ (s : Sorting) (c : Crypto) (json : Json) where
  -- A catalog entry that a well-formed identity signs passes Verify if its spec carries its own
  -- derived ID.
  pub verify-sign_catalog_entry :
      (id : Identity) (entry : CatalogEntry) (sc : SignedCatalogEntry)
      → IsKeyPair c id
      → entry.spec.id ≡ derive_id s c entry.spec
      → sign_catalog_entry c json id entry ≡ ok sc
      → verify_catalog_entry c json s sc ≡ ok tt
  unfolding sign_catalog_entry verify_catalog_entry node_id
  verify-sign_catalog_entry id entry sc k own h =
      elim (Option-cases (json.catalog (record entry { hub_id = node_id c id }))) [
        | inl e ↦ ground arith
        | inr (p, e) ↦ ground (arith, pub_key-size c id k, verify-sign c id p k)
      ]

  verified-id :
      (sc : SignedCatalogEntry)
      → verify_catalog_entry c json s sc ≡ ok tt
      → sc.entry.spec.id ≡ derive_id s c sc.entry.spec
  unfolding verify_catalog_entry
  verified-id sc h = ground arith

  -- Two verified catalog entries with the same check ID have the same target, type and parameters,
  -- unless their two preimages collide under the first eight bytes of SHA-256.
  pub verified_id_names_one_check :
      (a b : SignedCatalogEntry)
      → (take 8 (c.sha256 (id_preimage s a.entry.spec))
            ≡ take 8 (c.sha256 (id_preimage s b.entry.spec))
          → id_preimage s a.entry.spec ≡ id_preimage s b.entry.spec)
      → verify_catalog_entry c json s a ≡ ok tt
      → verify_catalog_entry c json s b ≡ ok tt
      → a.entry.spec.id ≡ b.entry.spec.id
      → (a.entry.spec.check_type ≡ b.entry.spec.check_type)
        × (a.entry.spec.target ≡ b.entry.spec.target)
        × ((k : Str) → get str_dec k a.entry.spec.params ≡ get str_dec k b.entry.spec.params)
  unfolding derive_id
  verified_id_names_one_check a b no_collision va vb same =
      id_preimage-injective s a.entry.spec b.entry.spec (
        no_collision (
          hex_encode-injective _ _ (All-take _ 8 _ (c.sha256-IsByte _))
            (All-take _ 8 _ (c.sha256-IsByte _))
            (sym (verified-id a va) ∙ (same ∙ verified-id b vb))))

  -- An alert rule that a well-formed identity signs passes Verify, whatever owner it came with.
  pub verify-sign_alert_rule :
      (id : Identity) (rule : AlertRule)
      → IsKeyPair c id
      → verify_alert_rule c s (sign_alert_rule c s id rule) ≡ ok tt
  unfolding sign_alert_rule verify_alert_rule node_id
  verify-sign_alert_rule id rule k = ground (
    arith,
    pub_key-size c id k,
    verify-sign c id (canonical_alert s (record rule { owner = node_id c id })) k,
  )
