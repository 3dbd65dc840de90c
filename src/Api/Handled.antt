-- ===== src/Api/Handled.antt =====
-- The handlers of hub/api/server.go that write keep a hub's state sound.
use libre_ping.Base.{
  ◌≡◌, refl, sym, subst, inl, inr, not, ◌||◌, Option, none, some, [], arith, All, ℤ, pos, ◌≤ℤ◌,
  str_dec, str_eq, put-Every, split_if,
}
use libre_ping.Identity.{Identity, IsKeyPair}
use libre_ping.Protocol.{
  CheckSpec, SignedResult, SignedCatalogEntry, SignedSubscription, SignedAlertRule,
  SignedProbeRegistration, ok, passes,
}
use libre_ping.Protocol.Verify.{sign_catalog_entry, verify_catalog_entry, verify_probe_registration}
use libre_ping.Protocol.SelfCertifying.{verify-sign_catalog_entry}
use libre_ping.Hub.{Env}
use libre_ping.Mesh.Gate.{
  passes_ok, Result-cases, handle_result-keeps, handle_catalog-keeps, handle_subscription-keeps,
  handle_alert-keeps,
}
use libre_ping.Mesh.Events.{ingest_at}
use libre_ping.Mesh.Vetted.{IsSafe}
use libre_ping.Mesh.Kept.{ingest_at-Keeps}
use libre_ping.Mesh.Offered.{one}
use libre_ping.Api.{
  Server, Reply, handle_register, handle_submit, handle_subscribe, handle_alert_rule,
  handle_create_check, new_spec, store_check, clamp_capacity, max_declared_capacity, keep_result,
  refuse, bad_request,
}
use libre_ping.Api.Submit.{submit-handle_result}
use libre_ping.Api.Pruned.{stores-IsSound}
use libre_ping.Api.Requests.{
  subscribe-handle_subscription, alert_rule-handle_alert, store_check-handle_catalog,
  new_spec-own_id, IsRegistered, IsSound,
}

module _ (e : Env) where
  clamp_capacity_bounds :
      (n : ℤ) → (pos 0 ≤ℤ clamp_capacity n) × (clamp_capacity n ≤ℤ max_declared_capacity)
  unfolding clamp_capacity
  clamp_capacity_bounds n = (ground arith, ground arith)

  pub register-IsSound :
      (body : Option SignedProbeRegistration) (now : ℤ) (s : Server)
      → IsSound e s
      → IsSound e (handle_register e body now s).server
  unfolding handle_register
  register-IsSound none now s h = h
  register-IsSound (some reg) now s h =
      split_if (λ (r : Reply). (IsSound e) r.server) (str_eq reg.registration.probe_id []) (λ _. h)
        (λ _.
          split_if (λ (r : Reply). (IsSound e) r.server)
            (not (passes (verify_probe_registration e.crypto e.json reg))) (λ _. h)
            (λ v. record {
              stores = h.stores;
              probes =
                  put-Every str_dec (IsRegistered e) _ _ s.probes
                    (record {
                      proof = reg;
                      verified =
                          passes_ok (verify_probe_registration e.crypto e.json reg) (ground arith);
                      named = refl;
                      located = refl;
                      not_negative =
                          (clamp_capacity_bounds reg.registration.max_checks_per_minute).0;
                      capped = (clamp_capacity_bounds reg.registration.max_checks_per_minute).1;
                    })
                    h.probes;
            }))

  probes-submit :
      (body : Option SignedResult) (now : ℤ) (s : Server)
      → (handle_submit e body now s).server.probes ≡ s.probes
  unfolding handle_submit keep_result
  probes-submit none now s = refl
  probes-submit (some sr) now s = ground arith

  stores-submit_none : (now : ℤ) (s : Server) → handle_submit e none now s ≡ refuse bad_request s
  unfolding handle_submit
  stores-submit_none now s = refl

  pub submit-IsSound :
      (body : Option SignedResult) (now : ℤ) (s : Server)
      → IsSound e s
      → IsSound e (handle_submit e body now s).server
  submit-IsSound none now s h = rw (stores-submit_none now s) h
  submit-IsSound (some sr) now s h =
      stores-IsSound e s _ (probes-submit (some sr) now s)
        (subst (IsSafe e) (sym (submit-handle_result e sr now s)) (
          handle_result-keeps e (ingest_at e now) (IsSafe e) (ingest_at-Keeps e now) sr s.stores
            h.stores))
        h

  probes-subscribe :
      (ss : SignedSubscription) (s : Server)
      → (handle_subscribe e (some ss) s).server.probes ≡ s.probes
  unfolding handle_subscribe
  probes-subscribe ss s = ground arith

  pub subscribe-IsSound :
      (body : Option SignedSubscription) (s : Server)
      → IsSound e s
      → IsSound e (handle_subscribe e body s).server
  unfolding handle_subscribe
  subscribe-IsSound none s h = h
  subscribe-IsSound (some ss) s h =
      stores-IsSound e s _ (probes-subscribe ss s)
        (subst (IsSafe e) (sym (subscribe-handle_subscription e ss (pos 0) s)) (
          handle_subscription-keeps e (ingest_at e (pos 0)) (IsSafe e) (ingest_at-Keeps e (pos 0))
            ss s.stores h.stores))
        h

  probes-alert_rule :
      (sa : SignedAlertRule) (s : Server)
      → (handle_alert_rule e (some sa) s).server.probes ≡ s.probes
  unfolding handle_alert_rule
  probes-alert_rule sa s = ground arith

  pub alert_rule-IsSound :
      (body : Option SignedAlertRule) (s : Server)
      → IsSound e s
      → IsSound e (handle_alert_rule e body s).server
  unfolding handle_alert_rule
  alert_rule-IsSound none s h = h
  alert_rule-IsSound (some sa) s h =
      stores-IsSound e s _ (probes-alert_rule sa s)
        (subst (IsSafe e) (sym (alert_rule-handle_alert e sa (pos 0) s)) (
          handle_alert-keeps e (ingest_at e (pos 0)) (IsSafe e) (ingest_at-Keeps e (pos 0)) sa
            s.stores h.stores))
        h

  stored_check-IsSound :
      (sc : SignedCatalogEntry) (s : Server)
      → verify_catalog_entry e.crypto e.json e.sorting sc ≡ ok tt
      → IsSound e s
      → IsSound e (store_check e (ok sc) s).server
  unfolding store_check
  stored_check-IsSound sc s v h =
      stores-IsSound e s _ refl
        (subst (IsSafe e) (sym (store_check-handle_catalog e sc (pos 0) s v)) (
          handle_catalog-keeps e (ingest_at e (pos 0)) (IsSafe e) (ingest_at-Keeps e (pos 0)) sc
            s.stores h.stores))
        h

  signed_check-IsSound :
      (id : Identity) (req : CheckSpec) (s : Server)
      → IsKeyPair e.crypto id
      → IsSound e s
      → (IsSound e)
          (store_check e
            (sign_catalog_entry e.crypto e.json id (record { spec = new_spec e req; hub_id = [] }))
            s).server
  unfolding store_check
  signed_check-IsSound id req s k h =
      elim (Result-cases
        (sign_catalog_entry e.crypto e.json id (record { spec = new_spec e req; hub_id = [] }))) [
          | inl (x, q) ↦ rw (q, store_check) h
          | inr (sc, q) ↦ rw q (
              stored_check-IsSound sc s
                (verify-sign_catalog_entry e.sorting e.crypto e.json id _ sc k
                  (new_spec-own_id e req) q)
                h)
        ]

  pub create_check-IsSound :
      (id : Option Identity) (body : Option CheckSpec) (s : Server)
      → All (IsKeyPair e.crypto) (one id)
      → IsSound e s
      → IsSound e (handle_create_check e id body s).server
  unfolding handle_create_check
  create_check-IsSound none body s k h = h
  create_check-IsSound (some id) none s k h = h
  create_check-IsSound (some id) (some req) s k h =
      split_if (λ (r : Reply). (IsSound e) r.server)
        (str_eq req.target [] || str_eq req.check_type []) (λ _. h)
        (λ _. signed_check-IsSound id req s k.0 h)
