-- ===== src/Mesh/Vetted.antt =====
-- What a hub's stores hold, whatever the mesh sends.
use libre_ping.Base.{◌≡◌, true, false, some, All, ℤ, ltb_ℤ, add64, Str, str_dec, Map, get, Every}
use libre_ping.Base.Maps.{present}
use libre_ping.Protocol.{
  SignedResult, SignedCatalogEntry, SignedSubscription, SignedAlertRule, SignedDeliveryState, ok,
}
use libre_ping.Protocol.Verify.{verify_catalog_entry, verify_delivery_state}
use libre_ping.Protocol.Owner.{verify_subscription, verify_alert_rule, rule_id}
use libre_ping.Admit
use libre_ping.Hub.{Env, Stores, look, delivery_clock_skew_ms}
use libre_ping.Mesh.Gate.{IsTrusted}
use libre_ping.Store.Results.Dedupe.{IsValid}
use libre_ping.Store.Catalog.{MemCatalog}
use libre_ping.Store.Subscriptions.{sub_key}
use libre_ping.Store.Alerts.{Delivery}

module _ (e : Env) where
  -- Trusted, and admitted at some time against some catalog of the hub.
  pub record IsVetted (sr : SignedResult) : Type 0 where
    pub trusted : IsTrusted e sr
    pub at : ℤ
    pub catalog : MemCatalog
    pub admitted : Admit.result (some (look catalog)) sr at ≡ ok tt

  abbrev pub IsEntry : Str → SignedCatalogEntry → Type 0
  IsEntry k sc =
      (verify_catalog_entry e.crypto e.json e.sorting sc ≡ ok tt) × (sc.entry.spec.id ≡ k)

  abbrev pub IsSubscription : Str → SignedSubscription → Type 0
  IsSubscription k ss = (verify_subscription e.crypto ss ≡ ok tt) × (sub_key ss.subscription ≡ k)

  abbrev pub IsRule : Str → SignedAlertRule → Type 0
  IsRule k sa = (verify_alert_rule e.crypto e.sorting sa ≡ ok tt) × (rule_id e.crypto sa.rule ≡ k)

  -- The hub signed the state, is a recipient of a rule that its owner signed, and was not ahead of
  -- the clock by more than two minutes when the state came in.
  pub record IsAuthorised (rid hub : Str) (d : Delivery) : Type 0 where
    pub rule : SignedAlertRule
    pub signed : IsRule rid rule
    pub recipient : present (get str_dec hub rule.rule.recipients) ≡ true
    pub own : d.hub_id ≡ hub
    pub at : ℤ
    pub not_ahead : ltb_ℤ (add64 at delivery_clock_skew_ms) d.timestamp_ms ≡ false
    pub state : SignedDeliveryState
    pub proof : verify_delivery_state e.crypto e.json state ≡ ok tt
    pub names : (state.state.rule_id ≡ rid) × (state.state.hub_id ≡ hub)
    pub reports : (state.state.status ≡ d.status) × (state.state.timestamp_ms ≡ d.timestamp_ms)

  abbrev pub AreAuthorised : Str → Map Str Delivery → Type 0
  AreAuthorised rid by_hub = Every str_dec (IsAuthorised rid) by_hub

  pub record IsSafe (h : Stores) : Type 0 where
    pub results : All IsVetted h.results.all
    pub valid : IsValid h.results
    pub catalog : Every str_dec IsEntry h.catalog.entries
    pub subs : Every str_dec IsSubscription h.subs.subs
    pub rules : Every str_dec IsRule h.alerts.rules
    pub states : Every str_dec AreAuthorised h.alerts.state
