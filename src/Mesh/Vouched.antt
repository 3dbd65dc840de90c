-- ===== src/Mesh/Vouched.antt =====
-- The ingest functions of hub/main.go keep what the stores promise.
use libre_ping.Base.{
  ◌≡◌, refl, sym, subst, inl, inr, not, some, [], ◌∷◌, arith, if◌then◌else◌, Bool-cases, split_if,
  Option-cases, All, ℤ, ltb_ℤ, leb_ℤ, add64, Str, str_dec, get, put, del, Every, get-Every,
  put-Every, del-Every, All-append,
}
use libre_ping.Base.Maps.{present}
use libre_ping.Protocol.{
  SignedResult, SignedSubscription, SignedAlertRule, SignedDeliveryState, ok, passes,
}
use libre_ping.Protocol.Verify.{verify_delivery_state}
use libre_ping.Protocol.Owner.{verify_subscription, verify_alert_rule, rule_id}
use libre_ping.Interest.{holds}
use libre_ping.Admit
use libre_ping.Hub.{
  Env, Stores, look, ingest, ingest_delivery, ingest_delivery_of, delivery_clock_skew_ms,
}
use libre_ping.Mesh.Gate.{IsTrusted, passes_ok}
use libre_ping.Store.Results.{MemStore, insert, dedupe_key}
use libre_ping.Store.Results.Dedupe.{insert-IsValid}
use libre_ping.Store.Subscriptions
use libre_ping.Store.Subscriptions.{MemSubscriptions, sub_key}
use libre_ping.Store.Alerts
use libre_ping.Store.Alerts.{MemAlerts, Delivery, get_rule, merge_delivery, deliveries}
use libre_ping.Mesh.Vetted.{IsVetted, IsSubscription, IsRule, IsAuthorised, AreAuthorised, IsSafe}

module _ (e : Env) where
  insert-IsVetted :
      (m : MemStore) (sr : SignedResult)
      → IsVetted e sr
      → All (IsVetted e) m.all
      → All (IsVetted e) (insert m sr).all
  unfolding insert
  insert-IsVetted m sr v h = elim (Option-cases (get str_dec (dedupe_key sr.content) m.seen)) [
    | inl q ↦ rw (q, insert) (All-append (IsVetted e) m.all (sr ∷ []) h (v, tt))
    | inr (u, q) ↦ rw (q, insert) h
  ]

  pub ingest-IsSafe :
      (now : ℤ) (sr : SignedResult) (h : Stores)
      → IsTrusted e sr
      → IsSafe e h
      → IsSafe e (ingest e.crypto now sr h)
  unfolding ingest
  ingest-IsSafe now sr h t s =
      elim (Bool-cases (passes (Admit.result (some (look h.catalog)) sr now))) [
        | inr q ↦ rw (q, ingest) s
        | inl q ↦ elim (Bool-cases (holds e.crypto h.interest sr.content.check_id)) [
          | inr p ↦ rw (q, p, ingest) s
          | inl p ↦
              rw (q, p, ingest)
                (record {
                  results =
                      insert-IsVetted h.results sr
                        (record {
                          trusted = t;
                          at = now;
                          catalog = h.catalog;
                          admitted = passes_ok (Admit.result (some (look h.catalog)) sr now) q;
                        })
                        s.results;
                  valid = insert-IsValid h.results sr s.valid;
                  catalog = s.catalog;
                  subs = s.subs;
                  rules = s.rules;
                  states = s.states;
                })
        ]
      ]

  pub upsert-IsSubscription :
      (m : MemSubscriptions) (ss : SignedSubscription)
      → verify_subscription e.crypto ss ≡ ok tt
      → Every str_dec (IsSubscription e) m.subs
      → Every str_dec (IsSubscription e) (Subscriptions.upsert m ss).subs
  unfolding Subscriptions.upsert
  upsert-IsSubscription m ss v h =
      elim (Option-cases (get str_dec (sub_key ss.subscription) m.subs)) [
        | inl q ↦
            rw (q, Subscriptions.upsert)
              (put-Every str_dec (IsSubscription e) _ ss m.subs (v, refl) h)
        | inr (cur, q) ↦
            elim (Bool-cases (leb_ℤ ss.subscription.updated_ms cur.subscription.updated_ms)) [
              | inl t ↦ rw (q, Subscriptions.upsert, t) h
              | inr f ↦
                  rw (q, Subscriptions.upsert, f)
                    (put-Every str_dec (IsSubscription e) _ ss m.subs (v, refl) h)
            ]
      ]

  -- Both maps of the alert store.
  abbrev AreSafe : MemAlerts → Type 0
  AreSafe m = Every str_dec (IsRule e) m.rules × Every str_dec (AreAuthorised e) m.state

  stored-AreSafe :
      (m : MemAlerts) (sa : SignedAlertRule)
      → verify_alert_rule e.crypto e.sorting sa ≡ ok tt
      → AreSafe m
      → AreSafe (record m {
        rules = put str_dec (rule_id e.crypto sa.rule) sa m.rules;
        state = if sa.rule.deleted then del str_dec (rule_id e.crypto sa.rule) m.state else m.state;
      })
  stored-AreSafe m sa v h = (
    put-Every str_dec (IsRule e) _ sa m.rules (v, refl) h.0,
    split_if (Every str_dec (AreAuthorised e)) sa.rule.deleted
        (λ _. del-Every str_dec (AreAuthorised e) _ m.state h.1) (λ _. h.1),
  )

  pub upsert-AreSafe :
      (m : MemAlerts) (sa : SignedAlertRule)
      → verify_alert_rule e.crypto e.sorting sa ≡ ok tt
      → AreSafe m
      → AreSafe (Alerts.upsert e.crypto m sa)
  unfolding Alerts.upsert
  upsert-AreSafe m sa v h = elim (Option-cases (get str_dec (rule_id e.crypto sa.rule) m.rules)) [
    | inl q ↦ rw (q, Alerts.upsert) (stored-AreSafe m sa v h)
    | inr (cur, q) ↦ elim (Bool-cases (leb_ℤ sa.rule.updated_ms cur.rule.updated_ms)) [
      | inl t ↦ rw (q, Alerts.upsert, t) h
      | inr f ↦ rw (q, Alerts.upsert, f) (stored-AreSafe m sa v h)
    ]
  ]

  deliveries-AreAuthorised :
      (m : MemAlerts) (rid : Str)
      → Every str_dec (AreAuthorised e) m.state
      → AreAuthorised e rid (deliveries m rid)
  deliveries-AreAuthorised m rid h = elim (Option-cases (get str_dec rid m.state)) [
    | inl q ↦ rw (q, deliveries) tt
    | inr (by_hub, q) ↦
        rw (q, deliveries) (get-Every str_dec (AreAuthorised e) rid by_hub m.state h q)
  ]

  merge-AreAuthorised :
      (m : MemAlerts) (rid : Str) (d : Delivery)
      → IsAuthorised e rid d.hub_id d
      → Every str_dec (AreAuthorised e) m.state
      → Every str_dec (AreAuthorised e) (merge_delivery m rid d).0.state
  unfolding merge_delivery
  merge-AreAuthorised m rid d a h =
      let written =
        put-Every str_dec (AreAuthorised e) rid _ m.state
          (put-Every str_dec (IsAuthorised e rid) d.hub_id d (deliveries m rid) a
            (deliveries-AreAuthorised m rid h))
          h in
      elim (Option-cases (get str_dec d.hub_id (deliveries m rid))) [
        | inl q ↦ rw (q, merge_delivery) written
        | inr (cur, q) ↦ elim (Bool-cases (leb_ℤ d.timestamp_ms cur.timestamp_ms)) [
          | inl t ↦ rw (q, merge_delivery, t) h
          | inr f ↦ rw (q, merge_delivery, f) written
        ]
      ]

  rules-merge_delivery :
      (m : MemAlerts) (rid : Str) (d : Delivery) → (merge_delivery m rid d).0.rules ≡ m.rules
  unfolding merge_delivery
  rules-merge_delivery m rid d = ground arith

  pub alerts-IsSafe :
      (h : Stores) (m : MemAlerts) → AreSafe m → IsSafe e h → IsSafe e (record h { alerts = m })
  alerts-IsSafe h m a s = record {
    results = s.results;
    valid = s.valid;
    catalog = s.catalog;
    subs = s.subs;
    rules = a.0;
    states = a.1;
  }

  pub delivery-IsSafe :
      (now : ℤ) (sd : SignedDeliveryState) (h : Stores)
      → verify_delivery_state e.crypto e.json sd ≡ ok tt
      → IsSafe e h
      → IsSafe e (ingest_delivery now sd h)
  unfolding ingest_delivery ingest_delivery_of get_rule
  delivery-IsSafe now sd h v s = elim (Option-cases (get str_dec sd.state.rule_id h.alerts.rules)) [
    | inl q ↦ rw (q, ingest_delivery_of) s
    | inr (rule, q) ↦
        rw (q, ingest_delivery_of)
          (split_if (IsSafe e) (not (present (get str_dec sd.state.hub_id rule.rule.recipients)))
            (λ _. s)
            (λ r.
              split_if (IsSafe e) (ltb_ℤ (add64 now delivery_clock_skew_ms) sd.state.timestamp_ms)
                (λ _. s)
                (λ t.
                  alerts-IsSafe h _
                    (
                      subst (Every str_dec (IsRule e)) (sym (rules-merge_delivery h.alerts _ _))
                          s.rules,
                      merge-AreAuthorised h.alerts sd.state.rule_id _
                          (record {
                            rule = rule;
                            signed = get-Every str_dec (IsRule e) _ rule h.alerts.rules s.rules q;
                            recipient = ground arith;
                            own = refl;
                            at = now;
                            not_ahead = t;
                            state = sd;
                            proof = v;
                            names = (refl, refl);
                            reports = (refl, refl);
                          })
                          s.states,
                    )
                    s)))
  ]
