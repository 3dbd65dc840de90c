-- ===== src/Tests/Alerts.antt =====
-- The theorems on hub/alert at concrete inputs.
use libre_ping.Base.{
  ℕ, ◌≡◌, refl, sym, ap, subst, ◌∙◌, ◌≢◌, ◌↔◌, ◌⊎◌, inl, inr, true, false, Option, some, List, [],
  ◌∷◌, arith, In, All, pos, Str, Bytes, codes, str_dec, Map, get,
}
use mathlib.Core.List.{Permᴰ}
use mathlib.Core.List.Permᴰ
use libre_ping.Protocol.{ResultContent, AlertRule, status_down}
use libre_ping.Protocol.Owner.{rule_id}
use libre_ping.Store.Alerts.{new_mem_alerts, get_delivery_by}
use libre_ping.Store.Alerts.Deliveries.{IsBefore}
use libre_ping.Alert.{responsible_among}
use libre_ping.Alert.Winner.{IsWinner, responsible_among_iff, exactly_one_responsible}
use libre_ping.Alert.Observed.{corroborated_status, or_empty}
use libre_ping.Alert.Engine.{Engine, decrypt, deliver, candidates, evaluate_rule}
use libre_ping.Alert.Delivered.{Sent, deliver_changes, quiet_after_delivery, one_hub_acts}
use libre_ping.Tests.{toy, toy_json, alice, early, late}

abbrev hubs : List Str
hubs = codes "h1" ∷ codes "h2" ∷ []

abbrev key : Str
key = codes "rule"

exactly_one_responsible_example :
    (w : Str) × In w hubs × ((v : Str) → (responsible_among toy v hubs key ≡ true) ↔ (v ≡ w))
exactly_one_responsible_example =
    exactly_one_responsible toy key hubs (λ e. cc)
      (λ i. elim i [ inl e ↦ cc | inr j ↦ elim j [ inl e ↦ cc | inr k ↦ k ] ])

responsible_among_iff_example :
    (responsible_among toy (codes "h1") hubs key ≡ true) ↔ IsWinner toy key (codes "h1") hubs
responsible_among_iff_example =
    responsible_among_iff toy key (codes "h1") hubs
      (λ i. elim i [ inl e ↦ cc | inr j ↦ elim j [ inl e ↦ cc | inr k ↦ k ] ])

-- One probe has the check up, another has it down.
abbrev latest : Map Str ResultContent
latest = (codes "p1", early.content) ∷ (codes "p2", late.content) ∷ []

abbrev rule : AlertRule
rule = record {
  owner = codes "o";
  check_id = codes "c1";
  channel = codes "ntfy";
  dest_hash = codes "d";
  recipients = (codes "h1", codes "sealed") ∷ (codes "h2", codes "sealed") ∷ [];
  fail_locations = pos 1;
  for_seconds = pos 0;
  expiry_ms = pos 0;
  updated_ms = pos 5;
  deleted = false;
}

abbrev decode : Str → Option Bytes
decode b64 = some b64

-- An engine whose sends all succeed.
abbrev engine_of : Str → Engine
engine_of self = record {
  id = alice;
  self = self;
  opener = some (λ sealed. some sealed);
  notifiers = λ channel. some (λ n. true);
  gossips = true;
}

deliver_changes_example :
    ((deliver toy toy_json decode
        (engine_of (codes "h1"))
        new_mem_alerts
        rule
        status_down
        latest
        (pos 50)
        (pos 51)).0
      ≡ new_mem_alerts)
    ⊎ Sent toy toy_json decode (engine_of (codes "h1")) rule status_down latest (pos 50)
deliver_changes_example =
    deliver_changes toy toy_json decode (engine_of (codes "h1")) new_mem_alerts rule status_down
      latest (pos 50) (pos 51)

sent : Sent toy toy_json decode (engine_of (codes "h1")) rule status_down latest (pos 50)
unfolding decrypt get str_dec
sent = record {
  notify = λ n. true;
  dest = codes "sealed";
  has_notifier = refl;
  opens = refl;
  accepted = refl;
}

nothing_delivered :
    All
      (λ r. IsBefore (pos 51) (get_delivery_by new_mem_alerts (rule_id toy rule) r.0))
      rule.recipients
unfolding get_delivery_by get
nothing_delivered = (tt, (tt, tt))

still_down :
    corroborated_status
      (or_empty (get str_dec (codes "c1") ((codes "c1", latest) ∷ [])))
      (pos 1)
      (pos 0)
      (pos 60)
    ≡ some status_down
unfolding corroborated_status get str_dec
still_down = refl

quiet_after_delivery_example :
    evaluate_rule toy toy_json decode
      (engine_of (codes "h1"))
      []
      ((codes "c1", latest) ∷ [])
      (pos 60)
      (pos 60, pos 60)
      (deliver toy toy_json decode
        (engine_of (codes "h1"))
        new_mem_alerts
        rule
        status_down
        latest
        (pos 50)
        (pos 51)).0
      rule
    ≡ (
      (deliver toy toy_json decode
          (engine_of (codes "h1"))
          new_mem_alerts
          rule
          status_down
          latest
          (pos 50)
          (pos 51)).0,
      [],
    )
quiet_after_delivery_example =
    quiet_after_delivery toy toy_json decode (engine_of (codes "h1")) new_mem_alerts rule
      status_down latest (pos 50) (pos 51) (pos 60) (pos 60, pos 60) [] ((codes "c1", latest) ∷ [])
      sent nothing_delivered still_down

both_live_1 : candidates toy toy_json decode (engine_of (codes "h1")) (codes "h2" ∷ []) rule ≡ hubs
unfolding str_dec
both_live_1 = refl

both_live_2 : candidates toy toy_json decode (engine_of (codes "h2")) (codes "h1" ∷ []) rule ≡ hubs
unfolding str_dec
both_live_2 = refl

second : Str → ℕ
second [] = 0
second (x ∷ []) = 0
second (x ∷ y ∷ s) = y

apart : codes "h1" ≢ codes "h2"
unfolding second
apart e = let k : 49 ≡ 50 = ap second e in omega (arith, k)

one_hub_acts_example :
    (evaluate_rule toy toy_json decode
        (engine_of (codes "h1"))
        (codes "h2" ∷ [])
        ((codes "c1", latest) ∷ [])
        (pos 60)
        (pos 60, pos 60)
        new_mem_alerts
        rule
      ≡ (new_mem_alerts, []))
    ⊎ (evaluate_rule toy toy_json decode
          (engine_of (codes "h2"))
          (codes "h1" ∷ [])
          ((codes "c1", latest) ∷ [])
          (pos 61)
          (pos 61, pos 61)
          new_mem_alerts
          rule
        ≡ (new_mem_alerts, []))
one_hub_acts_example =
    one_hub_acts toy toy_json decode (engine_of (codes "h1")) (engine_of (codes "h2")) rule
      (codes "h2" ∷ []) (codes "h1" ∷ []) ((codes "c1", latest) ∷ []) ((codes "c1", latest) ∷ [])
      (pos 60) (pos 61) (pos 60, pos 60) (pos 61, pos 61) new_mem_alerts new_mem_alerts apart
      (subst (λ l. ¬ In [] l) (sym both_live_1)
        (λ i. elim i [ inl e ↦ cc | inr j ↦ elim j [ inl e ↦ cc | inr k ↦ k ] ]))
      (subst (Permᴰ _) (both_live_1 ∙ sym both_live_2) (Permᴰ.refl _))
