-- ===== src/Tests/Stores.antt =====
-- The theorems on the stores of hub/store at concrete inputs.
use libre_ping.Base.{
  ◌≡◌, refl, sym, ◌∙◌, ◌↔◌, inl, inr, Bool, true, false, some, [], ◌∷◌, arith, In, ℤ, pos, Str,
  codes, str_dec, get, put,
}
use mathlib.Core.List.{Permᴰ}
use libre_ping.Protocol.{SignedSubscription, SignedAlertRule, status_up, status_down}
use libre_ping.Store.Versioned.{Compatible}
use libre_ping.Store.Subscriptions.{
  MemSubscriptions, new_mem_subscriptions, sub_key, upsert, list_active, expired_sub,
}
use libre_ping.Store.Subscriptions.Replay
use libre_ping.Store.Subscriptions.Replay.{
  upsert_all-perm, replay_refused, upsert_all-monotone, stored,
}
use libre_ping.Store.Subscriptions.Listing.{expired_tombstone_forgotten}
use libre_ping.Store.Alerts.{
  Delivery, MemAlerts, new_mem_alerts, get_rule, get_delivery_by, merge_delivery,
}
use libre_ping.Store.Alerts.Rules
use libre_ping.Store.Alerts.Rules.{
  upsert_rules-perm, rule_replay_refused, get_delivery_by-upsert, is_newer,
}
use libre_ping.Store.Alerts.Deliveries.{merge_delivery_applied, IsBefore}
use libre_ping.Store.Results.{MemStore, new_mem_store, insert, dedupe_key}
use libre_ping.Store.Results.Dedupe.{dedupe_key-injective}
use libre_ping.Tests.{toy, early, late, other}

-- A subscription of one owner and check, at a version.
abbrev sub_at : ℤ → Bool → ℤ → SignedSubscription
sub_at version deleted expiry = record {
  subscription = record {
    owner = codes "o";
    check_id = codes "c1";
    interval_seconds = pos 60;
    expiry_ms = expiry;
    updated_ms = version;
    deleted = deleted;
  };
  pub_key = [];
  signature = [];
}

abbrev created : SignedSubscription
created = sub_at (pos 5) false (pos 0)

abbrev tombstone : SignedSubscription
tombstone = sub_at (pos 9) true (pos 100)

abbrev key : Str
key = codes "o|c1"

abbrev with_tombstone : MemSubscriptions
with_tombstone = record { subs = (key, tombstone) ∷ [] }

Compatible-subs : Compatible Replay.key Replay.version (created ∷ tombstone ∷ [])
Compatible-subs a b (inl i) (inl j) k v = sym i ∙ j
Compatible-subs a b (inl i) (inr (inl j)) k v = absurd cc
Compatible-subs a b (inl i) (inr (inr j)) k v = elim j [ ]
Compatible-subs a b (inr (inl i)) (inl j) k v = absurd cc
Compatible-subs a b (inr (inl i)) (inr (inl j)) k v = sym i ∙ j
Compatible-subs a b (inr (inl i)) (inr (inr j)) k v = elim j [ ]
Compatible-subs a b (inr (inr i)) j k v = elim i [ ]

upsert_all-perm_example :
    stored (Replay.upsert_all new_mem_subscriptions (created ∷ tombstone ∷ [])) key
    ≡ stored (Replay.upsert_all new_mem_subscriptions (tombstone ∷ created ∷ [])) key
upsert_all-perm_example =
    upsert_all-perm new_mem_subscriptions (created ∷ tombstone ∷ []) (tombstone ∷ created ∷ []) key
      (Permᴰ.swap refl refl) Compatible-subs

stored-tombstone : stored with_tombstone key ≡ some tombstone
unfolding get str_dec
stored-tombstone = refl

expired_tombstone_forgotten_example :
    stored (upsert (list_active (pos 200) with_tombstone).0 created) key ≡ some created
unfolding sub_key expired_sub
expired_tombstone_forgotten_example =
    expired_tombstone_forgotten (pos 200) with_tombstone tombstone created ((λ h. h), tt)
      stored-tombstone refl

-- A rule of one owner, check and channel, at a version.
abbrev rule_at : ℤ → Bool → SignedAlertRule
rule_at version deleted = record {
  rule = record {
    owner = codes "o";
    check_id = codes "c1";
    channel = codes "ntfy";
    dest_hash = codes "d";
    recipients = [];
    fail_locations = pos 1;
    for_seconds = pos 0;
    expiry_ms = pos 0;
    updated_ms = version;
    deleted = deleted;
  };
  pub_key = [];
  signature = [];
}

Compatible-rules :
    Compatible (Rules.key toy) Rules.version (rule_at (pos 5) false ∷ rule_at (pos 9) true ∷ [])
Compatible-rules a b (inl i) (inl j) k v = sym i ∙ j
Compatible-rules a b (inl i) (inr (inl j)) k v = absurd cc
Compatible-rules a b (inl i) (inr (inr j)) k v = elim j [ ]
Compatible-rules a b (inr (inl i)) (inl j) k v = absurd cc
Compatible-rules a b (inr (inl i)) (inr (inl j)) k v = sym i ∙ j
Compatible-rules a b (inr (inl i)) (inr (inr j)) k v = elim j [ ]
Compatible-rules a b (inr (inr i)) j k v = elim i [ ]

upsert_rules-perm_example :
    get_rule
      (Rules.upsert_all toy new_mem_alerts (rule_at (pos 5) false ∷ rule_at (pos 9) true ∷ []))
      (codes "r")
    ≡ get_rule
        (Rules.upsert_all toy new_mem_alerts (rule_at (pos 9) true ∷ rule_at (pos 5) false ∷ []))
        (codes "r")
upsert_rules-perm_example =
    upsert_rules-perm toy new_mem_alerts (rule_at (pos 5) false ∷ rule_at (pos 9) true ∷ [])
      (rule_at (pos 9) true ∷ rule_at (pos 5) false ∷ []) (codes "r") (Permᴰ.swap refl refl)
      Compatible-rules

abbrev delivery_at : Str → ℤ → Str → Delivery
delivery_at hub ts status = record { status = status; hub_id = hub; timestamp_ms = ts }

abbrev one_delivery : MemAlerts
one_delivery = record {
  rules = (codes "r", rule_at (pos 5) false) ∷ [];
  state = (codes "r", (codes "h1", delivery_at (codes "h1") (pos 7) status_down) ∷ []) ∷ [];
}

rule_stored : get_rule one_delivery (codes "r") ≡ some (rule_at (pos 5) false)
unfolding get_rule get str_dec
rule_stored = refl

merge_delivery_applied_example :
    ((merge_delivery one_delivery (codes "r") (delivery_at (codes "h1") (pos 9) status_up)).1
      ≡ true)
    ↔ IsBefore (pos 9) (get_delivery_by one_delivery (codes "r") (codes "h1"))
merge_delivery_applied_example =
    merge_delivery_applied one_delivery (codes "r") (delivery_at (codes "h1") (pos 9) status_up)

abbrev three_results : MemStore
three_results = insert (insert (insert new_mem_store early) late) other

dedupe_key-injective_example :
    (early.content.probe_id ≡ early.content.probe_id)
    × (early.content.check_id ≡ early.content.check_id)
    × (early.content.timestamp_ms ≡ early.content.timestamp_ms)
dedupe_key-injective_example =
    dedupe_key-injective early.content early.content ((λ e. omega arith), ((λ e. omega arith), tt))
      ((λ e. omega arith), ((λ e. omega arith), tt)) (omega arith) (omega arith) (λ e. cc) (λ e. cc)
      refl

early_stored : In early three_results.all
unfolding insert dedupe_key get put str_dec
early_stored = inl refl
