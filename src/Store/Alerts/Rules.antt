-- ===== src/Store/Alerts/Rules.antt =====
-- Rule updates of hub/store/alert.go.
use libre_ping.Base.{
  ◌≡◌, refl, sym, ap, ◌∙◌, Bool, true, not, ◌&&◌, none, some, List, [], ◌∷◌, arith, if◌then◌else◌,
  All, ℤ, leb_ℤ, ◌≤ℤ◌, Str, str_dec, str_eq, get, get-del,
}
use mathlib.Core.List.{Permᴰ}
use libre_ping.Identity.{Crypto}
use libre_ping.Protocol.{SignedAlertRule}
use libre_ping.Protocol.Owner.{rule_id}
use libre_ping.Store.Versioned
use libre_ping.Store.Alerts.{Delivery, MemAlerts, upsert, get_rule, get_delivery_by}

module _ (c : Crypto) where
  abbrev pub key : SignedAlertRule → Str
  key sa = rule_id c sa.rule

  -- The rules of a history of deliveries, applied in turn.
  unfoldable pub upsert_all : MemAlerts → List SignedAlertRule → MemAlerts
  upsert_all m [] = m
  upsert_all m (sa ∷ rest) = upsert_all (upsert c m sa) rest

abbrev pub version : SignedAlertRule → ℤ
version sa = sa.rule.updated_ms

-- Whether Upsert takes the rule: none is stored under its ID, or an older one.
abbrev pub is_newer : Crypto → MemAlerts → SignedAlertRule → Bool
is_newer c m sa = elim (get str_dec (key c sa) m.rules) [
  | none ↦ true
  | some cur ↦ not (leb_ℤ (version sa) (version cur))
]

get-nil : (hub : Str) → get {V = Delivery} str_dec hub [] ≡ none
unfolding get
get-nil hub = refl

module _ (c : Crypto) where
  upsert_lem :
      (m : MemAlerts) (sa : SignedAlertRule)
      → (upsert c m sa).rules ≡ Versioned.upsert (key c) version m.rules sa
  unfolding upsert Versioned.upsert
  upsert_lem m sa = ground arith

  upsert_all_lem :
      (m : MemAlerts) (rs : List SignedAlertRule)
      → (upsert_all c m rs).rules ≡ Versioned.merge (key c) version m.rules rs
  unfolding upsert_all Versioned.merge
  upsert_all_lem m [] = refl
  upsert_all_lem m (r ∷ rs) =
      upsert_all_lem (upsert c m r) rs
      ∙ ap (λ s. Versioned.merge (key c) version s rs) (upsert_lem m r)

  -- Two hubs that start from the same store and receive the same alert rules in any order hold the
  -- same rule under every ID, if no two of the rules share ID and version.
  pub upsert_rules-perm :
      (m : MemAlerts) (rs ss : List SignedAlertRule) (rid : Str)
      → Permᴰ rs ss
      → Versioned.Compatible (key c) version rs
      → get_rule (upsert_all c m rs) rid ≡ get_rule (upsert_all c m ss) rid
  unfolding get_rule
  upsert_rules-perm m rs ss rid p h =
      ap (get str_dec rid) (upsert_all_lem m rs)
      ∙ (Versioned.merge-perm (key c) version rid m.rules p h
          ∙ sym (ap (get str_dec rid) (upsert_all_lem m ss)))

  -- A stored alert rule, such as a tombstone, stays as it is through any history of rules with its
  -- ID that are not newer.
  pub rule_replay_refused :
      (m : MemAlerts) (rs : List SignedAlertRule) (rid : Str) (cur : SignedAlertRule)
      → get_rule m rid ≡ some cur
      → All (λ r. key c r ≡ rid → version r ≤ℤ version cur) rs
      → get_rule (upsert_all c m rs) rid ≡ some cur
  unfolding get_rule
  rule_replay_refused m rs rid cur h old =
      ap (get str_dec rid) (upsert_all_lem m rs)
      ∙ Versioned.merge_old (key c) version rid m.rules rs cur h old

  -- Upsert touches delivery states only by an accepted tombstone: that drops the states of its own
  -- rule. Every other rule keeps its states, and so does a rule whose update is stale or no tombstone.
  pub get_delivery_by-upsert :
      (m : MemAlerts) (sa : SignedAlertRule) (rid hub : Str)
      → get_delivery_by (upsert c m sa) rid hub ≡ (
          if str_eq (key c sa) rid && (sa.rule.deleted && is_newer c m sa)
          then none
          else get_delivery_by m rid hub)
  unfolding upsert get_delivery_by
  get_delivery_by-upsert m sa rid hub =
      ground (arith, get-del str_dec (key c sa) rid m.state, get-nil hub)
