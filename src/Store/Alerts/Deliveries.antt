-- ===== src/Store/Alerts/Deliveries.antt =====
-- Delivery states of hub/store/alert.go: each hub's own claim, and the newest of them.
use libre_ping.Base.{
  ◌≡◌, refl, ◌↔◌, ◌⊎◌, inl, inr, true, ◌&&◌, Option, none, some, List, [], ◌∷◌, map, arith,
  if◌then◌else◌, Bool-cases, Option-cases, In, All, ℤ, ltb_ℤ, leb_ℤ, ◌≤ℤ◌, ◌<ℤ◌, Str, str_dec,
  str_eq, Map, get, put, get-put,
}
use libre_ping.Store.Alerts.{
  Delivery, MemAlerts, deliveries, newest_loop, get_delivery, get_delivery_by, merge_delivery,
}

-- The state that a hub holds for a rule after an incoming one: the newer, the old one on a tie.
abbrev pub newer : Delivery → Option Delivery → Delivery
newer d none = d
newer d (some cur) = if leb_ℤ d.timestamp_ms cur.timestamp_ms then cur else d

-- MergeDelivery leaves the newer state for its rule and hub, and the state of every other rule or
-- hub as it was: no hub can shadow another's.
pub get_delivery_by-merge_delivery :
    (m : MemAlerts) (rid rid' hub : Str) (d : Delivery)
    → get_delivery_by (merge_delivery m rid d).0 rid' hub ≡ (
        if str_eq rid rid' && str_eq d.hub_id hub
        then some (newer d (get_delivery_by m rid d.hub_id))
        else get_delivery_by m rid' hub)
unfolding get_delivery_by merge_delivery
get_delivery_by-merge_delivery m rid rid' hub d = ground (
  arith,
  get-put str_dec rid rid' (put str_dec d.hub_id d (deliveries m rid)) m.state,
  get-put str_dec d.hub_id hub d (deliveries m rid),
)

-- No delivery, or one before the time.
abbrev pub IsBefore : ℤ → Option Delivery → Type 0
IsBefore ts none = Unit
IsBefore ts (some d) = d.timestamp_ms <ℤ ts

-- It says that it applied the state exactly if the hub had none for the rule, or an older one.
pub merge_delivery_applied :
    (m : MemAlerts) (rid : Str) (d : Delivery)
    → ((merge_delivery m rid d).1 ≡ true) ↔ IsBefore d.timestamp_ms (get_delivery_by m rid d.hub_id)
unfolding get_delivery_by merge_delivery
merge_delivery_applied m rid d = elim (Option-cases (get str_dec d.hub_id (deliveries m rid))) [
  | inl e ↦ rw e (ground arith)
  | inr (cur, e) ↦ rw e (ground arith)
]

-- The newest of some delivery states, and one of them.
pub record IsNewest (d : Delivery) (ds : List Delivery) : Type 0 where
  pub listed : In d ds
  pub newest : All (λ e. e.timestamp_ms ≤ℤ d.timestamp_ms) ds

abbrev pub states : Map Str Delivery → List Delivery
states = map (λ e. e.1)

newest_loop-some :
    (rest : Map Str Delivery) (n : Delivery)
    → (d : Delivery) × (newest_loop rest (some n) ≡ some d) × IsNewest d (n ∷ states rest)
unfolding newest_loop
newest_loop-some [] n = (n, refl, record { listed = inl refl; newest = (omega arith, tt) })
newest_loop-some ((hub, e) ∷ rest) n = elim (Bool-cases (ltb_ℤ n.timestamp_ms e.timestamp_ms)) [
  | inl lt ↦
      let (d, found, is) = newest_loop-some rest e in
      let below : e.timestamp_ms ≤ℤ d.timestamp_ms = is.newest.0 in
      (d, rw lt found, record { listed = inr is.listed; newest = (ground arith, is.newest) })
  | inr ge ↦
      let (d, found, is) = newest_loop-some rest n in
      let below : n.timestamp_ms ≤ℤ d.timestamp_ms = is.newest.0 in
      (
        d,
        rw ge found,
        record {
          listed = elim is.listed [ inl here ↦ inl here | inr there ↦ inr (inr there) ];
          newest = (below, (ground arith, is.newest.1));
        },
      )
]

-- GetDelivery returns nothing exactly when no hub has a state for the rule, and otherwise a state
-- of the rule that none is newer than.
pub get_delivery-IsNewest :
    (m : MemAlerts) (rid : Str)
    → ((states (deliveries m rid) ≡ []) × (get_delivery m rid ≡ none))
      ⊎ ((d : Delivery) × (get_delivery m rid ≡ some d) × IsNewest d (states (deliveries m rid)))
unfolding get_delivery
get_delivery-IsNewest m rid = go (deliveries m rid)
  where
    go :
        (ds : Map Str Delivery)
        → ((states ds ≡ []) × (newest_loop ds none ≡ none))
          ⊎ ((d : Delivery) × (newest_loop ds none ≡ some d) × IsNewest d (states ds))
    go [] = inl (refl, refl)
    go ((hub, e) ∷ rest) = inr (newest_loop-some rest e)
