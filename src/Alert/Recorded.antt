-- ===== src/Alert/Recorded.antt =====
-- Which delivery of hub/alert/alert.go counts for a rule once a new one has been recorded.
use libre_ping.Base.{
  ◌≡◌, refl, sym, ap, subst, ◌∙◌, ◌⊎◌, inl, inr, Option, none, some, [], ◌∷◌, map, arith,
  Bool-cases, In, All, ltb_ℤ, Str, str_dec, Map, All_In, All_map, In-map_inv,
}
use libre_ping.Store.Alerts.{Delivery, MemAlerts, get_delivery_by, merge_delivery}
use libre_ping.Store.Alerts.Deliveries.{get_delivery_by-merge_delivery, newer, IsBefore}
use libre_ping.Alert.Engine.{newer_of, delivered_loop}

delivered_kept :
    (m : MemAlerts) (rid : Str) (rs : Map Str Str) (d : Delivery)
    → All
        (λ r.
          (get_delivery_by m rid r.0 ≡ some d)
          ⊎ IsBefore d.timestamp_ms (get_delivery_by m rid r.0))
        rs
    → delivered_loop m rid rs (some d) ≡ some d
unfolding delivered_loop
delivered_kept m rid [] d h = refl
delivered_kept m rid ((hub, x) ∷ rs) d h =
    ap (delivered_loop m rid rs) (keep (get_delivery_by m rid hub) h.0)
    ∙ delivered_kept m rid rs d h.1
  where
    keep :
        (o : Option Delivery)
        → (o ≡ some d) ⊎ IsBefore d.timestamp_ms o
        → newer_of (some d) o ≡ some d
    keep none h = refl
    keep (some x) (inl e) = ground arith
    keep (some x) (inr lt) = ground arith

-- Every recipient's delivery is this one, or before it.
abbrev LeadsTo : MemAlerts → Str → Delivery → Map Str Str → Type 0
LeadsTo m rid d rs =
    All
      (λ r.
        (get_delivery_by m rid r.0 ≡ some d) ⊎ IsBefore d.timestamp_ms (get_delivery_by m rid r.0))
      rs

delivered_taken :
    (m : MemAlerts) (rid k x : Str) (rs : Map Str Str) (d : Delivery) (o : Option Delivery)
    → LeadsTo m rid d rs
    → get_delivery_by m rid k ≡ some d
    → IsBefore d.timestamp_ms o
    → delivered_loop m rid ((k, x) ∷ rs) o ≡ some d
unfolding delivered_loop
delivered_taken m rid k x rs d o h q old =
    ap (delivered_loop m rid rs) (ap (newer_of o) q ∙ take_new o old) ∙ delivered_kept m rid rs d h
  where
    take_new : (o : Option Delivery) → IsBefore d.timestamp_ms o → newer_of o (some d) ≡ some d
    take_new none h = refl
    take_new (some y) lt = ground arith

delivered_found :
    (m : MemAlerts) (rid hub : Str) (rs : Map Str Str) (d : Delivery) (o : Option Delivery)
    → LeadsTo m rid d rs
    → get_delivery_by m rid hub ≡ some d
    → In hub (map (λ r. r.0) rs)
    → IsBefore d.timestamp_ms o
    → delivered_loop m rid rs o ≡ some d
unfolding delivered_loop
delivered_found m rid hub [] d o h own i old = elim i [ ]
delivered_found m rid hub ((k, x) ∷ rs) d o h own (inl e) old =
    delivered_taken m rid k x rs d o h.1 (ap (get_delivery_by m rid) e ∙ own) old
delivered_found m rid hub ((k, x) ∷ rs) d o h own (inr i) old = elim h.0 [
  | inl q ↦ delivered_taken m rid k x rs d o h.1 q old
  | inr lt ↦ delivered_found m rid hub rs d _ h.1 own i (both o (get_delivery_by m rid k) old lt)
]
  where
    both :
        (o p : Option Delivery)
        → IsBefore d.timestamp_ms o
        → IsBefore d.timestamp_ms p
        → IsBefore d.timestamp_ms (newer_of o p)
    both o none f g = f
    both none (some p) f g = g
    both (some o) (some p) f g = elim (Bool-cases (ltb_ℤ o.timestamp_ms p.timestamp_ms)) [
      | inl t ↦ rw t g
      | inr t ↦ rw t f
    ]

-- The states of a rule after a new delivery of one of its recipients.
module _ (m : MemAlerts) (rid : Str) (d : Delivery) (rs : Map Str Str) where
  merged_own :
      IsBefore d.timestamp_ms (get_delivery_by m rid d.hub_id)
      → get_delivery_by (merge_delivery m rid d).0 rid d.hub_id ≡ some d
  merged_own old =
      get_delivery_by-merge_delivery m rid rid d.hub_id d
      ∙ ground (arith, newest (get_delivery_by m rid d.hub_id) old)
    where
      newest : (o : Option Delivery) → IsBefore d.timestamp_ms o → newer d o ≡ d
      newest none h = refl
      newest (some x) lt = ground arith

  merged_leads :
      (r : Str)
      → get_delivery_by (merge_delivery m rid d).0 rid d.hub_id ≡ some d
      → IsBefore d.timestamp_ms (get_delivery_by m rid r)
      → (get_delivery_by (merge_delivery m rid d).0 rid r ≡ some d)
        ⊎ IsBefore d.timestamp_ms (get_delivery_by (merge_delivery m rid d).0 rid r)
  merged_leads r own old = elim (str_dec d.hub_id r) [
    | yes p ↦ inl (ap (get_delivery_by (merge_delivery m rid d).0 rid) (sym p) ∙ own)
    | no p ↦
        let same : get_delivery_by (merge_delivery m rid d).0 rid r ≡ get_delivery_by m rid r =
          get_delivery_by-merge_delivery m rid rid r d ∙ ground arith in
        inr (subst (IsBefore d.timestamp_ms) (sym same) old)
  ]

  pub merged_delivered :
      In d.hub_id (map (λ r. r.0) rs)
      → All (λ r. IsBefore d.timestamp_ms (get_delivery_by m rid r.0)) rs
      → delivered_loop (merge_delivery m rid d).0 rid rs none ≡ some d
  merged_delivered i older =
      let (r, listed, same) = In-map_inv (λ r. r.0) d.hub_id rs i in
      let own = merged_own (
        subst (λ k. IsBefore d.timestamp_ms (get_delivery_by m rid k)) same
          (All_In (λ r. IsBefore d.timestamp_ms (get_delivery_by m rid r.0)) r rs older listed)) in
      delivered_found (merge_delivery m rid d).0 rid d.hub_id rs d none
        (All_map (λ r h. merged_leads r.0 own h) rs older) own i tt
