-- ===== src/Shard/Bounds.antt =====
-- What an untrusted announcement can claim, and which shards a hub takes on, in hub/shard/shard.go.
use libre_ping.Base.{
  ℕ, zero, suc, ◌≤◌, ◌<◌, ◌≡◌, refl, sym, ap, subst, ◌∙◌, ◌≢◌, ◌↔◌, inl, inr, Bool, true, false,
  ◌&&◌, none, some, List, [], ◌∷◌, map, arith, ℕ_discrete, ltb, if◌then◌else◌, Bool-cases,
  Option-cases, length, take, select, In, ℤ, pos, negsuc, leb_ℤ, ◌≤ℤ◌, Str, str_dec, str_eq, get,
  get-put, In-append_left, In-select_of, In-map,
}
use libre_ping.Base.Sorting.{Sorting}
use libre_ping.Base.Float.{Floats}
use libre_ping.Identity.{Crypto}
use libre_ping.Shard.{
  Hub, hub_from, of, parse_hex, holders, is_archive, mentions, assign_all, assign_held,
  assigned_shards, shard_count, max_untrusted_capacity,
}
use libre_ping.Shard.Placement.{is_mirror, holders_lem}

-- An untrusted peer is never an archive. Its weight is its claim cut to the cap, and an archive
-- claim weighs exactly the cap, so no untrusted peer weighs more. A trusted peer passes through.
pub hub_from_bounds :
    (id : Str) (capacity : ℤ) (archive : Bool)
    → ((hub_from id capacity archive false).archive ≡ false)
      × ((hub_from id capacity archive false).capacity ≤ℤ max_untrusted_capacity)
      × ((hub_from id capacity true false).capacity ≡ max_untrusted_capacity)
      × ((hub_from id capacity false false).capacity
          ≡ (if leb_ℤ capacity max_untrusted_capacity then capacity else max_untrusted_capacity))
      × (hub_from id capacity archive true
          ≡ record { id = id; capacity = capacity; archive = archive })
unfolding hub_from
hub_from_bounds id (pos n) archive = (refl, ground arith, ground arith, ground arith, refl)
hub_from_bounds id (negsuc n) archive = (refl, ground arith, ground arith, ground arith, refl)

-- Every check belongs to one of the 64 shards.
pub of-lt : (c : Crypto) (check_id : Str) → of c check_id < shard_count
unfolding of
of-lt c check_id = elim (Bool-cases (ltb (length check_id) 4)) [
  | inl e ↦ rw (e, of) (omega arith)
  | inr e ↦ elim (Option-cases (parse_hex 0 (take 4 check_id))) [
    | inl f ↦ rw (e, f, of) (omega arith)
    | inr (v, f) ↦ rw (e, f, of) (omega arith)
  ]
]

mentions_sound : (self : Str) (ids : List Str) → mentions self ids ≡ true → In self ids
unfolding mentions
mentions_sound self [] h = cc
mentions_sound self (id ∷ ids) h = elim (str_dec id self) [
  | yes e ↦ inl e
  | no ne ↦ inr (mentions_sound self ids (ground arith))
]

mentions_of_In : (self : Str) (ids : List Str) → In self ids → mentions self ids ≡ true
unfolding mentions
mentions_of_In self [] h = elim h [ ]
mentions_of_In self (id ∷ ids) (inl e) = ground arith
mentions_of_In self (id ∷ ids) (inr h) = ground (arith, mentions_of_In self ids h)

get-assign_all : (n m : ℕ) → n < m → get ℕ_discrete n (assign_all m) ≡ some true
unfolding assign_all
get-assign_all n zero h = elim h [ ]
get-assign_all n (suc m) h =
    get-put ℕ_discrete m n true (assign_all m) ∙ ground (arith, get-assign_all n m)

is_archive_sound :
    (self : Str) (hubs : List Hub)
    → is_archive self hubs ≡ true
    → (h : Hub) × In h hubs × (h.id ≡ self) × (h.archive ≡ true)
unfolding is_archive
is_archive_sound self [] e = cc
is_archive_sound self (h ∷ hs) e = elim (Bool-cases (str_eq h.id self && h.archive)) [
  | inl t ↦ (h, inl refl, ground arith, ground arith)
  | inr f ↦
      let (g, i, same, mirror) = is_archive_sound self hs (ground arith) in (g, inr i, same, mirror)
]

module _ (c : Crypto) (fl : Floats) (srt : Sorting) where
  assign_held_above :
      (self : Str) (hubs : List Hub) (k : ℤ) (n m : ℕ)
      → m ≤ n
      → get ℕ_discrete n (assign_held c fl srt self hubs k m) ≡ none
  unfolding assign_held get
  assign_held_above self hubs k n zero h = refl
  assign_held_above self hubs k n (suc m) h = ground (
    arith,
    get-put ℕ_discrete m n true (assign_held c fl srt self hubs k m),
    assign_held_above self hubs k n m,
  )

  get-assign_held :
      (self : Str) (hubs : List Hub) (k : ℤ) (n m : ℕ)
      → n < m
      → get ℕ_discrete n (assign_held c fl srt self hubs k m)
        ≡ (if mentions self (holders c fl srt n hubs k) then some true else none)
  unfolding assign_held
  get-assign_held self hubs k n zero h = elim h [ ]
  get-assign_held self hubs k n (suc m) h = elim (ℕ_discrete m n) [
    | yes e ↦ ground (
      arith,
      get-put ℕ_discrete m n true (assign_held c fl srt self hubs k m),
      assign_held_above self hubs k n m,
      ap (λ x. mentions self (holders c fl srt x hubs k)) e,
    )
    | no ne ↦ ground (
      arith,
      get-put ℕ_discrete m n true (assign_held c fl srt self hubs k m),
      get-assign_held self hubs k n m,
    )
  ]

  -- A hub takes on exactly the shards that it is a holder of.
  pub assigned_shards_iff :
      (self : Str) (hubs : List Hub) (k : ℤ) (n : ℕ)
      → self ≢ []
      → n < shard_count
      → (get ℕ_discrete n (assigned_shards c fl srt self hubs k) ≡ some true)
        ↔ In self (holders c fl srt n hubs k)
  unfolding assigned_shards
  assigned_shards_iff self hubs k n named h = elim (Bool-cases (is_archive self hubs)) [
    | inl mirror ↦ rw mirror (
      λ e.
          let (g, i, same, is) = is_archive_sound self hubs mirror in
          let j : In g.id (map (λ x. x.id) (select is_mirror hubs)) =
            In-map (λ x. x.id) g _ (In-select_of is_mirror g hubs i (ground arith)) in
          subst (In self) (sym (holders_lem c fl srt n hubs k)) (
            In-append_left self _ _
              (subst (λ x. In x (map (λ y. y.id) (select is_mirror hubs))) same j)),
      λ e. get-assign_all n shard_count h,
    )
    | inr ranks ↦
        rw (ranks, get-assign_held self hubs k n shard_count h)
          (λ e. mentions_sound self _ (ground arith), λ i. rw (mentions_of_In self _ i))
  ]
