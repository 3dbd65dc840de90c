-- ===== src/Shard/Agreement.antt =====
-- Which hubs hold a shard, whatever order they are listed in.
use libre_ping.Base.{
  ℕ, ◌≤◌, ◌≡◌, sym, ap, subst, ◌∙◌, ◌≢◌, ◌⊎◌, inl, inr, true, false, List, [], map, arith,
  Bool-cases, length, take, select, In, ℤ, pos, negsuc, ◌≤ℤ◌, ◌<ℤ◌, Str, In-append, In-append_left,
  In-append_right, In-select, In-select_of, In-take, take_of_length-le, length-map, In-map,
  In-map_inv,
}
use mathlib.Core.List.{Permᴰ}
use mathlib.Core.List.Permᴰ
use libre_ping.Base.Sorting.{Sorting, In-perm, length-perm, select-perm, sorted_unique}
use libre_ping.Base.Float.{Floats}
use libre_ping.Base.Text.{str_le_antisym}
use libre_ping.Identity.{Crypto}
use libre_ping.Shard.{Hub, Scored, ahead, holders}
use libre_ping.Shard.Placement.{
  is_mirror, is_candidate, scored, ranked, places, holders_lem, ahead-IsOrder,
}

module _ (c : Crypto) (fl : Floats) where
  all_taken :
      (srt : Sorting) (s : ℕ) (hubs : List Hub) (k : ℤ)
      → pos (length (select is_candidate hubs)) ≤ℤ k
      → take (places k (length (ranked c fl srt s hubs))) (ranked c fl srt s hubs)
        ≡ ranked c fl srt s hubs
  all_taken srt s hubs k few = take_of_length-le _ (ranked c fl srt s hubs) (enough k few)
    where
      size : length (ranked c fl srt s hubs) ≡ length (select is_candidate hubs)
      size =
          length-perm (srt.sort-perm _ _ _) ∙ length-map (scored c fl s) (select is_candidate hubs)

      enough :
          (n : ℤ)
          → pos (length (select is_candidate hubs)) ≤ℤ n
          → length (ranked c fl srt s hubs) ≤ places n (length (ranked c fl srt s hubs))
      enough (pos n) h = ground (arith, size)
      enough (negsuc n) h = absurd (omega arith)

  ahead_tie : (a b : Scored c fl) → ahead c fl a b ≡ false → ahead c fl b a ≡ false → a.0 ≡ b.0
  ahead_tie a b h k = ground (arith, fl.eq_lem a.1 b.1, fl.eq_lem b.1 a.1, str_le_antisym a.0 b.0)

  -- The hub behind an entry of the ranking.
  ranked_hub :
      (srt : Sorting) (s : ℕ) (hubs : List Hub) (x : Scored c fl)
      → In x (ranked c fl srt s hubs)
      → (h : Hub) × In h hubs × (scored c fl s h ≡ x)
  ranked_hub srt s hubs x i =
      let (h, chosen, e) = In-map_inv (scored c fl s) x _ (In-perm x (srt.sort-perm _ _ _) i) in
      (h, (In-select is_candidate h hubs chosen).0, e)

  ranked-perm :
      (srt : Sorting) (s : ℕ) (hubs others : List Hub)
      → ((a b : Hub) → In a hubs → In b hubs → a.id ≡ b.id → a ≡ b)
      → Permᴰ hubs others
      → ranked c fl srt s hubs ≡ ranked c fl srt s others
  ranked-perm srt s hubs others unique p =
      sorted_unique (ahead c fl) (hlevel (fl.F_set)) (ranked c fl srt s hubs)
        (ranked c fl srt s others) tie (srt.sort-IsSorted _ _ (ahead-IsOrder c fl) _)
        (srt.sort-IsSorted _ _ (ahead-IsOrder c fl) _)
        ∣ Permᴰ.trans (srt.sort-perm _ _ _) (
          Permᴰ.trans (Permᴰ.map (scored c fl s) (select-perm is_candidate p))
            (Permᴰ.symm (srt.sort-perm _ _ _))) ∣₁
    where
      tie :
          (a b : Scored c fl)
          → In a (ranked c fl srt s hubs)
          → In b (ranked c fl srt s hubs)
          → ahead c fl a b ≡ false
          → ahead c fl b a ≡ false
          → a ≡ b
      tie a b i j h k =
          let (g, gi, ge) = ranked_hub srt s hubs a i in
          let (f, fi, fe) = ranked_hub srt s hubs b j in
          let same : g.id ≡ f.id =
            ap (λ x. x.0) ge ∙ (ahead_tie a b h k ∙ sym (ap (λ x. x.0) fe)) in
          sym ge ∙ (ap (scored c fl s) (unique g f gi fi same) ∙ fe)

  abbrev mirror_ids : List Hub → List Str
  mirror_ids hubs = map (λ h. h.id) (select is_mirror hubs)

  abbrev chosen : Sorting → ℕ → List Hub → ℤ → List (Scored c fl)
  chosen srt s hubs k = take (places k (length (ranked c fl srt s hubs))) (ranked c fl srt s hubs)

  abbrev chosen_ids : Sorting → ℕ → List Hub → ℤ → List Str
  chosen_ids srt s hubs k = map (λ e. e.0) (chosen srt s hubs k)

  -- Where the candidates are no more than k, as on a solo hub or in a mesh of at most Replication
  -- storage hubs, every hub that has an ID and is an archive or has capacity holds every shard.
  pub holders_small_mesh :
      (srt : Sorting) (s : ℕ) (hubs : List Hub) (k : ℤ) (h : Hub)
      → pos (length (select is_candidate hubs)) ≤ℤ k
      → In h hubs
      → h.id ≢ []
      → (h.archive ≡ true) ⊎ (pos 0 <ℤ h.capacity)
      → In h.id (holders c fl srt s hubs k)
  holders_small_mesh srt s hubs k h few listed named able =
      rw (holders_lem c fl srt s hubs k) (elim (Bool-cases h.archive) [
        | inl mirror ↦
            In-append_left h.id (mirror_ids hubs) (chosen_ids srt s hubs k)
              (In-map (λ g. g.id) h _ (In-select_of is_mirror h hubs listed (ground arith)))
        | inr ranks ↦ In-append_right h.id (mirror_ids hubs) (chosen_ids srt s hubs k) (
            In-map (λ e. e.0) (scored c fl s h) (chosen srt s hubs k)
              (rw (all_taken srt s hubs k few) (
                In-perm (scored c fl s h) (Permᴰ.symm (srt.sort-perm _ _ _)) (
                  In-map (scored c fl s) h _
                    (In-select_of is_candidate h hubs listed (ground arith))))))
      ])

  -- A holder of any shard is one of the hubs: an archive, or one of positive capacity.
  pub holders_sound :
      (srt : Sorting) (s : ℕ) (hubs : List Hub) (k : ℤ) (id : Str)
      → In id (holders c fl srt s hubs k)
      → (h : Hub) × In h hubs × (h.id ≡ id) × ((h.archive ≡ true) ⊎ (pos 0 <ℤ h.capacity))
  holders_sound srt s hubs k id i =
      elim (In-append id (mirror_ids hubs) (chosen_ids srt s hubs k)
        (subst (In id) (holders_lem c fl srt s hubs k) i)) [
          | inl m ↦
              let (h, in_mirrors, e) = In-map_inv (λ g. g.id) id _ m in
              let (listed, mirror) = In-select is_mirror h hubs in_mirrors in
              (h, listed, e, inl (ground arith))
          | inr r ↦
              let (x, taken, e) = In-map_inv (λ g. g.0) id _ r in
              let ordered = In-take x _ (ranked c fl srt s hubs) taken in
              let (h, in_cands, f) =
                In-map_inv (scored c fl s) x _ (In-perm x (srt.sort-perm _ _ _) ordered) in
              let (listed, candidate) = In-select is_candidate h hubs in_cands in
              (h, listed, ap (λ g. g.0) f ∙ e, inr (ground arith))
        ]

  -- The holders do not depend on the order in which a hub lists the others, if no two hubs of the
  -- list share an ID: two hubs with the same directory place every shard alike.
  pub holders-perm :
      (srt : Sorting) (s : ℕ) (hubs others : List Hub) (k : ℤ)
      → ((a b : Hub) → In a hubs → In b hubs → a.id ≡ b.id → a ≡ b)
      → Permᴰ hubs others
      → Permᴰ (holders c fl srt s hubs k) (holders c fl srt s others k)
  holders-perm srt s hubs others k unique p =
      rw (holders_lem c fl srt s hubs k, holders_lem c fl srt s others k)
        (Permᴰ.trans (Permᴰ.append_right _ (Permᴰ.map (λ g. g.id) (select-perm is_mirror p)))
          (rw (ranked-perm srt s hubs others unique p) (Permᴰ.refl _)))
