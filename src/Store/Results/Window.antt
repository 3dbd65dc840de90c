-- ===== src/Store/Results/Window.antt =====
-- The listings of hub/store/store.go: filtered, newest first, then capped.
use libre_ping.Base.{
  ◌≡◌, refl, ap, subst, ◌⊎◌, inl, inr, Bool, true, false, ◌&&◌, List, [], ◌++◌, arith, Bool-cases,
  length, take, drop, select, In, All, ℤ, pos, negsuc, ltb_ℤ, ◌≤ℤ◌, ◌<ℤ◌, Str, str_eq, pos_part,
}
use mathlib.Core.List.{Permᴰ, append-nil}
use mathlib.Core.List.Permᴰ
use libre_ping.Base.Lists.{
  take-append-drop, length-take, All_of, All_map, All_In, In-append, In-append_left, In-select,
  In-select_of,
}
use libre_ping.Base.Sorting.{Sorting, IsOrder, IsSorted, take_before_drop, take-IsSorted, In-perm}
use libre_ping.Protocol.{ResultContent, SignedResult}
use libre_ping.Store.Results.{
  MemStore, newer_first, capped, since_before, recent, filter_since, recent_since_check,
}

newer_first-IsOrder : IsOrder newer_first
newer_first-IsOrder = record { asym = λ a b h. ground arith; le_trans = λ a b c h k. ground arith }

-- `out` is the newest part of `matching`, newest first, at most `limit` of them if it is positive.
pub record IsWindow (limit : ℤ) (matching out : List SignedResult) : Type 0 where
  pub rest : List SignedResult
  -- Together with what is left out, the listing is a rearrangement of what matches.
  pub split : Permᴰ (out ++ rest) matching
  pub sorted : IsSorted newer_first out
  -- Nothing left out is newer than anything listed.
  pub newest : All (λ x. All (λ y. newer_first y x ≡ false) rest) out
  -- Something is left out only where the listing is full.
  pub full : (rest ≡ []) ⊎ ((pos 0 <ℤ limit) × (pos (length out) ≡ limit))

module _ (limit : ℤ) (matching sorted : List SignedResult) (p : Permᴰ sorted matching)
    (s : IsSorted newer_first sorted) where
  whole-IsWindow : IsWindow limit matching sorted
  whole-IsWindow = record {
    rest = [];
    split = rw append-nil p;
    sorted = s;
    newest = All_of _ sorted (λ x i. tt);
    full = inl refl;
  }

  part-IsWindow :
      pos 0 <ℤ limit
      → limit <ℤ pos (length sorted)
      → IsWindow limit matching (take (pos_part limit) sorted)
  part-IsWindow some_limit more = record {
    rest = drop (pos_part limit) sorted;
    split = rw (take-append-drop (pos_part limit) sorted) p;
    sorted = take-IsSorted newer_first (pos_part limit) sorted s;
    newest = take_before_drop newer_first (pos_part limit) sorted s;
    full = inr (some_limit, filled limit some_limit more);
  }
    where
      filled :
          (n : ℤ)
          → pos 0 <ℤ n
          → n <ℤ pos (length sorted)
          → pos (length (take (pos_part n) sorted)) ≡ n
      filled (pos n) h k = ap pos (omega (arith, length-take n sorted))
      filled (negsuc n) h k = absurd (omega arith)

  capped-IsWindow : IsWindow limit matching (capped limit sorted)
  capped-IsWindow = elim (Bool-cases (ltb_ℤ (pos 0) limit && ltb_ℤ limit (pos (length sorted)))) [
    | inl e ↦ rw e (part-IsWindow (ground arith) (ground arith))
    | inr e ↦ rw e whole-IsWindow
  ]

module _ (s : Sorting) where
  listing-IsWindow :
      (limit : ℤ) (matching : List SignedResult)
      → IsWindow limit matching (capped limit (s.sort SignedResult newer_first matching))
  listing-IsWindow limit matching =
      capped-IsWindow limit matching (s.sort SignedResult newer_first matching)
        (s.sort-perm SignedResult newer_first matching)
        (s.sort-IsSorted SignedResult newer_first newer_first-IsOrder matching)

  -- Recent lists the newest stored results, newest first, all of them if `limit` is not positive.
  pub recent-IsWindow : (m : MemStore) (limit : ℤ) → IsWindow limit m.all (recent s m limit)
  unfolding recent
  recent-IsWindow m limit = listing-IsWindow limit m.all

  pub filter_since-IsWindow :
      (m : MemStore) (match : ResultContent → Bool) (since_ms before_ms limit : ℤ)
      → IsWindow limit
          (select (since_before match since_ms before_ms) m.all)
          (filter_since s m match since_ms before_ms limit)
  unfolding filter_since
  filter_since-IsWindow m match since_ms before_ms limit = listing-IsWindow limit _

  -- Every result that RecentSinceCheck lists is a stored one of that check, in the asked window.
  pub recent_since_check_sound :
      (m : MemStore) (check_id : Str) (since_ms before_ms limit : ℤ) (sr : SignedResult)
      → In sr (recent_since_check s m check_id since_ms before_ms limit)
      → In sr m.all
        × (sr.content.check_id ≡ check_id)
        × (since_ms ≤ℤ sr.content.timestamp_ms)
        × ((before_ms ≤ℤ pos 0) ⊎ (sr.content.timestamp_ms <ℤ before_ms))
  unfolding recent_since_check
  recent_since_check_sound m check_id since_ms before_ms limit sr h =
      let w = filter_since-IsWindow m (λ c. str_eq c.check_id check_id) since_ms before_ms limit in
      let i = In-perm sr w.split (In-append_left sr _ w.rest h) in
      let (stored, passes) = In-select _ sr m.all i in
      (stored, ground arith, ground arith, ground arith)

  -- And every stored result of that check in the window is listed, or the listing is full and holds
  -- nothing older than it.
  pub recent_since_check_complete :
      (m : MemStore) (check_id : Str) (since_ms before_ms limit : ℤ) (sr : SignedResult)
      → In sr m.all
      → sr.content.check_id ≡ check_id
      → since_ms ≤ℤ sr.content.timestamp_ms
      → (before_ms ≤ℤ pos 0) ⊎ (sr.content.timestamp_ms <ℤ before_ms)
      → let out = recent_since_check s m check_id since_ms before_ms limit in
        In sr out
        ⊎ ((pos (length out) ≡ limit)
            × All (λ x. sr.content.timestamp_ms ≤ℤ x.content.timestamp_ms) out)
  unfolding recent_since_check
  recent_since_check_complete m check_id since_ms before_ms limit sr stored check since before =
      elim (In-append sr _ w.rest listed) [
        | inl i ↦ inl i
        | inr r ↦ inr (full r, All_map (λ x all. not_newer x (All_In _ sr w.rest all r)) _ w.newest)
      ]
    where
      w :
          IsWindow limit
            (select (since_before (λ c. str_eq c.check_id check_id) since_ms before_ms) m.all)
            (filter_since s m (λ c. str_eq c.check_id check_id) since_ms before_ms limit)
      w = filter_since-IsWindow m (λ c. str_eq c.check_id check_id) since_ms before_ms limit

      passes : since_before (λ c. str_eq c.check_id check_id) since_ms before_ms sr ≡ true
      passes = ground arith

      listed :
          In sr
            (filter_since s m (λ c. str_eq c.check_id check_id) since_ms before_ms limit ++ w.rest)
      listed = In-perm sr (Permᴰ.symm w.split) (In-select_of _ sr m.all stored passes)

      not_newer :
          (x : SignedResult)
          → newer_first sr x ≡ false
          → sr.content.timestamp_ms ≤ℤ x.content.timestamp_ms
      not_newer x h = ground arith

      full :
          In sr w.rest
          → pos
              (length (filter_since s m (λ c. str_eq c.check_id check_id) since_ms before_ms limit))
            ≡ limit
      full r = elim w.full [ inl none_left ↦ absurd (subst (In sr) none_left r) | inr f ↦ f.1 ]
