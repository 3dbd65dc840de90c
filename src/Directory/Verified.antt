-- ===== src/Directory/Verified.antt =====
-- The announcements that hub/directory/directory.go lists, and the checks that confirmed them.
use libre_ping.Base.{
  is_member, ◌≡◌, refl, sym, subst, ◌⊎◌, inl, inr, Bool, true, false, ◌&&◌, ◌||◌, List, [], ◌∷◌,
  map, arith, Bool-cases, Option-cases, eqb_iff, select, All, ℤ, ltb_ℤ, ◌-ℤ◌, Str, str_dec, str_eq,
  Map, get, put, All_map, All-append, Every, get-Every, put-Every, del-Every,
}
use libre_ping.Base.Sorting.{Sorting, All-perm}
use mathlib.Core.List.Permᴰ
use libre_ping.Protocol.{HubAnnouncement}
use libre_ping.Directory.{
  Directory, Entry, add, refreshed, judged, loop_top, loop_reply, list, list_loop, active_within,
  newest_first, settled,
}
use libre_ping.Directory.Steps.{World, announce, top, reply, listed, Reachable, fresh, step}

-- Add leaves the entries, or gives its hub a refreshed one.
pub entries-add :
    (ann : HubAnnouncement) (now : ℤ) (d : Directory)
    → ((add ann now d).0.entries ≡ d.entries)
      ⊎ ((add ann now d).0.entries
          ≡ put str_dec ann.hub_id (refreshed ann now (get str_dec ann.hub_id d.entries)) d.entries)
unfolding add
entries-add ann now d =
    elim (Bool-cases (str_eq ann.hub_id d.self_id || str_eq ann.public_url [])) [
      | inl t ↦ rw t (inl refl)
      | inr f ↦
          elim (Bool-cases
            (settled (refreshed ann now (get str_dec ann.hub_id d.entries)) ann.public_url)) [
              | inl t ↦ rw (f, t) (inr refl)
              | inr g ↦ elim (Bool-cases (is_member (get str_dec ann.hub_id d.verifying))) [
                | inl t ↦ rw (f, g, t) (inr refl)
                | inr k ↦ rw (f, g, k) (inr refl)
              ]
            ]
    ]

module _ (Passed : Str → Str → Type 0) where
  -- An announcement by the hub itself, at a URL that a check has confirmed to be this hub's.
  abbrev pub IsConfirmed : Str → HubAnnouncement → Type 0
  IsConfirmed id ann = (ann.hub_id ≡ id) × Passed ann.public_url id

  abbrev pub IsSound : Str → Entry → Type 0
  IsSound id e = (e.pending_ann.hub_id ≡ id) × (e.verified ≡ true → IsConfirmed id e.verified_ann)

  abbrev pub IsSafe : Directory → Type 0
  IsSafe d = Every str_dec IsSound d.entries

  refreshed-IsSound :
      (ann : HubAnnouncement) (now : ℤ) (d : Directory)
      → IsSafe d
      → IsSound ann.hub_id (refreshed ann now (get str_dec ann.hub_id d.entries))
  refreshed-IsSound ann now d h = elim (Option-cases (get str_dec ann.hub_id d.entries)) [
    | inl e ↦ rw e (refl, λ f. absurd cc)
    | inr (e, q) ↦ rw q (refl, (get-Every str_dec IsSound ann.hub_id e d.entries h q).1)
  ]

  add-IsSafe :
      (ann : HubAnnouncement) (now : ℤ) (d : Directory) → IsSafe d → IsSafe (add ann now d).0
  add-IsSafe ann now d h = elim (entries-add ann now d) [
    | inl q ↦ rw q h
    | inr q ↦
        rw q (put-Every str_dec IsSound ann.hub_id _ d.entries (refreshed-IsSound ann now d h) h)
  ]

  judged-IsSound :
      (id url : Str) (answer : Bool) (e : Entry)
      → (answer ≡ true → Passed url id)
      → e.pending_ann.public_url ≡ url
      → IsSound id e
      → IsSound id (judged url answer e)
  judged-IsSound id url true e p q h = (h.0, λ t. (h.0, subst (λ u. Passed u id) (sym q) (p refl)))
  judged-IsSound id url false e p q h = elim (Bool-cases (str_eq e.verified_ann.public_url url)) [
    | inl t ↦ rw t (h.0, λ f. absurd cc)
    | inr f ↦ rw f h
  ]

  loop_top-IsSafe : (id : Str) (d : Directory) → IsSafe d → IsSafe (loop_top id d).0
  unfolding loop_top
  loop_top-IsSafe id d h = elim (Option-cases (get str_dec id d.entries)) [
    | inl e ↦ rw e h
    | inr (e, q) ↦ elim (Bool-cases (settled e e.pending_ann.public_url)) [
      | inl t ↦ rw (q, t) h
      | inr f ↦ rw (q, f) h
    ]
  ]

  loop_reply-IsSafe :
      (id url : Str) (answer : Bool) (d : Directory)
      → (answer ≡ true → Passed url id)
      → IsSafe d
      → IsSafe (loop_reply id url answer d).0
  unfolding loop_reply
  loop_reply-IsSafe id url answer d p h = elim (Option-cases (get str_dec id d.entries)) [
    | inl e ↦ rw e h
    | inr (e, q) ↦ elim (Bool-cases (str_eq e.pending_ann.public_url url)) [
      | inl t ↦
          rw (q, t)
            (put-Every str_dec IsSound id (judged url answer e) d.entries
              (judged-IsSound id url answer e p ((eqb_iff str_dec _ url).0 t)
                (get-Every str_dec IsSound id e d.entries h q))
              h)
      | inr f ↦ rw (q, f) h
    ]
  ]

  own :
      (j : Str) (x : Entry)
      → IsSound j x
      → x.verified ≡ true
      → IsConfirmed x.verified_ann.hub_id x.verified_ann
  own j x sound v =
      let (same, passed) = sound.1 v in
      (refl, subst (λ k. Passed x.verified_ann.public_url k) (sym same) passed)

  list_loop-IsSound :
      (cutoff : ℤ) (rest entries : Map Str Entry) (out : List HubAnnouncement)
      → Every str_dec IsSound rest
      → Every str_dec IsSound entries
      → All (λ a. IsConfirmed a.hub_id a) out
      → Every str_dec IsSound (list_loop cutoff rest entries out).0
        × All (λ a. IsConfirmed a.hub_id a) (list_loop cutoff rest entries out).1
  unfolding list_loop
  list_loop-IsSound cutoff [] entries out r h o = (h, o)
  list_loop-IsSound cutoff ((j, x) ∷ rest) entries out r h o =
      list_loop-IsSound cutoff rest _ _ r.1
        (elim (Bool-cases (ltb_ℤ x.last_seen cutoff)) [
          | inl t ↦ rw t (del-Every str_dec IsSound j entries h)
          | inr f ↦ rw f h
        ])
        (elim (Bool-cases (ltb_ℤ x.last_seen cutoff)) [
          | inl t ↦ rw t o
          | inr f ↦ elim (Bool-cases x.verified) [
            | inl v ↦ rw (f, v) (All-append _ out (x.verified_ann ∷ []) o (own j x r.0 v, tt))
            | inr v ↦ rw (f, v) o
          ]
        ])

  list-IsSafe :
      (s : Sorting) (now : ℤ) (d : Directory)
      → IsSafe d
      → IsSafe (list s now d).0 × All (λ a. IsConfirmed a.hub_id a) (list s now d).1
  unfolding list
  list-IsSafe s now d h =
      let (kept, out) = list_loop-IsSound (now -ℤ d.ttl) d.entries d.entries [] h h tt in
      (kept, All-perm _ (Permᴰ.symm (s.sort-perm HubAnnouncement newest_first _)) out)

  -- In every reachable interleaving an entry that counts as verified holds an announcement of its
  -- own hub, whose URL a check has confirmed to be that hub's.
  pub Reachable-IsSafe :
      {s : Sorting} {self_id : Str} {ttl : ℤ}
      → (w : World) → Reachable s Passed self_id ttl w
      → IsSafe w.dir
  Reachable-IsSafe _ fresh = tt
  Reachable-IsSafe _ (step v _ r (announce d loops ann now)) =
      add-IsSafe ann now d (Reachable-IsSafe _ r)
  Reachable-IsSafe _ (step v _ r (top d before after id)) =
      loop_top-IsSafe id d (Reachable-IsSafe _ r)
  Reachable-IsSafe _ (step v _ r (reply d before after id url answer p)) =
      loop_reply-IsSafe id url answer d p (Reachable-IsSafe _ r)
  Reachable-IsSafe {s} _ (step v _ r (listed d loops now)) =
      (list-IsSafe s now d (Reachable-IsSafe _ r)).0

  active-IsConfirmed :
      (cutoff : ℤ) (m : Map Str Entry)
      → Every str_dec IsSound m
      → All
          (λ a. IsConfirmed a.hub_id a)
          (map (λ e. e.1.verified_ann) (select (λ e. e.1.verified && ltb_ℤ cutoff e.1.last_seen) m))
  active-IsConfirmed cutoff [] h = tt
  active-IsConfirmed cutoff ((j, x) ∷ m) h =
      elim (Bool-cases (x.verified && ltb_ℤ cutoff x.last_seen)) [
        | inl t ↦ rw t (own j x h.0 (ground arith), active-IsConfirmed cutoff m h.1)
        | inr f ↦ rw f (active-IsConfirmed cutoff m h.1)
      ]

  -- In every reachable interleaving, every announcement that List or ActiveWithin answers has a
  -- URL that a reachability check has confirmed to be that of the hub it names.
  pub listed_are_confirmed :
      (s : Sorting) (self_id : Str) (ttl now window : ℤ)
      → (w : World) → Reachable s Passed self_id ttl w
      → All (λ a. Passed a.public_url a.hub_id) (list s now w.dir).1
        × All (λ a. Passed a.public_url a.hub_id) (active_within now window w.dir)
  unfolding active_within
  listed_are_confirmed s self_id ttl now window w r =
      let safe = Reachable-IsSafe w r in
      (
        All_map (λ a h. h.1) _ (list-IsSafe s now w.dir safe).1,
        All_map (λ a h. h.1) _ (active-IsConfirmed (now -ℤ window) w.dir.entries safe),
      )
