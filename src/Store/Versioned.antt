-- ===== src/Store/Versioned.antt =====
-- Last writer wins: the guard that Upsert and MergeDelivery share. A record is stored under its key
-- unless the stored one is as new. The stores of the sibling files are instances.
use libre_ping.Base.{
  ◌≡◌, refl, sym, ap, ◌∙◌, inl, inr, not, ◌&&◌, Option, none, some, List, [], ◌∷◌, arith,
  if◌then◌else◌, Bool-cases, In, All, ℤ, leb_ℤ, leb_ℤ_antisym, ◌≤ℤ◌, Str, str_dec, str_eq, Map, get,
  put, get-put,
}
use mathlib.Core.List.{Permᴰ}
use mathlib.Core.List.Permᴰ
use libre_ping.Base.Sorting.{In-perm}

module _ {R : Type 0} (key : R → Str) (version : R → ℤ) where
  unfoldable pub upsert : Map Str R → R → Map Str R
  upsert m r = elim (get str_dec (key r) m) [
    | none ↦ put str_dec (key r) r m
    | some cur ↦ if leb_ℤ (version r) (version cur) then m else put str_dec (key r) r m
  ]

  unfoldable pub merge : Map Str R → List R → Map Str R
  merge m [] = m
  merge m (r ∷ rs) = merge (upsert m r) rs

  -- The newer of an incoming record and the stored one, the stored one on a tie.
  abbrev pub newer : R → Option R → Option R
  newer r none = some r
  newer r (some cur) = if leb_ℤ (version r) (version cur) then some cur else some r

  pub get-upsert :
      (k : Str) (m : Map Str R) (r : R)
      → get str_dec k (upsert m r)
        ≡ (if str_eq (key r) k then newer r (get str_dec k m) else get str_dec k m)
  unfolding upsert
  get-upsert k m r = ground (arith, get-put str_dec (key r) k r m)

  absorb : Str → List R → Option R → Option R
  absorb k [] o = o
  absorb k (r ∷ rs) o = absorb k rs (if str_eq (key r) k then newer r o else o)

  get-merge :
      (k : Str) (rs : List R) (m : Map Str R)
      → get str_dec k (merge m rs) ≡ absorb k rs (get str_dec k m)
  unfolding merge absorb
  get-merge k [] m = refl
  get-merge k (r ∷ rs) m = get-merge k rs (upsert m r) ∙ ap (absorb k rs) (get-upsert k m r)

  -- Two records with one key and one version are the same record.
  abbrev pub Compatible : List R → Type 0
  Compatible rs = (a b : R) → In a rs → In b rs → key a ≡ key b → version a ≡ version b → a ≡ b

  newer_comm :
      (a b : R) (o : Option R)
      → (version a ≡ version b → a ≡ b)
      → newer a (newer b o) ≡ newer b (newer a o)
  newer_comm a b none h = ground (arith, h, leb_ℤ_antisym (version a) (version b))
  newer_comm a b (some cur) h = ground (arith, h, leb_ℤ_antisym (version a) (version b))

  -- What one record does to the value at a key.
  abbrev offer : Str → R → Option R → Option R
  offer k r o = if str_eq (key r) k then newer r o else o

  offer_comm :
      (k : Str) (a b : R) (o : Option R)
      → (key a ≡ key b → version a ≡ version b → a ≡ b)
      → offer k b (offer k a o) ≡ offer k a (offer k b o)
  offer_comm k a b o h = elim (str_dec (key a) k) [
    | no p ↦ ground arith
    | yes p ↦ elim (str_dec (key b) k) [
      | no q ↦ ground arith
      | yes q ↦ ground (arith, newer_comm a b o (h (p ∙ sym q)))
    ]
  ]

  absorb-perm :
      (k : Str) {rs ss : List R} (o : Option R)
      → Permᴰ rs ss
      → Compatible rs
      → absorb k rs o ≡ absorb k ss o
  unfolding absorb
  absorb-perm k o Permᴰ.nil h = refl
  absorb-perm k o (Permᴰ.cons {a = a} {b = b} e p) h = rw (← e) (
      absorb-perm k (if str_eq (key a) k then newer a o else o) p
        (λ x y i j. h x y (inr i) (inr j)))
  absorb-perm k o (Permᴰ.swap {a = a} {b = b} {l = l} e f) h =
      rw (← e, ← f) (ap (absorb k l) (offer_comm k a b o (h a b (inl refl) (inr (inl refl)))))
  absorb-perm k o (Permᴰ.trans p q) h =
      absorb-perm k o p h
      ∙ absorb-perm k o q
          (λ a b x y. h a b (In-perm a (Permᴰ.symm p) x) (In-perm b (Permᴰ.symm p) y))

  -- Stores that receive the same records in any order agree on every key.
  pub merge-perm :
      (k : Str) (m : Map Str R) {rs ss : List R}
      → Permᴰ rs ss
      → Compatible rs
      → get str_dec k (merge m rs) ≡ get str_dec k (merge m ss)
  merge-perm k m {rs} {ss} p h =
      get-merge k rs m ∙ (absorb-perm k (get str_dec k m) p h ∙ sym (get-merge k ss m))

  absorb_old :
      (k : Str) (rs : List R) (cur : R)
      → All (λ r. key r ≡ k → version r ≤ℤ version cur) rs
      → absorb k rs (some cur) ≡ some cur
  unfolding absorb
  absorb_old k [] cur h = refl
  absorb_old k (r ∷ rs) cur h = elim (str_dec (key r) k) [
    | yes p ↦
        let kept : offer k r (some cur) ≡ some cur = let le = h.0 p in ground arith in
        rw kept (absorb_old k rs cur h.1)
    | no p ↦
        let kept : offer k r (some cur) ≡ some cur = ground arith in
        rw kept (absorb_old k rs cur h.1)
  ]

  absorb-monotone :
      (k : Str) (rs : List R) (cur : R)
      → (new : R) × (absorb k rs (some cur) ≡ some new) × (version cur ≤ℤ version new)
  unfolding absorb
  absorb-monotone k [] cur = (cur, refl, omega arith)
  absorb-monotone k (r ∷ rs) cur =
      elim (Bool-cases (str_eq (key r) k && not (leb_ℤ (version r) (version cur)))) [
        | inl e ↦
            let taken : offer k r (some cur) ≡ some r = ground arith in
            let (new, f, le) = absorb-monotone k rs r in
            (new, ap (absorb k rs) taken ∙ f, ground arith)
        | inr e ↦
            let kept : offer k r (some cur) ≡ some cur = ground arith in
            let (new, f, le) = absorb-monotone k rs cur in (new, ap (absorb k rs) kept ∙ f, le)
      ]

  -- Records that are not newer change nothing at a key.
  pub merge_old :
      (k : Str) (m : Map Str R) (rs : List R) (cur : R)
      → get str_dec k m ≡ some cur
      → All (λ r. key r ≡ k → version r ≤ℤ version cur) rs
      → get str_dec k (merge m rs) ≡ some cur
  merge_old k m rs cur h old = get-merge k rs m ∙ rw h (absorb_old k rs cur old)

  -- What is stored at a key is only ever replaced by what is newer.
  pub merge-monotone :
      (k : Str) (m : Map Str R) (rs : List R) (cur : R)
      → get str_dec k m ≡ some cur
      → (new : R) × (get str_dec k (merge m rs) ≡ some new) × (version cur ≤ℤ version new)
  merge-monotone k m rs cur h =
      let (new, e, le) = absorb-monotone k rs cur in
      (new, get-merge k rs m ∙ (ap (absorb k rs) h ∙ e), le)
