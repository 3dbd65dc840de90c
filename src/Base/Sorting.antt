-- ===== src/Base/Sorting.antt =====
-- Go's sort.Slice and sort.Strings as an interface: a rearrangement that the order allows. The
-- sort is not stable, so nothing is said of elements that tie. `insertion` meets the interface.
use Prim.Native.Nat.{ℕ, zero, suc}
use mathlib.Core.Path.{◌≡◌, refl, sym, ap, ap₂, ◌∙◌, subst}
use mathlib.Core.Logic.{∥∥₁_elim, inl, inr}
use mathlib.Core.Bool.{Bool, true, false}
use mathlib.Core.List.{List, [], ◌∷◌, Permᴰ, Perm}
use mathlib.Core.List.Permᴰ
use mathlib.Core.List.Perm
use mathlib.Core.HLevel.{⊥_prop}
use native.Mathlib.Omega.{arith}
use libre_ping.Base.Tests.{if◌then◌else◌, Bool-cases}
use libre_ping.Base.Lists.{select, All, All_In, In, length, All-take, All-drop, All_map, take, drop}

-- What sort.Slice asks of its `less`: a strict weak order.
pub record IsOrder {A : Type 0} (less : A → A → Bool) : Type 0 where
  pub asym : (a b : A) → less a b ≡ true → less b a ≡ false
  pub le_trans : (a b c : A) → less b a ≡ false → less c b ≡ false → less c a ≡ false

-- No later element is less than an earlier one.
abbrev pub IsSorted : {A : Type 0} → (A → A → Bool) → List A → Type 0
IsSorted less [] = Unit
IsSorted less (x ∷ xs) = All (λ y. less y x ≡ false) xs × IsSorted less xs

pub record Sorting : Type 1 where
  pub sort : (A : Type 0) → (A → A → Bool) → List A → List A
  pub sort-perm : (A : Type 0) (less : A → A → Bool) (l : List A) → Permᴰ (sort A less l) l
  pub sort-IsSorted :
      (A : Type 0) (less : A → A → Bool)
      → IsOrder less
      → (l : List A) → IsSorted less (sort A less l)

module _ {A : Type 0} where
  pub In-perm : (a : A) {l m : List A} → Permᴰ l m → In a l → In a m
  In-perm a Permᴰ.nil h = h
  In-perm a (Permᴰ.cons e p) (inl h) = inl (sym e ∙ h)
  In-perm a (Permᴰ.cons e p) (inr h) = inr (In-perm a p h)
  In-perm a (Permᴰ.swap e f) (inl h) = inr (inl (sym e ∙ h))
  In-perm a (Permᴰ.swap e f) (inr (inl h)) = inl (sym f ∙ h)
  In-perm a (Permᴰ.swap e f) (inr (inr h)) = inr (inr h)
  In-perm a (Permᴰ.trans p q) h = In-perm a q (In-perm a p h)

  pub length-perm : {l m : List A} → Permᴰ l m → length l ≡ length m
  length-perm Permᴰ.nil = refl
  length-perm (Permᴰ.cons e p) = ap suc (length-perm p)
  length-perm (Permᴰ.swap e f) = refl
  length-perm (Permᴰ.trans p q) = length-perm p ∙ length-perm q

  pub All-perm {κ} : (P : A → Type κ) {l m : List A} → Permᴰ l m → All P l → All P m
  All-perm P Permᴰ.nil h = h
  All-perm P (Permᴰ.cons e p) h = (subst P e h.0, All-perm P p h.1)
  All-perm P (Permᴰ.swap e f) h = (subst P f h.1.0, (subst P e h.0, h.1.1))
  All-perm P (Permᴰ.trans p q) h = All-perm P q (All-perm P p h)

pub select-perm :
    {A : Type 0} (p : A → Bool) {l m : List A} → Permᴰ l m → Permᴰ (select p l) (select p m)
select-perm p Permᴰ.nil = Permᴰ.nil
select-perm p (Permᴰ.cons {a = a} {b = b} e q) = rw (← e) (elim (Bool-cases (p a)) [
  | inl t ↦ rw t (Permᴰ.cons refl (select-perm p q))
  | inr t ↦ rw t (select-perm p q)
])
select-perm p (Permᴰ.swap {a = a} {b = b} e f) =
    rw (← e, ← f)
      (elim (Bool-cases (p a)) [
        | inl t ↦ elim (Bool-cases (p b)) [
          | inl u ↦ rw (t, u) (Permᴰ.swap refl refl)
          | inr u ↦ rw (t, u) (Permᴰ.refl _)
        ]
        | inr t ↦ rw t (Permᴰ.refl _)
      ])
select-perm p (Permᴰ.trans q r) = Permᴰ.trans (select-perm p q) (select-perm p r)

-- The first elements of a sorted list are not above the others.
pub take_before_drop :
    {A : Type 0} (less : A → A → Bool) (n : ℕ) (l : List A)
    → IsSorted less l
    → All (λ x. All (λ y. less y x ≡ false) (drop n l)) (take n l)
take_before_drop less zero l h = tt
take_before_drop less (suc n) [] h = tt
take_before_drop less (suc n) (x ∷ xs) h =
    (All-drop (λ y. less y x ≡ false) n xs h.0, take_before_drop less n xs h.1)

pub take-IsSorted :
    {A : Type 0} (less : A → A → Bool) (n : ℕ) (l : List A)
    → IsSorted less l
    → IsSorted less (take n l)
take-IsSorted less zero l h = tt
take-IsSorted less (suc n) [] h = tt
take-IsSorted less (suc n) (x ∷ xs) h =
    (All-take (λ y. less y x ≡ false) n xs h.0, take-IsSorted less n xs h.1)

-- Where no two different elements tie, the order leaves one sorted arrangement only.
pub sorted_unique :
    {A : Type 0} (less : A → A → Bool)
    → IsSet A
    → (l m : List A) → ((a b : A) → In a l → In b l → less a b ≡ false → less b a ≡ false → a ≡ b)
    → IsSorted less l
    → IsSorted less m
    → Perm l m
    → l ≡ m
sorted_unique less set [] [] tie h k p = refl
sorted_unique less set [] (y ∷ m) tie h k p =
    absurd (∥∥₁_elim p ⊥_prop (λ d. omega (arith, length-perm d)))
sorted_unique less set (x ∷ l) [] tie h k p =
    absurd (∥∥₁_elim p ⊥_prop (λ d. omega (arith, length-perm d)))
sorted_unique less set (x ∷ l) (y ∷ m) tie h k p = ap₂ (◌∷◌) same (
    sorted_unique less set l m (λ a b i j. tie a b (inr i) (inr j)) h.1 k.1
      (Perm.cons_inv (subst (λ z. Perm (x ∷ l) (z ∷ m)) (sym same) p)))
  where
    first : Permᴰ (x ∷ l) (y ∷ m) → x ≡ y
    first d = elim (In-perm y (Permᴰ.symm d) (inl refl)) [
      | inl e ↦ e
      | inr i ↦ elim (In-perm x d (inl refl)) [
        | inl e ↦ sym e
        | inr j ↦ tie x y (inl refl) (inr i) (All_In _ x m k.0 j) (All_In _ y l h.0 i)
      ]
    ]

    same : x ≡ y
    same = ∥∥₁_elim p (set x y) first

module _ {A : Type 0} (less : A → A → Bool) where
  pub insert : A → List A → List A
  insert a [] = a ∷ []
  insert a (x ∷ xs) = if less x a then x ∷ insert a xs else a ∷ x ∷ xs

  insert-perm : (a : A) (l : List A) → Permᴰ (insert a l) (a ∷ l)
  unfolding insert
  insert-perm a [] = Permᴰ.refl _
  insert-perm a (x ∷ xs) = elim (Bool-cases (less x a)) [
    | inl e ↦ rw e (Permᴰ.trans (Permᴰ.cons refl (insert-perm a xs)) (Permᴰ.swap refl refl))
    | inr e ↦ rw e (Permᴰ.refl _)
  ]

  module _ (order : IsOrder less) where
    insert-IsSorted : (a : A) (l : List A) → IsSorted less l → IsSorted less (insert a l)
    unfolding insert
    insert-IsSorted a [] h = (tt, tt)
    insert-IsSorted a (x ∷ xs) h = elim (Bool-cases (less x a)) [
      | inl e ↦ rw e (
        All-perm _ (Permᴰ.symm (insert-perm a xs)) (order.asym x a e, h.0),
        insert-IsSorted a xs h.1,
      )
      | inr e ↦ rw e ((e, All_map (λ y k. order.le_trans a x y e k) xs h.0), h)
    ]

  pub sort_list : List A → List A
  sort_list [] = []
  sort_list (x ∷ xs) = insert x (sort_list xs)

  pub sort_list-perm : (l : List A) → Permᴰ (sort_list l) l
  unfolding sort_list
  sort_list-perm [] = Permᴰ.nil
  sort_list-perm (x ∷ xs) =
      Permᴰ.trans (insert-perm x (sort_list xs)) (Permᴰ.cons refl (sort_list-perm xs))

  pub sort_list-IsSorted : IsOrder less → (l : List A) → IsSorted less (sort_list l)
  unfolding sort_list
  sort_list-IsSorted order [] = tt
  sort_list-IsSorted order (x ∷ xs) =
      insert-IsSorted order x (sort_list xs) (sort_list-IsSorted order xs)

-- Insertion sort is one such sort.
unfoldable pub insertion : Sorting
unfolding insert sort_list
insertion = record {
  sort = λ A less l. sort_list less l;
  sort-perm = λ A less l. sort_list-perm less l;
  sort-IsSorted = λ A less order l. sort_list-IsSorted less order l;
}
