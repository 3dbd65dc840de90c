-- ===== src/Base/Maps.antt =====
-- Go maps as association lists over a decided key type. A map is iterated in the order of the
-- list; Go leaves that order open, so a theorem about every list covers every iteration order.
use mathlib.Core.Path.{subst, sym, ◌∙◌, ◌≡◌, refl}
use mathlib.Core.Logic.{◌≢◌, ◌⊎◌, inl, inr}
use mathlib.Core.List.{List, [], ◌∷◌, ◌++◌, map}
use libre_ping.Base.Lists.{In}
use mathlib.Core.Bool.{Bool, true, false}
use mathlib.Core.Option.{Option, none, some}
use native.Mathlib.Omega.{arith}
use libre_ping.Base.Tests.{Bool-cases, eqb, eqb_yes, eqb_no, if◌then◌else◌}

abbrev pub Map : Type 0 → Type 0 → Type 0
Map K V = List (K × V)

module _ {K V : Type 0} (dec : Discrete K) where
  -- `v, ok := m[k]`
  unfoldable pub get : K → Map K V → Option V
  get k [] = none
  get k ((j, v) ∷ m) = if eqb dec j k then some v else get k m

  -- `m[k] = v`
  unfoldable pub put : K → V → Map K V → Map K V
  put k v [] = (k, v) ∷ []
  put k v ((j, w) ∷ m) = if eqb dec j k then (k, v) ∷ m else (j, w) ∷ put k v m

  -- `delete(m, k)`
  unfoldable pub del : K → Map K V → Map K V
  del k [] = []
  del k ((j, w) ∷ m) = if eqb dec j k then del k m else (j, w) ∷ del k m

  pub get-put :
      (k j : K) (v : V) (m : Map K V)
      → get j (put k v m) ≡ (if eqb dec k j then some v else get j m)
  unfolding get put
  get-put k j v [] = refl
  get-put k j v ((i, w) ∷ m) = ground (arith, get-put k j v m)

  pub get-del : (k j : K) (m : Map K V) → get j (del k m) ≡ (if eqb dec k j then none else get j m)
  unfolding get del
  get-del k j [] = ground arith
  get-del k j ((i, w) ∷ m) = ground (arith, get-del k j m)

  pub get-put_self : (k : K) (v : V) (m : Map K V) → get k (put k v m) ≡ some v
  get-put_self k v m = ground (arith, get-put k k v m)

  pub get-put_ne : (k j : K) (v : V) (m : Map K V) → k ≢ j → get j (put k v m) ≡ get j m
  get-put_ne k j v m h = ground (arith, get-put k j v m)

abbrev pub keys : {K V : Type 0} → Map K V → List K
keys = map (λ e. e.0)

module _ {K V : Type 0} (dec : Discrete K) where
  pub In-keys_of : (k : K) (v : V) (m : Map K V) → get dec k m ≡ some v → In k (keys m)
  unfolding get
  In-keys_of k v [] h = cc
  In-keys_of k v ((j, w) ∷ m) h = elim (dec j k) [
    | yes p ↦ inl p
    | no p ↦ inr (In-keys_of k v m (ground arith))
  ]

  pub get_of_In-keys : (k : K) (m : Map K V) → In k (keys m) → (v : V) × (get dec k m ≡ some v)
  unfolding get
  get_of_In-keys k [] h = elim h [ ]
  get_of_In-keys k ((j, w) ∷ m) (inl e) = (w, ground arith)
  get_of_In-keys k ((j, w) ∷ m) (inr h) = elim (dec j k) [
    | yes p ↦ (w, ground arith)
    | no p ↦ let r = get_of_In-keys k m h in (r.0, ground (arith, r.1))
  ]

-- No key stands twice, as in every Go map.
abbrev pub UniqueKeys : {K V : Type 0} → Map K V → Type 0
UniqueKeys [] = Unit
UniqueKeys ((k, v) ∷ m) = (¬ In k (keys m)) × UniqueKeys m

module _ {K V : Type 0} (dec : Discrete K) where
  In-keys-put :
      (k j : K) (v : V) (m : Map K V) → In j (keys (put dec k v m)) → (k ≡ j) ⊎ In j (keys m)
  unfolding put
  In-keys-put k j v [] h = h
  In-keys-put k j v ((i, w) ∷ m) h = elim (dec i k) [
    | yes p ↦ ground arith
    | no p ↦ ground (arith, In-keys-put k j v m)
  ]

  pub put-UniqueKeys : (k : K) (v : V) (m : Map K V) → UniqueKeys m → UniqueKeys (put dec k v m)
  unfolding put
  put-UniqueKeys k v [] u = (λ h. h, tt)
  put-UniqueKeys k v ((i, w) ∷ m) u = elim (dec i k) [
    | yes p ↦ rw (eqb_yes dec i k p) (subst (λ x. ¬ In x (keys m)) p u.0, u.1)
    | no p ↦ rw (eqb_no dec i k p) (
      λ h. elim (In-keys-put k i v m h) [ inl e ↦ p (sym e) | inr g ↦ u.0 g ],
      put-UniqueKeys k v m u.1,
    )
  ]

  In-keys-del : (k j : K) (m : Map K V) → In j (keys (del dec k m)) → In j (keys m)
  unfolding del
  In-keys-del k j [] h = h
  In-keys-del k j ((i, w) ∷ m) h = ground (arith, In-keys-del k j m)

  pub del-UniqueKeys : (k : K) (m : Map K V) → UniqueKeys m → UniqueKeys (del dec k m)
  unfolding del
  del-UniqueKeys k [] u = tt
  del-UniqueKeys k ((i, w) ∷ m) u = elim (dec i k) [
    | yes p ↦ rw (eqb_yes dec i k p) (del-UniqueKeys k m u.1)
    | no p ↦ rw (eqb_no dec i k p) (λ h. u.0 (In-keys-del k i m h), del-UniqueKeys k m u.1)
  ]

abbrev pub is_some_and : {R : Type 0} → (R → Bool) → Option R → Bool
is_some_and dead none = false
is_some_and dead (some r) = dead r

-- `for k, r := range rs { if dead(r) { delete(m, k) } }`.
module _ {K R V : Type 0} (dec : Discrete K) (dead : R → Bool) where
  unfoldable pub sweep : Map K R → Map K V → Map K V
  sweep [] m = m
  sweep ((k, r) ∷ rs) m = sweep rs (if dead r then del dec k m else m)

  sweep_absent :
      (k : K) (rs : Map K R) (m : Map K V) → ¬ In k (keys rs) → get dec k (sweep rs m) ≡ get dec k m
  unfolding sweep
  sweep_absent k [] m h = refl
  sweep_absent k ((j, r) ∷ rs) m h =
      sweep_absent k rs _ (λ i. h (inr i))
      ∙ let apart : j ≢ k = λ e. h (inl e) in ground (arith, get-del dec j k m)

  -- Exactly the keys whose record is dead are gone.
  pub get-sweep :
      (k : K) (rs : Map K R) (m : Map K V)
      → UniqueKeys rs
      → get dec k (sweep rs m) ≡ (if is_some_and dead (get dec k rs) then none else get dec k m)
  unfolding sweep get
  get-sweep k [] m u = refl
  get-sweep k ((j, r) ∷ rs) m u = elim (dec j k) [
    | yes p ↦
        sweep_absent k rs _ (subst (λ x. ¬ In x (keys rs)) p u.0)
        ∙ ground (arith, get-del dec j k m)
    | no p ↦ get-sweep k rs _ u.1 ∙ ground (arith, get-del dec j k m)
  ]

  pub sweep-UniqueKeys : (rs : Map K R) (m : Map K V) → UniqueKeys m → UniqueKeys (sweep rs m)
  unfolding sweep
  sweep-UniqueKeys [] m u = u
  sweep-UniqueKeys ((j, r) ∷ rs) m u = elim (Bool-cases (dead r)) [
    | inl e ↦ sweep-UniqueKeys rs _ (rw e (del-UniqueKeys dec j m u))
    | inr e ↦ sweep-UniqueKeys rs _ (rw e u)
  ]

-- A new key goes to the end.
pub put_absent :
    {K V : Type 0} (dec : Discrete K) (k : K) (v : V) (m : Map K V)
    → get dec k m ≡ none
    → put dec k v m ≡ m ++ ((k, v) ∷ [])
unfolding get put
put_absent dec k v [] h = refl
put_absent dec k v ((j, w) ∷ m) h = ground (arith, put_absent dec k v m)

-- A property of every binding, as the operations keep it.
module _ {K V : Type 0} (dec : Discrete K) (P : K → V → Type 0) where
  abbrev pub Every : Map K V → Type 0
  Every [] = Unit
  Every ((k, v) ∷ m) = P k v × Every m

  pub get-Every : (k : K) (v : V) (m : Map K V) → Every m → get dec k m ≡ some v → P k v
  unfolding get
  get-Every k v [] h e = absurd cc
  get-Every k v ((j, w) ∷ m) h e = elim (dec j k) [
    | yes p ↦ let same : w ≡ v = ground arith in subst (λ i. P i v) p (subst (λ u. P j u) same h.0)
    | no p ↦ get-Every k v m h.1 (ground arith)
  ]

  pub put-Every : (k : K) (v : V) (m : Map K V) → P k v → Every m → Every (put dec k v m)
  unfolding put
  put-Every k v [] p h = (p, tt)
  put-Every k v ((j, w) ∷ m) p h = elim (Bool-cases (eqb dec j k)) [
    | inl t ↦ rw t (p, h.1)
    | inr f ↦ rw f (h.0, put-Every k v m p h.1)
  ]

  pub del-Every : (k : K) (m : Map K V) → Every m → Every (del dec k m)
  unfolding del
  del-Every k [] h = tt
  del-Every k ((j, w) ∷ m) h = elim (Bool-cases (eqb dec j k)) [
    | inl t ↦ rw t (del-Every k m h.1)
    | inr f ↦ rw f (h.0, del-Every k m h.1)
  ]

-- `m[k]` of a map to bool, where a missing key reads as false.
abbrev pub or_false : Option Bool → Bool
or_false none = false
or_false (some b) = b

-- `_, ok := m[k]` of a map that is used as a set.
abbrev pub is_member : Option (Unit {0}) → Bool
is_member none = false
is_member (some _) = true

-- `_, ok := m[k]`, or a pointer that is not nil.
abbrev pub present {ℓ} : {V : Type ℓ} → Option V → Bool
present none = false
present (some v) = true
