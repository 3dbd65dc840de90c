-- ===== src/Base/Tests.antt =====
-- Boolean tests on the native numbers and on decidable types, and the conditional.
use Prim.Native.Nat.{ℕ, compare, Ordering}
use mathlib.Core.Path.{◌≡◌, refl}
use mathlib.Core.Logic.{◌↔◌, ◌⊎◌, inl, inr}
use mathlib.Core.Bool.{Bool, true, false}
use mathlib.Core.Option.{Option, none, some}
use native.Mathlib.Omega.{arith}

abbrev pub ltb : ℕ → ℕ → Bool
ltb a b = elim (compare a b) [ Ordering.lt ↦ true | _ ↦ false ]

abbrev pub leb : ℕ → ℕ → Bool
leb a b = elim (compare a b) [ Ordering.gt ↦ false | _ ↦ true ]

infix 50 ◌==◌
abbrev pub ◌==◌ : ℕ → ℕ → Bool
a == b = elim (compare a b) [ Ordering.eq ↦ true | _ ↦ false ]

infix 1 if◌then◌else◌
abbrev pub if◌then◌else◌ {ℓ} : {A : Type ℓ} → Bool → A → A → A
if true then x else y = x
if false then x else y = y

pub Bool-cases : (b : Bool) → (b ≡ true) ⊎ (b ≡ false)
Bool-cases true = inl refl
Bool-cases false = inr refl

-- A property of a conditional, in both cases.
pub split_if {ℓ κ} :
    {A : Type ℓ} (P : A → Type κ) (b : Bool) {x y : A}
    → (b ≡ true → P x)
    → (b ≡ false → P y)
    → P (if b then x else y)
split_if P true f g = f refl
split_if P false f g = g refl

pub Option-cases {ℓ} : {A : Type ℓ} (o : Option A) → (o ≡ none) ⊎ ((a : A) × (o ≡ some a))
Option-cases none = inl refl
Option-cases (some a) = inr (a, refl)

-- A decision from a Boolean test, which evaluates as fast as the test.
unfoldable pub dec_of {ℓ} : {P : Type ℓ} (b : Bool) → (b ≡ true → P) → (P → b ≡ true) → Dec P
dec_of true f g = yes (f refl)
dec_of false f g = no (λ p. let h = g p in cc)

-- `==` on a type whose equality is decided.
abbrev pub eqb {ℓ} : {K : Type ℓ} → Discrete K → K → K → Bool
eqb dec a b = elim (dec a b) [ yes _ ↦ true | no _ ↦ false ]

pub eqb_iff {ℓ} : {K : Type ℓ} (dec : Discrete K) (a b : K) → (eqb dec a b ≡ true) ↔ (a ≡ b)
eqb_iff dec a b = ground arith

pub eqb_refl {ℓ} : {K : Type ℓ} (dec : Discrete K) (a : K) → eqb dec a a ≡ true
eqb_refl dec a = ground arith

pub eqb_yes {ℓ} : {K : Type ℓ} (dec : Discrete K) (a b : K) → a ≡ b → eqb dec a b ≡ true
eqb_yes dec a b h = ground arith

pub eqb_no {ℓ} : {K : Type ℓ} (dec : Discrete K) (a b : K) → ¬ (a ≡ b) → eqb dec a b ≡ false
eqb_no dec a b h = ground arith
