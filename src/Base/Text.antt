-- ===== src/Base/Text.antt =====
-- Go strings and byte slices: lists of byte values, with equality and Go's bytewise order.
use Prim.Native.Nat.{ℕ}
use Prim.Native.Char.{code}
use Prim.Native.String.{String}
use mathlib.Core.Path.{subst, ◌≡◌, refl}
use mathlib.Core.Logic.{◌↔◌, ◌⊎◌, inl, inr}
use mathlib.Core.Bool.{Bool, true, false, ◌&&◌, ◌||◌}
use mathlib.Core.List.{List, [], ◌∷◌}
use native.Mathlib.Omega.{arith}
use libre_ping.Base.Tests.{Bool-cases, ◌==◌, ltb, eqb, dec_of}

abbrev pub Str : Type 0
Str = List ℕ

-- A byte slice, []byte.
abbrev pub Bytes : Type 0
Bytes = List ℕ

-- The bytes of an ASCII literal.
abbrev pub codes : String → Str
codes String.[] = []
codes (String.◌∷◌ c s) = code c ∷ codes s

pub str_beq : Str → Str → Bool
str_beq [] [] = true
str_beq [] (y ∷ ys) = false
str_beq (x ∷ xs) [] = false
str_beq (x ∷ xs) (y ∷ ys) = x == y && str_beq xs ys

pub str_beq_iff : (a b : Str) → (str_beq a b ≡ true) ↔ (a ≡ b)
unfolding str_beq
str_beq_iff [] [] = ground arith
str_beq_iff [] (y ∷ ys) = ground arith
str_beq_iff (x ∷ xs) [] = ground arith
str_beq_iff (x ∷ xs) (y ∷ ys) = ground (arith, str_beq_iff xs ys)

unfoldable pub str_dec : Discrete Str
unfolding dec_of str_beq
str_dec a b = dec_of (str_beq a b) (str_beq_iff a b).0 (str_beq_iff a b).1

abbrev pub str_eq : Str → Str → Bool
str_eq a b = eqb str_dec a b

-- `a < b` on Go strings: the first byte that differs decides, and a prefix is smaller.
unfoldable pub str_lt : Str → Str → Bool
str_lt [] [] = false
str_lt [] (y ∷ ys) = true
str_lt (x ∷ xs) [] = false
str_lt (x ∷ xs) (y ∷ ys) = ltb x y || x == y && str_lt xs ys

pub str_lt_irrefl : (a : Str) → str_lt a a ≡ false
unfolding str_lt
str_lt_irrefl [] = refl
str_lt_irrefl (x ∷ xs) = ground (arith, str_lt_irrefl xs)

pub str_lt_trans : (a b c : Str) → str_lt a b ≡ true → str_lt b c ≡ true → str_lt a c ≡ true
unfolding str_lt
str_lt_trans [] b [] h k = ground arith
str_lt_trans [] b (z ∷ zs) h k = refl
str_lt_trans (x ∷ xs) [] c h k = cc
str_lt_trans (x ∷ xs) (y ∷ ys) [] h k = cc
str_lt_trans (x ∷ xs) (y ∷ ys) (z ∷ zs) h k = ground (arith, str_lt_trans xs ys zs)

pub str_lt_total : (a b : Str) → (str_lt a b ≡ true) ⊎ ((a ≡ b) ⊎ (str_lt b a ≡ true))
unfolding str_lt
str_lt_total [] [] = inr (inl refl)
str_lt_total [] (y ∷ ys) = inl refl
str_lt_total (x ∷ xs) [] = inr (inr refl)
str_lt_total (x ∷ xs) (y ∷ ys) = ground (arith, str_lt_total xs ys)

pub str_lt_asym : (a b : Str) → str_lt a b ≡ true → str_lt b a ≡ false
str_lt_asym a b h = elim (Bool-cases (str_lt b a)) [
  | inl k ↦ absurd (let l = str_lt_trans a b a h k in let i = str_lt_irrefl a in cc)
  | inr k ↦ k
]

pub str_le_antisym : (a b : Str) → str_lt a b ≡ false → str_lt b a ≡ false → a ≡ b
str_le_antisym a b h k = elim (str_lt_total a b) [ inl l ↦ cc | inr (inl e) ↦ e | inr (inr l) ↦ cc ]

pub str_le_trans : (a b c : Str) → str_lt b a ≡ false → str_lt c b ≡ false → str_lt c a ≡ false
str_le_trans a b c h k = elim (Bool-cases (str_lt c a)) [
  | inr l ↦ l
  | inl l ↦ elim (str_lt_total a b) [
    | inl m ↦ let t = str_lt_trans c a b l m in cc
    | inr (inl e) ↦ let t : str_lt c b ≡ true = subst (λ x. str_lt c x ≡ true) e l in cc
    | inr (inr m) ↦ cc
  ]
]
