-- ===== src/Base/Decimal.antt =====
-- Decimal and hexadecimal text: strconv.Itoa, strconv.FormatInt and hex.EncodeToString.
use Prim.Native.Nat.{ℕ, zero, suc, ◌+◌, ◌-◌, ◌*◌, ◌/◌, ◌%◌, ◌≤◌, ◌<◌}
use mathlib.Core.Path.{◌≡◌, refl, sym, ap, ◌∙◌}
use mathlib.Core.Logic.{◌⊎◌, inl, inr}
use mathlib.Core.List.{[], ◌∷◌, ◌++◌}
use native.Mathlib.Omega.{arith}
use libre_ping.Base.Tests.{ltb, if◌then◌else◌, Bool-cases}
use libre_ping.Base.Lists.{All, All-append, All_map}
use libre_ping.Base.Int.{ℤ, pos, negsuc}
use libre_ping.Base.Text.{Str, Bytes}

-- The digits of n, given more rounds than it has digits.
decimal_rounds : ℕ → ℕ → Str
decimal_rounds zero n = []
decimal_rounds (suc f) n =
    let rest = decimal_rounds f (n / 10) in
    if ltb n 10 then (b'0' + n) ∷ [] else rest ++ (b'0' + n % 10) ∷ []

unfoldable pub decimal : ℕ → Str
unfolding decimal_rounds
decimal n = decimal_rounds (suc n) n

-- strconv.FormatInt(z, 10).
unfoldable pub format_int : ℤ → Str
format_int (pos n) = decimal n
format_int (negsuc n) = b'-' ∷ decimal (suc n)

hex_digit : ℕ → ℕ
hex_digit n = if ltb n 10 then b'0' + n else b'a' + n - 10

unfoldable pub hex_encode : Bytes → Str
unfolding hex_digit
hex_encode [] = []
hex_encode (b ∷ bs) = hex_digit (b / 16) ∷ hex_digit (b % 16) ∷ hex_encode bs

-- The number that a decimal text stands for, read after `acc`.
abbrev pub read_decimal : ℕ → Str → ℕ
read_decimal acc [] = acc
read_decimal acc (c ∷ cs) = read_decimal (acc * 10 + (c - b'0')) cs

read_decimal-append :
    (acc : ℕ) (cs ds : Str) → read_decimal acc (cs ++ ds) ≡ read_decimal (read_decimal acc cs) ds
read_decimal-append acc [] ds = refl
read_decimal-append acc (c ∷ cs) ds = read_decimal-append (acc * 10 + (c - b'0')) cs ds

abbrev pub IsDigit : ℕ → Type 0
IsDigit c = (b'0' ≤ c) × (c ≤ b'9')

read-decimal_rounds : (f n : ℕ) → n < f → read_decimal 0 (decimal_rounds f n) ≡ n
unfolding decimal_rounds
read-decimal_rounds zero n h = elim h [ ]
read-decimal_rounds (suc f) n h = elim (Bool-cases (ltb n 10)) [
  | inl e ↦ rw e (ground arith)
  | inr e ↦ rw e (
      read_decimal-append 0 (decimal_rounds f (n / 10)) ((b'0' + n % 10) ∷ [])
      ∙ rw (read-decimal_rounds f (n / 10) (ground arith)) (omega arith))
]

decimal_rounds-IsDigit : (f n : ℕ) → All IsDigit (decimal_rounds f n)
unfolding decimal_rounds
decimal_rounds-IsDigit zero n = tt
decimal_rounds-IsDigit (suc f) n = elim (Bool-cases (ltb n 10)) [
  | inl e ↦ rw e ((ground arith, ground arith), tt)
  | inr e ↦ rw e (
      All-append IsDigit (decimal_rounds f (n / 10)) _ (decimal_rounds-IsDigit f (n / 10))
        ((omega arith, omega arith), tt))
]

-- The text of a number reads back as the number.
pub read-decimal : (n : ℕ) → read_decimal 0 (decimal n) ≡ n
unfolding decimal
read-decimal n = read-decimal_rounds (suc n) n (omega arith)

pub decimal-IsDigit : (n : ℕ) → All IsDigit (decimal n)
unfolding decimal
decimal-IsDigit n = decimal_rounds-IsDigit (suc n) n

pub decimal-injective : (m n : ℕ) → decimal m ≡ decimal n → m ≡ n
decimal-injective m n e = sym (read-decimal m) ∙ (ap (read_decimal 0) e ∙ read-decimal n)

hex_digit-injective : (m n : ℕ) → m < 16 → n < 16 → hex_digit m ≡ hex_digit n → m ≡ n
unfolding hex_digit
hex_digit-injective m n h k e = ground arith

pub hex_encode-injective :
    (xs ys : Bytes)
    → All (λ b. b < 256) xs
    → All (λ b. b < 256) ys
    → hex_encode xs ≡ hex_encode ys
    → xs ≡ ys
unfolding hex_encode
hex_encode-injective [] [] h k e = refl
hex_encode-injective [] (y ∷ ys) h k e = cc
hex_encode-injective (x ∷ xs) [] h k e = cc
hex_encode-injective (x ∷ xs) (y ∷ ys) h k e = ground (
  arith,
  hex_digit-injective (x / 16) (y / 16),
  hex_digit-injective (x % 16) (y % 16),
  hex_encode-injective xs ys h.1 k.1,
)

decimal_rounds_enough : (f g n : ℕ) → n < f → n < g → decimal_rounds f n ≡ decimal_rounds g n
unfolding decimal_rounds
decimal_rounds_enough zero g n h k = elim h [ ]
decimal_rounds_enough (suc f) zero n h k = elim k [ ]
decimal_rounds_enough (suc f) (suc g) n h k = ground (arith, decimal_rounds_enough f g (n / 10))

-- One digit at a time, from the last.
pub decimal_lem :
    (n : ℕ)
    → decimal n ≡ (if ltb n 10 then (b'0' + n) ∷ [] else decimal (n / 10) ++ ((b'0' + n % 10) ∷ []))
unfolding decimal decimal_rounds
decimal_lem n = ground (arith, decimal_rounds_enough n (suc (n / 10)) (n / 10))

no_sign : (ds xs : Str) → All IsDigit ds → ds ≡ b'-' ∷ xs → ⊥
no_sign [] xs h e = cc
no_sign (d ∷ ds) xs h e = let same : d ≡ b'-' = cc in omega arith

-- A signed number's text names the number.
pub format_int-injective : (a b : ℤ) → format_int a ≡ format_int b → a ≡ b
unfolding format_int
format_int-injective (pos m) (pos n) e = ap pos (decimal-injective m n e)
format_int-injective (pos m) (negsuc n) e = absurd (no_sign (decimal m) _ (decimal-IsDigit m) e)
format_int-injective (negsuc m) (pos n) e =
    absurd (no_sign (decimal n) _ (decimal-IsDigit n) (sym e))
format_int-injective (negsuc m) (negsuc n) e =
    let same = decimal-injective (suc m) (suc n) (cc) in ground arith

-- The characters of a signed number: digits and the sign.
pub format_int-IsDigit : (z : ℤ) → All (λ b. (b ≡ b'-') ⊎ IsDigit b) (format_int z)
unfolding format_int
format_int-IsDigit (pos n) = All_map (λ b d. inr d) (decimal n) (decimal-IsDigit n)
format_int-IsDigit (negsuc n) =
    (inl refl, All_map (λ b d. inr d) (decimal (suc n)) (decimal-IsDigit (suc n)))
