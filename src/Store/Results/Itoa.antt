-- ===== src/Store/Results/Itoa.antt =====
-- itoa of hub/store/store.go against the decimal text of an int64.
use libre_ping.Base.{
  ℕ, zero, suc, ◌+◌, ◌-◌, ◌/◌, ◌%◌, ◌^◌, ◌<◌, ◌≡◌, refl, sym, ap, ◌∙◌, ◌≢◌, inl, inr, [], ◌∷◌, ◌++◌,
  arith, ltb, Bool-cases, ℤ, pos, negsuc, sub64, ◌-ℤ◌, Str, InInt64, wrap64_id, codes, decimal,
  format_int,
}
use native.Mathlib.Nat.{pow-suc}
use mathlib.Core.List.{append_assoc, append-nil}
use libre_ping.Base.Decimal.{decimal_lem}
use libre_ping.Store.Results.{itoa_loop, itoa}

itoa_loop-zero : (room : ℕ) (buf : Str) → itoa_loop room zero buf ≡ buf
unfolding itoa_loop
itoa_loop-zero zero buf = refl
itoa_loop-zero (suc room) buf = refl

-- With room for its digits the loop writes the whole number.
itoa_loop_lem :
    (room n : ℕ) (buf : Str) → 0 < n → n < 10 ^ room → itoa_loop room n buf ≡ decimal n ++ buf
unfolding itoa_loop
itoa_loop_lem zero n buf p h = absurd (omega arith)
itoa_loop_lem (suc room) zero buf p h = elim p [ ]
itoa_loop_lem (suc room) (suc n) buf p h = elim (Bool-cases (ltb (suc n) 10)) [
  | inl small ↦
      let q : suc n / 10 ≡ 0 = ground arith in
      let d : suc n % 10 ≡ suc n = ground arith in
      rw (decimal_lem (suc n), small, q, d) (itoa_loop-zero room ((b'0' + suc n) ∷ buf))
  | inr large ↦
      rw (decimal_lem (suc n), large)
        (itoa_loop_lem room (suc n / 10) ((b'0' + suc n % 10) ∷ buf) (ground arith)
            (omega (arith, pow-suc 10 room))
          ∙ sym (append_assoc (decimal (suc n / 10)) ((b'0' + suc n % 10) ∷ []) buf))
]

digits_of : (n : ℕ) → 0 < n → n < 2 ^ 64 → itoa_loop 20 n [] ≡ decimal n
digits_of n p h = itoa_loop_lem 20 n [] p (omega arith) ∙ append-nil (decimal n)

-- itoa gives the decimal text of every int64 but the smallest.
pub itoa-format_int : (z : ℤ) → InInt64 z → z ≢ negsuc (2 ^ 63 - 1) → itoa z ≡ format_int z
unfolding itoa format_int
itoa-format_int (pos zero) h ne = refl_zero
  where
    refl_zero : codes "0" ≡ decimal 0
    refl_zero = sym (decimal_lem 0)
itoa-format_int (pos (suc n)) h ne = digits_of (suc n) (omega arith) (omega arith)
itoa-format_int (negsuc n) h ne =
    let negated : sub64 (pos 0) (negsuc n) ≡ pos (suc n) =
      wrap64_id (pos 0 -ℤ negsuc n) (ground arith) ∙ ground arith in
    rw (negated, itoa) (ap (◌∷◌ b'-') (digits_of (suc n) (omega arith) (omega arith)))

-- The smallest int64 is its own negation, so only its sign is written.
pub itoa-min : itoa (negsuc (2 ^ 63 - 1)) ≡ codes "-"
unfolding itoa
itoa-min = refl
