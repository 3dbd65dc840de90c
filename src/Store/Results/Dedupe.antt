-- ===== src/Store/Results/Dedupe.antt =====
-- Insert of hub/store/store.go and its dedupe key.
use libre_ping.Base.{
  ◌-◌, ◌^◌, ◌≡◌, refl, sym, ap, ◌∙◌, ◌≢◌, inl, inr, [], ◌∷◌, ◌++◌, map, arith, Option-cases, All, ℤ,
  negsuc, Str, str_dec, get, get-put, format_int, InInt64,
}
use mathlib.Core.List.{map-append}
use libre_ping.Base.Decimal.{format_int-injective, format_int-IsDigit}
use libre_ping.Base.Lists.{All_map}
use libre_ping.Base.Maps.{UniqueKeys, keys, put-UniqueKeys, put_absent}
use libre_ping.Protocol.{ResultContent, SignedResult}
use libre_ping.Store.Results.{MemStore, new_mem_store, itoa, dedupe_key, insert}
use libre_ping.Store.Results.Itoa.{itoa-format_int}

abbrev pub key : SignedResult → Str
key sr = dedupe_key sr.content

-- The set of seen keys lists the keys of the stored results, each once.
pub record IsValid (m : MemStore) : Type 0 where
  pub listed : keys m.seen ≡ map key m.all
  pub unique : UniqueKeys m.seen

pub new_mem_store-IsValid : IsValid new_mem_store
new_mem_store-IsValid = record { listed = refl; unique = tt }

-- Every Insert keeps the set of seen keys and the list of results in step, with no key twice.
pub insert-IsValid : (m : MemStore) (sr : SignedResult) → IsValid m → IsValid (insert m sr)
unfolding insert
insert-IsValid m sr v = elim (Option-cases (get str_dec (key sr) m.seen)) [
  | inr (u, e) ↦ rw (e, insert) v
  | inl e ↦
      rw (e, insert)
        (record {
          listed =
              ap keys (put_absent str_dec (key sr) tt m.seen e)
              ∙ (map-append _ m.seen _
                  ∙ (ap (λ l. l ++ (key sr ∷ [])) v.listed ∙ sym (map-append key m.all (sr ∷ []))));
          unique = put-UniqueKeys str_dec (key sr) tt m.seen v.unique;
        })
]

-- Delivering a result again changes nothing, and neither does any result of the same probe, check
-- and time.
pub insert_again :
    (m : MemStore) (sr again : SignedResult)
    → key again ≡ key sr
    → insert (insert m sr) again ≡ insert m sr
unfolding insert
insert_again m sr again same = elim (Option-cases (get str_dec (key sr) m.seen)) [
  | inr (u, e) ↦ ground arith
  | inl e ↦ ground (arith, get-put str_dec (key sr) (key again) tt m.seen)
]

abbrev pub HasNoBar : Str → Type 0
HasNoBar s = All (λ b. b ≢ b'|') s

split_first :
    (p q xs ys : Str)
    → HasNoBar p
    → HasNoBar q
    → p ++ (b'|' ∷ xs) ≡ q ++ (b'|' ∷ ys)
    → (p ≡ q) × (xs ≡ ys)
split_first [] [] xs ys h k e = (refl, cc)
split_first [] (b ∷ q) xs ys h k e = absurd (k.0 (cc))
split_first (a ∷ p) [] xs ys h k e = absurd (h.0 (cc))
split_first (a ∷ p) (b ∷ q) xs ys h k e =
    let r = split_first p q xs ys h.1 k.1 (cc) in (cc (r.0), r.1)

bar_in : (ys s r : Str) → HasNoBar r → r ≡ ys ++ (b'|' ∷ s) → ⊥
bar_in [] s [] h e = cc
bar_in [] s (c ∷ r) h e = h.0 (cc)
bar_in (y ∷ ys) s [] h e = cc
bar_in (y ∷ ys) s (c ∷ r) h e = bar_in ys s r h.1 (cc)

split_last :
    (xs ys r s : Str)
    → HasNoBar r
    → HasNoBar s
    → xs ++ (b'|' ∷ r) ≡ ys ++ (b'|' ∷ s)
    → (xs ≡ ys) × (r ≡ s)
split_last [] [] r s h k e = (refl, cc)
split_last [] (y ∷ ys) r s h k e = absurd (bar_in ys s r h (cc))
split_last (x ∷ xs) [] r s h k e = absurd (bar_in xs r s k (cc))
split_last (x ∷ xs) (y ∷ ys) r s h k e = let t = split_last xs ys r s h k (cc) in (cc (t.0), t.1)

itoa-HasNoBar : (z : ℤ) → InInt64 z → z ≢ negsuc (2 ^ 63 - 1) → HasNoBar (itoa z)
itoa-HasNoBar z h ne = rw (itoa-format_int z h ne) (
    All_map (λ b d e. elim d [ inl minus ↦ omega arith | inr digit ↦ omega arith ]) (format_int z)
      (format_int-IsDigit z))

-- The dedupe key identifies the probe, the check and the time of a result, where probe IDs hold no
-- "|" (they are hexadecimal), whatever the check IDs hold, and for every int64 time but the least one.
pub dedupe_key-injective :
    (a b : ResultContent)
    → HasNoBar a.probe_id
    → HasNoBar b.probe_id
    → InInt64 a.timestamp_ms
    → InInt64 b.timestamp_ms
    → a.timestamp_ms ≢ negsuc (2 ^ 63 - 1)
    → b.timestamp_ms ≢ negsuc (2 ^ 63 - 1)
    → dedupe_key a ≡ dedupe_key b
    → (a.probe_id ≡ b.probe_id) × (a.check_id ≡ b.check_id) × (a.timestamp_ms ≡ b.timestamp_ms)
unfolding dedupe_key
dedupe_key-injective a b pa pb ra rb na nb e =
    let probe = split_first a.probe_id b.probe_id _ _ pa pb e in
    let rest =
      split_last a.check_id b.check_id _ _ (itoa-HasNoBar _ ra na) (itoa-HasNoBar _ rb nb)
        probe.1 in
    (
      probe.0,
      rest.0,
      format_int-injective _ _ (sym (itoa-format_int _ ra na) ∙ (rest.1 ∙ itoa-format_int _ rb nb)),
    )
