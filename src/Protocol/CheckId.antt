-- ===== src/Protocol/CheckId.antt =====
-- CheckSpec.DeriveID of pkg/protocol/protocol.go.
use libre_ping.Base.{
  decimal, hex_encode, ◌≡◌, refl, sym, subst, ◌∙◌, ◌≢◌, inl, inr, Option, none, some, List, [], ◌∷◌,
  ◌++◌, arith, Option-cases, length, take, In, All, Str, Bytes, str_dec, str_lt, Map, get,
}
use mathlib.Core.List.{append_assoc}
use mathlib.Core.List.Permᴰ
use libre_ping.Base.Decimal.{decimal-injective, decimal-IsDigit, IsDigit}
use libre_ping.Base.Sorting.{Sorting, In-perm}
use libre_ping.Base.Maps.{keys, In-keys_of, get_of_In-keys}
use libre_ping.Identity.{Crypto}
use libre_ping.Protocol.{CheckSpec}

-- writeField: "<len>:<bytes>".
unfoldable pub write_field : Str → Bytes
write_field v = decimal (length v) ++ (b':' ∷ v)

-- A missing key of a map[string]string reads as "".
abbrev pub or_empty : Option Str → Str
or_empty none = []
or_empty (some v) = v

-- The loop over the sorted keys.
unfoldable pub write_params : Map Str Str → List Str → Bytes
unfolding write_field
write_params m [] = []
write_params m (k ∷ ks) =
    write_field k ++ (write_field (or_empty (get str_dec k m)) ++ write_params m ks)

module _ (s : Sorting) where
  unfoldable pub sorted_keys : Map Str Str → List Str
  sorted_keys m = s.sort Str str_lt (keys m)

  -- What the strings.Builder holds at the end.
  unfoldable pub id_preimage : CheckSpec → Bytes
  unfolding write_field write_params sorted_keys
  id_preimage spec =
      write_field spec.check_type
      ++ (write_field spec.target ++ write_params spec.params (sorted_keys spec.params))

  unfoldable pub derive_id : Crypto → CheckSpec → Str
  unfolding id_preimage
  derive_id c spec = hex_encode (take 8 (c.sha256 (id_preimage spec)))

-- Two texts up to their first colon: digits before it are the same number's.
digits_split :
    (ds bs xs ys : Str)
    → All IsDigit ds
    → All IsDigit bs
    → ds ++ (b':' ∷ xs) ≡ bs ++ (b':' ∷ ys)
    → (ds ≡ bs) × (xs ≡ ys)
digits_split [] [] xs ys h k e = ground arith
digits_split [] (b ∷ bs) xs ys h k e = absurd (ground arith)
digits_split (a ∷ ds) [] xs ys h k e = absurd (ground arith)
digits_split (a ∷ ds) (b ∷ bs) xs ys h k e =
    let r = digits_split ds bs xs ys h.1 k.1 (ground arith) in (ground (arith, r.0), r.1)

same_length_split :
    (v w xs ys : Str) → length v ≡ length w → v ++ xs ≡ w ++ ys → (v ≡ w) × (xs ≡ ys)
same_length_split [] [] xs ys h e = (refl, e)
same_length_split [] (b ∷ w) xs ys h e = absurd (omega arith)
same_length_split (a ∷ v) [] xs ys h e = absurd (omega arith)
same_length_split (a ∷ v) (b ∷ w) xs ys h e =
    let r = same_length_split v w xs ys (omega arith) (ground arith) in (ground (arith, r.0), r.1)

-- A field can be read back from the front of any text: nothing in `v` can shift its end.
pub write_field_split :
    (v w xs ys : Str) → write_field v ++ xs ≡ write_field w ++ ys → (v ≡ w) × (xs ≡ ys)
unfolding write_field
write_field_split v w xs ys e = same_length_split v w xs ys (decimal-injective _ _ r.0) r.1
  where
    r : (decimal (length v) ≡ decimal (length w)) × (v ++ xs ≡ w ++ ys)
    r =
        digits_split (decimal (length v)) (decimal (length w)) _ _ (decimal-IsDigit _)
          (decimal-IsDigit _)
          (sym (append_assoc (decimal (length v)) (b':' ∷ v) xs)
            ∙ (e ∙ append_assoc (decimal (length w)) (b':' ∷ w) ys))

entries : Map Str Str → List Str → List (Str × Str)
entries m [] = []
entries m (k ∷ ks) = (k, or_empty (get str_dec k m)) ∷ entries m ks

write_field-ne-nil : (v xs : Str) → write_field v ++ xs ≢ []
unfolding write_field
write_field-ne-nil v xs e = go (decimal (length v)) e
  where
    go : (ds : Str) → (ds ++ (b':' ∷ v)) ++ xs ≡ [] → ⊥
    go [] h = cc
    go (d ∷ ds) h = cc

write_params-injective :
    (m n : Map Str Str) (ks ls : List Str)
    → write_params m ks ≡ write_params n ls
    → entries m ks ≡ entries n ls
unfolding write_params entries
write_params-injective m n [] [] e = refl
write_params-injective m n [] (l ∷ ls) e = absurd (write_field-ne-nil l _ (sym e))
write_params-injective m n (k ∷ ks) [] e = absurd (write_field-ne-nil k _ e)
write_params-injective m n (k ∷ ks) (l ∷ ls) e =
    let key = write_field_split k l _ _ e in
    let value =
      write_field_split (or_empty (get str_dec k m)) (or_empty (get str_dec l n)) _ _ key.1 in
    let rest = write_params-injective m n ks ls value.1 in cc (key.0, value.0, rest)

-- Equal entry lists hold the same keys, with the same values.
entries_value :
    (m n : Map Str Str) (ks ls : List Str) (k : Str)
    → entries m ks ≡ entries n ls
    → In k ks
    → In k ls × (or_empty (get str_dec k m) ≡ or_empty (get str_dec k n))
unfolding entries
entries_value m n [] ls k e h = elim h [ ]
entries_value m n (j ∷ ks) [] k e h = cc
entries_value m n (j ∷ ks) (l ∷ ls) k e (inl h) =
    let same : j ≡ l = cc in
    let value : or_empty (get str_dec j m) ≡ or_empty (get str_dec l n) = cc in
    (
      inl (sym same ∙ h),
      subst (λ x. or_empty (get str_dec x m) ≡ or_empty (get str_dec x n)) h (value ∙ cc),
    )
entries_value m n (j ∷ ks) (l ∷ ls) k e (inr h) =
    let r = entries_value m n ks ls k (cc) h in (inr r.0, r.1)

module _ (s : Sorting) where
  params_agree :
      (m n : Map Str Str)
      → entries m (sorted_keys s m) ≡ entries n (sorted_keys s n)
      → (k : Str) (v : Str) → get str_dec k m ≡ some v
      → get str_dec k n ≡ some v
  unfolding sorted_keys
  params_agree m n e k v h =
      let listed =
        In-perm k (Permᴰ.symm (s.sort-perm Str str_lt (keys m))) (In-keys_of str_dec k v m h) in
      let r = entries_value m n _ _ k e listed in
      let other = get_of_In-keys str_dec k n (In-perm k (s.sort-perm Str str_lt (keys n)) r.0) in
      ground (arith, r.1, other.1)

  -- The bytes that are hashed into a check's ID determine its type, its target and its parameters:
  -- no choice of their contents makes two different checks hash the same bytes.
  pub id_preimage-injective :
      (a b : CheckSpec)
      → id_preimage s a ≡ id_preimage s b
      → (a.check_type ≡ b.check_type)
        × (a.target ≡ b.target)
        × ((k : Str) → get str_dec k a.params ≡ get str_dec k b.params)
  unfolding id_preimage
  id_preimage-injective a b e = (type.0, target.0, agree)
    where
      type :
          (a.check_type ≡ b.check_type)
          × (write_field a.target ++ write_params a.params (sorted_keys s a.params)
              ≡ write_field b.target ++ write_params b.params (sorted_keys s b.params))
      type = write_field_split a.check_type b.check_type _ _ e

      target :
          (a.target ≡ b.target)
          × (write_params a.params (sorted_keys s a.params)
              ≡ write_params b.params (sorted_keys s b.params))
      target = write_field_split a.target b.target _ _ type.1

      listed : entries a.params (sorted_keys s a.params) ≡ entries b.params (sorted_keys s b.params)
      listed = write_params-injective a.params b.params _ _ target.1

      agree : (k : Str) → get str_dec k a.params ≡ get str_dec k b.params
      agree k = elim (Option-cases (get str_dec k a.params)) [
        | inr (v, h) ↦ h ∙ sym (params_agree a.params b.params listed k v h)
        | inl h ↦ elim (Option-cases (get str_dec k b.params)) [
          | inl g ↦ h ∙ sym g
          | inr (v, g) ↦ params_agree b.params a.params (sym listed) k v g ∙ sym g
        ]
      ]
