-- ===== src/Api/Intervals.antt =====
-- The intervals that monitoredSpecs of hub/api/server.go takes from the subscriptions.
use libre_ping.Base.{
  ◌≡◌, refl, sym, ap, subst, ◌∙◌, ◌≢◌, ◌⊎◌, inl, inr, Option, none, some, List, [], ◌∷◌, arith,
  if◌then◌else◌, Bool-cases, UniqueKeys, Option-cases, In, All, ℤ, ltb_ℤ, ◌≤ℤ◌, Str, str_dec, Map,
  get, put, get-put_self, get-put_ne, split_if,
}
use libre_ping.Base.Maps.{put-UniqueKeys}
use libre_ping.Protocol.{SignedSubscription}
use libre_ping.Api.Assigned.{min_intervals, is_shorter, floored}

abbrev pub check : SignedSubscription → Str
check ss = ss.subscription.check_id

abbrev pub interval : SignedSubscription → ℤ
interval ss = floored ss.subscription.interval_seconds

abbrev pub AskedAt : List SignedSubscription → Str → ℤ → Type 0
AskedAt subs id iv = (ss : SignedSubscription) × In ss subs × (check ss ≡ id) × (interval ss ≡ iv)

abbrev pub NoneShorter : List SignedSubscription → Str → ℤ → Type 0
NoneShorter subs id iv = All (λ ss. check ss ≡ id → iv ≤ℤ interval ss) subs

abbrev AtMost : ℤ → Option ℤ → Type 0
AtMost iv none = Unit
AtMost iv (some cur) = iv ≤ℤ cur

AtMost-refl : (iv : ℤ) (o : Option ℤ) → o ≡ some iv → AtMost iv o
AtMost-refl iv none h = tt
AtMost-refl iv (some cur) h = let e : cur ≡ iv = cc in rw e (omega arith)

-- The map after one subscription.
abbrev noted : SignedSubscription → Map Str ℤ → Map Str ℤ
noted ss m =
    if is_shorter (interval ss) (get str_dec (check ss) m)
    then put str_dec (check ss) (interval ss) m
    else m

-- What the map has at the check: the subscription's interval, or its own.
noted_lem :
    (ss : SignedSubscription) (m : Map Str ℤ)
    → ((get str_dec (check ss) (noted ss m) ≡ some (interval ss))
        × ((iv : ℤ) → iv ≤ℤ interval ss → AtMost iv (get str_dec (check ss) m)))
      ⊎ ((cur : ℤ) × (get str_dec (check ss) m ≡ some cur)
          × (get str_dec (check ss) (noted ss m) ≡ some cur)
          × (cur ≤ℤ interval ss))
noted_lem ss m = elim (Option-cases (get str_dec (check ss) m)) [
  | inl q ↦ inl (rw (q, get-put_self) (refl, λ iv l. tt))
  | inr (cur, q) ↦ elim (Bool-cases (ltb_ℤ (interval ss) cur)) [
    | inl t ↦ inl (rw (q, t, get-put_self) (refl, λ iv l. ground arith))
    | inr f ↦ inr (cur, q, rw (q, f, q) refl, ground arith)
  ]
]

get-noted_ne :
    (ss : SignedSubscription) (m : Map Str ℤ) (id : Str)
    → check ss ≢ id
    → get str_dec id (noted ss m) ≡ get str_dec id m
get-noted_ne ss m id ne =
    split_if (λ x. get str_dec id x ≡ get str_dec id m)
      (is_shorter (interval ss) (get str_dec (check ss) m))
      (λ _. get-put_ne str_dec (check ss) id (interval ss) m ne) (λ _. refl)

-- The least interval of some subscriptions to a check, or of those before them.
pub min_intervals_lem :
    (subs : List SignedSubscription) (m : Map Str ℤ) (id : Str) (iv : ℤ)
    → get str_dec id (min_intervals subs m) ≡ some iv
    → (AskedAt subs id iv ⊎ (get str_dec id m ≡ some iv))
      × NoneShorter subs id iv
      × AtMost iv (get str_dec id m)
unfolding min_intervals
min_intervals_lem [] m id iv h = (inr h, tt, AtMost-refl iv (get str_dec id m) h)
min_intervals_lem (ss ∷ rest) m id iv h =
    let (found, none_shorter, at_most) = min_intervals_lem rest (noted ss m) id iv h in
    elim (str_dec (check ss) id) [
      | no ne ↦ (
        elim found [
          | inl (x, i, k, v) ↦ inl (x, inr i, k, v)
          | inr e ↦ inr (sym (get-noted_ne ss m id ne) ∙ e)
        ],
        (λ e. absurd (ne e), none_shorter),
        subst (AtMost iv) (get-noted_ne ss m id ne) at_most,
      )
      | yes p ↦ elim (noted_lem ss m) [
        | inl (q, below) ↦
            let now : get str_dec id (noted ss m) ≡ some (interval ss) =
              ap (λ k. get str_dec k (noted ss m)) (sym p) ∙ q in
            let l : iv ≤ℤ interval ss = subst (AtMost iv) now at_most in
            (
              elim found [
                | inl (x, i, k, v) ↦ inl (x, inr i, k, v)
                | inr e ↦
                    inl (ss, inl refl, p, let g : some (interval ss) ≡ some iv = sym now ∙ e in cc)
              ],
              (λ _. l, none_shorter),
              subst (λ k. AtMost iv (get str_dec k m)) p (below iv l),
            )
        | inr (cur, was, q, le) ↦
            let now : get str_dec id (noted ss m) ≡ some cur =
              ap (λ k. get str_dec k (noted ss m)) (sym p) ∙ q in
            let l : iv ≤ℤ cur = subst (AtMost iv) now at_most in
            (
              elim found [
                | inl (x, i, k, v) ↦ inl (x, inr i, k, v)
                | inr e ↦ inr (ap (λ k. get str_dec k m) (sym p) ∙ (was ∙ (sym now ∙ e)))
              ],
              (λ _. ground arith, none_shorter),
              subst (λ k. AtMost iv (get str_dec k m)) p (subst (AtMost iv) (sym was) l),
            )
      ]
    ]

pub min_intervals-UniqueKeys :
    (subs : List SignedSubscription) (m : Map Str ℤ)
    → UniqueKeys m
    → UniqueKeys (min_intervals subs m)
unfolding min_intervals
min_intervals-UniqueKeys [] m u = u
min_intervals-UniqueKeys (ss ∷ rest) m u = min_intervals-UniqueKeys rest (noted ss m) (
    split_if UniqueKeys (is_shorter (interval ss) (get str_dec (check ss) m))
      (λ _. put-UniqueKeys str_dec (check ss) (interval ss) m u) (λ _. u))
