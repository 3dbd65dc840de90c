-- ===== src/Failover/Attempts.antt =====
-- A call over the pool of probe/reporter/failover.go reaches every hub of it before it fails.
use libre_ping.Base.{
  ℕ, zero, suc, ◌+◌, ◌-◌, ◌%◌, ◌≤◌, ◌<◌, ◌≡◌, refl, sym, ap, subst, ◌∙◌, ◌≢◌, ◌↔◌, inl, inr, Bool,
  true, not, Option, none, some, List, [], ◌∷◌, arith, ℕ_discrete, leb, ◌==◌, if◌then◌else◌,
  Bool-cases, Option-cases, length, select, In, All, ℤ, ◌+ℤ◌, Str, All_of, In-append,
  In-append_left, In-append_right, In-select, In-select_of, In-map, In-map_inv,
}
use libre_ping.Base.Lists.{get_elem?}
use native.Mathlib.Nat.{mod-lt, mod-add-mod, mod-eq_of_lt, add-mod_right}
use libre_ping.Failover.{Candidate, FailoverClient}
use libre_ping.Failover.Calls.{
  failover_cooldown, is_cooled, indices, rotation, attempt_order, set_cooldown, try_hubs, do_call,
}

In-indices : (j i n : ℕ) → i ≤ j → j < i + n → In j (indices i n)
In-indices j i zero l u = absurd (omega arith)
In-indices j i (suc n) l u = elim (ℕ_discrete i j) [
  | yes p ↦ inl p
  | no ne ↦ inr (In-indices j (suc i) n (omega arith) (omega arith))
]

-- How far on from the start an index is.
turn : (start n j : ℕ) → j < n → (i : ℕ) × (i < n) × ((start + i) % n ≡ j)
turn start n j h =
    let s = start % n in
    let lt = mod-lt start {m = n} (omega arith) in
    elim (Bool-cases (leb s j)) [
      | inl t ↦ (
        j - s,
        omega arith,
        sym (mod-add-mod start n (j - s))
            ∙ (ap (λ x. x % n) (let e : s + (j - s) ≡ j = ground arith in e) ∙ mod-eq_of_lt h),
      )
      | inr f ↦ (
        j + n - s,
        ground arith,
        sym (mod-add-mod start n (j + n - s))
            ∙ (ap (λ x. x % n) (let e : s + (j + n - s) ≡ j + n = ground arith in e)
                ∙ (add-mod_right j n ∙ mod-eq_of_lt h)),
      )
    ]

-- Every index below n is on the way round, wherever it starts.
In-rotation : (start n j : ℕ) → j < n → In j (rotation start n)
In-rotation start n j h =
    let (i, l, e) = turn start n j h in
    subst (λ x. In x (rotation start n)) e
      (In-map (λ x. (start + x) % n) i (indices 0 n) (In-indices i 0 n (omega arith) (omega arith)))

In-attempt_order :
    (now : ℤ) (start j : ℕ) (cs : List Candidate)
    → j < length cs
    → In j (attempt_order now start cs)
unfolding attempt_order
In-attempt_order now start j cs h =
    let i = In-rotation start (length cs) j h in
    elim (Bool-cases (is_cooled now (get_elem? cs j))) [
      | inl t ↦ In-append_right j _ _ (In-select_of (λ x. is_cooled now (get_elem? cs x)) j _ i t)
      | inr f ↦
          In-append_left j _ _
            (In-select_of (λ x. not (is_cooled now (get_elem? cs x))) j _ i (rw f refl))
    ]

-- The URL at an index, which no attempt changes.
abbrev url_of : Option Candidate → Option Str
url_of none = none
url_of (some c) = some c.url

url_of-set_cooldown :
    (i j : ℕ) (t : Option ℤ) (cs : List Candidate)
    → url_of (get_elem? (set_cooldown i t cs) j) ≡ url_of (get_elem? cs j)
unfolding set_cooldown
url_of-set_cooldown i j t [] = refl
url_of-set_cooldown zero zero t (c ∷ cs) = refl
url_of-set_cooldown zero (suc j) t (c ∷ cs) = refl
url_of-set_cooldown (suc i) zero t (c ∷ cs) = refl
url_of-set_cooldown (suc i) (suc j) t (c ∷ cs) = url_of-set_cooldown i j t cs

length-set_cooldown :
    (i : ℕ) (t : Option ℤ) (cs : List Candidate) → length (set_cooldown i t cs) ≡ length cs
unfolding set_cooldown
length-set_cooldown i t [] = refl
length-set_cooldown zero t (c ∷ cs) = refl
length-set_cooldown (suc i) t (c ∷ cs) = ap suc (length-set_cooldown i t cs)

In-attempt_order_inv :
    (now : ℤ) (start j : ℕ) (cs : List Candidate)
    → length cs ≢ 0
    → In j (attempt_order now start cs)
    → j < length cs
unfolding attempt_order
In-attempt_order_inv now start j cs ne i =
    let all = rotation start (length cs) in
    let warm : ℕ → Bool = λ x. not (is_cooled now (get_elem? cs x)) in
    let cold : ℕ → Bool = λ x. is_cooled now (get_elem? cs x) in
    let r : In j all = elim (In-append j (select warm all) (select cold all) i) [
      | inl l ↦ (In-select warm j all l).0
      | inr l ↦ (In-select cold j all l).0
    ] in
    let (x, _, e) = In-map_inv (λ x. (start + x) % length cs) j (indices 0 (length cs)) r in
    subst (λ y. y < length cs) e (mod-lt (start + x) {m = length cs} (positive (length cs) ne))
  where
    positive : (n : ℕ) → n ≢ 0 → 0 < n
    positive n ne = omega arith

get_elem-lt :
    (cs : List Candidate) (i : ℕ) → i < length cs → (c : Candidate) × (get_elem? cs i ≡ some c)
get_elem-lt [] i h = absurd (omega arith)
get_elem-lt (c ∷ cs) zero h = (c, refl)
get_elem-lt (c ∷ cs) (suc i) h = get_elem-lt cs i (omega arith)

pub none-some : {A : Type 0} (a : A) → none ≢ some a
none-some a e = cc

module _ {A : Type 0} (call : Str → Option A) (clock : ℕ → ℤ) where
  -- What the hub at an index answers.
  abbrev answer_of : Option Str → Option A
  answer_of none = none
  answer_of (some u) = call u

  unfoldable answer_at : List Candidate → ℕ → Option A
  answer_at cs i = answer_of (url_of (get_elem? cs i))

  answer_at-set_cooldown :
      (i j : ℕ) (t : Option ℤ) (cs : List Candidate)
      → answer_at (set_cooldown i t cs) j ≡ answer_at cs j
  unfolding answer_at
  answer_at-set_cooldown i j t cs = ap answer_of (url_of-set_cooldown i j t cs)

  answer_at-get_elem :
      (cs : List Candidate) (i : ℕ) (c : Candidate)
      → get_elem? cs i ≡ some c
      → answer_at cs i ≡ call c.url
  unfolding answer_at
  answer_at-get_elem cs i c q = ap (λ o. answer_of (url_of o)) q

  -- The attempts succeed if the hub at one of the indices answers.
  try_hubs-succeeds :
      (k : ℕ) (order : List ℕ) (f : FailoverClient) (j : ℕ) (a : A)
      → All (λ i. i < length f.candidates) order
      → In j order
      → answer_at f.candidates j ≡ some a
      → (b : A) × ((try_hubs call clock k order f).0 ≡ some b)
  unfolding try_hubs
  try_hubs-succeeds k [] f j a v i h = elim i [ ]
  try_hubs-succeeds k (x ∷ rest) f j a v i h =
      let (c, q) = get_elem-lt f.candidates x v.0 in
      elim (Option-cases (call c.url)) [
        | inr (b, r) ↦ (b, rw (try_hubs, q, r) refl)
        | inl r ↦
            let cs = set_cooldown x (some (clock k +ℤ failover_cooldown)) f.candidates in
            let failed : FailoverClient = record f { candidates = cs } in
            let refused : answer_at f.candidates x ≡ none =
              answer_at-get_elem f.candidates x c q ∙ r in
            let later : In j rest = elim i [
              | inl p ↦ absurd (none-some a (sym refused ∙ (ap (answer_at f.candidates) p ∙ h)))
              | inr l ↦ l
            ] in
            let (b, e) =
              try_hubs-succeeds (suc k) rest failed j a (rw length-set_cooldown v.1) later
                (answer_at-set_cooldown x j _ f.candidates ∙ h) in
            (b, rw (try_hubs, q, r) e)
      ]

  -- The attempts fail if no hub answers.
  try_hubs-fails :
      (k : ℕ) (order : List ℕ) (f : FailoverClient)
      → ((j : ℕ) → answer_at f.candidates j ≡ none)
      → (try_hubs call clock k order f).0 ≡ none
  unfolding try_hubs
  try_hubs-fails k [] f h = refl
  try_hubs-fails k (x ∷ rest) f h = elim (Option-cases (get_elem? f.candidates x)) [
    | inl q ↦ rw (try_hubs, q) refl
    | inr (c, q) ↦
        let r = sym (answer_at-get_elem f.candidates x c q) ∙ h x in
        rw (try_hubs, q, r)
          (try_hubs-fails (suc k) rest _ (λ j. answer_at-set_cooldown x j _ f.candidates ∙ h j))
  ]

  All-answer_at :
      (cs : List Candidate) → All (λ c. call c.url ≡ none) cs → (j : ℕ) → answer_at cs j ≡ none
  unfolding answer_at
  All-answer_at [] h j = refl
  All-answer_at (c ∷ cs) h zero = h.0
  All-answer_at (c ∷ cs) h (suc j) = All-answer_at cs h.1 j

  answer_at-All :
      (cs : List Candidate)
      → ((j : ℕ) → j < length cs → answer_at cs j ≡ none)
      → All (λ c. call c.url ≡ none) cs
  unfolding answer_at
  answer_at-All [] h = tt
  answer_at-All (c ∷ cs) h = (h 0 (omega arith), answer_at-All cs (λ j l. h (suc j) (omega arith)))

  -- Every index of the order is one of the pool.
  order-lt :
      (now : ℤ) (start : ℕ) (cs : List Candidate)
      → length cs ≢ 0
      → All (λ i. i < length cs) (attempt_order now start cs)
  order-lt now start cs ne =
      All_of (λ i. i < length cs) (attempt_order now start cs)
        (λ i l. In-attempt_order_inv now start i cs ne l)

  -- Whoever would answer is reached.
  try_hubs-reaches :
      (now : ℤ) (start : ℕ) (f : FailoverClient)
      → length f.candidates ≢ 0
      → (try_hubs call clock 0 (attempt_order now start f.candidates) f).0 ≡ none
      → All (λ c. call c.url ≡ none) f.candidates
  try_hubs-reaches now start f ne failed = answer_at-All f.candidates (λ j l.
      elim (Option-cases (answer_at f.candidates j)) [
        | inl e ↦ e
        | inr (a, e) ↦
            let (b, r) =
              try_hubs-succeeds 0 (attempt_order now start f.candidates) f j a
                (order-lt now start f.candidates ne) (In-attempt_order now start j f.candidates l)
                e in
            absurd (none-some b (sym failed ∙ r))
      ])

  -- A call over the pool never gives up early: whether it prefers the configured order or stays with
  -- the current hub, and whatever cooldowns run, it fails exactly if none of the pool's hubs answers.
  pub do_call_fails_iff :
      (now : ℤ) (prefer_home : Bool) (f : FailoverClient)
      → ((do_call call clock now prefer_home f).0 ≡ none)
        ↔ All (λ c. call c.url ≡ none) f.candidates
  unfolding do_call
  do_call_fails_iff now prefer_home f =
      let start = if prefer_home then 0 else f.cur in
      elim (Bool-cases (length f.candidates == 0)) [
        | inl t ↦ (λ _. empty-All f.candidates t, λ _. rw t refl)
        | inr e ↦ (
          λ h. try_hubs-reaches now start f (ground arith) (rw e at h),
          λ h. rw e (
              try_hubs-fails 0 (attempt_order now start f.candidates) f
                (All-answer_at f.candidates h)),
        )
      ]
    where
      empty-All : (cs : List Candidate) → (length cs == 0) ≡ true → All (λ c. call c.url ≡ none) cs
      empty-All [] t = tt
      empty-All (c ∷ cs) t = absurd (ground arith)
