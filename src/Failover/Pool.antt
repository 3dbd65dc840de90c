-- ===== src/Failover/Pool.antt =====
-- How the pool of probe/reporter/failover.go grows.
use libre_ping.Base.{
  or_false, ◌≤◌, ◌<◌, ◌≡◌, refl, sym, ap, subst, ◌∙◌, ◌≢◌, ◌↔◌, inl, inr, Bool, true, false, not,
  ◌||◌, Option, none, some, List, [], ◌∷◌, ◌++◌, map, arith, leb, ◌==◌, Bool-cases, length, In, Str,
  str_dec, str_eq, get, put, In-append, In-append_left, In-append_right, length-append,
  get-put_self, get-put_ne,
}
use mathlib.Core.List.{append_assoc, append-nil, map-append}
use libre_ping.Failover.{
  Candidate, FailoverClient, max_candidates, add_url, add_urls, new_failover_client, learned,
  discover,
}

abbrev pub urls_of : FailoverClient → List Str
urls_of f = map (λ c. c.url) f.candidates

abbrev pub NoRepeat : List Str → Type 0
NoRepeat [] = Unit
NoRepeat (u ∷ us) = (¬ In u us) × NoRepeat us

NoRepeat-append : (u : Str) (us : List Str) → ¬ In u us → NoRepeat us → NoRepeat (us ++ (u ∷ []))
NoRepeat-append u [] new h = ((λ i. i), tt)
NoRepeat-append u (v ∷ us) new h = (
  λ i. elim (In-append v us (u ∷ []) i) [
    | inl j ↦ h.0 j
    | inr j ↦ elim j [ inl e ↦ new (inl (sym e)) | inr k ↦ k ]
  ],
  NoRepeat-append u us (λ i. new (inr i)) h.1,
)

-- The pool is bounded, no URL is in it twice or empty, and the URLs seen are those in it.
pub record IsPool (f : FailoverClient) : Type 0 where
  pub bounded : length f.candidates ≤ max_candidates
  pub unique : NoRepeat (urls_of f)
  pub named : ¬ In [] (urls_of f)
  pub known : (u : Str) → (or_false (get str_dec u f.seen) ≡ true) ↔ In u (urls_of f)

added-IsPool :
    (f : FailoverClient) (u : Str)
    → u ≢ []
    → or_false (get str_dec u f.seen) ≡ false
    → length f.candidates < max_candidates
    → IsPool f
    → IsPool (record f {
      seen = put str_dec u true f.seen;
      candidates = f.candidates ++ (record { url = u; cooldown_until = none } ∷ []);
    })
added-IsPool f u filled fresh room pool =
    let split =
      map-append (λ c. c.url) f.candidates (record { url = u; cooldown_until = none } ∷ []) in
    let new : ¬ In u (urls_of f) = λ i. let k = (pool.known u).1 i in absurd cc in
    record {
      bounded =
          omega
            (arith, length-append f.candidates (record { url = u; cooldown_until = none } ∷ []));
      unique = subst NoRepeat (sym split) (NoRepeat-append u (urls_of f) new pool.unique);
      named = λ i. elim (In-append [] (urls_of f) (u ∷ []) (subst (In []) split i)) [
        | inl j ↦ pool.named j
        | inr j ↦ elim j [ inl e ↦ filled e | inr k ↦ k ]
      ];
      known = λ v. (
        λ h. subst (In v) (sym split) (elim (str_dec u v) [
          | yes e ↦ In-append_right v (urls_of f) (u ∷ []) (inl e)
          | no ne ↦
              In-append_left v (urls_of f) (u ∷ [])
                ((pool.known v).0 (sym (ap or_false (get-put_ne str_dec u v true f.seen ne)) ∙ h))
        ]),
        λ i. elim (str_dec u v) [
          | yes e ↦
              subst (λ w. or_false (get str_dec w (put str_dec u true f.seen)) ≡ true) e
                (ap or_false (get-put_self str_dec u true f.seen))
          | no ne ↦ elim (In-append v (urls_of f) (u ∷ []) (subst (In v) split i)) [
            | inl j ↦ ap or_false (get-put_ne str_dec u v true f.seen ne) ∙ (pool.known v).1 j
            | inr j ↦ elim j [ inl e ↦ absurd (ne e) | inr k ↦ elim k [ ] ]
          ]
        ],
      );
    }

-- The pool grew by candidates at its end.
abbrev pub Extends : FailoverClient → FailoverClient → Type 0
Extends f g = (more : List Candidate) × (g.candidates ≡ f.candidates ++ more)

Extends-refl : (f : FailoverClient) → Extends f f
Extends-refl f = ([], sym (append-nil f.candidates))

add_url-IsPool :
    (f : FailoverClient) (u : Str) → IsPool f → IsPool (add_url f u) × Extends f (add_url f u)
unfolding add_url
add_url-IsPool f u pool =
    elim (Bool-cases (
      (str_eq u [] || or_false (get str_dec u f.seen))
      || leb max_candidates (length f.candidates))) [
        | inl t ↦ rw t (pool, Extends-refl f)
        | inr n ↦ rw n (
          added-IsPool f u (λ e. ground arith) (ground arith) (ground arith) pool,
          (record { url = u; cooldown_until = none } ∷ [], refl),
        )
      ]

add_urls-IsPool :
    (f : FailoverClient) (us : List Str)
    → IsPool f
    → IsPool (add_urls f us) × Extends f (add_urls f us)
unfolding add_urls
add_urls-IsPool f [] pool = (pool, Extends-refl f)
add_urls-IsPool f (u ∷ us) pool =
    let (next, (m, e)) = add_url-IsPool f u pool in
    let (last, (n, d)) = add_urls-IsPool (add_url f u) us next in
    (last, (m ++ n, d ∙ ap (λ l. l ++ n) e ∙ append_assoc f.candidates m n))

-- A pool made from any seeds has at most 32 hubs, none of them twice and none without a URL, and
-- knows exactly their URLs.
pub new_failover_client-IsPool :
    (seeds : List Str) (enabled : Bool) → IsPool (new_failover_client seeds enabled)
unfolding new_failover_client get
new_failover_client-IsPool seeds enabled =
    (add_urls-IsPool (record { discover_enabled = enabled; candidates = []; cur = 0; seen = [] })
      seeds
      (record {
        bounded = omega arith;
        unique = tt;
        named = λ i. i;
        known = λ u. (λ e. absurd cc, λ i. elim i [ ]);
      })).0

-- Whatever a directory answers, discovery keeps the pool within its bound and without repeats, and
-- keeps every hub that was in it, in its place.
pub discover-IsPool :
    (f : FailoverClient) (answer : Option (List Str))
    → IsPool f
    → IsPool (discover f answer) × Extends f (discover f answer)
unfolding discover
discover-IsPool f answer pool = elim (Bool-cases (not f.discover_enabled)) [
  | inl t ↦ rw t (pool, Extends-refl f)
  | inr n ↦ elim (Bool-cases (length f.candidates == 0)) [
    | inl t ↦ rw (n, t) (pool, Extends-refl f)
    | inr m ↦ rw (n, m) (grown answer)
  ]
]
  where
    grown : (a : Option (List Str)) → IsPool (learned f a) × Extends f (learned f a)
    grown none = (pool, Extends-refl f)
    grown (some us) = add_urls-IsPool f us pool
