-- ===== src/Outbox/Ring.antt =====
-- The bound and the order of the outbox of hub/outbox/outbox.go.
use libre_ping.Base.{
  ℕ, zero, suc, ◌+◌, ◌-◌, ◌≤◌, ◌≡◌, refl, sym, ap, ◌∙◌, not, Option, some, List, [], ◌∷◌, ◌++◌, map,
  arith, length, drop, select, ℤ, pos, ltb_ℤ, ◌-ℤ◌, length-append, length-drop,
}
use mathlib.Core.List.{append_assoc, append-nil}
use libre_ping.Protocol.{SignedResult}
use libre_ping.Outbox.{Item, Outbox, keep_last, add, recent_loop, recent}

-- The results of a history of Adds, each with its time, applied in turn.
unfoldable pub add_all : Option Outbox → List Item → Option Outbox
add_all o [] = o
add_all o (it ∷ rest) = add_all (add it.at o it.sr) rest

-- The last n elements of a list.
abbrev pub last_n : ℕ → List Item → List Item
last_n n l = drop (length l - n) l

drop-nil : (m : ℕ) → drop {A = Item} m [] ≡ []
drop-nil zero = refl
drop-nil (suc m) = refl

drop-drop : (m n k : ℕ) (l : List Item) → n + m ≡ k → drop m (drop n l) ≡ drop k l
drop-drop m zero k l h = ap (λ i. drop i l) (omega arith)
drop-drop m (suc n) zero l h = absurd (omega arith)
drop-drop m (suc n) (suc k) [] h = drop-nil m
drop-drop m (suc n) (suc k) (x ∷ l) h = drop-drop m n k l (omega arith)

drop-append : (n : ℕ) (l r : List Item) → n ≤ length l → drop n (l ++ r) ≡ drop n l ++ r
drop-append zero l r h = refl
drop-append (suc n) [] r h = absurd (omega arith)
drop-append (suc n) (x ∷ l) r h = drop-append n l r (omega arith)

last_n-append : (n : ℕ) (l r : List Item) → last_n n (last_n n l ++ r) ≡ last_n n (l ++ r)
last_n-append n l r =
    ap (last_n n) (sym (drop-append (length l - n) l r (omega arith)))
    ∙ drop-drop _ (length l - n) (length (l ++ r) - n) (l ++ r)
        (omega (arith, length-drop (length l - n) (l ++ r), length-append l r))

last_n_of_length-le : (n : ℕ) (l : List Item) → length l ≤ n → last_n n l ≡ l
last_n_of_length-le n l h = let e : length l - n ≡ 0 = omega arith in ap (λ i. drop i l) e

length-last_n : (n : ℕ) (l : List Item) → length (last_n n l) ≤ n
length-last_n n l = omega (arith, length-drop (length l - n) l)

keep_last-last_n : (n : ℕ) (l : List Item) → keep_last (pos n) l ≡ last_n n l
keep_last-last_n n l = ground (arith, last_n_of_length-le n l)

add-last_n :
    (o : Outbox) (it : Item) (n : ℕ)
    → o.max_n ≡ pos n
    → add it.at (some o) it.sr ≡ some (record o { items = last_n n (o.items ++ (it ∷ [])) })
unfolding add
add-last_n o it n bound =
    ap (λ l. some (record o { items = l }))
      (ap (λ i. keep_last i (o.items ++ (it ∷ []))) bound
        ∙ keep_last-last_n n (o.items ++ (it ∷ [])))

-- After any history of Adds the outbox holds the last `max_n` of the items that it held and was
-- given, in order: only the oldest are ever evicted, and never below the bound.
pub add_all_lem :
    (o : Outbox) (its : List Item) (n : ℕ)
    → o.max_n ≡ pos n
    → length o.items ≤ n
    → add_all (some o) its ≡ some (record o { items = last_n n (o.items ++ its) })
unfolding add_all add
add_all_lem o [] n bound fits = rw (append-nil o.items, last_n_of_length-le n o.items fits) refl
add_all_lem o (it ∷ its) n bound fits =
    ap (λ x. add_all x its) (add-last_n o it n bound)
    ∙ add_all_lem (record o { items = last_n n (o.items ++ (it ∷ [])) }) its n bound
        (length-last_n n (o.items ++ (it ∷ [])))
    ∙ ap (λ l. some (record o { items = l }))
        (last_n-append n (o.items ++ (it ∷ [])) its
          ∙ ap (last_n n) (append_assoc o.items (it ∷ []) its))

recent_loop_lem :
    (cutoff : ℤ) (items kept : List Item) (out : List SignedResult)
    → recent_loop cutoff items kept out ≡ (
      kept ++ select (λ it. not (ltb_ℤ it.at cutoff)) items,
      out ++ map (λ it. it.sr) (select (λ it. not (ltb_ℤ it.at cutoff)) items),
    )
unfolding recent_loop
recent_loop_lem cutoff [] kept out = ground (arith, append-nil kept, append-nil out)
recent_loop_lem cutoff (it ∷ items) kept out =
    recent_loop_lem cutoff items _ _
    ∙ ground (
      arith,
      append_assoc kept (it ∷ []) (select (λ x. not (ltb_ℤ x.at cutoff)) items),
      append_assoc out (it.sr ∷ []) (map (λ x. x.sr) (select (λ x. not (ltb_ℤ x.at cutoff)) items)),
    )

-- Recent answers the results of the items that are not older than the age limit, in order, and
-- keeps exactly those items.
pub recent_lem :
    (now : ℤ) (o : Outbox)
    → let kept = select (λ it. not (ltb_ℤ it.at (now -ℤ o.max_age))) o.items in
      recent now (some o) ≡ (some (record o { items = kept }), map (λ it. it.sr) kept)
unfolding recent
recent_lem now o =
    ap (λ p. (some (record o { items = p.0 }), p.1))
      (recent_loop_lem (now -ℤ o.max_age) o.items [] [])
