-- ===== src/Hub/Backfill/Ending.antt =====
-- Paging backward through a holder ends (the loop of hub/main.go over the pages of a holder).
use libre_ping.Base.{
  [], ℕ, zero, suc, ◌≡◌, refl, subst, inl, inr, true, false, Option, none, some, List, ◌∷◌, arith,
  ltb, if◌then◌else◌, Bool-cases, length, All, ℤ, pos, ltb_ℤ, ◌≤ℤ◌, ◌<ℤ◌, ◌+ℤ◌, ◌-ℤ◌, pos_part,
  split_if,
}
use libre_ping.Protocol.{SignedResult}
use libre_ping.Hub.{Env}
use libre_ping.Hub.Backfill.{backfill_page, backfill_max_per_shard, Progress, take_page, pull}

module _ (e : Env) where
  -- The end of the window that a query asks for: its cursor, or a time after every result.
  abbrev pub window_end : ℤ → ℤ → ℤ
  window_end after before = if ltb_ℤ (pos 0) before then before else after

  -- The results of an answer, if there is one.
  abbrev pub answered : Option (List SignedResult) → List SignedResult
  answered none = []
  answered (some res) = res

  -- A cursor that paging can reach.
  abbrev pub IsCursor : ℤ → ℤ → Type 0
  IsCursor after before = (pos 0 ≤ℤ before) × (before ≤ℤ after)

  -- A holder that keeps to the query: its results lie in the window, and before the cursor.
  abbrev pub KeepsTo : ℤ → ℤ → (ℕ → ℤ → Option (List SignedResult)) → Type 0
  KeepsTo since after fetch =
      (k : ℕ) (before : ℤ)
      → IsCursor after before
      → All
          (λ sr.
            (since ≤ℤ sr.content.timestamp_ms)
            × (sr.content.timestamp_ms <ℤ window_end after before))
          (answered (fetch k before))

  take_page-oldest :
      (now lo hi : ℤ) (rs : List SignedResult) (oldest : ℤ) (p : Progress)
      → All (λ sr. (lo ≤ℤ sr.content.timestamp_ms) × (sr.content.timestamp_ms <ℤ hi)) rs
      → lo ≤ℤ oldest
      → oldest <ℤ hi
      → (lo ≤ℤ (take_page e now rs oldest p).0) × ((take_page e now rs oldest p).0 <ℤ hi)
  unfolding take_page
  take_page-oldest now lo hi [] oldest p h l u = (l, u)
  take_page-oldest now lo hi (sr ∷ rs) oldest p h l u =
      take_page-oldest now lo hi rs _ _ h.1 (ground arith) (ground arith)

  module _ (clock : ℕ → ℤ) (fetch : ℕ → ℤ → Option (List SignedResult)) (since after : ℤ)
      (positive : pos 0 <ℤ since) (window : since ≤ℤ after)
      (honest : KeepsTo since after fetch) where
    abbrev InWindow : ℤ → SignedResult → Type 0
    InWindow before sr =
        (since ≤ℤ sr.content.timestamp_ms) × (sr.content.timestamp_ms <ℤ window_end after before)

    -- The cursor after a page lies before the end of the page's window.
    next_cursor :
        (k : ℕ) (before : ℤ) (r : SignedResult) (rs : List SignedResult) (p : Progress)
        → All (InWindow before) (r ∷ rs)
        → let next = (take_page e (clock k) (r ∷ rs) r.content.timestamp_ms p).0 in
          (since ≤ℤ next) × (next <ℤ window_end after before)
    next_cursor k before r rs p h =
        take_page-oldest (clock k) since (window_end after before) (r ∷ rs) r.content.timestamp_ms p
          h h.0.0 h.0.1

    -- With f rounds after the next one, the loop ends if the window is no longer than f.
    abbrev Ends : ℕ → Type 0
    Ends f =
        (k : ℕ) (before : ℤ) (p : Progress)
        → IsCursor after before
        → window_end after before ≤ℤ since +ℤ pos f
        → (out : Progress) × (pull e clock fetch (suc f) k before p ≡ some out)

    next_IsCursor :
        (before next : ℤ)
        → IsCursor after before
        → (since ≤ℤ next) × (next <ℤ window_end after before)
        → IsCursor after next
    next_IsCursor before next i c = (ground arith, ground arith)

    closer :
        (f : ℕ) (before next : ℤ)
        → window_end after before ≤ℤ since +ℤ pos (suc f)
        → (since ≤ℤ next) × (next <ℤ window_end after before)
        → window_end after next ≤ℤ since +ℤ pos f
    closer f before next h c =
        split_if (λ z. z ≤ℤ since +ℤ pos f) (ltb_ℤ (pos 0) next) (λ _. ground arith)
          (λ n. absurd (ground arith))

    pull_answer :
        (f k : ℕ) (before : ℤ) (p : Progress) (ans : Option (List SignedResult))
        → ((g : ℕ) → f ≡ suc g → Ends g)
        → IsCursor after before
        → window_end after before ≤ℤ since +ℤ pos f
        → ltb p.total backfill_max_per_shard ≡ true
        → fetch k before ≡ ans
        → All (InWindow before) (answered ans)
        → (out : Progress) × (pull e clock fetch (suc f) k before p ≡ some out)
    unfolding pull
    pull_answer f k before p none again i h room q w = (p, rw (pull, room, q) refl)
    pull_answer f k before p (some []) again i h room q w = (p, rw (pull, room, q) refl)
    pull_answer zero k before p (some (r ∷ rs)) again i h room q w = absurd (ground (arith, w.0))
    pull_answer (suc f) k before p (some (r ∷ rs)) again i h room q w =
        elim (Bool-cases (ltb (length (r ∷ rs)) backfill_page)) [
          | inl small ↦ (
            (take_page e (clock k) (r ∷ rs) r.content.timestamp_ms p).1,
            rw (pull, room, q, small) refl,
          )
          | inr full ↦
              let page = take_page e (clock k) (r ∷ rs) r.content.timestamp_ms p in
              let (out, e) =
                again f refl (suc k) page.0 page.1
                  (next_IsCursor before page.0 i (next_cursor k before r rs p w))
                  (closer f before page.0 h (next_cursor k before r rs p w)) in
              (out, rw (pull, room, q, full) e)
        ]

    pull_over :
        (f k : ℕ) (before : ℤ) (p : Progress)
        → ltb p.total backfill_max_per_shard ≡ false
        → pull e clock fetch (suc f) k before p ≡ some p
    unfolding pull
    pull_over f k before p full = rw (pull, full) refl

    pull_once : (f : ℕ) → ((g : ℕ) → f ≡ suc g → Ends g) → Ends f
    pull_once f again k before p i h = elim (Bool-cases (ltb p.total backfill_max_per_shard)) [
      | inr full ↦ (p, pull_over f k before p full)
      | inl room ↦ pull_answer f k before p (fetch k before) again i h room refl (honest k before i)
    ]

    pull_within : (f : ℕ) → Ends f
    pull_within zero = pull_once zero (λ g e. absurd (omega arith))
    pull_within (suc f) = pull_once (suc f) (λ g e. subst Ends (omega arith) (pull_within f))

    -- Paging backward through a holder that keeps to the queries ends, whatever the holder leaves
    -- out: one round more than the window has milliseconds is enough fuel, where the window begins
    -- after the epoch.
    pub pull-ends :
        (p : Progress)
        → (out : Progress) × (pull e clock fetch (suc (pos_part (after -ℤ since))) 0 (pos 0) p
            ≡ some out)
    pull-ends p =
        pull_within (pos_part (after -ℤ since)) 0 (pos 0) p (ground arith, ground arith)
          (ground arith)
