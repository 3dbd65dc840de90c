-- ===== src/Hub/Backfill/Stored.antt =====
-- What backfill of hub/main.go stores.
use libre_ping.Base.{
  ℕ, zero, suc, ◌≡◌, refl, subst, ◌⊎◌, inl, inr, true, not, Option, none, some, List, [], ◌∷◌,
  arith, ltb, if◌then◌else◌, Bool-cases, Option-cases, length, In, All, ℤ, pos, ◌≤ℤ◌, ◌+ℤ◌, ◌-ℤ◌,
  str_dec, get, InInt64, All_of, All-append, split_if,
}
use libre_ping.Protocol.{SignedResult, ok, passes}
use libre_ping.Protocol.Verify.{verify_result}
use libre_ping.Trust.{allow}
use libre_ping.Interest.{holds}
use libre_ping.Admit
use libre_ping.Admit.Window.{result_iff}
use libre_ping.Hub.{Env, Stores, look, ingest}
use libre_ping.Hub.Backfill.{
  Progress, take_result, take_page, pull, backfill_max_per_shard, backfill_page,
}
use libre_ping.Hub.Backfill.Ending.{answered}
use libre_ping.Mesh.Gate.{passes_ok}
use libre_ping.Mesh.Vetted.{IsSafe}
use libre_ping.Mesh.Vouched.{ingest-IsSafe}
use libre_ping.Store.Results.{MemStore, insert, dedupe_key}

-- Stored before, or dated at most a day before a time.
abbrev pub IsRecent : ℤ → List SignedResult → SignedResult → Type 0
IsRecent start old sr = In sr old ⊎ (start ≤ℤ sr.content.timestamp_ms +ℤ pos 86400000)

-- The clock does not run back behind the start, and is away from the ends of int64.
abbrev pub IsClock : ℤ → ℤ → Type 0
IsClock start now = (start ≤ℤ now) × InInt64 (now +ℤ pos 120000) × InInt64 (now -ℤ pos 86400000)

module _ (e : Env) where
  -- A result that the policy admits is stored as one that the mesh delivers.
  stores-take_result :
      (now : ℤ) (sr : SignedResult) (p : Progress)
      → (take_result e now sr p).stores
        ≡ (if allow e.policy sr.content.probe_id then ingest e.crypto now sr p.stores else p.stores)
  unfolding take_result ingest
  stores-take_result now sr p = ground arith

  take_result-IsSafe :
      (now : ℤ) (sr : SignedResult) (p : Progress)
      → verify_result e.crypto e.json sr ≡ ok tt
      → IsSafe e p.stores
      → IsSafe e (take_result e now sr p).stores
  take_result-IsSafe now sr p v s = rw stores-take_result (
      split_if (IsSafe e) (allow e.policy sr.content.probe_id)
        (λ a. ingest-IsSafe e now sr p.stores (v, a) s) (λ _. s))

  pub take_page-IsSafe :
      (now : ℤ) (rs : List SignedResult) (oldest : ℤ) (p : Progress)
      → All (λ sr. verify_result e.crypto e.json sr ≡ ok tt) rs
      → IsSafe e p.stores
      → (IsSafe e) (take_page e now rs oldest p).1.stores
  unfolding take_page
  take_page-IsSafe now [] oldest p v s = s
  take_page-IsSafe now (sr ∷ rs) oldest p v s =
      take_page-IsSafe now rs _ _ v.1 (take_result-IsSafe now sr p v.0 s)

  module _ (clock : ℕ → ℤ) (fetch : ℕ → ℤ → Option (List SignedResult)) (P : Progress → Type 0)
      (Q : SignedResult → Type 0)
      (keeps : (k : ℕ) (sr : SignedResult) (p : Progress)
        → Q sr
        → P p
        → P (take_result e (clock k) sr p))
      (fetched : (k : ℕ) (before : ℤ) → All Q (answered e (fetch k before))) where
    take_page-keeps :
        (k : ℕ) (rs : List SignedResult) (oldest : ℤ) (p : Progress)
        → All Q rs
        → P p
        → P (take_page e (clock k) rs oldest p).1
    unfolding take_page
    take_page-keeps k [] oldest p q h = h
    take_page-keeps k (sr ∷ rs) oldest p q h = take_page-keeps k rs _ _ q.1 (keeps k sr p q.0 h)

    -- The progress that paging ends with, if it ends.
    abbrev Leaves : Option Progress → Type 0
    Leaves none = Unit
    Leaves (some out) = P out

    pull_answer-keeps :
        (fuel k : ℕ) (before : ℤ) (p : Progress) (ans : Option (List SignedResult))
        → ((k' : ℕ) (before' : ℤ) (p' : Progress)
            → P p'
            → Leaves (pull e clock fetch fuel k' before' p'))
        → P p
        → ltb p.total backfill_max_per_shard ≡ true
        → fetch k before ≡ ans
        → All Q (answered e ans)
        → Leaves (pull e clock fetch (suc fuel) k before p)
    unfolding pull
    pull_answer-keeps fuel k before p none again h room q w = rw (pull, room, q) h
    pull_answer-keeps fuel k before p (some []) again h room q w = rw (pull, room, q) h
    pull_answer-keeps fuel k before p (some (r ∷ rs)) again h room q w =
        rw (pull, room, q)
          (split_if Leaves (ltb (length (r ∷ rs)) backfill_page)
            (λ _. take_page-keeps k (r ∷ rs) _ p w h)
            (λ _. again (suc k) _ _ (take_page-keeps k (r ∷ rs) _ p w h)))

    pull-Leaves :
        (fuel k : ℕ) (before : ℤ) (p : Progress) → P p → Leaves (pull e clock fetch fuel k before p)
    unfolding pull
    pull-Leaves zero k before p h = tt
    pull-Leaves (suc fuel) k before p h = elim (Bool-cases (ltb p.total backfill_max_per_shard)) [
      | inr full ↦ rw (pull, full) h
      | inl room ↦
          pull_answer-keeps fuel k before p (fetch k before) (pull-Leaves fuel) h room refl
            (fetched k before)
    ]

    -- What every result of an answer keeps, paging keeps.
    pub pull-keeps :
        (fuel k : ℕ) (before : ℤ) (p out : Progress)
        → P p
        → pull e clock fetch fuel k before p ≡ some out
        → P out
    pull-keeps fuel k before p out h r = subst Leaves r (pull-Leaves fuel k before p h)

  module _ (clock : ℕ → ℤ) (fetch : ℕ → ℤ → Option (List SignedResult)) where
    -- Backfilling keeps the stores safe, whatever the holder answers: Fetch drops what does not verify.
    pub pull-IsSafe :
        (fuel k : ℕ) (before : ℤ) (p out : Progress)
        → ((j : ℕ) (b : ℤ)
            → All (λ sr. verify_result e.crypto e.json sr ≡ ok tt) (answered e (fetch j b)))
        → IsSafe e p.stores
        → pull e clock fetch fuel k before p ≡ some out
        → IsSafe e out.stores
    pull-IsSafe fuel k before p out fetched s r =
        pull-keeps clock fetch (λ q. IsSafe e q.stores)
          (λ sr. verify_result e.crypto e.json sr ≡ ok tt)
          (λ j sr q v h. take_result-IsSafe (clock j) sr q v h) fetched fuel k before p out s r

    insert-IsRecent :
        (start : ℤ) (old : List SignedResult) (m : MemStore) (sr : SignedResult)
        → start ≤ℤ sr.content.timestamp_ms +ℤ pos 86400000
        → All (IsRecent start old) m.all
        → All (IsRecent start old) (insert m sr).all
    unfolding insert
    insert-IsRecent start old m sr l h =
        elim (Option-cases (get str_dec (dedupe_key sr.content) m.seen)) [
          | inl q ↦ rw (q, insert) (All-append (IsRecent start old) m.all (sr ∷ []) h (inr l, tt))
          | inr (u, q) ↦ rw (q, insert) h
        ]

    ingest-IsRecent :
        (start now : ℤ) (old : List SignedResult) (sr : SignedResult) (h : Stores)
        → IsClock start now
        → All (IsRecent start old) h.results.all
        → All (IsRecent start old) (ingest e.crypto now sr h).results.all
    unfolding ingest
    ingest-IsRecent start now old sr h (l, hi, lo) a =
        split_if (λ (x : Stores). All (IsRecent start old) x.results.all)
          (not (passes (Admit.result (some (look h.catalog)) sr now))) (λ _. a)
          (λ t.
            split_if (λ (x : Stores). All (IsRecent start old) x.results.all)
              (not (holds e.crypto h.interest sr.content.check_id)) (λ _. a)
              (λ _.
                let sane =
                  ((result_iff (some (look h.catalog)) sr now hi lo).0
                    (passes_ok (Admit.result (some (look h.catalog)) sr now) (ground arith))).0 in
                let recent = sane.not_behind in
                insert-IsRecent start old h.results sr (ground arith) a))

    -- Where paging has ended, it stored nothing that is more than a day older than a time that the clock
    -- is never behind.
    pub pull_only_a_day :
        (start : ℤ) (fuel k : ℕ) (before : ℤ) (p out : Progress)
        → ((j : ℕ) → IsClock start (clock j))
        → pull e clock fetch fuel k before p ≡ some out
        → All (IsRecent start p.stores.results.all) out.stores.results.all
    pull_only_a_day start fuel k before p out ticks r =
        pull-keeps clock fetch (λ q. All (IsRecent start p.stores.results.all) q.stores.results.all)
          (λ sr. Unit)
          (λ j sr q v h. rw stores-take_result (
            split_if (λ (x : Stores). All (IsRecent start p.stores.results.all) x.results.all)
              (allow e.policy sr.content.probe_id)
              (λ _. ingest-IsRecent start (clock j) p.stores.results.all sr q.stores (ticks j) h)
              (λ _. h)))
          (λ j b. All_of _ _ (λ sr i. tt)) fuel k before p out (All_of _ _ (λ sr i. inl i)) r
