-- ===== src/Failover/Calls.antt =====
-- The calls over the pool of probe/reporter/failover.go: `do` and what uses it. What each hub answers
-- during one call is the parameter `call`, by URL, `none` for an error; `now` is the time at the start
-- and `clock k` the time of the failure of attempt k.
use libre_ping.Base.{
  ℕ, zero, suc, ◌+◌, ◌%◌, Bool, true, false, not, Option, none, some, List, [], ◌∷◌, ◌++◌, map,
  ◌==◌, if◌then◌else◌, length, select, ℤ, pos, ltb_ℤ, ◌+ℤ◌, Str,
}
use libre_ping.Base.Lists.{get_elem?}
use libre_ping.Failover.{Candidate, FailoverClient, discover}

-- Thirty seconds, in milliseconds.
abbrev pub failover_cooldown : ℤ
failover_cooldown = pos 30000

abbrev pub is_cooled : ℤ → Option Candidate → Bool
is_cooled now none = false
is_cooled now (some c) = elim c.cooldown_until [ none ↦ false | some t ↦ ltb_ℤ now t ]

-- The indices from i on, n of them.
abbrev pub indices : ℕ → ℕ → List ℕ
indices i zero = []
indices i (suc n) = i ∷ indices (suc i) n

-- `(start + i) % n` for every i.
abbrev pub rotation : ℕ → ℕ → List ℕ
rotation start n = map (λ i. (start + i) % n) (indices 0 n)

unfoldable pub attempt_order : ℤ → ℕ → List Candidate → List ℕ
attempt_order now start cs =
    let all = rotation start (length cs) in
    select (λ i. not (is_cooled now (get_elem? cs i))) all
    ++ select (λ i. is_cooled now (get_elem? cs i)) all

-- `c.cooldownUntil = t` at an index.
unfoldable pub set_cooldown : ℕ → Option ℤ → List Candidate → List Candidate
set_cooldown i t [] = []
set_cooldown zero t (c ∷ cs) = record c { cooldown_until = t } ∷ cs
set_cooldown (suc i) t (c ∷ cs) = c ∷ set_cooldown i t cs

module _ {A : Type 0} (call : Str → Option A) (clock : ℕ → ℤ) where
  -- The loop over the order, from attempt k on. No answer is the last error.
  unfoldable pub try_hubs : ℕ → List ℕ → FailoverClient → Option A × FailoverClient
  unfolding set_cooldown
  try_hubs k [] f = (none, f)
  try_hubs k (i ∷ rest) f = elim (get_elem? f.candidates i) [
    | none ↦ (none, f)
    | some c ↦
        let failed : FailoverClient = record f {
          candidates = set_cooldown i (some (clock k +ℤ failover_cooldown)) f.candidates;
        } in
        let next = try_hubs (suc k) rest failed in
        elim (call c.url) [
          | none ↦ next
          | some a ↦ (some a, record f { candidates = set_cooldown i none f.candidates; cur = i })
        ]
  ]

  -- `do`. An empty pool is an error too.
  unfoldable pub do_call : ℤ → Bool → FailoverClient → Option A × FailoverClient
  unfolding attempt_order try_hubs
  do_call now prefer_home f =
      if length f.candidates == 0
      then (none, f)
      else try_hubs 0 (attempt_order now (if prefer_home then 0 else f.cur) f.candidates) f

-- Register: whether the hub that answers accepts. `directory` is what discover gets.
unfoldable pub register :
    (Str → Option (Unit {0}))
    → (ℕ → ℤ)
    → ℤ
    → Option (List Str)
    → FailoverClient
    → Option (Unit {0}) × FailoverClient
unfolding do_call
register accepts clock now directory f = do_call accepts clock now true (discover f directory)

-- FetchChecks and SubmitResult stay with the current hub.
unfoldable pub hot_call :
    {A : Type 0} → (Str → Option A) → (ℕ → ℤ) → ℤ → FailoverClient → Option A × FailoverClient
unfolding do_call
hot_call call clock now f = do_call call clock now false f
