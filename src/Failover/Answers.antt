-- ===== src/Failover/Answers.antt =====
-- What a call over the pool of probe/reporter/failover.go answers is what a hub answered.
use libre_ping.Base.{
  ℕ, suc, ◌≡◌, ◌∙◌, inl, inr, Bool, Option, some, List, [], ◌∷◌, ◌==◌, Bool-cases, Option-cases,
  length, ℤ, Str,
}
use libre_ping.Base.Lists.{get_elem?}
use libre_ping.Failover.{FailoverClient}
use libre_ping.Failover.Calls.{try_hubs, do_call}
use libre_ping.Failover.Attempts.{none-some}

module _ {A : Type 0} (call : Str → Option A) (clock : ℕ → ℤ) where
  -- What a call answers is what one of the hubs answered.
  try_hubs_answer :
      (k : ℕ) (order : List ℕ) (f : FailoverClient) (a : A)
      → (try_hubs call clock k order f).0 ≡ some a
      → (url : Str) × (call url ≡ some a)
  unfolding try_hubs
  try_hubs_answer k [] f a h = absurd (none-some a h)
  try_hubs_answer k (x ∷ rest) f a h = elim (Option-cases (get_elem? f.candidates x)) [
    | inl q ↦ absurd (none-some a (rw (try_hubs, q) at h))
    | inr (c, q) ↦ elim (Option-cases (call c.url)) [
      | inl r ↦ try_hubs_answer (suc k) rest _ a (rw (try_hubs, q, r) at h)
      | inr (b, r) ↦ (c.url, r ∙ (rw (try_hubs, q, r) at h))
    ]
  ]

  pub do_call_answer :
      (now : ℤ) (prefer_home : Bool) (f : FailoverClient) (a : A)
      → (do_call call clock now prefer_home f).0 ≡ some a
      → (url : Str) × (call url ≡ some a)
  unfolding do_call
  do_call_answer now prefer_home f a h = elim (Bool-cases (length f.candidates == 0)) [
    | inl e ↦ absurd (none-some a (rw (do_call, e) at h))
    | inr e ↦ try_hubs_answer 0 _ f a (rw (do_call, e) at h)
  ]
