-- ===== src/Probe/Pace.antt =====
-- How often a probe runs a check (probe/reporter/reporter.go), whatever its hubs answer.
use libre_ping.Base.{
  ◌≡◌, refl, sym, subst, ◌∙◌, ◌≢◌, ◌⊎◌, inl, inr, true, false, not, none, some, List, [], ◌∷◌, map,
  ℤ, ltb_ℤ, ◌<ℤ◌, ◌≤ℤ◌, Str, str_dec, Map, get, put, arith, Every, get-Every, put-Every, present,
  All, In, All-append, split_if, Option-cases, get-put,
}
use libre_ping.Base.Float.{Floats}
use libre_ping.Identity.{Crypto}
use libre_ping.Protocol.{CheckSpec}
use libre_ping.Protocol.Verify.{Json}
use libre_ping.Failover.Calls.{hot_call, do_call}
use libre_ping.Failover.Answers.{do_call_answer}
use libre_ping.Probe.{
  allow_now, ScheduledCheck, Reporter, Profile, Poll, Batch, run_one, run_loop, run_due, scheduled,
  next_schedule, refresh, heartbeat, next_due,
}

module _ (id : Str) (t : ℤ) where
  -- A schedule in which the check is not due before a time.
  abbrev pub IsLater : Str → ScheduledCheck → Type 0
  IsLater k sc = (sc.spec.id ≡ k) × (k ≡ id → t ≤ℤ sc.due)

  pub record IsPaced (m : Map Str ScheduledCheck) : Type 0 where
    pub later : Every str_dec IsLater m
    pub assigned : present (get str_dec id m) ≡ true

  module _ (fl : Floats) (seconds : ℤ → fl.F) where
    record IsIdle (b : Batch fl seconds) : Type 0 where
      pub paced : IsPaced b.schedule
      pub idle : All (λ sp. sp.id ≢ id) b.to_run

    -- A check that is started is another one.
    other :
        (now : ℤ) (k : Str) (sc : ScheduledCheck)
        → now <ℤ t
        → IsLater k sc
        → ltb_ℤ now sc.due ≡ false
        → k ≢ id
    other now k sc l p d e = let u = p.1 e in ground arith

    present-put :
        (k : Str) (v : ScheduledCheck) (m : Map Str ScheduledCheck)
        → present (get str_dec id m) ≡ true
        → present (get str_dec id (put str_dec k v m)) ≡ true
    present-put k v m h = ground (arith, get-put str_dec k id v m)

    run_one-IsIdle :
        (now at : ℤ) (k : Str) (sc : ScheduledCheck) (b : Batch fl seconds)
        → now <ℤ t
        → IsLater k sc
        → IsIdle b
        → IsIdle (run_one fl seconds now at k sc b)
    unfolding run_one
    run_one-IsIdle now at k sc b l p i =
        split_if IsIdle (ltb_ℤ now sc.due) (λ _. i)
          (λ d.
            split_if IsIdle (not (allow_now fl seconds at b.limiter).0)
              (λ _. record { paced = i.paced; idle = i.idle })
              (λ _.
                let ne = other now k sc l p d in
                record {
                  paced = record {
                    later =
                        put-Every str_dec IsLater k
                          (record sc { due = next_due fl seconds now sc.spec }) b.schedule
                          (p.0, λ e. absurd (ne e)) i.paced.later;
                    assigned =
                        present-put k (record sc { due = next_due fl seconds now sc.spec })
                          b.schedule i.paced.assigned;
                  };
                  idle =
                      All-append (λ sp. sp.id ≢ id) b.to_run (sc.spec ∷ []) i.idle
                        (λ e. ne (sym p.0 ∙ e), tt);
                }))

    run_loop-IsIdle :
        (now : ℤ) (at : Str → ℤ) (rest : Map Str ScheduledCheck) (b : Batch fl seconds)
        → now <ℤ t
        → Every str_dec IsLater rest
        → IsIdle b
        → IsIdle (run_loop fl seconds now at rest b)
    unfolding run_loop
    run_loop-IsIdle now at [] b l p i = i
    run_loop-IsIdle now at ((k, sc) ∷ rest) b l p i =
        run_loop-IsIdle now at rest (run_one fl seconds now (at k) k sc b) l p.1
          (run_one-IsIdle now (at k) k sc b l p.0 i)

    pub run_due-IsPaced :
        (now : ℤ) (at : Str → ℤ) (r : Reporter fl)
        → now <ℤ t
        → IsPaced r.schedule
        → IsPaced (run_due fl seconds now at r).1.schedule
          × All (λ sp. sp.id ≢ id) (run_due fl seconds now at r).0
    unfolding run_due
    run_due-IsPaced now at r l p =
        let i =
          run_loop-IsIdle now at r.schedule
            (record { limiter = r.limiter; schedule = r.schedule; to_run = [] }) l p.later
            (record { paced = p; idle = tt }) in
        (i.paced, i.idle)

  -- A check that stays assigned keeps its time when the schedule is refreshed.
  scheduled-IsLater :
      (added : ℤ) (s : CheckSpec) (m : Map Str ScheduledCheck)
      → IsPaced m
      → IsLater s.id (scheduled added s (get str_dec s.id m))
  scheduled-IsLater added s m p = elim (Option-cases (get str_dec s.id m)) [
    | inl q ↦ rw q (
      refl,
      λ e.
          absurd
            (let h = subst (λ k. get str_dec k m ≡ none) e q in let g = p.assigned in ground arith),
    )
    | inr (sc, q) ↦ rw q (refl, (get-Every str_dec IsLater s.id sc m p.later q).1)
  ]

  next_schedule-Every :
      (added : Str → ℤ) (m : Map Str ScheduledCheck) (specs : List CheckSpec)
      (next : Map Str ScheduledCheck)
      → IsPaced m
      → Every str_dec IsLater next
      → Every str_dec IsLater (next_schedule added m specs next)
  unfolding next_schedule
  next_schedule-Every added m [] next p h = h
  next_schedule-Every added m (s ∷ specs) next p h =
      next_schedule-Every added m specs _ p
        (put-Every str_dec IsLater s.id _ next (scheduled-IsLater (added s.id) s m p) h)

  next_schedule-assigned :
      (added : Str → ℤ) (m : Map Str ScheduledCheck) (specs : List CheckSpec)
      (next : Map Str ScheduledCheck)
      → (present (get str_dec id next) ≡ true) ⊎ In id (map (λ s. s.id) specs)
      → present (get str_dec id (next_schedule added m specs next)) ≡ true
  unfolding next_schedule
  next_schedule-assigned added m [] next (inl h) = h
  next_schedule-assigned added m [] next (inr h) = elim h [ ]
  next_schedule-assigned added m (s ∷ specs) next h =
      next_schedule-assigned added m specs _ (now_or_later h)
    where
      now_or_later :
          (present (get str_dec id next) ≡ true) ⊎ In id (s.id ∷ map (λ s'. s'.id) specs)
          → (present (
                get str_dec id
                  (put str_dec s.id (scheduled (added s.id) s (get str_dec s.id m)) next))
              ≡ true)
            ⊎ In id (map (λ s'. s'.id) specs)
      now_or_later (inl p) = inl (
          ground
            (arith, get-put str_dec s.id id (scheduled (added s.id) s (get str_dec s.id m)) next))
      now_or_later (inr (inl e)) = inl (
          ground
            (arith, get-put str_dec s.id id (scheduled (added s.id) s (get str_dec s.id m)) next))
      now_or_later (inr (inr i)) = inr i

  -- Every list of checks that a hub answers has the check.
  abbrev pub StaysAssigned : Poll → Type 0
  StaysAssigned p =
      (url : Str) (specs : List CheckSpec)
      → p.checks url ≡ some specs
      → In id (map (λ s. s.id) specs)

  pub refresh-IsPaced :
      {fl : Floats} (c : Crypto) (json : Json) (me : Profile) (p : Poll) (r : Reporter fl)
      → StaysAssigned p
      → IsPaced r.schedule
      → IsPaced (refresh c json me p r).schedule
  unfolding refresh hot_call
  refresh-IsPaced c json me p r stays h =
      let hub = heartbeat c json me p r.hub in
      elim (Option-cases (do_call p.checks p.failed p.now false hub).0) [
        | inl q ↦ rw (q, refresh, hot_call) h
        | inr (specs, q) ↦
            let (url, a) = do_call_answer p.checks p.failed p.now false hub specs q in
            rw (q, refresh, hot_call)
              (record {
                later = next_schedule-Every p.added r.schedule specs [] h tt;
                assigned =
                    next_schedule-assigned p.added r.schedule specs [] (inr (stays url specs a));
              })
      ]
