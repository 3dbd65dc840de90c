-- ===== src/Probe/Started.antt =====
-- What the schedule of probe/reporter/reporter.go says of the checks that runDue has started.
use libre_ping.Base.{
  ◌≡◌, refl, sym, ap, subst, ◌∙◌, inl, inr, false, not, Option, none, some, List, [], ◌∷◌, ℤ, ltb_ℤ,
  Str, str_dec, Map, get, put, Every, put-Every, All, In, All-append, All_map, All_In, All_of,
  split_if, Option-cases, get-put_self, get-put_ne, UniqueKeys, keys,
}
use libre_ping.Base.Maps.{put-UniqueKeys}
use libre_ping.Base.Float.{Floats}
use libre_ping.Identity.{Crypto}
use libre_ping.Protocol.{CheckSpec}
use libre_ping.Protocol.Verify.{Json}
use libre_ping.Failover.Calls.{hot_call, do_call}
use libre_ping.Probe.{
  TokenBucket, allow_now, ScheduledCheck, Reporter, Profile, Poll, Batch, run_one, run_loop,
  run_due, scheduled, next_schedule, refresh, heartbeat, next_due,
}

-- A check stands under its own ID.
abbrev pub IsOwn : Str → ScheduledCheck → Type 0
IsOwn k sc = sc.spec.id ≡ k

pub record IsSchedule (m : Map Str ScheduledCheck) : Type 0 where
  pub own : Every str_dec IsOwn m
  pub unique : UniqueKeys m

put-IsSchedule :
    (k : Str) (sc : ScheduledCheck) (m : Map Str ScheduledCheck)
    → IsOwn k sc
    → IsSchedule m
    → IsSchedule (put str_dec k sc m)
put-IsSchedule k sc m o h = record {
  own = put-Every str_dec IsOwn k sc m o h.own;
  unique = put-UniqueKeys str_dec k sc m h.unique;
}

scheduled-IsOwn :
    (added : ℤ) (s : CheckSpec) (o : Option ScheduledCheck) → IsOwn s.id (scheduled added s o)
scheduled-IsOwn added s none = refl
scheduled-IsOwn added s (some sc) = refl

next_schedule-IsSchedule :
    (added : Str → ℤ) (m : Map Str ScheduledCheck) (specs : List CheckSpec)
    (next : Map Str ScheduledCheck)
    → IsSchedule next
    → IsSchedule (next_schedule added m specs next)
unfolding next_schedule
next_schedule-IsSchedule added m [] next h = h
next_schedule-IsSchedule added m (s ∷ specs) next h =
    next_schedule-IsSchedule added m specs _
      (put-IsSchedule s.id _ next (scheduled-IsOwn (added s.id) s (get str_dec s.id m)) h)

pub refresh-IsSchedule :
    {fl : Floats} (c : Crypto) (json : Json) (me : Profile) (p : Poll) (r : Reporter fl)
    → IsSchedule r.schedule
    → IsSchedule (refresh c json me p r).schedule
unfolding refresh hot_call
refresh-IsSchedule c json me p r h =
    elim (Option-cases (do_call p.checks p.failed p.now false (heartbeat c json me p r.hub)).0) [
      | inl q ↦ rw (q, refresh, hot_call) h
      | inr (specs, q) ↦
          rw (q, refresh, hot_call)
            (next_schedule-IsSchedule p.added r.schedule specs []
              (record { own = tt; unique = tt }))
    ]

module _ (fl : Floats) (seconds : ℤ → fl.F) (now : ℤ) where
  -- The check is in the schedule for its next time.
  abbrev pub IsNext : Map Str ScheduledCheck → CheckSpec → Type 0
  IsNext m sp = get str_dec sp.id m ≡ some (record { spec = sp; due = next_due fl seconds now sp })

  -- The checks that were started are not among the rest.
  record IsUnderWay (rest : Map Str ScheduledCheck) (b : Batch fl seconds) : Type 0 where
    pub schedule : IsSchedule b.schedule
    pub next : All (IsNext b.schedule) b.to_run
    pub apart : All (λ sp. ¬ In sp.id (keys rest)) b.to_run

  skip :
      (k : Str) (sc : ScheduledCheck) (rest : Map Str ScheduledCheck) (b : Batch fl seconds)
      (limiter : Option (TokenBucket fl))
      → IsUnderWay ((k, sc) ∷ rest) b
      → IsUnderWay rest (record b { limiter = limiter })
  skip k sc rest b limiter u = record {
    schedule = u.schedule;
    next = u.next;
    apart = All_map (λ sp n i. n (inr i)) b.to_run u.apart;
  }

  -- The checks that were started keep their times when another one is.
  kept :
      (k : Str) (v sc : ScheduledCheck) (rest : Map Str ScheduledCheck) (b : Batch fl seconds)
      → IsUnderWay ((k, sc) ∷ rest) b
      → All (IsNext (put str_dec k v b.schedule)) b.to_run
  kept k v sc rest b u = All_of (IsNext (put str_dec k v b.schedule)) b.to_run (λ sp i.
      get-put_ne str_dec k sp.id v b.schedule
        (λ e. All_In (λ sp'. ¬ In sp'.id (k ∷ keys rest)) sp b.to_run u.apart i (inl e))
      ∙ All_In (IsNext b.schedule) sp b.to_run u.next i)

  run_one-IsUnderWay :
      (at : ℤ) (k : Str) (sc : ScheduledCheck) (rest : Map Str ScheduledCheck)
      (b : Batch fl seconds)
      → IsOwn k sc
      → ¬ In k (keys rest)
      → IsUnderWay ((k, sc) ∷ rest) b
      → IsUnderWay rest (run_one fl seconds now at k sc b)
  unfolding run_one
  run_one-IsUnderWay at k sc rest b o fresh u =
      split_if (IsUnderWay rest) (ltb_ℤ now sc.due) (λ _. skip k sc rest b b.limiter u)
        (λ d.
          split_if (IsUnderWay rest) (not (allow_now fl seconds at b.limiter).0)
            (λ _. skip k sc rest b _ u)
            (λ _. record {
              schedule =
                  put-IsSchedule k (record sc { due = next_due fl seconds now sc.spec }) b.schedule
                    o u.schedule;
              next =
                  All-append _ b.to_run (sc.spec ∷ [])
                    (kept k (record sc { due = next_due fl seconds now sc.spec }) sc rest b u)
                    (
                      ap
                            (λ x. get str_dec x (
                              put str_dec k (record sc { due = next_due fl seconds now sc.spec })
                                b.schedule))
                            o
                          ∙ get-put_self str_dec k
                              (record sc { due = next_due fl seconds now sc.spec }) b.schedule,
                      tt,
                    );
              apart =
                  All-append (λ sp. ¬ In sp.id (keys rest)) b.to_run (sc.spec ∷ [])
                    (All_map (λ sp n i. n (inr i)) b.to_run u.apart)
                    (subst (λ x. ¬ In x (keys rest)) (sym o) fresh, tt);
            }))

  run_loop-IsUnderWay :
      (at : Str → ℤ) (rest : Map Str ScheduledCheck) (b : Batch fl seconds)
      → IsSchedule rest
      → IsUnderWay rest b
      → IsUnderWay [] (run_loop fl seconds now at rest b)
  unfolding run_loop
  run_loop-IsUnderWay at [] b h u = u
  run_loop-IsUnderWay at ((k, sc) ∷ rest) b h u =
      run_loop-IsUnderWay at rest (run_one fl seconds now (at k) k sc b)
        (record { own = h.own.1; unique = h.unique.1 })
        (run_one-IsUnderWay (at k) k sc rest b h.own.0 h.unique.0 u)

  -- After a tick every check that it started is in the schedule for its next time.
  pub run_due-IsNext :
      (at : Str → ℤ) (r : Reporter fl)
      → IsSchedule r.schedule
      → IsSchedule (run_due fl seconds now at r).1.schedule
        × All (IsNext (run_due fl seconds now at r).1.schedule) (run_due fl seconds now at r).0
  unfolding run_due
  run_due-IsNext at r h =
      let u =
        run_loop-IsUnderWay at r.schedule
          (record { limiter = r.limiter; schedule = r.schedule; to_run = [] }) h
          (record { schedule = h; next = tt; apart = tt }) in
      (u.schedule, u.next)
