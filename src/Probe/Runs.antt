-- ===== src/Probe/Runs.antt =====
-- A probe over time: polls, ticks and finished checks of probe/reporter/reporter.go in any order.
use libre_ping.Base.{ℕ, Option, List, [], ◌∷◌, ◌++◌, ℤ, ◌<ℤ◌, Str}
use libre_ping.Base.Float.{Floats}
use libre_ping.Identity.{Crypto}
use libre_ping.Protocol.{CheckSpec, SignedResult}
use libre_ping.Protocol.Verify.{Json}
use libre_ping.Probe.{Reporter, Profile, Poll, Outcome, run_due, refresh, execute}
use libre_ping.Probe.Pace.{StaysAssigned}
use libre_ping.Probe.Started.{IsSchedule, run_due-IsNext, refresh-IsSchedule}

pub data Step : Type 0 where
  poll : Poll → Step
  tick : ℤ → (Str → ℤ) → Step
  finished :
      CheckSpec → Option Outcome → ℤ → (SignedResult → Str → Option (Unit {0})) → (ℕ → ℤ) → ℤ → Step

module _ (fl : Floats) (seconds : ℤ → fl.F) (c : Crypto) (json : Json) (me : Profile) where
  -- The checks that a step starts, and the probe after it.
  unfoldable pub step : Step → Reporter fl → List CheckSpec × Reporter fl
  step (poll p) r = ([], refresh c json me p r)
  step (tick now at) r = run_due fl seconds now at r
  step (finished spec outcome now_ms submit failed now) r =
      ([], record r { hub = execute c json me spec outcome now_ms submit failed now r.hub })

  unfoldable pub run : List Step → Reporter fl → List CheckSpec × Reporter fl
  unfolding step
  run [] r = ([], r)
  run (s ∷ steps) r =
      let (started, r') = step s r in let (later, r'') = run steps r' in (started ++ later, r'')

  -- Before a time, and with the check still assigned.
  abbrev pub IsBefore : Str → ℤ → Step → Type 0
  IsBefore id t (poll p) = StaysAssigned id t p
  IsBefore id t (tick now at) = now <ℤ t
  IsBefore id t (finished spec outcome now_ms submit failed now) = Unit

  pub run-IsSchedule :
      (steps : List Step) (r : Reporter fl)
      → IsSchedule r.schedule
      → IsSchedule (run steps r).1.schedule
  unfolding run
  run-IsSchedule [] r h = h
  run-IsSchedule (poll p ∷ steps) r h = run-IsSchedule steps _ (refresh-IsSchedule c json me p r h)
  run-IsSchedule (tick now at ∷ steps) r h =
      run-IsSchedule steps _ (run_due-IsNext fl seconds now at r h).0
  run-IsSchedule (finished spec outcome now_ms submit failed now ∷ steps) r h =
      run-IsSchedule steps _ h
