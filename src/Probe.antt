-- ===== src/Probe.antt =====
-- The measuring loop of a probe: probe/reporter/reporter.go and ratelimit.go, over the pool of
-- Failover. Times are nanoseconds. What a hub answers during one call is an argument, by URL, and so
-- is what a network check finds.
pub mod Pace
pub mod Started
pub mod Runs
use libre_ping.Base.{
  ℕ, Bool, true, false, not, Option, none, some, List, [], ◌∷◌, ◌++◌, if◌then◌else◌, ℤ, pos, negsuc,
  ltb_ℤ, leb_ℤ, mul64, ◌+ℤ◌, ◌-ℤ◌, Str, str_dec, Map, get, put,
}
use libre_ping.Base.Float.{Floats}
use libre_ping.Identity.{Crypto, Identity, node_id}
use libre_ping.Protocol.{
  Location, CheckType, Status, Float64, CheckSpec, ResultContent, SignedResult,
  SignedProbeRegistration, VerifyError, Result, ok, err,
}
use libre_ping.Protocol.Verify.{Json, sign_result, sign_probe_registration}
use libre_ping.Failover.{FailoverClient}
use libre_ping.Failover.Calls.{register, hot_call}

pub record TokenBucket (fl : Floats) : Type 0 where
  pub tokens : fl.F
  pub max : fl.F
  pub refill_per_sec : fl.F
  pub last : ℤ

pub record ScheduledCheck : Type 0 where
  pub spec : CheckSpec
  pub due : ℤ

-- The fields of a Reporter that change.
pub record Reporter (fl : Floats) : Type 0 where
  pub hub : FailoverClient
  pub schedule : Map Str ScheduledCheck
  pub limiter : Option (TokenBucket fl)

-- The fields that do not.
pub record Profile : Type 0 where
  pub identity : Identity
  pub location : Location
  pub max_per_minute : ℤ
  pub supported : List CheckType

-- `time.Duration.Seconds` is the parameter `seconds`.
module _ (fl : Floats) (seconds : ℤ → fl.F) where
  unfoldable pub new_token_bucket : ℤ → ℤ → Option (TokenBucket fl)
  new_token_bucket per_minute now =
      if leb_ℤ per_minute (pos 0)
      then none
      else some (record {
        tokens = fl.of_int per_minute;
        max = fl.of_int per_minute;
        refill_per_sec = fl.div (fl.of_int per_minute) (fl.of_int (pos 60));
        last = now;
      })

  -- `b.tokens = math.Min(b.max, …)`.
  unfoldable pub refilled : ℤ → TokenBucket fl → TokenBucket fl
  refilled now b =
      let sum = fl.add b.tokens (fl.mul (seconds (now -ℤ b.last)) b.refill_per_sec) in
      record b { last = now; tokens = if fl.lt b.max sum then b.max else sum }

  unfoldable pub allow_now : ℤ → Option (TokenBucket fl) → Bool × Option (TokenBucket fl)
  unfolding refilled
  allow_now now none = (true, none)
  allow_now now (some b) =
      let b' = refilled now b in
      if not (fl.lt b'.tokens (fl.of_int (pos 1)))
      then (true, some (record b' { tokens = fl.add b'.tokens (fl.of_int (negsuc 0)) }))
      else (false, some b')

  -- What runDue has done so far.
  pub record Batch : Type 0 where
    pub limiter : Option (TokenBucket fl)
    pub schedule : Map Str ScheduledCheck
    pub to_run : List CheckSpec

  unfoldable pub next_due : ℤ → CheckSpec → ℤ
  next_due now spec =
      let interval =
        if leb_ℤ spec.interval_seconds (pos 0) then pos 60 else spec.interval_seconds in
      now +ℤ mul64 interval (pos 1000000000)

  -- One round of the loop of runDue, at a check with its ID; `at` is the limiter's reading of the clock.
  unfoldable pub run_one : ℤ → ℤ → Str → ScheduledCheck → Batch → Batch
  unfolding allow_now next_due
  run_one now at id sc b =
      if ltb_ℤ now sc.due
      then b
      else (let (allowed, limiter) = allow_now at b.limiter in
          if not allowed then record b { limiter = limiter } else record {
            limiter = limiter;
            schedule = put str_dec id (record sc { due = next_due now sc.spec }) b.schedule;
            to_run = b.to_run ++ (sc.spec ∷ []);
          })

  unfoldable pub run_loop : ℤ → (Str → ℤ) → Map Str ScheduledCheck → Batch → Batch
  unfolding run_one
  run_loop now at [] b = b
  run_loop now at ((id, sc) ∷ rest) b = run_loop now at rest (run_one now (at id) id sc b)

  -- runDue: the checks that it starts, and the probe after it.
  unfoldable pub run_due : ℤ → (Str → ℤ) → Reporter fl → List CheckSpec × Reporter fl
  unfolding run_loop
  run_due now at r =
      let b =
        run_loop now at r.schedule
          (record { limiter = r.limiter; schedule = r.schedule; to_run = [] }) in
      (b.to_run, record r { schedule = b.schedule; limiter = b.limiter })

-- A check that is there keeps its time; a new one is due at once.
abbrev pub scheduled : ℤ → CheckSpec → Option ScheduledCheck → ScheduledCheck
scheduled now spec none = record { spec = spec; due = now }
scheduled now spec (some existing) = record existing { spec = spec }

-- The loop of refresh; `added id` is the time at which a new check is added.
unfoldable pub next_schedule :
    (Str → ℤ)
    → Map Str ScheduledCheck
    → List CheckSpec
    → Map Str ScheduledCheck
    → Map Str ScheduledCheck
next_schedule added schedule [] next = next
next_schedule added schedule (s ∷ specs) next =
    next_schedule added schedule specs
      (put str_dec s.id (scheduled (added s.id) s (get str_dec s.id schedule)) next)

-- What happens while refresh runs: what the hubs answer, what the directory is, and the clock.
pub record Poll : Type 0 where
  pub accepts : SignedProbeRegistration → Str → Option (Unit {0})
  pub checks : Str → Option (List CheckSpec)
  pub directory : Option (List Str)
  pub failed : ℕ → ℤ
  pub added : Str → ℤ
  pub now : ℤ
  pub now_ms : ℤ

-- What a check of the network finds.
pub record Outcome : Type 0 where
  pub status : Status
  pub rtt_millis : Float64
  pub detail : Map Str Str

module _ (c : Crypto) (json : Json) (me : Profile) where
  -- The heartbeat; a registration that cannot be signed is not sent.
  unfoldable pub heartbeat : Poll → FailoverClient → FailoverClient
  heartbeat p hub =
      elim (sign_probe_registration c json me.identity (record {
        probe_id = [];
        location = me.location;
        max_checks_per_minute = me.max_per_minute;
        supported_types = me.supported;
        timestamp_ms = p.now_ms;
      })) [ err _ ↦ hub | ok reg ↦ (register (p.accepts reg) p.failed p.now p.directory hub).1 ]

  unfoldable pub refresh : {fl : Floats} → Poll → Reporter fl → Reporter fl
  unfolding heartbeat next_schedule
  refresh p r =
      let (answer, hub) = hot_call p.checks p.failed p.now (heartbeat p r.hub) in
      elim answer [
        | none ↦ record r { hub = hub }
        | some specs ↦ record r { hub = hub; schedule = next_schedule p.added r.schedule specs [] }
      ]

  unfoldable pub result_content : CheckSpec → Outcome → ℤ → ResultContent
  result_content spec outcome now_ms = record {
    check_id = spec.id;
    check_type = spec.check_type;
    target = spec.target;
    probe_id = [];
    location = me.location;
    timestamp_ms = now_ms;
    status = outcome.status;
    rtt_millis = outcome.rtt_millis;
    detail = outcome.detail;
  }

  -- execute: `none` is that there is no checker, or an error and no status. `submit` is what the hubs
  -- answer.
  unfoldable pub execute :
      CheckSpec
      → Option Outcome
      → ℤ
      → (SignedResult → Str → Option (Unit {0}))
      → (ℕ → ℤ)
      → ℤ
      → FailoverClient
      → FailoverClient
  unfolding result_content
  execute spec none now_ms submit failed now hub = hub
  execute spec (some outcome) now_ms submit failed now hub =
      elim (sign_result c json me.identity (result_content spec outcome now_ms)) [
        | err _ ↦ hub
        | ok sr ↦ (hot_call (submit sr) failed now hub).1
      ]
