-- ===== src/Tests/Probes.antt =====
-- The theorem on a probe's measuring loop (probe/reporter) at a concrete input.
use libre_ping.Base.{true, none, some, List, [], ◌∷◌, pos, Str, codes, map, Option}
use libre_ping.Base.Float.{whole}
use libre_ping.Protocol.{CheckSpec}
use libre_ping.Failover.{new_failover_client}
use libre_ping.Probe.{Reporter, Profile, Poll}
use libre_ping.Probe.Runs.{Step, poll, tick}
use libre_ping.Tests.{alice, home, spec_with}

abbrev check : CheckSpec
check = record (spec_with []) { id = codes "c1" }

abbrev me : Profile
me = record { identity = alice; location = home; max_per_minute = pos 0; supported = [] }

abbrev probe : Reporter whole
probe = record {
  hub = new_failover_client (codes "https://h1" ∷ []) true;
  schedule = (codes "c1", record { spec = check; due = pos 5 }) ∷ [];
  limiter = none;
}

-- A hub that asks for the check every second.
abbrev hasty : Poll
hasty = record {
  accepts = λ reg url. some tt;
  checks = λ url. some (record check { interval_seconds = pos 1 } ∷ []);
  directory = none;
  failed = λ k. pos 30;
  added = λ id. pos 30;
  now = pos 30;
  now_ms = pos 30;
}

abbrev steps : List Step
steps = poll hasty ∷ tick (pos 2000000000) (λ id. pos 2000000000) ∷ []

-- The hub still lists the check.
abbrev ids : Option (List CheckSpec) → List Str
ids none = []
ids (some specs) = map (λ s. s.id) specs
