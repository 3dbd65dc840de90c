-- ===== src/Api/Assigned.antt =====
-- Which checks the probes of a hub run: handleChecks, monitoredSpecs, liveProbes and
-- LocalProbeCheckIDs of hub/api/server.go. The in-memory stores do not fail.
use libre_ping.Base.{
  Bool, true, Option, none, some, List, [], ◌∷◌, ◌++◌, if◌then◌else◌, ℤ, pos, ltb_ℤ, ◌-ℤ◌, Str,
  str_dec, Map, get, put, del,
}
use libre_ping.Base.Float.{Floats}
use libre_ping.Base.Sorting.{Sorting}
use libre_ping.Protocol.{CheckSpec, SignedCatalogEntry, SignedSubscription}
use libre_ping.Assign.{Probe, assign, checks_of}
use libre_ping.Store.Catalog.{list_checks}
use libre_ping.Store.Subscriptions
use libre_ping.Hub.{Env}
use libre_ping.Api.{Config, Server, RegisteredProbe}

-- Three minutes.
abbrev pub probe_ttl_ms : ℤ
probe_ttl_ms = pos 180000

abbrev pub min_sub_interval_floor : ℤ
min_sub_interval_floor = pos 30

-- `p.lastSeen.Before(cutoff)`.
abbrev pub is_gone : ℤ → RegisteredProbe → Bool
is_gone now p = ltb_ℤ p.last_seen (now -ℤ probe_ttl_ms)

-- The loop of liveProbes: the map, and the list that it builds.
unfoldable pub live_loop :
    ℤ
    → Map Str RegisteredProbe
    → Map Str RegisteredProbe
    → List Probe
    → Map Str RegisteredProbe × List Probe
live_loop now [] probes out = (probes, out)
live_loop now ((id, p) ∷ rest) probes out =
    live_loop now rest (if is_gone now p then del str_dec id probes else probes) (
      if is_gone now p
      then out
      else out ++ (record { id = id; capacity = p.capacity; supported_types = p.supported } ∷ []))

unfoldable pub live_probes : ℤ → Server → Server × List Probe
unfolding live_loop
live_probes now s =
    let (probes, out) = live_loop now s.probes s.probes [] in (record s { probes = probes }, out)

unfoldable pub specs_by_id : List SignedCatalogEntry → Map Str CheckSpec → Map Str CheckSpec
specs_by_id [] m = m
specs_by_id (e ∷ rest) m = specs_by_id rest (put str_dec e.entry.spec.id e.entry.spec m)

abbrev pub floored : ℤ → ℤ
floored iv = if ltb_ℤ iv min_sub_interval_floor then min_sub_interval_floor else iv

-- `!ok || iv < cur`
abbrev pub is_shorter : ℤ → Option ℤ → Bool
is_shorter iv none = true
is_shorter iv (some cur) = ltb_ℤ iv cur

-- The loop that fills minInterval.
unfoldable pub min_intervals : List SignedSubscription → Map Str ℤ → Map Str ℤ
min_intervals [] m = m
min_intervals (ss ∷ rest) m =
    let iv = floored ss.subscription.interval_seconds in
    let id = ss.subscription.check_id in
    min_intervals rest (if is_shorter iv (get str_dec id m) then put str_dec id iv m else m)

-- The loop over minInterval.
unfoldable pub specs_at : Map Str CheckSpec → Map Str ℤ → List CheckSpec
specs_at by_id [] = []
specs_at by_id ((check_id, iv) ∷ rest) =
    let out = specs_at by_id rest in
    elim (get str_dec check_id by_id) [
      | none ↦ out
      | some spec ↦ record spec { interval_seconds = iv } ∷ out
    ]

-- ListActive prunes the subscriptions.
unfoldable pub monitored_specs : Sorting → ℤ → Server → Server × List CheckSpec
unfolding specs_by_id min_intervals specs_at
monitored_specs srt now s =
    let (subs, active) = Subscriptions.list_active now s.stores.subs in
    (
      record s { stores = record s.stores { subs = subs } },
      specs_at (specs_by_id (list_checks srt s.stores.catalog) []) (min_intervals active []),
    )

module _ (fl : Floats) (e : Env) (cfg : Config) where
  abbrev pub assignment : List CheckSpec → List Probe → Map Str (List CheckSpec)
  assignment specs probes = assign fl e.sorting specs probes cfg.redundancy

  unfoldable pub handle_checks : Str → ℤ → Server → Server × List CheckSpec
  unfolding monitored_specs live_probes
  handle_checks probe_id now s =
      let (s1, specs) = monitored_specs e.sorting now s in
      let (s2, probes) = live_probes now s1 in (s2, checks_of (assignment specs probes) probe_id)

  -- The loops of LocalProbeCheckIDs.
  unfoldable pub mark_checks : List CheckSpec → Map Str Bool → Map Str Bool
  mark_checks [] m = m
  mark_checks (sp ∷ rest) m = mark_checks rest (put str_dec sp.id true m)

  unfoldable pub mark_all : Map Str (List CheckSpec) → Map Str Bool → Map Str Bool
  unfolding mark_checks
  mark_all [] m = m
  mark_all ((id, checks) ∷ rest) m = mark_all rest (mark_checks checks m)

  unfoldable pub local_probe_check_ids : ℤ → Server → Server × Map Str Bool
  unfolding monitored_specs live_probes mark_all
  local_probe_check_ids now s =
      let (s1, specs) = monitored_specs e.sorting now s in
      let (s2, probes) = live_probes now s1 in (s2, mark_all (assignment specs probes) [])
