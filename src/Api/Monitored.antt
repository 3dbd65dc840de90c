-- ===== src/Api/Monitored.antt =====
-- Which checks monitoredSpecs of hub/api/server.go lists, and at which intervals.
use libre_ping.Base.{◌≡◌, List, In, pos, ◌≤ℤ◌, Str}
use libre_ping.Base.Sorting.{Sorting}
use libre_ping.Protocol.{CheckSpec, SignedCatalogEntry, SignedSubscription}
use libre_ping.Store.Subscriptions
use libre_ping.Api.Intervals.{AskedAt, NoneShorter}

-- The spec that the catalog lists for an ID.
abbrev Catalogued : List SignedCatalogEntry → Str → CheckSpec → Type 0
Catalogued entries id spec =
    (e : SignedCatalogEntry) × In e entries × (e.entry.spec.id ≡ id) × (e.entry.spec ≡ spec)

-- A check that someone alive wants, as the catalog has it, at the shortest interval asked for.
pub record IsMonitored (entries : List SignedCatalogEntry) (active : List SignedSubscription)
    (sp : CheckSpec) : Type 0 where
  pub entry : SignedCatalogEntry
  pub catalogued : In entry entries
  pub same : record entry.entry.spec { interval_seconds = sp.interval_seconds } ≡ sp
  pub asked : AskedAt active entry.entry.spec.id sp.interval_seconds
  pub shortest : NoneShorter active entry.entry.spec.id sp.interval_seconds
  pub floor : pos 30 ≤ℤ sp.interval_seconds
