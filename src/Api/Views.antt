-- ===== src/Api/Views.antt =====
-- The views of hub/api/server.go that prune what they list: an owner's services and alert rules, and
-- the directory.
use libre_ping.Base.{
  Bool, true, false, ◌||◌, Option, none, some, List, [], ◌∷◌, ◌++◌, map, if◌then◌else◌, ℤ, pos,
  sub64, Str, str_dec, str_eq, Map, get, put, keys, present, select, codes,
}
use libre_ping.Base.Float.{Floats}
use libre_ping.Protocol.{
  Location, CheckType, CheckSpec, Status, Float64, ResultContent, SignedResult, SignedCatalogEntry,
  SignedSubscription, AlertRule, HubAnnouncement, status_up, status_degraded, status_down,
}
use libre_ping.Interest.{holds}
use libre_ping.Directory
use libre_ping.Remote.{Query}
use libre_ping.Store.Results.{recent}
use libre_ping.Store.Catalog.{list_checks}
use libre_ping.Store.Subscriptions
use libre_ping.Store.Alerts
use libre_ping.Hub.{Env}
use libre_ping.Api.{Server, Config}
use libre_ping.Api.Reads.{fetch_remote}

pub record LocationStatus : Type 0 where
  pub probe_id : Str
  pub location : Location
  pub target : Str
  pub check_type : CheckType
  pub status : Status
  pub rtt_millis : Float64
  pub timestamp_ms : ℤ

pub record Service : Type 0 where
  pub check_id : Str
  pub check_type : CheckType
  pub target : Str
  pub interval_seconds : ℤ
  pub overall : Status
  pub locations : List LocationStatus

abbrev pub is_status : Status → LocationStatus → Bool
is_status s l = str_eq l.status s

abbrev pub any : (LocationStatus → Bool) → List LocationStatus → Bool
any f [] = false
any f (l ∷ locs) = f l || any f locs

unfoldable pub overall_status : List LocationStatus → Status
overall_status [] = codes "unknown"
overall_status (l ∷ locs) =
    if any (is_status status_up) (l ∷ locs)
    then status_up
    else if any (is_status status_degraded) (l ∷ locs)
    then status_degraded
    else status_down

-- The checks that an owner subscribes to.
unfoldable pub mine_of : Str → List SignedSubscription → Map Str (Unit {0}) → Map Str (Unit {0})
mine_of owner [] mine = mine
mine_of owner (ss ∷ subs) mine = mine_of owner subs (
    if str_eq ss.subscription.owner owner
    then put str_dec ss.subscription.check_id tt mine
    else mine)

-- Their specs, as far as the catalog has them.
unfoldable pub specs_of :
    Map Str (Unit {0}) → List SignedCatalogEntry → Map Str CheckSpec → Map Str CheckSpec
specs_of mine [] specs = specs
specs_of mine (en ∷ entries) specs = specs_of mine entries (
    if present (get str_dec en.entry.spec.id mine)
    then put str_dec en.entry.spec.id en.entry.spec specs
    else specs)

pub record Seen : Type 0 where
  pub seen : Map Str (Unit {0})
  pub by_check : Map Str (List LocationStatus)

abbrev pub or_nil : Option (List LocationStatus) → List LocationStatus
or_nil none = []
or_nil (some locs) = locs

-- `add`: the first result of a check and probe counts.
unfoldable pub add_status : ResultContent → Seen → Seen
add_status c v =
    let key = c.check_id ++ (b'|' ∷ c.probe_id) in
    if present (get str_dec key v.seen) then v else record {
      seen = put str_dec key tt v.seen;
      by_check =
          put str_dec c.check_id
            (or_nil (get str_dec c.check_id v.by_check)
              ++ (record {
                probe_id = c.probe_id;
                location = c.location;
                target = c.target;
                check_type = c.check_type;
                status = c.status;
                rtt_millis = c.rtt_millis;
                timestamp_ms = c.timestamp_ms;
              }
                  ∷ []))
            v.by_check;
    }

-- The loop over some results, of the checks that are wanted.
unfoldable pub add_results : (Str → Bool) → List SignedResult → Seen → Seen
unfolding add_status
add_results wanted [] v = v
add_results wanted (sr ∷ rest) v =
    add_results wanted rest (if wanted sr.content.check_id then add_status sr.content v else v)

abbrev pub typed : Str → List LocationStatus → Option CheckSpec → Service
typed check_id locs none = record {
  check_id = check_id;
  check_type = [];
  target = [];
  interval_seconds = pos 0;
  overall = overall_status locs;
  locations = locs;
}
typed check_id locs (some spec) = record {
  check_id = check_id;
  check_type = spec.check_type;
  target = spec.target;
  interval_seconds = spec.interval_seconds;
  overall = overall_status locs;
  locations = locs;
}

-- handleListAlerts; an empty owner lists every rule.
unfoldable pub handle_list_alerts : Str → ℤ → Server → Server × List AlertRule
handle_list_alerts owner now s =
    let (alerts, rules) = Alerts.list_active now s.stores.alerts in
    (
      record s { stores = record s.stores { alerts = alerts } },
      map (λ sa. sa.rule) (select (λ sa. str_eq owner [] || str_eq sa.rule.owner owner) rules),
    )

unfoldable pub handle_hubs : Env → ℤ → Server → Server × List HubAnnouncement
handle_hubs e now s =
    let (dir, out) = Directory.list e.sorting now s.stores.world.dir in
    (record s { stores = record s.stores { world = record s.stores.world { dir = dir } } }, out)

module _ (fl : Floats) (e : Env) (cfg : Config) (valid_url : Str → Bool)
    (get_results : Str → Query → Option (List SignedResult)) (allow_private : Bool) where
  -- The loop over the checks that the hub does not store.
  unfoldable pub fetch_missing : ℤ → List Str → Server × Seen → Server × Seen
  unfolding add_results
  fetch_missing now [] (s, v) = (s, v)
  fetch_missing now (check_id ∷ rest) (s, v) = fetch_missing now rest (
      if holds e.crypto s.stores.interest check_id
      then (s, v)
      else (let (s', res) =
            fetch_remote fl e cfg valid_url get_results allow_private now check_id
              (sub64 now (pos 86400000)) s in
          (s', add_results (λ c. true) res v)))

  -- handleServices, from its list of the owner's checks on.
  unfoldable pub services_of : ℤ → Map Str (Unit {0}) → Server → Server × List Service
  unfolding specs_of fetch_missing
  services_of now [] s = (s, [])
  services_of now ((check, u) ∷ rest) s =
      let mine = (check, u) ∷ rest in
      let specs = specs_of mine (list_checks e.sorting s.stores.catalog) [] in
      let local =
        add_results (λ c. present (get str_dec c mine))
          (recent e.sorting s.stores.results (pos 1000)) (record { seen = []; by_check = [] }) in
      let (s', v) = fetch_missing now (keys mine) (s, local) in
      (
        s',
        map (λ id. typed id (or_nil (get str_dec id v.by_check)) (get str_dec id specs))
            (keys mine),
      )

  unfoldable pub handle_services : Str → ℤ → Server → Server × List Service
  unfolding mine_of services_of
  handle_services owner now s =
      if str_eq owner []
      then (s, [])
      else (let (subs, active) = Subscriptions.list_active now s.stores.subs in
          services_of now (mine_of owner active [])
            (record s { stores = record s.stores { subs = subs } }))
