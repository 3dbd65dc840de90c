-- ===== src/Api.antt =====
-- hub/api/server.go: the state of the HTTP API and the handlers that write. A handler takes the
-- decoded body, `none` where decoding fails, and the clock's reading in milliseconds; it answers the
-- status code, the new state, and what it sends. The directory is there, as main always sets it; the
-- publisher's errors are only logged.
pub mod Submit
pub mod Assigned
pub mod Monitored
pub mod Query
pub mod Holders
pub mod Reads
pub mod Views
pub mod Pruned
pub mod Handled
pub mod Requests
pub mod Sound
pub mod Intervals
pub mod Readable
use libre_ping.Base.{
  [], ℕ, Bool, true, not, ◌||◌, Option, none, some, List, ◌∷◌, if◌then◌else◌, ℤ, pos, ltb_ℤ, leb_ℤ,
  Str, str_dec, str_eq, Map, put,
}
use libre_ping.Identity.{Identity}
use libre_ping.Protocol.{
  Location, CheckType, CheckSpec, VerifyError, SignedResult, SignedCatalogEntry, SignedSubscription,
  SignedAlertRule, SignedProbeRegistration, Result, ok, err, passes,
}
use libre_ping.Protocol.CheckId.{derive_id}
use libre_ping.Protocol.Verify.{verify_result, sign_catalog_entry, verify_probe_registration}
use libre_ping.Protocol.Owner.{verify_subscription, verify_alert_rule}
use libre_ping.Trust.{allow}
use libre_ping.Interest.{holds}
use libre_ping.Admit
use libre_ping.Outbox
use libre_ping.Outbox.{Outbox}
use libre_ping.Shard
use libre_ping.Hub.{Env, Stores, look}
use libre_ping.Store.Results.{insert}
use libre_ping.Store.Catalog.{upsert_check}
use libre_ping.Store.Subscriptions
use libre_ping.Store.Alerts

pub record RegisteredProbe : Type 0 where
  pub location : Location
  pub capacity : ℤ
  pub supported : Map CheckType Bool
  pub last_seen : ℤ

pub record CachedResults : Type 0 where
  pub at : ℤ
  pub results : List SignedResult

-- The fields of a Server that change. `stores` is shared with the mesh.
pub record Server : Type 0 where
  pub stores : Stores
  pub outbox : Option Outbox
  pub probes : Map Str RegisteredProbe
  pub remote_cache : Map Str CachedResults

-- The fields that do not.
pub record Config : Type 0 where
  pub identity : Option Identity
  pub redundancy : ℤ
  pub self : Shard.Hub

-- What a handler sends: on the mesh, and in a goroutine of its own to the holders.
pub data Sent : Type 0 where
  publish_result : SignedResult → Sent
  publish_catalog : SignedCatalogEntry → Sent
  publish_subscription : SignedSubscription → Sent
  publish_alert : SignedAlertRule → Sent
  push_to_holders : SignedResult → Sent

pub record Reply : Type 0 where
  pub code : ℕ
  pub server : Server
  pub sent : List Sent

abbrev pub status_ok : ℕ
status_ok = 200

abbrev pub status_created : ℕ
status_created = 201

abbrev pub status_accepted : ℕ
status_accepted = 202

abbrev pub bad_request : ℕ
bad_request = 400

abbrev pub forbidden : ℕ
forbidden = 403

abbrev pub internal_error : ℕ
internal_error = 500

abbrev pub unavailable : ℕ
unavailable = 503

-- `http.Error(w, …, code); return`.
abbrev pub refuse : ℕ → Server → Reply
refuse code s = record { code = code; server = s; sent = [] }

abbrev pub max_declared_capacity : ℤ
max_declared_capacity = pos 600

unfoldable pub clamp_capacity : ℤ → ℤ
clamp_capacity capacity =
    let floored = if ltb_ℤ capacity (pos 0) then pos 0 else capacity in
    if ltb_ℤ max_declared_capacity floored then max_declared_capacity else floored

-- The loop over SupportedTypes.
unfoldable pub type_set : List CheckType → Map CheckType Bool → Map CheckType Bool
type_set [] m = m
type_set (t ∷ ts) m = type_set ts (put str_dec t true m)

module _ (e : Env) where
  unfoldable pub handle_register : Option SignedProbeRegistration → ℤ → Server → Reply
  unfolding clamp_capacity type_set
  handle_register none now s = refuse bad_request s
  handle_register (some reg) now s =
      if str_eq reg.registration.probe_id []
      then refuse bad_request s
      else if not (passes (verify_probe_registration e.crypto e.json reg))
      then refuse bad_request s
      else record {
        code = status_ok;
        server = record s {
          probes =
              put str_dec reg.registration.probe_id
                (record {
                  location = reg.registration.location;
                  capacity = clamp_capacity reg.registration.max_checks_per_minute;
                  supported = type_set reg.registration.supported_types [];
                  last_seen = now;
                })
                s.probes;
        };
        sent = [];
      }

  -- What handleSubmit does with an admitted result.
  unfoldable pub keep_result : SignedResult → ℤ → Server → Reply
  keep_result sr now s =
      if holds e.crypto s.stores.interest sr.content.check_id
      then record {
        code = status_accepted;
        server = record s { stores = record s.stores { results = insert s.stores.results sr } };
        sent = publish_result sr ∷ [];
      }
      else record {
        code = status_accepted;
        server = record s { outbox = Outbox.add now s.outbox sr };
        sent = push_to_holders sr ∷ publish_result sr ∷ [];
      }

  unfoldable pub handle_submit : Option SignedResult → ℤ → Server → Reply
  unfolding keep_result
  handle_submit none now s = refuse bad_request s
  handle_submit (some sr) now s =
      if not (passes (verify_result e.crypto e.json sr))
      then refuse bad_request s
      else if not (allow e.policy sr.content.probe_id)
      then refuse forbidden s
      else if not (passes (Admit.result (some (look s.stores.catalog)) sr now))
      then refuse bad_request s
      else keep_result sr now s

  unfoldable pub handle_subscribe : Option SignedSubscription → Server → Reply
  handle_subscribe none s = refuse bad_request s
  handle_subscribe (some ss) s =
      if not (passes (verify_subscription e.crypto ss)) then refuse bad_request s else record {
        code = status_accepted;
        server = record s {
          stores = record s.stores { subs = Subscriptions.upsert s.stores.subs ss };
        };
        sent = publish_subscription ss ∷ [];
      }

  unfoldable pub handle_alert_rule : Option SignedAlertRule → Server → Reply
  handle_alert_rule none s = refuse bad_request s
  handle_alert_rule (some sa) s =
      if not (passes (verify_alert_rule e.crypto e.sorting sa))
      then refuse bad_request s
      else record {
        code = status_accepted;
        server = record s {
          stores = record s.stores { alerts = Alerts.upsert e.crypto s.stores.alerts sa };
        };
        sent = publish_alert sa ∷ [];
      }

  -- The request's spec, with its ID derived; the body's `id` is not read.
  unfoldable pub new_spec : CheckSpec → CheckSpec
  new_spec req =
      let spec : CheckSpec = record req {
        id = [];
        interval_seconds =
            if leb_ℤ req.interval_seconds (pos 0) then pos 60 else req.interval_seconds;
      } in
      record spec { id = derive_id e.sorting e.crypto spec }

  -- handleCreateCheck after SignCatalogEntry.
  unfoldable pub store_check : Result VerifyError SignedCatalogEntry → Server → Reply
  store_check (err _) s = refuse internal_error s
  store_check (ok sc) s = record {
    code = status_created;
    server = record s { stores = record s.stores { catalog = upsert_check s.stores.catalog sc } };
    sent = publish_catalog sc ∷ [];
  }

  unfoldable pub handle_create_check : Option Identity → Option CheckSpec → Server → Reply
  unfolding new_spec store_check
  handle_create_check none req s = refuse unavailable s
  handle_create_check (some id) none s = refuse bad_request s
  handle_create_check (some id) (some req) s =
      if str_eq req.target [] || str_eq req.check_type []
      then refuse bad_request s
      else store_check
          (sign_catalog_entry e.crypto e.json id (record { spec = new_spec req; hub_id = [] })) s
