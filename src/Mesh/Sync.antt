-- ===== src/Mesh/Sync.antt =====
-- Catch-up sync of hub/p2p/p2p.go: what a hub answers a peer that connects, and how it takes the
-- peer's answer. A stream that fails, or bytes that do not decode, are `none`.
use libre_ping.Base.{
  ℕ, ◌||◌, Option, none, some, List, [], ◌∷◌, ltb, if◌then◌else◌, length, take, ℤ, pos, ltb_ℤ,
  leb_ℤ, sub64, Str, str_eq,
}
use libre_ping.Protocol.{SignedResult, SignedCatalogEntry, SignedSubscription, SignedAlertRule}
use libre_ping.Hub.{Env}
use libre_ping.Mesh.{Ingest, handle_result, handle_catalog, handle_subscription, handle_alert}

-- Thirty minutes.
abbrev pub sync_window_ms : ℤ
sync_window_ms = pos 1800000

abbrev pub sync_max_results : ℤ
sync_max_results = pos 5000

abbrev pub control_sync_max : ℕ
control_sync_max = 20000

pub record SyncRequest : Type 0 where
  pub since_ms : ℤ
  pub limit : ℤ

-- A slice that the sender omits is empty.
pub record ControlSyncResponse : Type 0 where
  pub catalog : List SignedCatalogEntry
  pub subscriptions : List SignedSubscription
  pub alerts : List SignedAlertRule

unfoldable pub cap_slice : {A : Type 0} → List A → ℕ → List A
cap_slice s n = if ltb n (length s) then take n s else s

abbrev pub clamped_limit : ℤ → ℤ
clamped_limit limit =
    if leb_ℤ limit (pos 0) || ltb_ℤ sync_max_results limit then sync_max_results else limit

-- `ResultsSince` of the Config: nil is `none`, and so is an error of a call.
abbrev pub ResultsSince : Type 0
ResultsSince = Option (ℤ → ℤ → Option (List SignedResult))

-- The answer on the stream, if one is written.
unfoldable pub handle_sync_stream : ResultsSince → Option SyncRequest → Option (List SignedResult)
handle_sync_stream results_since none = none
handle_sync_stream none (some req) = some []
handle_sync_stream (some f) (some req) = f req.since_ms (clamped_limit req.limit)

unfoldable pub sync_request : ℤ → SyncRequest
sync_request now_ms = record { since_ms = sub64 now_ms sync_window_ms; limit = sync_max_results }

abbrev pub or_none {ℓ} : {A : Type ℓ} → Option (Option (List A)) → List A
or_none (some (some xs)) = xs
or_none _ = []

-- The three snapshot functions of the Config, called: nil is `none`, an error is `some none`.
unfoldable pub handle_control_sync_stream :
    Option (Option (List SignedCatalogEntry))
    → Option (Option (List SignedSubscription))
    → Option (Option (List SignedAlertRule))
    → ControlSyncResponse
unfolding cap_slice
handle_control_sync_stream catalog subs alerts = record {
  catalog = cap_slice (or_none catalog) control_sync_max;
  subscriptions = cap_slice (or_none subs) control_sync_max;
  alerts = cap_slice (or_none alerts) control_sync_max;
}

-- `for _, x := range xs { f(x) }`
unfoldable pub each : {A S : Type 0} → (A → S → S) → List A → S → S
each f [] s = s
each f (x ∷ xs) s = each f xs (f x s)

module _ {S : Type 0} (e : Env) (i : Ingest S) where
  -- `answer` is what the peer wrote, if the stream opened and the answer decoded.
  unfoldable pub sync_from : Str → Option (List SignedResult) → S → S
  sync_from peer none s = s
  sync_from peer (some results) s =
      if str_eq peer e.peer_id then s else each (handle_result e i) results s

  unfoldable pub control_sync_from : Str → Option ControlSyncResponse → S → S
  control_sync_from peer none s = s
  control_sync_from peer (some resp) s =
      if str_eq peer e.peer_id
      then s
      else each (handle_alert e i) resp.alerts (
          each (handle_subscription e i) resp.subscriptions
            (each (handle_catalog e i) resp.catalog s))
