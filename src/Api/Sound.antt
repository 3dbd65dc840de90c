-- ===== src/Api/Sound.antt =====
-- What a hub keeps, whatever changes its state: the handlers of hub/api/server.go, the events of the
-- mesh and the loops of hub/main.go.
use libre_ping.Base.{Option, none, some, List, [], ◌∷◌, All, ℤ, pos}
use libre_ping.Identity.{Identity, IsKeyPair}
use libre_ping.Protocol.{SignedResult}
use libre_ping.Hub.{Env}
use libre_ping.Mesh.Kept.{receive-IsSafe}
use libre_ping.Mesh.Offered.{one}
use libre_ping.Api.{Config, Server}
use libre_ping.Base.Float.{Floats}
use libre_ping.Hub.Pruned.{gossip_tick-IsSafe}
use libre_ping.Hub.Backfill.Stored.{take_page-IsSafe}
use libre_ping.Api.Readable.{verified-IsSigned}
use libre_ping.Api.Pruned.{
  handle_checks-IsSound, handle_services-IsSound, handle_list_alerts-IsSound, handle_hubs-IsSound,
  recompute-IsSound,
}
use libre_ping.Api.Requests.{
  Request, register, submit, subscribe, alert_rule, create_check, checks, services, list_alerts,
  hubs, handle, Input, from_mesh, from_http, from_holder, interest_round, gossip_round, gossip,
  backfilled, step, serve, IsSound,
}
use libre_ping.Api.Handled.{
  register-IsSound, submit-IsSound, subscribe-IsSound, alert_rule-IsSound, create_check-IsSound,
}

module _ (e : Env) where
  gossip-IsSound :
      (id : Option Identity) (now : ℤ) (s : Server) → IsSound e s → IsSound e (gossip e id now s)
  unfolding gossip
  gossip-IsSound none now s h = h
  gossip-IsSound (some id) now s h = record {
    stores = gossip_tick-IsSafe e id now s.stores s.outbox h.stores;
    probes = h.probes;
  }

  backfilled-IsSound :
      (now : ℤ) (raw : List SignedResult) (s : Server)
      → IsSound e s
      → IsSound e (backfilled e now raw s)
  unfolding backfilled
  backfilled-IsSound now raw s h = record {
    stores = take_page-IsSafe e now _ (pos 0) _ (verified-IsSigned e raw) h.stores;
    probes = h.probes;
  }

  module _ (fl : Floats) (cfg : Config) where
    handle-IsSound :
        (req : Request) (s : Server)
        → All (IsKeyPair e.crypto) (one cfg.identity)
        → IsSound e s
        → IsSound e (handle fl e cfg req s).server
    unfolding handle
    handle-IsSound (register body now) s k h = register-IsSound e body now s h
    handle-IsSound (submit body now) s k h = submit-IsSound e body now s h
    handle-IsSound (subscribe body) s k h = subscribe-IsSound e body s h
    handle-IsSound (alert_rule body) s k h = alert_rule-IsSound e body s h
    handle-IsSound (create_check body) s k h = create_check-IsSound e cfg.identity body s k h
    handle-IsSound (checks probe_id now) s k h = handle_checks-IsSound fl e cfg probe_id now s h
    handle-IsSound (services valid_url get_results allow_private owner now) s k h =
        handle_services-IsSound fl e cfg valid_url get_results allow_private owner now s h
    handle-IsSound (list_alerts owner now) s k h = handle_list_alerts-IsSound e owner now s h
    handle-IsSound (hubs now) s k h = handle_hubs-IsSound e now s h

    step-IsSound :
        (i : Input) (s : Server)
        → All (IsKeyPair e.crypto) (one cfg.identity)
        → IsSound e s
        → IsSound e (step fl e cfg i s)
    unfolding step
    step-IsSound (from_mesh ev) s k h = record {
      stores = receive-IsSafe e ev s.stores h.stores;
      probes = h.probes;
    }
    step-IsSound (from_http req) s k h = handle-IsSound req s k h
    step-IsSound (from_holder now raw) s k h = backfilled-IsSound now raw s h
    step-IsSound (interest_round join sub_to now t prev) s k h =
        recompute-IsSound fl e cfg join sub_to now s t prev h
    step-IsSound (gossip_round now) s k h = gossip-IsSound cfg.identity now s h

    -- Let mesh events, requests to register, submit, subscribe, set an alert rule, create a check, and
    -- list checks, services, alert rules and hubs, results that holders answer backfills with, rounds
    -- of the interest loop and ticks of the gossip loop reach a hub in any order. If its state was
    -- sound, it stays sound: every stored result has a valid signature by a probe that the trust policy
    -- admits, and passed the admission check at some time against some catalog; every catalog entry,
    -- subscription and rule is verified and stands under its key; every delivery state is by a
    -- recipient of a verified rule; and every probe proved its key and has a capacity within bounds.
    -- The identity of the hub, if it has one, must be a key pair.
    pub serve-IsSound :
        (inputs : List Input) (s : Server)
        → All (IsKeyPair e.crypto) (one cfg.identity)
        → IsSound e s
        → IsSound e (serve fl e cfg inputs s)
    unfolding serve
    serve-IsSound [] s k h = h
    serve-IsSound (i ∷ rest) s k h = serve-IsSound rest (step fl e cfg i s) k (step-IsSound i s k h)
