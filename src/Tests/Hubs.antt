-- ===== src/Tests/Hubs.antt =====
-- The theorems on a whole hub (hub/main.go, hub/p2p, hub/api) at concrete inputs.
use libre_ping.Base.{
  ◌≡◌, refl, ◌⊎◌, ◌↔◌, ◌≢◌, true, false, none, codes, some, List, [], ◌∷◌, arith, In, pos, str_dec,
  get,
}
use libre_ping.Protocol.{SignedResult, ok}
use libre_ping.Admit
use libre_ping.Protocol.Verify.{verify_result}
use libre_ping.Hub.{look}
use libre_ping.Outbox.{Outbox}
use libre_ping.Mesh.Vetted.{IsSafe}
use libre_ping.Mesh.Gate.{IsTrusted}
use libre_ping.Mesh.Events.{ingest_at}
use libre_ping.Mesh.{handle_result}
use libre_ping.Api.{handle_submit, status_accepted, publish_result, push_to_holders}
use libre_ping.Api.Requests.{
  Input, from_mesh, from_http, from_holder, interest_round, gossip_round, submit, checks, services,
  list_alerts, hubs, serve, IsSound,
}
use libre_ping.Mesh.Events.{synced}
use libre_ping.Base.Float.{whole}
use libre_ping.Api.Sound.{serve-IsSound}
use libre_ping.Api.Submit.{
  submit_iff, submit-handle_result, submit_retained, submit_refused_unchanged,
}
use libre_ping.Trust.{allow}
use libre_ping.Store.Catalog
use libre_ping.Store.Results.{dedupe_key}
use libre_ping.Store.Results.Dedupe.{new_mem_store-IsValid}
use libre_ping.Tests.{early}
use libre_ping.Tests.Records.{signed}
use libre_ping.Tests.Nodes.{node, server, no_stores, no_items, config, signed-verified}

no_stores-IsSafe : IsSafe node no_stores
no_stores-IsSafe = record {
  results = tt;
  valid = new_mem_store-IsValid;
  catalog = tt;
  subs = tt;
  rules = tt;
  states = tt;
}

server-IsSound : IsSound node server
server-IsSound = record { stores = no_stores-IsSafe; probes = tt }

admitted : Admit.result (some (look no_stores.catalog)) signed (pos 1000) ≡ ok tt
unfolding Admit.result look Catalog.get_check get str_dec
admitted = refl

trusted : IsTrusted node signed
unfolding allow
trusted = (signed-verified, refl)

abbrev inputs : List Input
inputs =
    from_http (submit (some signed) (pos 1000))
    ∷ from_mesh (synced (pos 1500) (codes "h2") (some (signed ∷ [])))
    ∷ from_holder (pos 2000) (signed ∷ [])
    ∷ from_http (checks (codes "p1") (pos 2000))
    ∷ from_http (services (λ u. true) (λ u q. some (signed ∷ [])) false (codes "ann") (pos 3000))
    ∷ from_http (list_alerts [] (pos 4000))
    ∷ from_http (hubs (pos 4500))
    ∷ interest_round (λ topic. true) (λ sh. true) (pos 5000)
        (record { joined = []; shard_subs = [] }) none
    ∷ gossip_round (pos 6000)
    ∷ []

serve-IsSound_example : IsSound node (serve whole node config inputs server)
serve-IsSound_example = serve-IsSound node whole config inputs server (refl, tt) server-IsSound

submit_iff_example :
    ((handle_submit node (some signed) (pos 1000) server).code ≡ status_accepted) ↔ (
      IsTrusted node signed
      × (Admit.result (some (look no_stores.catalog)) signed (pos 1000) ≡ ok tt))
submit_iff_example = submit_iff node signed (pos 1000) server

accepted : (handle_submit node (some signed) (pos 1000) server).code ≡ status_accepted
accepted = (submit_iff node signed (pos 1000) server).1 (trusted, admitted)

submit-handle_result_example :
    (handle_submit node (some signed) (pos 1000) server).server.stores
    ≡ handle_result node (ingest_at node (pos 1000)) signed no_stores
submit-handle_result_example = submit-handle_result node signed (pos 1000) server

submit_retained_example :
    In (publish_result signed) (handle_submit node (some signed) (pos 1000) server).sent
    × (((x : SignedResult) × In x
            (handle_submit node (some signed) (pos 1000) server).server.stores.results.all
          × (dedupe_key x.content ≡ dedupe_key signed.content))
        ⊎ ((kept : Outbox) × ((handle_submit node (some signed) (pos 1000) server).server.outbox
              ≡ some kept)
            × In (record { sr = signed; at = pos 1000 }) kept.items
            × In
                (push_to_holders signed)
                (handle_submit node (some signed) (pos 1000) server).sent))
submit_retained_example =
    submit_retained node signed (pos 1000) server no_items new_mem_store-IsValid refl (omega arith)
      accepted

forged : (handle_submit node (some early) (pos 1000) server).code ≢ status_accepted
unfolding handle_submit verify_result
forged e = absurd (let z : 400 ≡ 202 = e in omega (arith, z))

submit_refused_unchanged_example :
    ((handle_submit node (some early) (pos 1000) server).server ≡ server)
    × ((handle_submit node (some early) (pos 1000) server).sent ≡ [])
submit_refused_unchanged_example =
    submit_refused_unchanged node (some early) (pos 1000) server forged
