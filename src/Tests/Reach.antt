-- ===== src/Tests/Reach.antt =====
-- The theorems on backfilling, monitoring, coverage and the failover pool (hub/main.go, hub/api,
-- probe/reporter) at concrete inputs.
use libre_ping.Base.{
  ◌⊎◌, ◌<ℤ◌, ℕ, suc, ◌≡◌, refl, ◌↔◌, true, Option, none, some, List, [], ◌∷◌, arith, All, pos, ◌-ℤ◌,
  pos_part, Str, codes, str_dec, get, str_eq, ltb, if◌then◌else◌, ◌==◌,
}
use libre_ping.Base.Float.{whole}
use libre_ping.Base.Sorting.{insertion}
use libre_ping.Protocol.{CheckSpec, SignedResult, SignedCatalogEntry}
use libre_ping.Store.Results.{MemStore}
use libre_ping.Store.Subscriptions
use libre_ping.Hub.Backfill.{Progress, pull}
use libre_ping.Hub.Backfill.Peer.{page_of, pull-ends_of_peer}
use libre_ping.Api.Query.{handle_query}
use libre_ping.Api.{Server, CachedResults}
use libre_ping.Api.Reads.{fetch_remote}
use libre_ping.Api.Readable.{fetch_remote-IsReadable, IsReadable, Caches}
use libre_ping.Remote.{Query}
use libre_ping.Api.Holders.{coverage, coverage_lem, storers}
use libre_ping.Failover.{FailoverClient, new_failover_client}
use libre_ping.Failover.Calls.{do_call}
use libre_ping.Failover.Attempts.{do_call_fails_iff}
use libre_ping.Tests.{toy, early, three_hubs, spec_with}
use libre_ping.Tests.Mesh.{verified_world}
use libre_ping.Tests.Records.{signed, signed_entry}
use libre_ping.Tests.Nodes.{config, node, server, no_stores, signed_wish, decimals}

abbrev nothing : Progress
nothing = record { stores = no_stores; total = 0; stored = 0 }

abbrev peer_store : MemStore
peer_store = record { seen = []; all = early ∷ [] }

pull-ends_of_peer_example :
    (out : Progress) × (pull node
        (λ k. pos 1000)
        (page_of
          (λ u. true)
          (λ u q. some (handle_query decimals toy insertion peer_store q).1)
          node
          true
          (codes "https://h2")
          3
          (pos 2))
        (suc (pos_part (pos 50 -ℤ pos 2)))
        0
        (pos 0)
        nothing
      ≡ some out)
pull-ends_of_peer_example =
    pull-ends_of_peer (λ u. true) (λ u q. some (handle_query decimals toy insertion peer_store q).1)
      node node decimals peer_store true (codes "https://h2") 3 (pos 2) (pos 50) (λ k. pos 1000)
      nothing (omega arith) (omega arith) (omega arith) (omega arith) (omega arith, tt) (λ q. refl)

abbrev two_results : MemStore
two_results = record { seen = []; all = early ∷ signed ∷ [] }

-- A check of the catalog that a subscription wants.
abbrev wanted : SignedCatalogEntry
wanted = record signed_entry {
  entry = record signed_entry.entry { spec = record (spec_with []) { id = codes "c1" } };
}

abbrev wished : Server
wished = record server {
  stores = record no_stores {
    catalog = record { entries = (codes "c1", wanted) ∷ [] };
    subs = record { subs = (codes "o|c1", signed_wish) ∷ [] };
  };
}

abbrev monitored : CheckSpec
monitored = record wanted.entry.spec { interval_seconds = pos 60 }

coverage_lem_example :
    coverage toy whole insertion three_hubs
    ≡ ((if storers three_hubs == 0 then 64 else 0), (if ltb (storers three_hubs) 3 then 64 else 0))
coverage_lem_example = coverage_lem toy whole insertion three_hubs

abbrev pool : FailoverClient
pool = new_failover_client (codes "https://h1" ∷ codes "https://h2" ∷ []) true

-- The second hub answers.
abbrev second_answers : Str → Option ℕ
second_answers url = if str_eq url (codes "https://h2") then some 7 else none

do_call_fails_iff_example :
    ((do_call second_answers (λ k. pos 100) (pos 99) true pool).0 ≡ none)
    ↔ All (λ c. second_answers c.url ≡ none) pool.candidates
do_call_fails_iff_example = do_call_fails_iff second_answers (λ k. pos 100) (pos 99) true pool

-- Every hub answers with a result of the check.
abbrev holders_answer : Str → Query → Option (List SignedResult)
holders_answer url q = some (signed ∷ [])

-- A server that has read the check before, too long ago.
abbrev reader : Server
reader = record server {
  stores = record no_stores { world = verified_world };
  remote_cache = (codes "c1", record { at = pos 990; results = signed ∷ [] }) ∷ [];
}

fetch_remote-IsReadable_example :
    ((c : CachedResults) × (get str_dec (codes "c1") reader.remote_cache ≡ some c)
      × (pos 20000 -ℤ c.at <ℤ pos 15000)
      × (fetch_remote whole node config
            (λ u. true)
            holders_answer
            true
            (pos 20000)
            (codes "c1")
            (pos 0)
            reader
          ≡ (reader, c.results)))
    ⊎ (All
          (IsReadable node no_stores.catalog (pos 20000) (codes "c1") (pos 0))
          (fetch_remote whole node config
            (λ u. true)
            holders_answer
            true
            (pos 20000)
            (codes "c1")
            (pos 0)
            reader).1
        × Caches whole node config
            (λ u. true)
            holders_answer
            true
            (pos 20000)
            (codes "c1")
            reader
            (fetch_remote whole node config
              (λ u. true)
              holders_answer
              true
              (pos 20000)
              (codes "c1")
              (pos 0)
              reader))
fetch_remote-IsReadable_example =
    fetch_remote-IsReadable whole node config (λ u. true) holders_answer true (pos 20000)
      (codes "c1") (pos 0) reader
