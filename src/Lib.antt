-- ===== src/Lib.antt =====
-- LibrePing (Go): a mesh of hubs that store and gossip signed monitoring results, and of probes
-- that measure. This library models the hub's core and the signed records that it rests on.
--
-- The parts, and the files that model them:
-- - Base: the numbers, integers, strings, maps and sorting that the model of the Go code uses. An
--   int64 is an integer whose operations wrap (`add64`), a string is the list of its bytes, a map is
--   an association list whose order stands for the order of Go's iteration, and sort.Slice is an
--   interface (`Sorting`) that promises a sorted rearrangement and no stability. float64 is an
--   interface too (`Floats`), with the order laws that the code relies on.
-- - Identity: pkg/identity/identity.go. SHA-256 and Ed25519 are the parameter `Crypto`.
-- - Protocol and its children: pkg/protocol/protocol.go, owner.go and probe.go: the signed records, the
--   check ID (CheckSpec.DeriveID), signing and verifying. json.Marshal is the parameter `Json`.
-- - Store and its children: the in-memory stores of hub/store: store.go (results), alert.go,
--   subscription.go and catalog.go. Store/Versioned is the last-writer-wins store that the
--   alerts and the subscriptions refine.
-- - Shard: hub/shard/shard.go, which hubs hold which shard; Interest: hub/interest/interest.go, which
--   results a hub persists, given its shards.
-- - Assign: hub/assign/assign.go, which probe runs which checks.
-- - Outbox: hub/outbox/outbox.go. Trust: hub/trust/trust.go. Admit: hub/admit/admit.go.
-- - Directory: hub/directory/directory.go. Its functions are the critical sections of the code, and
--   Directory/Steps is the relation of their interleavings with the verifier goroutines.
-- - Failover: the pool of hubs of probe/reporter/failover.go; Failover/Calls: the calls over it.
-- - Alert and its children: hub/alert/responsibility.go and alert.go, the engine over the stores.
-- - Hub: the ingest functions that hub/main.go hands to the mesh, over the stores that it makes
--   (`Stores`). Hub/Gossip: one tick of gossipLoop. Hub/Recompute: one round of interestLoop.
--   Hub/Pruned: what the reads that prune keep.
--   Hub/Backfill and its children: the backfill of a shard, against any holder and against a hub that
--   runs this program.
-- - Mesh and its children: hub/p2p/p2p.go: the message handlers and read loops, both sides of both
--   sync protocols (Mesh/Sync), publishing (Mesh/Publish) and the shard topics (Mesh/Topics).
--   Mesh/Events runs a hub over a list of events, Mesh/Vetted and Mesh/Kept say what its stores keep, and
--   Mesh/Converge what two hubs agree on.
-- - Remote: hub/remote/remote.go, the queries between hubs.
-- - Api and its children: hub/api/server.go: the handlers that write (Api), the checks that a probe is
--   given (Api/Assigned), the query for peers (Api/Query), the storage hubs and the coverage report
--   (Api/Holders), reads from the holders of a check (Api/Reads), the views that prune what they list
--   (Api/Views). Api/Requests runs a hub over requests, events of the mesh, pages of a backfill, rounds of
--   the interest loop and ticks of the gossip loop, in any order; Api/Handled, Api/Pruned and
--   Api/Sound say what it keeps, and Api/Readable what its reads show. A page of a backfill that
--   other steps interleave is several inputs of one result each.
-- - Probe and its children: probe/reporter/reporter.go and ratelimit.go: the schedule, the token bucket
--   and the calls to the hubs. Probe/Runs runs a probe over polls, ticks and finished checks.
-- - Tests: concrete inputs.
--
-- How they fit: a request or an event reaches a handler of Api or Mesh, which verifies it with Protocol,
-- asks Trust and Admit, and changes the stores of `Stores`; Interest, from Shard's placement over the
-- hubs of Directory, decides what a hub persists, Outbox keeps the rest, Hub/Gossip and Hub/Backfill
-- repair what was missed, Assign gives checks to probes, and Alert acts on what the stores hold.
--
-- State is passed explicitly: an operation on a store takes it and returns it. A nil pointer is
-- `none`. The clock's readings are arguments. Locks make each operation one step, so they have no
-- counterpart; the two places where the directory releases its lock are two steps.
--
-- Loops are structural recursion over the slice or map that the code ranges over, with two
-- exceptions on fuel. The digits of a number get more rounds than the number has digits. The paging of a
-- backfill answers `none` when its fuel runs out; against a hub of this program each page moves its
-- cursor back by at least a millisecond, so one round more than the window has milliseconds is enough.
--
-- Not modelled: the Postgres stores and their tiering, setting up libp2p and finding peers, the network
-- checks of the probe, the alert channels, the user interface and the wiring of the main programs, which
-- are input and output around external libraries. Of the HTTP API, the other views
-- (locations, history, recent results, catalog, probes, network, health, identity), the rate limits and
-- the middleware are not modelled, nor is MemStore.HistoryRange. The rounds of the alert engine are
-- modelled in Alert, but are no input of Api/Requests: a hub records its own deliveries without signing
-- them. The in-memory stores do not fail, so the branches on a store's error have no
-- counterpart. What publishing answers is only logged by the code.
pub mod Base
pub mod Identity
pub mod Protocol
pub mod Store
pub mod Shard
pub mod Interest
pub mod Outbox
pub mod Trust
pub mod Directory
pub mod Admit
pub mod Hub
pub mod Mesh
pub mod Remote
pub mod Api
pub mod Alert
pub mod Tests
pub mod Assign
pub mod Failover
pub mod Probe
