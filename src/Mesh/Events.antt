-- ===== src/Mesh/Events.antt =====
-- A hub of hub/main.go on the mesh: its ingest functions as the ones of the node, and everything
-- that reaches it as an event with the clock's reading.
use libre_ping.Base.{ℕ, Bool, Option, none, some, List, [], ◌∷◌, ℤ, Str, Map}
use libre_ping.Protocol.{SignedResult}
use libre_ping.Interest.{update, new_set}
use libre_ping.Hub.{
  Env, Stores, ingest, ingest_catalog, ingest_hub, ingest_subscription, ingest_alert,
  ingest_delivery,
}
use libre_ping.Mesh.{Ingest, Message, control_read, shard_read}
use libre_ping.Mesh.Sync.{ControlSyncResponse, sync_from, control_sync_from}

-- The functions of the Config in main.
unfoldable pub ingest_at : Env → ℤ → Ingest Stores
ingest_at e now_ms = record {
  result = some (ingest e.crypto now_ms);
  catalog = some ingest_catalog;
  hub = some (ingest_hub now_ms);
  subscription = some ingest_subscription;
  alert = some (ingest_alert e.crypto);
  delivery = some (ingest_delivery now_ms);
}

pub data Event : Type 0 where
  control : ℤ → Message → Event
  shard : ℤ → Message → Event
  synced : ℤ → Str → Option (List SignedResult) → Event
  control_synced : ℤ → Str → Option ControlSyncResponse → Event
  interest : Bool → Map ℕ Bool → Map Str Bool → Event

-- The set that main makes, or the one there is, updated.
abbrev pub updated : Bool → Map ℕ Bool → Map Str Bool → Stores → Stores
updated archive assigned pinned h = record h {
  interest =
      some (update (elim h.interest [ none ↦ new_set | some set ↦ set ]) archive assigned pinned);
}

unfoldable pub receive : Env → Event → Stores → Stores
unfolding ingest_at
receive e (control now msg) h = control_read e (ingest_at e now) msg h
receive e (shard now msg) h = shard_read e (ingest_at e now) msg h
receive e (synced now peer answer) h = sync_from e (ingest_at e now) peer answer h
receive e (control_synced now peer answer) h = control_sync_from e (ingest_at e now) peer answer h
receive e (interest archive assigned pinned) h = updated archive assigned pinned h

unfoldable pub run : Env → List Event → Stores → Stores
unfolding receive
run e [] h = h
run e (ev ∷ evs) h = run e evs (receive e ev h)
