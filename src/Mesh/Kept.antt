-- ===== src/Mesh/Kept.antt =====
-- Everything that reaches a hub over hub/p2p/p2p.go keeps what its stores promise.
use libre_ping.Base.{refl, List, [], ◌∷◌, ℤ, str_dec, put-Every}
use libre_ping.Hub.{Env, Stores, ingest_catalog, ingest_hub, ingest_subscription, ingest_alert}
use libre_ping.Mesh.Gate.{
  Keeps, control_read-keeps, shard_read-keeps, sync_from-keeps, control_sync_from-keeps,
}
use libre_ping.Mesh.Events.{
  ingest_at, Event, control, shard, synced, control_synced, interest, receive, run,
}
use libre_ping.Store.Catalog.{upsert_check}
use libre_ping.Mesh.Vetted.{IsEntry, IsSafe}
use libre_ping.Mesh.Vouched.{
  ingest-IsSafe, upsert-IsSubscription, upsert-AreSafe, alerts-IsSafe, delivery-IsSafe,
}

module _ (e : Env) where
  -- The ingest functions of main keep the stores safe, on what passed the gate.
  pub ingest_at-Keeps : (now : ℤ) → Keeps e (ingest_at e now) (IsSafe e)
  unfolding ingest_at ingest_catalog upsert_check ingest_hub ingest_subscription ingest_alert
  ingest_at-Keeps now = record {
    result = λ sr h t s. (ingest-IsSafe e) now sr h t s;
    catalog = λ sc h v s. record {
      results = s.results;
      valid = s.valid;
      catalog = put-Every str_dec (IsEntry e) _ sc h.catalog.entries (v, refl) s.catalog;
      subs = s.subs;
      rules = s.rules;
      states = s.states;
    };
    hub = λ sa h v s. record {
      results = s.results;
      valid = s.valid;
      catalog = s.catalog;
      subs = s.subs;
      rules = s.rules;
      states = s.states;
    };
    subscription = λ ss h v s. record {
      results = s.results;
      valid = s.valid;
      catalog = s.catalog;
      subs = upsert-IsSubscription e h.subs ss v s.subs;
      rules = s.rules;
      states = s.states;
    };
    alert =
        λ sa h v s. (alerts-IsSafe e) h _ (upsert-AreSafe e h.alerts sa v (s.rules, s.states)) s;
    delivery = λ sd h v s. (delivery-IsSafe e) now sd h v s;
  }

  pub receive-IsSafe : (ev : Event) (h : Stores) → IsSafe e h → IsSafe e (receive e ev h)
  unfolding receive
  receive-IsSafe (control now msg) h s =
      control_read-keeps e (ingest_at e now) (IsSafe e) (ingest_at-Keeps now) msg h s
  receive-IsSafe (shard now msg) h s =
      shard_read-keeps e (ingest_at e now) (IsSafe e) (ingest_at-Keeps now) msg h s
  receive-IsSafe (synced now peer answer) h s =
      sync_from-keeps e (ingest_at e now) (IsSafe e) (ingest_at-Keeps now) peer answer h s
  receive-IsSafe (control_synced now peer answer) h s =
      control_sync_from-keeps e (ingest_at e now) (IsSafe e) (ingest_at-Keeps now) peer answer h s
  receive-IsSafe (interest archive assigned pinned) h s = record {
    results = s.results;
    valid = s.valid;
    catalog = s.catalog;
    subs = s.subs;
    rules = s.rules;
    states = s.states;
  }

  -- Whatever messages, syncs and updates of its interest reach a hub whose stores are safe, and in
  -- whatever order, they stay safe: every result is signed by its probe, admitted by the trust policy
  -- and by the admission check at some time, and stored once; every catalog entry, subscription and
  -- alert rule is signed by its author and stored under its own key; and every delivery state was
  -- signed by a hub that is a recipient of a signed rule with that ID, and was not dated ahead.
  pub run-IsSafe : (evs : List Event) (h : Stores) → IsSafe e h → IsSafe e (run e evs h)
  unfolding run
  run-IsSafe [] h s = s
  run-IsSafe (ev ∷ evs) h s = run-IsSafe evs (receive e ev h) (receive-IsSafe ev h s)
