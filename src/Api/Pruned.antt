-- ===== src/Api/Pruned.antt =====
-- What the reads of hub/api/server.go and the rounds of interestLoop (hub/main.go) leave of a hub's state:
-- they prune it or cache what they read, so it stays sound.
use libre_ping.Base.{
  ◌≡◌, refl, subst, sym, inl, inr, Bool, Option, List, [], ◌∷◌, Bool-cases, ℤ, pos, ℕ, Str, str_dec,
  str_eq, Map, Every, del-Every, split_if, sub64, keys, get, present,
}
use libre_ping.Base.Float.{Floats}
use libre_ping.Protocol.{SignedResult}
use libre_ping.Interest.{holds}
use libre_ping.Remote.{Query}
use libre_ping.Assign.{Probe}
use libre_ping.Store.Subscriptions
use libre_ping.Store.Subscriptions.{MemSubscriptions, expired_sub}
use libre_ping.Hub.{Env}
use libre_ping.Hub.Recompute.{place, recompute}
use libre_ping.Mesh.Topics.{Topics}
use libre_ping.Store.Results.{recent}
use libre_ping.Mesh.Vetted.{IsSafe}
use libre_ping.Api.{Config, Server, RegisteredProbe}
use libre_ping.Api.Assigned.{
  live_loop, live_probes, monitored_specs, handle_checks, local_probe_check_ids, is_gone,
}
use libre_ping.Api.Reads.{fetch_remote}
use libre_ping.Api.Readable.{Caches, fetch_remote-IsReadable}
use libre_ping.Api.Views.{
  mine_of, Seen, Service, add_results, fetch_missing, services_of, handle_services,
  handle_list_alerts, handle_hubs,
}
use libre_ping.Api.Requests.{IsRegistered, IsSound}
use libre_ping.Hub.Pruned.{active_subs-IsSafe, active_alerts-IsSafe}

live_loop-Every :
    (P : Str → RegisteredProbe → Type 0) (now : ℤ) (rest probes : Map Str RegisteredProbe)
    (out : List Probe)
    → Every str_dec P probes
    → Every str_dec P (live_loop now rest probes out).0
unfolding live_loop
live_loop-Every P now [] probes out h = h
live_loop-Every P now ((id, p) ∷ rest) probes out h =
    live_loop-Every P now rest _ _
      (split_if (Every str_dec P) (is_gone now p) (λ _. del-Every str_dec P id probes h) (λ _. h))

module _ (e : Env) where
  -- The stores are safe and the probes are as before.
  pub stores-IsSound :
      (s s' : Server) → s'.probes ≡ s.probes → IsSafe e s'.stores → IsSound e s → IsSound e s'
  stores-IsSound s s' same safe h = record {
    stores = safe;
    probes = subst (Every str_dec (IsRegistered e)) (sym same) h.probes;
  }

  monitored_specs-IsSound :
      (now : ℤ) (s : Server) → IsSound e s → IsSound e (monitored_specs e.sorting now s).0
  unfolding monitored_specs
  monitored_specs-IsSound now s h =
      stores-IsSound s _ refl (active_subs-IsSafe e now s.stores h.stores) h

  live_probes-IsSound : (now : ℤ) (s : Server) → IsSound e s → IsSound e (live_probes now s).0
  unfolding live_probes
  live_probes-IsSound now s h = record {
    stores = h.stores;
    probes = live_loop-Every (IsRegistered e) now s.probes s.probes [] h.probes;
  }

  pub handle_list_alerts-IsSound :
      (owner : Str) (now : ℤ) (s : Server)
      → IsSound e s
      → IsSound e (handle_list_alerts owner now s).0
  unfolding handle_list_alerts
  handle_list_alerts-IsSound owner now s h =
      stores-IsSound s _ refl (active_alerts-IsSafe e now s.stores h.stores) h

  pub handle_hubs-IsSound : (now : ℤ) (s : Server) → IsSound e s → IsSound e (handle_hubs e now s).0
  unfolding handle_hubs
  handle_hubs-IsSound now s h = record {
    stores = record {
      results = h.stores.results;
      valid = h.stores.valid;
      catalog = h.stores.catalog;
      subs = h.stores.subs;
      rules = h.stores.rules;
      states = h.stores.states;
    };
    probes = h.probes;
  }

module _ (fl : Floats) (e : Env) (cfg : Config) where
  pub handle_checks-IsSound :
      (probe_id : Str) (now : ℤ) (s : Server)
      → IsSound e s
      → IsSound e (handle_checks fl e cfg probe_id now s).0
  unfolding handle_checks
  handle_checks-IsSound probe_id now s h =
      live_probes-IsSound e now _ (monitored_specs-IsSound e now s h)

  local_ids-IsSound :
      (now : ℤ) (s : Server) → IsSound e s → IsSound e (local_probe_check_ids fl e cfg now s).0
  unfolding local_probe_check_ids
  local_ids-IsSound now s h = live_probes-IsSound e now _ (monitored_specs-IsSound e now s h)

  module _ (join : Str → Bool) (subscribe : ℕ → Bool) where
    place-IsSound :
        (now : ℤ) (pinned : Map Str Bool) (s : Server) (t : Topics) (prev : Option (Map ℕ Bool))
        → IsSound e s
        → (IsSound e) (place fl e cfg join subscribe now pinned s t prev).server
    unfolding place
    place-IsSound now pinned s t prev h = record {
      stores = record {
        results = h.stores.results;
        valid = h.stores.valid;
        catalog = h.stores.catalog;
        subs = h.stores.subs;
        rules = h.stores.rules;
        states = h.stores.states;
      };
      probes = h.probes;
    }

    pub recompute-IsSound :
        (now : ℤ) (s : Server) (t : Topics) (prev : Option (Map ℕ Bool))
        → IsSound e s
        → (IsSound e) (recompute fl e cfg join subscribe now s t prev).server
    unfolding recompute
    recompute-IsSound now s t prev h =
        let h1 = local_ids-IsSound now s h in
        place-IsSound now _ _ t prev
          (stores-IsSound e _ _ refl (active_alerts-IsSafe e now _ h1.stores) h1)

  module _ (valid_url : Str → Bool) (get_results : Str → Query → Option (List SignedResult))
      (allow_private : Bool) where
    Caches-IsSound :
        (now : ℤ) (check_id : Str) (s : Server) (p : Server × List SignedResult)
        → Caches fl e cfg valid_url get_results allow_private now check_id s p
        → IsSound e s
        → IsSound e p.0
    Caches-IsSound now check_id s (s', answer) (inl (q, _)) h = subst (IsSound e) (sym q) h
    Caches-IsSound now check_id s (s', answer) (inr q) h =
        subst (IsSound e) (sym q) (record { stores = h.stores; probes = h.probes })

    fetch_remote-IsSound :
        (now : ℤ) (check_id : Str) (since_ms : ℤ) (s : Server)
        → IsSound e s
        → (IsSound e)
            (fetch_remote fl e cfg valid_url get_results allow_private now check_id since_ms s).0
    fetch_remote-IsSound now check_id since_ms s h =
        elim (fetch_remote-IsReadable fl e cfg valid_url get_results allow_private now check_id
          since_ms s) [
            | inl (c, g, fresh, q) ↦ subst (λ p. (IsSound e) p.0) (sym q) h
            | inr (readable, q) ↦ Caches-IsSound now check_id s _ q h
          ]

    fetch_missing-IsSound :
        (now : ℤ) (ids : List Str) (s : Server) (v : Seen)
        → IsSound e s
        → (IsSound e) (fetch_missing fl e cfg valid_url get_results allow_private now ids (s, v)).0
    unfolding fetch_missing
    fetch_missing-IsSound now [] s v h = h
    fetch_missing-IsSound now (check_id ∷ rest) s v h =
        elim (Bool-cases (holds e.crypto s.stores.interest check_id)) [
          | inl t ↦ rw (fetch_missing, t) (fetch_missing-IsSound now rest s v h)
          | inr f ↦
              rw (fetch_missing, f)
                (fetch_missing-IsSound now rest _ _
                  (fetch_remote-IsSound now check_id (sub64 now (pos 86400000)) s h))
        ]

    services_of-IsSound :
        (now : ℤ) (mine : Map Str (Unit {0})) (s : Server)
        → IsSound e s
        → (IsSound e) (services_of fl e cfg valid_url get_results allow_private now mine s).0
    unfolding services_of
    services_of-IsSound now [] s h = h
    services_of-IsSound now ((check, u) ∷ rest) s h =
        let local =
          add_results (λ c. present (get str_dec c ((check, u) ∷ rest)))
            (recent e.sorting s.stores.results (pos 1000)) (record { seen = []; by_check = [] }) in
        fetch_missing-IsSound now (keys ((check, u) ∷ rest)) s local h

    pub handle_services-IsSound :
        (owner : Str) (now : ℤ) (s : Server)
        → IsSound e s
        → (IsSound e) (handle_services fl e cfg valid_url get_results allow_private owner now s).0
    unfolding handle_services
    handle_services-IsSound owner now s h =
        split_if (λ (p : Server × List Service). (IsSound e) p.0) (str_eq owner []) (λ _. h)
          (λ _.
            let active = (Subscriptions.list_active now s.stores.subs).1 in
            let pruned : Server = record s {
              stores = record s.stores { subs = (Subscriptions.list_active now s.stores.subs).0 };
            } in
            services_of-IsSound now (mine_of owner active []) pruned
              (stores-IsSound e s pruned refl (active_subs-IsSafe e now s.stores h.stores) h))
