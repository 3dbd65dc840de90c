-- ===== src/Hub/Recompute.antt =====
-- interestLoop of hub/main.go: one recompute of what this hub stores, which topics it reads and which
-- shards it backfills. The times are in milliseconds, as for the directory.
use libre_ping.Base.{
  ℕ, zero, suc, ◌<◌, ◌≡◌, refl, ◌⊎◌, inl, inr, Bool, true, false, not, ◌||◌, Option, none, some,
  List, [], ◌∷◌, map, arith, ℕ_discrete, if◌then◌else◌, Bool-cases, Option-cases, select, In, ℤ,
  Str, str_dec, Map, get, put, get-put, In-map, or_false, present, keys, In-keys_of,
}
use libre_ping.Base.Float.{Floats}
use libre_ping.Identity.{Crypto}
use libre_ping.Protocol.{SignedAlertRule}
use libre_ping.Interest.{InterestSet, update, new_set, holds}
use libre_ping.Shard.{of, assigned_shards, replication, shard_count}
use libre_ping.Shard.Bounds.{of-lt}
use libre_ping.Store.Alerts
use libre_ping.Hub.{Env}
use libre_ping.Mesh.Topics.{Topics, update_shards, is_subscribed, can_read, update_shards_lem}
use libre_ping.Api.{Config, Server}
use libre_ping.Api.Assigned.{local_probe_check_ids}
use libre_ping.Api.Holders.{storage_hubs}

-- `for _, sa := range rules { if _, ok := sa.Rule.Recipients[self.ID]; ok { … } }`
unfoldable pub pin_rules : Str → List SignedAlertRule → Map Str Bool → Map Str Bool
pin_rules self [] pinned = pinned
pin_rules self (sa ∷ rest) pinned = pin_rules self rest (
    if present (get str_dec self sa.rule.recipients)
    then put str_dec sa.rule.check_id true pinned
    else pinned)

-- `for s := uint32(0); s < n; s++ { subscribed[s] = true }`
unfoldable pub all_shards : ℕ → Map ℕ Bool
all_shards zero = []
all_shards (suc n) = put ℕ_discrete n true (all_shards n)

unfoldable pub add_shards : List ℕ → Map ℕ Bool → Map ℕ Bool
add_shards [] m = m
add_shards (s ∷ rest) m = add_shards rest (put ℕ_discrete s true m)

unfoldable pub wanted_shards : Crypto → Bool → Map ℕ Bool → Map Str Bool → Map ℕ Bool
unfolding all_shards add_shards
wanted_shards c archive assigned pinned =
    if archive
    then all_shards shard_count
    else add_shards (map (of c) (keys pinned)) (add_shards (keys assigned) [])

-- `prev == nil || !prev[s]`
abbrev pub is_new : Option (Map ℕ Bool) → ℕ → Bool
is_new none s = true
is_new (some prev) s = not (or_false (get ℕ_discrete s prev))

-- What a round leaves: `launched` are the shards whose backfill it starts.
pub record Round : Type 0 where
  pub server : Server
  pub topics : Topics
  pub launched : List ℕ
  pub prev : Option (Map ℕ Bool)

module _ (fl : Floats) (e : Env) (cfg : Config) (join : Str → Bool) (subscribe : ℕ → Bool) where
  -- The round with its pinned checks known: the server has listed what it needed.
  unfoldable pub place : ℤ → Map Str Bool → Server → Topics → Option (Map ℕ Bool) → Round
  unfolding wanted_shards
  place now pinned s t prev =
      let hubs = storage_hubs e.policy cfg.self now s.stores.world.dir in
      let assigned = assigned_shards e.crypto fl e.sorting cfg.self.id hubs replication in
      let set : InterestSet = elim s.stores.interest [ none ↦ new_set | some set ↦ set ] in
      record {
        server = record s {
          stores = record s.stores {
            interest = some (update set cfg.self.archive assigned pinned);
          };
        };
        topics =
            update_shards join subscribe (wanted_shards e.crypto cfg.self.archive assigned pinned)
              t;
        launched = if cfg.self.archive then [] else select (is_new prev) (keys assigned);
        prev = some assigned;
      }

  unfoldable pub recompute : ℤ → Server → Topics → Option (Map ℕ Bool) → Round
  unfolding pin_rules place
  recompute now s t prev =
      let (s1, local) = local_probe_check_ids fl e cfg now s in
      let (alerts, rules) = Alerts.list_active now s1.stores.alerts in
      let s2 = record s1 { stores = record s1.stores { alerts = alerts } } in
      place now (pin_rules cfg.self.id rules local) s2 t prev

get-all_shards : (n s : ℕ) → s < n → get ℕ_discrete s (all_shards n) ≡ some true
unfolding all_shards
get-all_shards zero s h = elim h [ ]
get-all_shards (suc n) s h =
    ground (arith, get-put ℕ_discrete n s true (all_shards n), get-all_shards n s)

get-add_shards :
    (rest : List ℕ) (m : Map ℕ Bool) (s : ℕ)
    → (get ℕ_discrete s m ≡ some true) ⊎ In s rest
    → get ℕ_discrete s (add_shards rest m) ≡ some true
unfolding add_shards
get-add_shards [] m s (inl h) = h
get-add_shards [] m s (inr i) = elim i [ ]
get-add_shards (x ∷ rest) m s (inl h) =
    get-add_shards rest (put ℕ_discrete x true m) s
      (inl (ground (arith, get-put ℕ_discrete x s true m)))
get-add_shards (x ∷ rest) m s (inr (inl p)) =
    get-add_shards rest (put ℕ_discrete x true m) s
      (inl (ground (arith, get-put ℕ_discrete x s true m)))
get-add_shards (x ∷ rest) m s (inr (inr i)) =
    get-add_shards rest (put ℕ_discrete x true m) s (inr i)

In-keys_of_true :
    {K : Type 0} (dec : Discrete K) (k : K) (m : Map K Bool)
    → or_false (get dec k m) ≡ true
    → In k (keys m)
In-keys_of_true dec k m h = elim (Option-cases (get dec k m)) [
  | inl q ↦ absurd (let f = rw q at h in cc)
  | inr (b, q) ↦ In-keys_of dec k b m q
]

-- The shard of a check that a set holds is wanted.
wanted_lem :
    (c : Crypto) (archive : Bool) (assigned : Map ℕ Bool) (pinned : Map Str Bool)
    (set : InterestSet) (check_id : Str)
    → holds c (some (update set archive assigned pinned)) check_id ≡ true
    → get ℕ_discrete (of c check_id) (wanted_shards c archive assigned pinned) ≡ some true
unfolding holds update wanted_shards
wanted_lem c true assigned pinned set check_id h =
    get-all_shards shard_count (of c check_id) (of-lt c check_id)
wanted_lem c false assigned pinned set check_id h =
    get-add_shards (map (of c) (keys pinned)) _ (of c check_id)
      (elim (Bool-cases (or_false (get ℕ_discrete (of c check_id) assigned))) [
        | inl t ↦ inl (
            get-add_shards (keys assigned) [] (of c check_id)
              (inr (In-keys_of_true ℕ_discrete (of c check_id) assigned t)))
        | inr f ↦ inr (
            In-map (of c) check_id (keys pinned)
              (In-keys_of_true str_dec check_id pinned (ground arith)))
      ])

module _ (fl : Floats) (e : Env) (cfg : Config) (join : Str → Bool) (subscribe : ℕ → Bool) where
  -- After a round of the interest loop, a hub reads the topic of the shard of every check that it
  -- stores results of, if it read that topic before or can join and subscribe to it.
  pub recompute_reads_what_it_holds :
      (now : ℤ) (s : Server) (t : Topics) (prev : Option (Map ℕ Bool)) (check_id : Str)
      → holds e.crypto
          (recompute fl e cfg join subscribe now s t prev).server.stores.interest
          check_id
        ≡ true
      → (is_subscribed join subscribe (of e.crypto check_id) t
          || can_read join subscribe (of e.crypto check_id) t)
        ≡ true
      → is_subscribed join subscribe
          (of e.crypto check_id)
          (recompute fl e cfg join subscribe now s t prev).topics
        ≡ true
  unfolding recompute place
  recompute_reads_what_it_holds now s t prev check_id h r =
      rw (update_shards_lem join subscribe)
        (rw (wanted_lem e.crypto cfg.self.archive _ _ _ check_id h, r) refl)
