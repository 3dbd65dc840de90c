-- ===== src/Mesh/Topics.antt =====
-- The result topics of hub/p2p/p2p.go: which shards a hub has joined and which it is subscribed to.
-- gossipsub is a parameter: whether Join and Subscribe succeed for a shard while UpdateShards runs.
use libre_ping.Base.{
  ℕ, ◌≡◌, refl, ◌∙◌, ◌≢◌, Bool, true, false, not, ◌&&◌, ◌||◌, [], ◌∷◌, ◌++◌, arith, ℕ_discrete,
  if◌then◌else◌, eqb, Str, codes, Map, get, put, del, get-put, get-del, decimal, or_false, present,
}
use libre_ping.Base.Decimal.{decimal}

abbrev pub result_topic_prefix : Str
result_topic_prefix = codes "libreping/results/v1/"

unfoldable pub result_shard_name : ℕ → Str
result_shard_name s = result_topic_prefix ++ decimal s

-- The fields `joined` and `shardSubs` of a Node. A topic is known by its shard, and so is the
-- reader of a subscription.
pub record Topics : Type 0 where
  pub joined : Map ℕ (Unit {0})
  pub shard_subs : Map ℕ (Unit {0})

module _ (join : Str → Bool) (subscribe : ℕ → Bool) where
  -- Whether there is a topic, and the topics after the call.
  unfoldable pub topic_for_shard : ℕ → Topics → Bool × Topics
  topic_for_shard s t =
      if present (get ℕ_discrete s t.joined)
      then (true, t)
      else if join (result_shard_name s)
      then (true, record t { joined = put ℕ_discrete s tt t.joined })
      else (false, t)

  -- One round of the first loop of UpdateShards.
  unfoldable pub want_shard : ℕ → Topics → Topics
  unfolding topic_for_shard
  want_shard s t =
      if present (get ℕ_discrete s t.shard_subs)
      then t
      else (let (found, t') = topic_for_shard s t in
          if not found
          then t'
          else if not (subscribe s)
          then t'
          else record t' { shard_subs = put ℕ_discrete s tt t'.shard_subs })

  unfoldable pub want_shards : Map ℕ Bool → Topics → Topics
  unfolding want_shard
  want_shards [] t = t
  want_shards ((s, b) ∷ want) t = want_shards want (want_shard s t)

  -- The second loop, over the subscriptions there are.
  unfoldable pub drop_shards : Map ℕ Bool → Map ℕ (Unit {0}) → Topics → Topics
  drop_shards want [] t = t
  drop_shards want ((s, u) ∷ rest) t = drop_shards want rest (
      if or_false (get ℕ_discrete s want)
      then t
      else record t { shard_subs = del ℕ_discrete s t.shard_subs })

  unfoldable pub update_shards : Map ℕ Bool → Topics → Topics
  unfolding want_shards drop_shards
  update_shards want t = let t' = want_shards want t in drop_shards want t'.shard_subs t'

  abbrev pub is_subscribed : ℕ → Topics → Bool
  is_subscribed s t = present (get ℕ_discrete s t.shard_subs)

  abbrev pub has_joined : ℕ → Topics → Bool
  has_joined s t = present (get ℕ_discrete s t.joined)

  abbrev pub can_read : ℕ → Topics → Bool
  can_read s t = (has_joined s t || join (result_shard_name s)) && subscribe s

  topic_for_shard_lem :
      (s : ℕ) (t : Topics)
      → ((topic_for_shard s t).0 ≡ (has_joined s t || join (result_shard_name s)))
        × ((topic_for_shard s t).1.shard_subs ≡ t.shard_subs)
  unfolding topic_for_shard
  topic_for_shard_lem s t = ground arith

  -- The subscriptions after one round: one more, if the shard has none and can be read.
  shard_subs-want_shard :
      (s : ℕ) (t : Topics)
      → (want_shard s t).shard_subs ≡ (
          if is_subscribed s t
          then t.shard_subs
          else if can_read s t
          then put ℕ_discrete s tt t.shard_subs
          else t.shard_subs)
  unfolding want_shard
  shard_subs-want_shard s t = ground (arith, topic_for_shard_lem s t)

  want_shard_lem :
      (s k : ℕ) (t : Topics)
      → is_subscribed k (want_shard s t)
        ≡ (is_subscribed k t || (eqb ℕ_discrete s k && can_read s t))
  want_shard_lem s k t =
      rw shard_subs-want_shard (ground (arith, get-put ℕ_discrete s k tt t.shard_subs))

  joined-want_shard :
      (s k : ℕ) (t : Topics)
      → s ≢ k
      → get ℕ_discrete k (want_shard s t).joined ≡ get ℕ_discrete k t.joined
  unfolding want_shard topic_for_shard
  joined-want_shard s k t ne = ground (arith, get-put ℕ_discrete s k tt t.joined)

  -- A shard that is joined now could be joined before.
  can_read-want_shard : (s k : ℕ) (t : Topics) → can_read k (want_shard s t) ≡ can_read k t
  unfolding want_shard topic_for_shard
  can_read-want_shard s k t = elim (ℕ_discrete s k) [
    | no ne ↦ rw (joined-want_shard s k t ne) refl
    | yes p ↦ rw p (ground (arith, get-put ℕ_discrete k k tt t.joined))
  ]

  want_shards_lem :
      (k : ℕ) (want : Map ℕ Bool) (t : Topics)
      → is_subscribed k (want_shards want t)
        ≡ (is_subscribed k t || (present (get ℕ_discrete k want) && can_read k t))
  unfolding want_shards get
  want_shards_lem k [] t = ground arith
  want_shards_lem k ((s, b) ∷ want) t =
      want_shards_lem k want (want_shard s t)
      ∙ ground (arith, want_shard_lem s k t, can_read-want_shard s k t)

  drop_shards_lem :
      (k : ℕ) (want : Map ℕ Bool) (rest : Map ℕ (Unit {0})) (t : Topics)
      → is_subscribed k (drop_shards want rest t) ≡ (
          is_subscribed k t
          && (or_false (get ℕ_discrete k want) || not (present (get ℕ_discrete k rest))))
  unfolding drop_shards get
  drop_shards_lem k want [] t = ground arith
  drop_shards_lem k want ((s, u) ∷ rest) t = elim (ℕ_discrete s k) [
    | yes p ↦
        rw p (drop_shards_lem k want rest _ ∙ ground (arith, get-del ℕ_discrete k k t.shard_subs))
    | no ne ↦ drop_shards_lem k want rest _ ∙ ground (arith, get-del ℕ_discrete s k t.shard_subs)
  ]

  -- After UpdateShards a hub is subscribed to exactly the wanted shards that it was subscribed to
  -- before or whose topic it can join and subscribe to: a failure costs only its own shard.
  pub update_shards_lem :
      (k : ℕ) (want : Map ℕ Bool) (t : Topics)
      → is_subscribed k (update_shards want t)
        ≡ (or_false (get ℕ_discrete k want) && (is_subscribed k t || can_read k t))
  unfolding update_shards
  update_shards_lem k want t =
      drop_shards_lem k want (want_shards want t).shard_subs (want_shards want t)
      ∙ ground (arith, want_shards_lem k want t)
