-- ===== src/Store/Subscriptions/Replay.antt =====
-- Replays and deliveries in any order, against hub/store/subscription.go.
use libre_ping.Base.{
  ◌≡◌, refl, sym, ap, ◌∙◌, Option, some, List, [], ◌∷◌, arith, All, ℤ, ◌≤ℤ◌, Str, str_dec, get,
}
use mathlib.Core.List.{Permᴰ}
use libre_ping.Protocol.{SignedSubscription}
use libre_ping.Store.Versioned
use libre_ping.Store.Subscriptions.{MemSubscriptions, sub_key, upsert}

abbrev pub key : SignedSubscription → Str
key ss = sub_key ss.subscription

abbrev pub version : SignedSubscription → ℤ
version ss = ss.subscription.updated_ms

-- The records of a history of deliveries, applied in turn.
unfoldable pub upsert_all : MemSubscriptions → List SignedSubscription → MemSubscriptions
upsert_all m [] = m
upsert_all m (ss ∷ rest) = upsert_all (upsert m ss) rest

abbrev pub stored : MemSubscriptions → Str → Option SignedSubscription
stored m k = get str_dec k m.subs

upsert_lem :
    (m : MemSubscriptions) (ss : SignedSubscription)
    → (upsert m ss).subs ≡ Versioned.upsert key version m.subs ss
unfolding upsert Versioned.upsert
upsert_lem m ss = ground arith

upsert_all_lem :
    (m : MemSubscriptions) (rs : List SignedSubscription)
    → (upsert_all m rs).subs ≡ Versioned.merge key version m.subs rs
unfolding upsert_all Versioned.merge
upsert_all_lem m [] = refl
upsert_all_lem m (r ∷ rs) =
    upsert_all_lem (upsert m r) rs ∙ ap (λ s. Versioned.merge key version s rs) (upsert_lem m r)

-- Two hubs that start from the same store and receive the same subscriptions in any order hold the
-- same record for every owner and check, if no two of the records share key and version.
pub upsert_all-perm :
    (m : MemSubscriptions) (rs ss : List SignedSubscription) (k : Str)
    → Permᴰ rs ss
    → Versioned.Compatible key version rs
    → stored (upsert_all m rs) k ≡ stored (upsert_all m ss) k
upsert_all-perm m rs ss k p h =
    ap (get str_dec k) (upsert_all_lem m rs)
    ∙ (Versioned.merge-perm key version k m.subs p h
        ∙ sym (ap (get str_dec k) (upsert_all_lem m ss)))

-- A stored record, such as a tombstone, stays as it is through any history of records for its key
-- that are not newer.
pub replay_refused :
    (m : MemSubscriptions) (rs : List SignedSubscription) (k : Str) (cur : SignedSubscription)
    → stored m k ≡ some cur
    → All (λ r. key r ≡ k → version r ≤ℤ version cur) rs
    → stored (upsert_all m rs) k ≡ some cur
replay_refused m rs k cur h old =
    ap (get str_dec k) (upsert_all_lem m rs) ∙ Versioned.merge_old key version k m.subs rs cur h old

-- The version stored for a key never falls, and a key never disappears.
pub upsert_all-monotone :
    (m : MemSubscriptions) (rs : List SignedSubscription) (k : Str) (cur : SignedSubscription)
    → stored m k ≡ some cur
    → (new : SignedSubscription) × (stored (upsert_all m rs) k ≡ some new)
      × (version cur ≤ℤ version new)
upsert_all-monotone m rs k cur h =
    let (new, e, le) = Versioned.merge-monotone key version k m.subs rs cur h in
    (new, ap (get str_dec k) (upsert_all_lem m rs) ∙ e, le)
