-- ===== src/Interest.antt =====
-- hub/interest/interest.go: which results a hub persists. A nil *Set is `none`.
use libre_ping.Base.{
  or_false, ℕ, ◌≡◌, refl, ◌≢◌, ◌↔◌, ◌⊎◌, inl, inr, Bool, true, false, not, ◌||◌, Option, none, some,
  List, [], arith, ℕ_discrete, if◌then◌else◌, Bool-cases, In, ℤ, Str, str_dec, Map, get,
}
use libre_ping.Base.Sorting.{Sorting}
use libre_ping.Base.Float.{Floats}
use libre_ping.Identity.{Crypto}
use libre_ping.Shard.{Hub, of, holders, assigned_shards}
use libre_ping.Shard.Bounds.{of-lt, assigned_shards_iff}

pub record InterestSet : Type 0 where
  pub ready : Bool
  pub archive : Bool
  pub assigned : Map ℕ Bool
  pub pinned : Map Str Bool

abbrev pub new_set : InterestSet
new_set = record { ready = false; archive = false; assigned = []; pinned = [] }

unfoldable pub update : InterestSet → Bool → Map ℕ Bool → Map Str Bool → InterestSet
update s archive assigned pinned = record {
  ready = true;
  archive = archive;
  assigned = assigned;
  pinned = pinned;
}

unfoldable pub holds : Crypto → Option InterestSet → Str → Bool
holds c none check_id = true
holds c (some s) check_id =
    if not s.ready || s.archive
    then true
    else if or_false (get ℕ_discrete (of c check_id) s.assigned)
    then true
    else or_false (get str_dec check_id s.pinned)

-- A nil set and one before its first Update hold everything.
pub holds_fail_open :
    (c : Crypto) (check_id : Str) (s : InterestSet)
    → s.ready ≡ false
    → (holds c none check_id ≡ true) × (holds c (some s) check_id ≡ true)
unfolding holds
holds_fail_open c check_id s h = (refl, ground arith)

module _ (c : Crypto) (fl : Floats) (srt : Sorting) where
  -- After an Update with its assigned shards, a hub that is no archive persists a result exactly if
  -- it is a holder of the check's shard or the check is pinned.
  pub holds_iff :
      (s : InterestSet) (self : Str) (hubs : List Hub) (k : ℤ) (pinned : Map Str Bool)
      (check_id : Str)
      → self ≢ []
      → (holds c (some (update s false (assigned_shards c fl srt self hubs k) pinned)) check_id
          ≡ true)
        ↔ (In self (holders c fl srt (of c check_id) hubs k)
            ⊎ (get str_dec check_id pinned ≡ some true))
  unfolding holds update
  holds_iff s self hubs k pinned check_id named = (forward, backward)
    where
      shard_iff :
          (get ℕ_discrete (of c check_id) (assigned_shards c fl srt self hubs k) ≡ some true)
          ↔ In self (holders c fl srt (of c check_id) hubs k)
      shard_iff = assigned_shards_iff c fl srt self hubs k (of c check_id) named (of-lt c check_id)

      forward :
          holds c (some (update s false (assigned_shards c fl srt self hubs k) pinned)) check_id
            ≡ true
          → In self (holders c fl srt (of c check_id) hubs k)
            ⊎ (get str_dec check_id pinned ≡ some true)
      forward h =
          elim (Bool-cases
            (or_false (get ℕ_discrete (of c check_id) (assigned_shards c fl srt self hubs k)))) [
              | inl e ↦ inl (shard_iff.0 (ground arith))
              | inr e ↦ inr (ground arith)
            ]

      backward :
          In self (holders c fl srt (of c check_id) hubs k)
            ⊎ (get str_dec check_id pinned ≡ some true)
          → holds c (some (update s false (assigned_shards c fl srt self hubs k) pinned)) check_id
            ≡ true
      backward (inl i) = let e = shard_iff.1 i in ground arith
      backward (inr e) = ground arith
