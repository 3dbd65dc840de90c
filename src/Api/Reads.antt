-- ===== src/Api/Reads.antt =====
-- Reading a check's results from its holders, in hub/api/server.go: fetchRemote and admitRemote, with
-- the cache of what they answered. Times are milliseconds.
use libre_ping.Base.{
  Bool, false, not, ◌||◌, Option, none, some, List, [], ◌∷◌, if◌then◌else◌, ℤ, pos, ltb_ℤ, ◌-ℤ◌,
  Str, str_dec, str_eq, get, put,
}
use libre_ping.Base.Float.{Floats}
use libre_ping.Protocol.{SignedResult, passes}
use libre_ping.Trust.{allow}
use libre_ping.Admit
use libre_ping.Remote.{Query, check_query, fetch}
use libre_ping.Hub.{Env, look}
use libre_ping.Api.{Server, Config, CachedResults}
use libre_ping.Api.Holders.{holder_urls}

abbrev pub remote_cache_ttl : ℤ
remote_cache_ttl = pos 15000

-- One result of the loop of admitRemote: whether it is kept.
unfoldable pub is_admitted : Env → ℤ → Str → ℤ → Server → SignedResult → Bool
is_admitted e now check_id since_ms s sr =
    if not (str_eq sr.content.check_id check_id) || ltb_ℤ sr.content.timestamp_ms since_ms
    then false
    else if not (allow e.policy sr.content.probe_id)
    then false
    else passes (Admit.result (some (look s.stores.catalog)) sr now)

unfoldable pub admit_remote : Env → ℤ → Str → ℤ → Server → List SignedResult → List SignedResult
unfolding is_admitted
admit_remote e now check_id since_ms s [] = []
admit_remote e now check_id since_ms s (sr ∷ res) =
    let out = admit_remote e now check_id since_ms s res in
    if is_admitted e now check_id since_ms s sr then sr ∷ out else out

-- The answer of the first holder that answers.
unfoldable pub first_answer :
    (Str → Option (List SignedResult)) → List Str → Option (List SignedResult)
first_answer ask [] = none
first_answer ask (u ∷ urls) =
    let rest = first_answer ask urls in elim (ask u) [ none ↦ rest | some res ↦ some res ]

-- What the cache has for a check, if it is fresh.
unfoldable pub cached : ℤ → Option CachedResults → Option (List SignedResult)
cached now none = none
cached now (some c) = if ltb_ℤ (now -ℤ c.at) remote_cache_ttl then some c.results else none

module _ (fl : Floats) (e : Env) (cfg : Config) (valid_url : Str → Bool)
    (get_results : Str → Query → Option (List SignedResult)) (allow_private : Bool) where
  abbrev pub ask : Str → ℤ → Str → Option (List SignedResult)
  ask check_id since_ms u =
      fetch valid_url get_results e allow_private u (check_query check_id since_ms (pos 500))

  -- fetchRemote after its lookup in the cache.
  unfoldable pub fetch_holders : ℤ → Str → ℤ → Server → Server × List SignedResult
  unfolding first_answer admit_remote
  fetch_holders now check_id since_ms s =
      elim (first_answer (ask check_id since_ms)
        (holder_urls e.crypto fl e.sorting e.policy cfg.self now s.stores.world.dir check_id)) [
          | none ↦ (s, [])
          | some res ↦
              let admitted = admit_remote e now check_id since_ms s res in
              (
                record s {
                  remote_cache =
                      put str_dec check_id (record { at = now; results = admitted }) s.remote_cache;
                },
                admitted,
              )
        ]

  unfoldable pub fetch_remote : ℤ → Str → ℤ → Server → Server × List SignedResult
  unfolding cached fetch_holders
  fetch_remote now check_id since_ms s = elim (cached now (get str_dec check_id s.remote_cache)) [
    | some results ↦ (s, results)
    | none ↦ fetch_holders now check_id since_ms s
  ]
