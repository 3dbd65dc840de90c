-- ===== src/Remote.antt =====
-- hub/remote/remote.go: queries and submissions to the hubs that hold a check. HTTP and JSON are the
-- parameters `get_results` and `post_result`, which have no answer where a request fails, its status
-- is an error or its body does not decode; `valid_url` is whether netguard.ValidateURL accepts a URL.
use libre_ping.Base.{
  ℕ, Bool, false, not, ◌&&◌, Option, none, some, List, [], ◌∷◌, if◌then◌else◌, ℤ, pos, ltb_ℤ, Str,
  codes, str_dec, Map, put, format_int,
}
use libre_ping.Protocol.{SignedResult, passes}
use libre_ping.Protocol.Verify.{verify_result}
use libre_ping.Hub.{Env}

-- url.Values, with one value for a key.
abbrev pub Query : Type 0
Query = Map Str Str

unfoldable pub check_query : Str → ℤ → ℤ → Query
check_query check_id since_ms limit = put str_dec (codes "limit") (format_int limit) (
    put str_dec (codes "since_ms") (format_int since_ms)
      (put str_dec (codes "check_id") check_id []))

unfoldable pub shard_query : ℕ → ℤ → ℤ → ℤ → Query
shard_query s since_ms before_ms limit =
    let q =
      put str_dec (codes "since_ms") (format_int since_ms)
        (put str_dec (codes "shard") (format_int (pos s)) []) in
    put str_dec (codes "limit") (format_int limit) (
      if ltb_ℤ (pos 0) before_ms
      then put str_dec (codes "before_ms") (format_int before_ms) q
      else q)

-- The loop of Fetch: the results whose signatures verify.
unfoldable pub verified : Env → List SignedResult → List SignedResult
verified e [] = []
verified e (sr ∷ raw) =
    let out = verified e raw in if passes (verify_result e.crypto e.json sr) then sr ∷ out else out

module _ (valid_url : Str → Bool) (get_results : Str → Query → Option (List SignedResult)) where
  unfoldable pub fetch : Env → Bool → Str → Query → Option (List SignedResult)
  unfolding verified
  fetch e allow_private base q =
      if not allow_private && not (valid_url base)
      then none
      else elim (get_results base q) [ none ↦ none | some raw ↦ some (verified e raw) ]

module _ (valid_url : Str → Bool) (post_result : Str → SignedResult → Bool) where
  -- Whether Submit returns no error.
  unfoldable pub submit : Bool → Str → SignedResult → Bool
  submit allow_private base sr =
      if not allow_private && not (valid_url base) then false else post_result base sr
