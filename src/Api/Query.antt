-- ===== src/Api/Query.antt =====
-- handleQuery of hub/api/server.go: the results that a hub answers its peers. The number parsers of
-- strconv are the parameter `Strconv`.
use libre_ping.Base.{
  ℕ, ◌+◌, ◌/◌, ◌%◌, ◌^◌, ◌<◌, ◌≡◌, refl, sym, ◌∙◌, ◌≢◌, inl, inr, false, not, ◌||◌, Option, none,
  some, List, [], ◌∷◌, ◌++◌, arith, ltb, if◌then◌else◌, Bool-cases, eqb_refl, ℤ, pos, negsuc, ltb_ℤ,
  leb_ℤ, ◌≤ℤ◌, ◌<ℤ◌, Str, codes, str_dec, str_eq, get, put, decimal, format_int, InInt64, eqb_no,
  split_if,
}
use libre_ping.Base.Decimal.{decimal_lem}
use libre_ping.Base.Sorting.{Sorting}
use libre_ping.Identity.{Crypto}
use libre_ping.Protocol.{SignedResult}
use libre_ping.Remote.{Query, shard_query}
use libre_ping.Shard.{of}
use libre_ping.Store.Results.{MemStore, recent_since, recent_since_check, recent_since_shard}
use libre_ping.Api.{status_ok, bad_request}

-- strings.TrimSpace, and strconv: `parse_int64` is the number that ParseInt returns, its error
-- dropped; `atoi` and `parse_uint32` have no value where there is an error.
pub record Strconv : Type 0 where
  pub trim_space : Str → Str
  pub parse_int64 : Str → ℤ
  pub atoi : Str → Option ℤ
  pub parse_uint32 : Str → Option ℕ
  pub trim-format_int : (z : ℤ) → trim_space (format_int z) ≡ format_int z
  pub parse_int64-format_int : (z : ℤ) → InInt64 z → parse_int64 (format_int z) ≡ z
  pub parse_int64-nil : parse_int64 (trim_space []) ≡ pos 0
  pub atoi-format_int : (z : ℤ) → InInt64 z → atoi (format_int z) ≡ some z
  pub parse_uint32-format_int : (n : ℕ) → n < 2 ^ 32 → parse_uint32 (format_int (pos n)) ≡ some n

-- `q.Get(key)`, where a missing key reads as empty.
abbrev pub value : Query → Str → Str
value q key = elim (get str_dec key q) [ none ↦ [] | some v ↦ v ]

abbrev pub max_query_limit : ℤ
max_query_limit = pos 5000

module _ (sc : Strconv) where
  unfoldable pub atoi64 : Str → ℤ
  atoi64 s = sc.parse_int64 (sc.trim_space s)

  unfoldable pub atoi_default : Str → ℤ → ℤ
  atoi_default s def = elim (sc.atoi (sc.trim_space s)) [ none ↦ def | some n ↦ n ]

  unfoldable pub query_limit : Query → ℤ
  unfolding atoi_default
  query_limit q =
      let limit = atoi_default (value q (codes "limit")) (pos 1000) in
      if leb_ℤ limit (pos 0) || ltb_ℤ max_query_limit limit then max_query_limit else limit

  -- The status code and the results.
  unfoldable pub handle_query : Crypto → Sorting → MemStore → Query → ℕ × List SignedResult
  unfolding atoi64 query_limit
  handle_query c s m q =
      let since_ms = atoi64 (value q (codes "since_ms")) in
      let before_ms = atoi64 (value q (codes "before_ms")) in
      let limit = query_limit q in
      let check_id = value q (codes "check_id") in
      let shard = value q (codes "shard") in
      if not (str_eq check_id [])
      then (status_ok, recent_since_check s m check_id since_ms before_ms limit)
      else if not (str_eq shard [])
      then elim (sc.parse_uint32 shard) [
        | none ↦ (bad_request, [])
        | some sh ↦ (status_ok, recent_since_shard s (of c) m sh since_ms before_ms limit)
      ]
      else (status_ok, recent_since s m since_ms limit)

append-ne-nil : (xs : Str) (d : ℕ) → xs ++ (d ∷ []) ≢ []
append-ne-nil [] d h = cc
append-ne-nil (x ∷ xs) d h = cc

decimal-ne-nil : (n : ℕ) → decimal n ≢ []
decimal-ne-nil n h = absurd (
    let e = sym (decimal_lem n) ∙ h in
    split_if (λ l. l ≡ [] → ⊥) (ltb n 10) (λ _ f. cc)
      (λ _ f. append-ne-nil (decimal (n / 10)) (b'0' + n % 10) f) e)

format_int-ne-nil : (n : ℕ) → str_eq (format_int (pos n)) [] ≡ false
unfolding format_int
format_int-ne-nil n = eqb_no str_dec (decimal n) [] (decimal-ne-nil n)

module _ (s : ℕ) (since before limit : ℤ) where
  check_id-shard_query : value (shard_query s since before limit) (codes "check_id") ≡ []
  unfolding shard_query get put str_dec
  check_id-shard_query = elim (Bool-cases (ltb_ℤ (pos 0) before)) [
    | inl t ↦ rw (shard_query, t) refl
    | inr f ↦ rw (shard_query, f) refl
  ]

  shard-shard_query : value (shard_query s since before limit) (codes "shard") ≡ format_int (pos s)
  unfolding shard_query get put str_dec
  shard-shard_query = elim (Bool-cases (ltb_ℤ (pos 0) before)) [
    | inl t ↦ rw (shard_query, t) refl
    | inr f ↦ rw (shard_query, f) refl
  ]

  since_ms-shard_query :
      value (shard_query s since before limit) (codes "since_ms") ≡ format_int since
  unfolding shard_query get put str_dec
  since_ms-shard_query = elim (Bool-cases (ltb_ℤ (pos 0) before)) [
    | inl t ↦ rw (shard_query, t) refl
    | inr f ↦ rw (shard_query, f) refl
  ]

  limit-shard_query : value (shard_query s since before limit) (codes "limit") ≡ format_int limit
  unfolding shard_query get put str_dec
  limit-shard_query = elim (Bool-cases (ltb_ℤ (pos 0) before)) [
    | inl t ↦ rw (shard_query, t) refl
    | inr f ↦ rw (shard_query, f) refl
  ]

  before_ms-shard_query :
      value (shard_query s since before limit) (codes "before_ms")
      ≡ (if ltb_ℤ (pos 0) before then format_int before else [])
  unfolding shard_query get put str_dec
  before_ms-shard_query = elim (Bool-cases (ltb_ℤ (pos 0) before)) [
    | inl t ↦ rw (shard_query, t) refl
    | inr f ↦ rw (shard_query, f) refl
  ]

module _ (sc : Strconv) where
  atoi64-format_int : (z : ℤ) → InInt64 z → atoi64 sc (format_int z) ≡ z
  unfolding atoi64
  atoi64-format_int z h = rw (atoi64, sc.trim-format_int z) (sc.parse_int64-format_int z h)

  query_limit-format_int :
      (q : Query) (limit : ℤ)
      → value q (codes "limit") ≡ format_int limit
      → pos 0 <ℤ limit
      → limit ≤ℤ pos 5000
      → query_limit sc q ≡ limit
  unfolding query_limit atoi_default
  query_limit-format_int q (negsuc n) e lo hi = absurd (omega arith)
  query_limit-format_int q (pos n) e lo hi =
      rw (e, atoi_default, sc.trim-format_int (pos n), sc.atoi-format_int (pos n) (ground arith))
        (ground arith)

  atoi64-nil : atoi64 sc [] ≡ pos 0
  unfolding atoi64
  atoi64-nil = sc.parse_int64-nil

  not_after_zero : (z : ℤ) → pos 0 ≤ℤ z → ltb_ℤ (pos 0) z ≡ false → z ≡ pos 0
  not_after_zero z h f = ground arith

  before-shard_query :
      (s : ℕ) (since before limit : ℤ)
      → InInt64 before
      → pos 0 ≤ℤ before
      → atoi64 sc (value (shard_query s since before limit) (codes "before_ms")) ≡ before
  before-shard_query s since before limit h k = rw before_ms-shard_query (
      split_if (λ t. atoi64 sc t ≡ before) (ltb_ℤ (pos 0) before) (λ _. atoi64-format_int before h)
        (λ f. atoi64-nil ∙ sym (not_after_zero before k f)))

  -- What a hub asks with ShardQuery is what the holder looks up: the shard, the window and the limit
  -- arrive as they were sent, if the shard is a uint32, the limit is from 1 to 5000, and the cursor is
  -- not negative.
  pub handle_query-shard_query :
      (c : Crypto) (srt : Sorting) (m : MemStore) (s : ℕ) (since before limit : ℤ)
      → s < 2 ^ 32
      → InInt64 since
      → InInt64 before
      → pos 0 ≤ℤ before
      → pos 0 <ℤ limit
      → limit ≤ℤ pos 5000
      → handle_query sc c srt m (shard_query s since before limit)
        ≡ (200, recent_since_shard srt (of c) m s since before limit)
  unfolding handle_query
  handle_query-shard_query c srt m s since before limit small si bi positive lo hi =
      rw
        (
          check_id-shard_query,
          shard-shard_query,
          since_ms-shard_query,
          sc.parse_uint32-format_int s small,
          atoi64-format_int since si,
          before-shard_query s since before limit bi positive,
          query_limit-format_int _ limit (limit-shard_query s since before limit) lo hi,
          since_ms-shard_query,
          atoi64-format_int since si,
          eqb_refl str_dec [],
          format_int-ne-nil s,
        )
        refl
