-- ===== src/Store/Results.antt =====
-- hub/store/store.go: the in-memory ResultStore.
pub mod Itoa
pub mod Dedupe
pub mod Window
use libre_ping.Base.{
  ℕ, zero, suc, ◌+◌, ◌/◌, ◌%◌, Bool, not, ◌&&◌, none, some, List, [], ◌∷◌, ◌++◌, map, ◌==◌,
  if◌then◌else◌, length, take, select, ℤ, pos, negsuc, ltb_ℤ, leb_ℤ, sub64, Str, pos_part, codes,
  str_dec, str_eq, Map, get, put,
}
use libre_ping.Base.Sorting.{Sorting}
use libre_ping.Protocol.{Location, ResultContent, SignedResult}

-- The set `seen` is a map to empty values.
pub record MemStore : Type 0 where
  pub seen : Map Str (Unit {0})
  pub all : List SignedResult

abbrev pub new_mem_store : MemStore
new_mem_store = record { seen = []; all = [] }

-- The loop of itoa, which fills the 20-byte buffer from its end.
unfoldable pub itoa_loop : ℕ → ℕ → Str → Str
itoa_loop zero n buf = buf
itoa_loop (suc room) zero buf = buf
itoa_loop (suc room) (suc n) buf = itoa_loop room (suc n / 10) ((b'0' + suc n % 10) ∷ buf)

-- The loop's test `n > 0` fails at once on a number that negation left negative.
unfoldable pub itoa : ℤ → Str
unfolding itoa_loop
itoa (pos zero) = codes "0"
itoa (pos (suc n)) = itoa_loop 20 (suc n) []
itoa (negsuc n) = elim (sub64 (pos 0) (negsuc n)) [
  | pos k ↦ b'-' ∷ itoa_loop 20 k []
  | negsuc k ↦ b'-' ∷ []
]

unfoldable pub dedupe_key : ResultContent → Str
dedupe_key c = c.probe_id ++ (codes "|" ++ (c.check_id ++ (codes "|" ++ itoa c.timestamp_ms)))

unfoldable pub insert : MemStore → SignedResult → MemStore
insert m sr =
    let key = dedupe_key sr.content in
    let added : MemStore = record { seen = put str_dec key tt m.seen; all = m.all ++ (sr ∷ []) } in
    elim (get str_dec key m.seen) [ some _ ↦ m | none ↦ added ]

-- The order of every listing: newest first.
abbrev pub newer_first : SignedResult → SignedResult → Bool
newer_first a b = ltb_ℤ b.content.timestamp_ms a.content.timestamp_ms

-- `if limit > 0 && len(out) > limit { out = out[:limit] }`.
abbrev pub capped : ℤ → List SignedResult → List SignedResult
capped limit out =
    if ltb_ℤ (pos 0) limit && ltb_ℤ limit (pos (length out)) then take (pos_part limit) out else out

abbrev pub since_before : (ResultContent → Bool) → ℤ → ℤ → SignedResult → Bool
since_before match since_ms before_ms sr =
    not (ltb_ℤ sr.content.timestamp_ms since_ms)
    && (not (ltb_ℤ (pos 0) before_ms && leb_ℤ before_ms sr.content.timestamp_ms)
        && match sr.content)

module _ (s : Sorting) where
  unfoldable pub recent : MemStore → ℤ → List SignedResult
  recent m limit = capped limit (s.sort SignedResult newer_first m.all)

  unfoldable pub recent_since : MemStore → ℤ → ℤ → List SignedResult
  recent_since m since_ms limit = capped limit (
      s.sort SignedResult newer_first (select (λ sr. leb_ℤ since_ms sr.content.timestamp_ms) m.all))

  unfoldable pub filter_since : MemStore → (ResultContent → Bool) → ℤ → ℤ → ℤ → List SignedResult
  filter_since m match since_ms before_ms limit =
      capped limit
        (s.sort SignedResult newer_first (select (since_before match since_ms before_ms) m.all))

  unfoldable pub recent_since_check : MemStore → Str → ℤ → ℤ → ℤ → List SignedResult
  unfolding filter_since
  recent_since_check m check_id since_ms before_ms limit =
      filter_since m (λ c. str_eq c.check_id check_id) since_ms before_ms limit

  -- `of` is shard.Of.
  unfoldable pub recent_since_shard : (Str → ℕ) → MemStore → ℕ → ℤ → ℤ → ℤ → List SignedResult
  unfolding filter_since
  recent_since_shard of m shard_id since_ms before_ms limit =
      filter_since m (λ c. of c.check_id == shard_id) since_ms before_ms limit

pub record ProbeSeen : Type 0 where
  pub probe_id : Str
  pub location : Location
  pub last_seen_ms : ℤ

-- One round of RecentProbes' loop over the results.
unfoldable pub see_probe : ℤ → Map Str ProbeSeen → SignedResult → Map Str ProbeSeen
see_probe since_ms latest sr =
    let c = sr.content in
    let taken : Map Str ProbeSeen =
      put str_dec c.probe_id
        (record { probe_id = c.probe_id; location = c.location; last_seen_ms = c.timestamp_ms })
        latest in
    if ltb_ℤ c.timestamp_ms since_ms then latest else elim (get str_dec c.probe_id latest) [
      | none ↦ taken
      | some cur ↦ if ltb_ℤ cur.last_seen_ms c.timestamp_ms then taken else latest
    ]

unfoldable pub see_probes : ℤ → Map Str ProbeSeen → List SignedResult → Map Str ProbeSeen
unfolding see_probe
see_probes since_ms latest [] = latest
see_probes since_ms latest (sr ∷ rest) = see_probes since_ms (see_probe since_ms latest sr) rest

unfoldable pub recent_probes : Sorting → MemStore → ℤ → List ProbeSeen
unfolding see_probes
recent_probes s m since_ms =
    s.sort ProbeSeen (λ a b. ltb_ℤ b.last_seen_ms a.last_seen_ms)
      (map (λ e. e.1) (see_probes since_ms [] m.all))
