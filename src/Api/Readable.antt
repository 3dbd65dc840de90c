-- ===== src/Api/Readable.antt =====
-- What fetchRemote of hub/api/server.go shows has passed the gate of what the hub stores.
use libre_ping.Base.{
  sym, ◌≤ℤ◌, ◌<ℤ◌, put, ◌⊎◌, Bool, ◌≡◌, refl, ap, subst, not, Option, none, some, List, [], ◌∷◌,
  All, ℤ, pos, ltb_ℤ, ◌-ℤ◌, Str, str_dec, get, arith, split_if, Option-cases, Bool-cases, eqb_iff,
  ◌&&◌, ◌≢◌, inl, inr,
}
use libre_ping.Base.Float.{Floats}
use libre_ping.Protocol.{SignedResult, ok, passes}
use libre_ping.Protocol.Verify.{verify_result}
use libre_ping.Admit
use libre_ping.Remote.{Query, check_query, fetch, verified}
use libre_ping.Hub.{Env, look}
use libre_ping.Mesh.Gate.{passes_ok, IsTrusted}
use libre_ping.Store.Catalog.{MemCatalog}
use libre_ping.Api.{Server, Config, CachedResults}
use libre_ping.Api.Holders.{holder_urls}
use libre_ping.Api.Reads.{
  remote_cache_ttl, is_admitted, admit_remote, first_answer, cached, ask, fetch_holders,
  fetch_remote,
}

-- What a hub may show of a check at a time, with the catalog that it then has: a result of the check,
-- from the window that is asked for, that the probe signed which it names, that the trust policy
-- admits, and that passes the admission check.
pub record IsReadable (e : Env) (catalog : MemCatalog) (now : ℤ) (check_id : Str) (since_ms : ℤ)
    (sr : SignedResult) : Type 0 where
  pub trusted : IsTrusted e sr
  pub admitted : Admit.result (some (look catalog)) sr now ≡ ok tt
  pub of_check : sr.content.check_id ≡ check_id
  pub in_window : since_ms ≤ℤ sr.content.timestamp_ms

-- The signature of a result verifies.
abbrev pub IsSigned : Env → SignedResult → Type 0
IsSigned e sr = verify_result e.crypto e.json sr ≡ ok tt

pub verified-IsSigned : (e : Env) (raw : List SignedResult) → All (IsSigned e) (verified e raw)
unfolding verified
verified-IsSigned e [] = tt
verified-IsSigned e (sr ∷ raw) =
    split_if (All (IsSigned e)) (passes (verify_result e.crypto e.json sr))
      (λ p. (passes_ok (verify_result e.crypto e.json sr) p, verified-IsSigned e raw))
      (λ _. verified-IsSigned e raw)

admit_remote-IsReadable :
    (e : Env) (now : ℤ) (check_id : Str) (since_ms : ℤ) (s : Server) (res : List SignedResult)
    → All (IsSigned e) res
    → All
        (IsReadable e s.stores.catalog now check_id since_ms)
        (admit_remote e now check_id since_ms s res)
unfolding admit_remote is_admitted
admit_remote-IsReadable e now check_id since_ms s [] h = tt
admit_remote-IsReadable e now check_id since_ms s (sr ∷ res) h =
    split_if (All (IsReadable e s.stores.catalog now check_id since_ms))
      (is_admitted e now check_id since_ms s sr)
      (λ p. (
        record {
          trusted = (h.0, ground arith);
          admitted = passes_ok (Admit.result (some (look s.stores.catalog)) sr now) (ground arith);
          of_check = (eqb_iff str_dec sr.content.check_id check_id).0 (ground arith);
          in_window = ground arith;
        },
        admit_remote-IsReadable e now check_id since_ms s res h.1,
      ))
      (λ _. admit_remote-IsReadable e now check_id since_ms s res h.1)

abbrev answered : Option (List SignedResult) → List SignedResult
answered none = []
answered (some res) = res

none-some : (res : List SignedResult) → none ≢ some res
none-some res h = cc

cached_of :
    (now : ℤ) (o : Option CachedResults) (results : List SignedResult)
    → cached now o ≡ some results
    → (c : CachedResults) × (o ≡ some c) × (c.results ≡ results) × (now -ℤ c.at <ℤ remote_cache_ttl)
unfolding cached
cached_of now none results h = absurd (none-some results h)
cached_of now (some c) results h = elim (Bool-cases (ltb_ℤ (now -ℤ c.at) remote_cache_ttl)) [
  | inl t ↦ (c, refl, ap answered (rw t at h), ground arith)
  | inr n ↦ absurd (none-some results (rw n at h))
]

module _ (fl : Floats) (e : Env) (cfg : Config) (valid_url : Str → Bool)
    (get_results : Str → Query → Option (List SignedResult)) (allow_private : Bool) where
  fetch-IsSigned :
      (u : Str) (q : Query) (res : List SignedResult)
      → fetch valid_url get_results e allow_private u q ≡ some res
      → All (IsSigned e) res
  unfolding fetch
  fetch-IsSigned u q res h = elim (Bool-cases (not allow_private && not (valid_url u))) [
    | inl t ↦ absurd (none-some res (rw (fetch, t) at h))
    | inr f ↦ elim (Option-cases (get_results u q)) [
      | inl r ↦ absurd (none-some res (rw (fetch, f, r) at h))
      | inr (raw, r) ↦
          subst (All (IsSigned e)) (ap answered (rw (fetch, f, r) at h)) (verified-IsSigned e raw)
    ]
  ]

  first_answer-IsSigned :
      (check_id : Str) (since_ms : ℤ) (urls : List Str) (res : List SignedResult)
      → first_answer (ask fl e cfg valid_url get_results allow_private check_id since_ms) urls
        ≡ some res
      → All (IsSigned e) res
  unfolding first_answer
  first_answer-IsSigned check_id since_ms [] res h = absurd (none-some res h)
  first_answer-IsSigned check_id since_ms (u ∷ urls) res h =
      elim (Option-cases (ask fl e cfg valid_url get_results allow_private check_id since_ms u)) [
        | inl q ↦ first_answer-IsSigned check_id since_ms urls res (rw (first_answer, q) at h)
        | inr (raw, q) ↦
            subst (All (IsSigned e)) (ap answered (rw (first_answer, q) at h))
              (fetch-IsSigned u (check_query check_id since_ms (pos 500)) raw q)
      ]

  -- What a read of the check leaves of the server: the cache has the answer, or there was none.
  abbrev pub Caches : ℤ → Str → Server → Server × List SignedResult → Type 0
  Caches now check_id s (s', answer) =
      ((s' ≡ s) × (answer ≡ []))
      ⊎ (s' ≡ record s {
        remote_cache = put str_dec check_id (record { at = now; results = answer }) s.remote_cache;
      })

  fetch_holders-IsReadable :
      (now : ℤ) (check_id : Str) (since_ms : ℤ) (s : Server)
      → All
          (IsReadable e s.stores.catalog now check_id since_ms)
          (fetch_holders fl e cfg valid_url get_results allow_private now check_id since_ms s).1
        × Caches now check_id s
            (fetch_holders fl e cfg valid_url get_results allow_private now check_id since_ms s)
  unfolding fetch_holders
  fetch_holders-IsReadable now check_id since_ms s =
      let urls =
        holder_urls e.crypto fl e.sorting e.policy cfg.self now s.stores.world.dir check_id in
      elim (Option-cases
        (first_answer (ask fl e cfg valid_url get_results allow_private check_id since_ms) urls)) [
          | inl q ↦ rw (q, fetch_holders) (tt, inl (refl, refl))
          | inr (res, q) ↦
              rw (q, fetch_holders)
                (
                  admit_remote-IsReadable e now check_id since_ms s res
                      (first_answer-IsSigned check_id since_ms urls res q),
                  inr refl,
                )
        ]

  -- Whatever the holders of a check answer, a hub that reads the check from them answers one of two. It
  -- answers exactly what it cached for the check less than fifteen seconds before, and changes nothing.
  -- Or it answers only results of the check from the window asked for that trusted probes signed and
  -- that pass the admission check now, against the catalog that the hub now has; and it caches exactly
  -- that answer with its time, or it has no answer and changes nothing.
  pub fetch_remote-IsReadable :
      (now : ℤ) (check_id : Str) (since_ms : ℤ) (s : Server)
      → ((c : CachedResults) × (get str_dec check_id s.remote_cache ≡ some c)
          × (now -ℤ c.at <ℤ pos 15000)
          × (fetch_remote fl e cfg valid_url get_results allow_private now check_id since_ms s
              ≡ (s, c.results)))
        ⊎ (All
              (IsReadable e s.stores.catalog now check_id since_ms)
              (fetch_remote fl e cfg valid_url get_results allow_private now check_id since_ms s).1
            × Caches now check_id s
                (fetch_remote fl e cfg valid_url get_results allow_private now check_id since_ms s))
  unfolding fetch_remote
  fetch_remote-IsReadable now check_id since_ms s =
      elim (Option-cases (cached now (get str_dec check_id s.remote_cache))) [
        | inl q ↦ inr (rw (q, fetch_remote) (fetch_holders-IsReadable now check_id since_ms s))
        | inr (results, q) ↦
            let (c, g, same, fresh) =
              cached_of now (get str_dec check_id s.remote_cache) results q in
            inl (c, g, fresh, rw (q, fetch_remote) (ap (λ r. (s, r)) (sym same)))
      ]
