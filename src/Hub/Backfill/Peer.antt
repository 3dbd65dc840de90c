-- ===== src/Hub/Backfill/Peer.antt =====
-- Backfilling from a hub that runs this program: backfill of hub/main.go, Fetch of
-- hub/remote/remote.go and handleQuery of hub/api/server.go together.
use libre_ping.Base.{
  ℕ, suc, ◌^◌, ◌<◌, ◌≡◌, ap, ◌∙◌, inl, inr, Bool, true, not, ◌&&◌, Option, some, List, [], ◌∷◌,
  arith, ◌==◌, Bool-cases, length, select, All, ℤ, pos, negsuc, ltb_ℤ, ◌≤ℤ◌, ◌<ℤ◌, ◌-ℤ◌, Str,
  InInt64, pos_part, All_In, All_of, All_map, In-select, split_if,
}
use libre_ping.Base.Sorting.{Sorting, All-perm}
use mathlib.Core.List.Permᴰ
use libre_ping.Base.Lists.{All-take, All_In, All_of}
use libre_ping.Protocol.{SignedResult, passes}
use libre_ping.Protocol.Verify.{verify_result}
use libre_ping.Shard.{of}
use libre_ping.Hub.{Env}
use libre_ping.Hub.Backfill.{Progress, backfill_page, pull}
use libre_ping.Hub.Backfill.Ending.{pull-ends, KeepsTo, IsCursor, window_end}
use libre_ping.Remote.{Query, shard_query, fetch, verified}
use libre_ping.Api.Query.{Strconv, handle_query, handle_query-shard_query}
use libre_ping.Store.Results.{
  MemStore, newer_first, capped, since_before, filter_since, recent_since_shard,
}

All-capped :
    (P : SignedResult → Type 0) (limit : ℤ) (out : List SignedResult)
    → All P out
    → All P (capped limit out)
All-capped P limit out h =
    split_if (All P) (ltb_ℤ (pos 0) limit && ltb_ℤ limit (pos (length out)))
      (λ _. All-take P (pos_part limit) out h) (λ _. h)

-- In the window of a query.
abbrev IsAsked : ℤ → ℤ → SignedResult → Type 0
IsAsked since before sr =
    (since ≤ℤ sr.content.timestamp_ms)
    × (ltb_ℤ (pos 0) before ≡ true → sr.content.timestamp_ms <ℤ before)

module _ (srt : Sorting) where
  -- A property that all stored results in the window have holds of a listing.
  All-recent_since_shard :
      (P : SignedResult → Type 0) (shard_of : Str → ℕ) (m : MemStore) (s : ℕ)
      (since before limit : ℤ)
      → All (λ sr. IsAsked since before sr → P sr) m.all
      → All P (recent_since_shard srt shard_of m s since before limit)
  unfolding recent_since_shard filter_since
  All-recent_since_shard P shard_of m s since before limit h =
      All-capped P limit _
        (All-perm P (Permᴰ.symm (srt.sort-perm SignedResult newer_first _)) selected)
    where
      matches : SignedResult → Bool
      matches = since_before (λ c. shard_of c.check_id == s) since before

      asked : (sr : SignedResult) → matches sr ≡ true → IsAsked since before sr
      asked sr t = (ground arith, λ b. ground arith)

      selected : All P (select matches m.all)
      selected = All_of P (select matches m.all) (λ sr i.
          let (j, t) = In-select matches sr m.all i in
          All_In (λ r. IsAsked since before r → P r) sr m.all h j (asked sr t))

All-verified :
    (e : Env) (P : SignedResult → Type 0) (raw : List SignedResult)
    → All P raw
    → All P (verified e raw)
unfolding verified
All-verified e P [] h = tt
All-verified e P (sr ∷ raw) h =
    split_if (All P) (passes (verify_result e.crypto e.json sr))
      (λ _. (h.0, All-verified e P raw h.1)) (λ _. All-verified e P raw h.1)

range_between : (z top : ℤ) → InInt64 top → pos 0 ≤ℤ z → z ≤ℤ top → InInt64 z
range_between (pos n) (pos t) r l u = omega arith
range_between (pos n) (negsuc t) r l u = absurd (omega arith)
range_between (negsuc n) top r l u = absurd (omega arith)

module _ (valid_url : Str → Bool) (get_results : Str → Query → Option (List SignedResult)) where
  -- What backfill asks a holder for page after page.
  abbrev pub page_of : Env → Bool → Str → ℕ → ℤ → ℕ → ℤ → Option (List SignedResult)
  page_of e allow_private url s since k before =
      fetch valid_url get_results e allow_private url
        (shard_query s since before (pos backfill_page))

  -- Backfilling a shard from a hub that runs this program ends, whatever the two hubs store, hold or
  -- trust, and wherever it begins after the epoch: one page more than the window has milliseconds is
  -- enough, if every stored result is dated before the end of the window.
  pub pull-ends_of_peer :
      (e peer : Env) (sc : Strconv) (m : MemStore) (allow_private : Bool) (url : Str) (s : ℕ)
      (since after : ℤ) (clock : ℕ → ℤ) (p : Progress)
      → s < 2 ^ 32
      → pos 0 <ℤ since
      → since ≤ℤ after
      → InInt64 after
      → All (λ sr. sr.content.timestamp_ms <ℤ after) m.all
      → ((q : Query) → get_results url q ≡ some (handle_query sc peer.crypto peer.sorting m q).1)
      → (out : Progress) × (pull e clock
            (page_of e allow_private url s since)
            (suc (pos_part (after -ℤ since)))
            0
            (pos 0)
            p
          ≡ some out)
  unfolding fetch
  pull-ends_of_peer e peer sc m allow_private url s since after clock p small positive window range
        dated serves =
      pull-ends e clock (page_of e allow_private url s since) since after positive window honest p
    where
      listed : (before : ℤ) → List SignedResult
      listed before =
          recent_since_shard peer.sorting (of peer.crypto) m s since before (pos backfill_page)

      answer :
          (before : ℤ)
          → IsCursor e after before
          → get_results url (shard_query s since before (pos backfill_page)) ≡ some (listed before)
      answer before i =
          serves _
          ∙ ap (λ r. some r.1)
              (handle_query-shard_query sc peer.crypto peer.sorting m s since before
                (pos backfill_page) small (range_between since after range (ground arith) window)
                (range_between before after range i.0 i.1) i.0 (omega arith) (omega arith))

      within :
          (before : ℤ)
          → All
              (λ sr.
                (since ≤ℤ sr.content.timestamp_ms)
                × (sr.content.timestamp_ms <ℤ window_end e after before))
              (listed before)
      within before =
          All-recent_since_shard peer.sorting _ (of peer.crypto) m s since before
            (pos backfill_page)
            (All_map
              (λ sr d (l, u).
                (l, split_if (λ z. sr.content.timestamp_ms <ℤ z) (ltb_ℤ (pos 0) before) u (λ _. d)))
              m.all dated)

      honest : KeepsTo e since after (page_of e allow_private url s since)
      honest k before i = elim (Bool-cases (not allow_private && not (valid_url url))) [
        | inl t ↦ rw (t, fetch) tt
        | inr f ↦ rw (f, fetch, answer before i) (All-verified e _ (listed before) (within before))
      ]
