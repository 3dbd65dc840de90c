-- ===== src/Hub/Backfill.antt =====
-- backfill of hub/main.go: how a hub that takes over a shard pulls the shard's results from its
-- holders, page by page. `fetch url k before` is what remote.Fetch answers the query of page k, after
-- its own verification, and `clock k` is the time in milliseconds while the page is read. The loop
-- over pages runs on fuel.
pub mod Stored
pub mod Peer
pub mod Ending
use libre_ping.Base.{
  [], ℕ, zero, suc, not, ◌||◌, Option, none, some, List, ◌∷◌, ltb, if◌then◌else◌, length, ℤ, pos,
  ltb_ℤ, leb_ℤ, mul64, Str, str_dec, str_eq, Map, get,
}
use libre_ping.Protocol.{SignedResult, passes}
use libre_ping.Trust.{allow}
use libre_ping.Interest.{holds}
use libre_ping.Admit
use libre_ping.Hub.{Env, Stores, look}
use libre_ping.Store.Results.{insert}
use libre_ping.Api.Holders.{url_of}

abbrev pub backfill_page : ℕ
backfill_page = 2000

abbrev pub backfill_max_per_shard : ℕ
backfill_max_per_shard = 200000

-- Thirty days, in nanoseconds.
abbrev pub max_backfill_horizon : ℤ
max_backfill_horizon = pos 2592000000000000

-- backfillHorizon, a time.Duration.
unfoldable pub backfill_horizon : ℤ → ℤ
backfill_horizon retention_days =
    let horizon = mul64 (mul64 retention_days (pos 24)) (pos 3600000000000) in
    if leb_ℤ retention_days (pos 0) || ltb_ℤ max_backfill_horizon horizon
    then max_backfill_horizon
    else horizon

pub record Progress : Type 0 where
  pub stores : Stores
  pub total : ℕ
  pub stored : ℕ

module _ (e : Env) where
  -- One round of the loop over a page.
  unfoldable pub take_result : ℤ → SignedResult → Progress → Progress
  take_result now sr p =
      if not (allow e.policy sr.content.probe_id)
        || not (passes (Admit.result (some (look p.stores.catalog)) sr now))
      then p
      else if not (holds e.crypto p.stores.interest sr.content.check_id)
      then p
      else record {
        stores = record p.stores { results = insert p.stores.results sr };
        total = suc p.total;
        stored = suc p.stored;
      }

  unfoldable pub take_page : ℤ → List SignedResult → ℤ → Progress → ℤ × Progress
  unfolding take_result
  take_page now [] oldest p = (oldest, p)
  take_page now (sr ∷ rest) oldest p =
      take_page now rest
        (if ltb_ℤ sr.content.timestamp_ms oldest then sr.content.timestamp_ms else oldest)
        (take_result now sr p)

  module _ (clock : ℕ → ℤ) (fetch : ℕ → ℤ → Option (List SignedResult)) where
    -- The loop over the pages of one holder. `none` is that the fuel ran out.
    unfoldable pub pull : ℕ → ℕ → ℤ → Progress → Option Progress
    unfolding take_page
    pull zero k before p = none
    pull (suc fuel) k before p =
        if not (ltb p.total backfill_max_per_shard) then some p else elim (fetch k before) [
          | none ↦ some p
          | some [] ↦ some p
          | some (r ∷ rs) ↦
              let (oldest, p') = take_page (clock k) (r ∷ rs) r.content.timestamp_ms p in
              let rest = pull fuel (suc k) oldest p' in
              if ltb (length (r ∷ rs)) backfill_page then some p' else rest
        ]

  -- The loop over the holders.
  unfoldable pub pull_all :
      (ℕ → ℤ)
      → (Str → ℕ → ℤ → Option (List SignedResult))
      → ℕ
      → Str
      → Map Str Str
      → List Str
      → Progress
      → Option Progress
  unfolding pull
  pull_all clock fetch fuel self urls [] p = some p
  pull_all clock fetch fuel self urls (id ∷ ids) p =
      if str_eq id self || str_eq (url_of (get str_dec id urls)) []
      then pull_all clock fetch fuel self urls ids p
      else elim (pull clock (fetch (url_of (get str_dec id urls))) fuel 0 (pos 0)
          (record p { stored = 0 })) [
            | none ↦ none
            | some p' ↦ pull_all clock fetch fuel self urls ids p'
          ]
