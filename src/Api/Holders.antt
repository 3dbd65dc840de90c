-- ===== src/Api/Holders.antt =====
-- Storage placement as hub/api/server.go sees it: the hubs that can hold results, the URLs of the
-- holders of a check, and how well the shards are covered.
use libre_ping.Base.{
  ℕ, zero, suc, ◌+◌, ◌≤◌, ◌≡◌, ◌∙◌, true, Option, none, some, List, [], ◌∷◌, arith, ltb, ◌==◌,
  if◌then◌else◌, length, select, ℤ, pos, ltb_ℤ, Str, str_dec, str_eq, Map, get, put, length-append,
  length-take, length-map,
}
use libre_ping.Base.Float.{Floats}
use libre_ping.Base.Sorting.{Sorting, length-perm}
use libre_ping.Identity.{Crypto}
use libre_ping.Protocol.{HubAnnouncement}
use libre_ping.Trust.{Policy, trusted_storage}
use libre_ping.Directory.{Directory, active_within}
use libre_ping.Shard.{Hub, hub_from, of, holders, shard_count, replication}
use libre_ping.Shard.Placement.{
  is_mirror, is_candidate, places, places-le, ranked, scored, holders_lem,
}

-- Ten minutes, in the unit of the directory's times.
abbrev pub storage_window : ℤ
storage_window = pos 600000

-- The loop of storageHubs over the active announcements.
unfoldable pub peer_hubs : Policy → List HubAnnouncement → List Hub
peer_hubs policy [] = []
peer_hubs policy (ann ∷ rest) =
    hub_from ann.hub_id ann.storage_capacity ann.storage_archive
      (trusted_storage (some policy) ann.hub_id)
    ∷ peer_hubs policy rest

unfoldable pub storage_hubs : Policy → Hub → ℤ → Directory → List Hub
unfolding peer_hubs
storage_hubs policy self now d = self ∷ peer_hubs policy (active_within now storage_window d)

-- The loop of trustedStorageHubs.
unfoldable pub trusted_hubs : Policy → List HubAnnouncement → List Hub
trusted_hubs policy [] = []
trusted_hubs policy (ann ∷ rest) =
    let others = trusted_hubs policy rest in
    if trusted_storage (some policy) ann.hub_id
    then hub_from ann.hub_id ann.storage_capacity ann.storage_archive true ∷ others
    else others

unfoldable pub trusted_storage_hubs : Policy → Hub → ℤ → Directory → List Hub
unfolding trusted_hubs
trusted_storage_hubs policy self now d =
    self ∷ trusted_hubs policy (active_within now storage_window d)

-- `urlByID`, where a later announcement of the same hub replaces an earlier one.
unfoldable pub urls_by_id : List HubAnnouncement → Map Str Str → Map Str Str
urls_by_id [] m = m
urls_by_id (ann ∷ rest) m = urls_by_id rest (put str_dec ann.hub_id ann.public_url m)

-- A missing URL reads as empty.
abbrev pub url_of : Option Str → Str
url_of none = []
url_of (some u) = u

-- The last loop of holderURLs.
unfoldable pub urls_of : Str → Map Str Str → List Str → List Str
urls_of self urls [] = []
urls_of self urls (id ∷ ids) =
    let rest = urls_of self urls ids in
    let u = url_of (get str_dec id urls) in
    if str_eq id self then rest else if str_eq u [] then rest else u ∷ rest

module _ (c : Crypto) (fl : Floats) (srt : Sorting) where
  unfoldable pub holder_urls : Policy → Hub → ℤ → Directory → Str → List Str
  unfolding storage_hubs urls_by_id urls_of
  holder_urls policy self now d check_id =
      urls_of self.id (urls_by_id (active_within now storage_window d) [])
        (holders c fl srt (of c check_id) (storage_hubs policy self now d) replication)

  -- The loop of coverage, for the shards below n.
  unfoldable pub coverage_loop : ℕ → List Hub → ℕ × ℕ
  coverage_loop zero hubs = (0, 0)
  coverage_loop (suc sh) hubs =
      let (uncovered, under) = coverage_loop sh hubs in
      let n = length (holders c fl srt sh hubs replication) in
      (
        (if n == 0 then suc uncovered else uncovered),
        (if ltb_ℤ (pos n) replication then suc under else under),
      )

  unfoldable pub coverage : List Hub → ℕ × ℕ
  unfolding coverage_loop
  coverage hubs = coverage_loop shard_count hubs

-- How many of some hubs can store results: the archives, and the others that have capacity.
abbrev pub storers : List Hub → ℕ
storers hubs = length (select is_mirror hubs) + length (select is_candidate hubs)

module _ (c : Crypto) (fl : Floats) (srt : Sorting) where
  length-ranked :
      (s : ℕ) (hubs : List Hub)
      → length (ranked c fl srt s hubs) ≡ length (select is_candidate hubs)
  length-ranked s hubs =
      length-perm (srt.sort-perm _ _ _) ∙ length-map (scored c fl s) (select is_candidate hubs)

  -- How many hubs hold a shard does not depend on the shard.
  length-holders :
      (s : ℕ) (hubs : List Hub)
      → length (holders c fl srt s hubs replication)
        ≡ length (select is_mirror hubs) + places replication (length (select is_candidate hubs))
  length-holders s hubs =
      rw
        (
          holders_lem c fl srt s hubs replication,
          length-append,
          length-map,
          length-map,
          length-take,
          length-ranked,
        )
        (ground (arith, places-le replication (length (select is_candidate hubs))))

  coverage_loop_lem :
      (n : ℕ) (hubs : List Hub)
      → coverage_loop c fl srt n hubs
        ≡ ((if storers hubs == 0 then n else 0), (if ltb (storers hubs) 3 then n else 0))
  unfolding coverage_loop
  coverage_loop_lem zero hubs = ground arith
  coverage_loop_lem (suc sh) hubs =
      ground (arith, coverage_loop_lem sh hubs, length-holders sh hubs)

  -- The coverage report cannot tell shards apart: either every one of the 64 shards counts as
  -- uncovered, when no hub can store results, or none does; and either every one counts as
  -- under-replicated, when fewer than three hubs can store results, or none does.
  pub coverage_lem :
      (hubs : List Hub)
      → coverage c fl srt hubs
        ≡ ((if storers hubs == 0 then 64 else 0), (if ltb (storers hubs) 3 then 64 else 0))
  unfolding coverage
  coverage_lem hubs = coverage_loop_lem 64 hubs

  storers-trusted_hubs :
      (policy : Policy) (anns : List HubAnnouncement)
      → storers (trusted_hubs policy anns) ≤ storers (peer_hubs policy anns)
  unfolding trusted_hubs peer_hubs
  storers-trusted_hubs policy [] = omega arith
  storers-trusted_hubs policy (ann ∷ rest) = ground (arith, storers-trusted_hubs policy rest)

  -- The coverage that the hubs trusted with storage provide is a floor: over all storage hubs no more
  -- shards count as uncovered or as under-replicated than over those.
  pub trusted_coverage_floor :
      (policy : Policy) (self : Hub) (now : ℤ) (d : Directory)
      → ((coverage c fl srt (storage_hubs policy self now d)).0
          ≤ (coverage c fl srt (trusted_storage_hubs policy self now d)).0)
        × ((coverage c fl srt (storage_hubs policy self now d)).1
            ≤ (coverage c fl srt (trusted_storage_hubs policy self now d)).1)
  unfolding storage_hubs trusted_storage_hubs
  trusted_coverage_floor policy self now d = ground (
    arith,
    coverage_lem (storage_hubs policy self now d),
    coverage_lem (trusted_storage_hubs policy self now d),
    storers-trusted_hubs policy (active_within now storage_window d),
  )
