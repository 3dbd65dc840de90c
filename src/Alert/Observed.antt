-- ===== src/Alert/Observed.antt =====
-- What a hub observes of a check: latestPerProbeByCheck and corroboratedStatus of
-- hub/alert/alert.go.
use libre_ping.Base.{
  ℕ, suc, Bool, ◌&&◌, ◌||◌, Option, none, some, List, [], ◌∷◌, if◌then◌else◌, ℤ, pos, ltb_ℤ, leb_ℤ,
  sub64, mul64, Str, str_dec, str_eq, Map, get, put,
}
use libre_ping.Protocol.{SignedResult, ResultContent, Status, status_up, status_down}

-- `m[c.ProbeID]` after the result: the newer of the two, the old one on a tie.
abbrev pub later : ResultContent → Option ResultContent → ResultContent
later c none = c
later c (some cur) = if ltb_ℤ cur.timestamp_ms c.timestamp_ms then c else cur

-- A map that is not there reads as empty.
abbrev pub or_empty : Option (Map Str ResultContent) → Map Str ResultContent
or_empty none = []
or_empty (some m) = m

unfoldable pub add_result :
    ResultContent → Map Str (Map Str ResultContent) → Map Str (Map Str ResultContent)
add_result c out =
    let m = or_empty (get str_dec c.check_id out) in
    put str_dec c.check_id (put str_dec c.probe_id (later c (get str_dec c.probe_id m)) m) out

unfoldable pub latest_loop :
    List SignedResult → Map Str (Map Str ResultContent) → Map Str (Map Str ResultContent)
latest_loop [] out = out
latest_loop (sr ∷ rest) out = latest_loop rest (add_result sr.content out)

unfoldable pub latest_per_probe_by_check : List SignedResult → Map Str (Map Str ResultContent)
unfolding latest_loop
latest_per_probe_by_check results = latest_loop results []

-- `newestUp` after one entry.
abbrev pub newest_with : ℤ → ResultContent → ℤ
newest_with t c =
    if str_eq c.status status_down
    then t
    else if str_eq c.status status_up && ltb_ℤ t c.timestamp_ms
    then c.timestamp_ms
    else t

-- The loop of corroboratedStatus: how many are down, and the newest time of an up.
unfoldable pub tally : Map Str ResultContent → ℕ → ℤ → ℕ × ℤ
tally [] down newest_up = (down, newest_up)
tally ((probe, c) ∷ rest) down newest_up =
    tally rest (if str_eq c.status status_down then suc down else down) (newest_with newest_up c)

-- `down >= failLocations && (newestUp == 0 || nowMS-newestUp >= int64(forSeconds)*1000)`
abbrev pub is_corroborated : ℕ × ℤ → ℤ → ℤ → ℤ → Bool
is_corroborated t fail_locations for_seconds now_ms =
    leb_ℤ (if ltb_ℤ fail_locations (pos 1) then pos 1 else fail_locations) (pos t.0)
    && ((leb_ℤ t.1 (pos 0) && leb_ℤ (pos 0) t.1)
        || leb_ℤ (mul64 for_seconds (pos 1000)) (sub64 now_ms t.1))

-- No data is `none`.
unfoldable pub corroborated_status : Map Str ResultContent → ℤ → ℤ → ℤ → Option Status
unfolding tally
corroborated_status [] fail_locations for_seconds now_ms = none
corroborated_status ((probe, c) ∷ rest) fail_locations for_seconds now_ms = some (
    if is_corroborated (tally ((probe, c) ∷ rest) 0 (pos 0)) fail_locations for_seconds now_ms
    then status_down
    else status_up)
