-- ===== src/Admit.antt =====
-- hub/admit/admit.go: the checks of a verified result before a hub stores it. The clock's reading
-- in milliseconds is an argument. `range c.Detail` visits the entries in the order of the list;
-- every refusal there is the same error.
pub mod Window
use libre_ping.Base.{
  Bool, not, ◌||◌, Option, none, some, [], ◌∷◌, ltb, length, ℤ, pos, ltb_ℤ, add64, sub64, Str,
  str_eq, Map,
}
use libre_ping.Protocol.{
  SignedResult, SignedCatalogEntry, Status, status_up, status_down, status_degraded, Result, ok,
  err, ◌>>=◌, ◌>>◌, guard,
}

abbrev pub max_clock_skew_ms : ℤ
max_clock_skew_ms = pos 120000

abbrev pub max_result_age_ms : ℤ
max_result_age_ms = pos 86400000

-- The error of the lookup is wrapped, the others are sentinels.
pub data AdmitError : Type 0 where
  bad_status timestamp oversized catalog_failed catalog_mismatch : AdmitError

-- The results of CatalogLookup.GetCheck.
pub data Looked : Type 0 where
  found : SignedCatalogEntry → Looked
  missing failed : Looked

abbrev pub known_status : Status → Bool
known_status s = str_eq s status_up || str_eq s status_down || str_eq s status_degraded

abbrev pub in_window : ℤ → ℤ → Bool
in_window now_ms t =
    not (ltb_ℤ (add64 now_ms max_clock_skew_ms) t || ltb_ℤ t (sub64 now_ms max_result_age_ms))

-- The loop over c.Detail.
unfoldable pub check_detail : Map Str Str → Result AdmitError (Unit {0})
check_detail [] = ok tt
check_detail ((k, v) ∷ rest) =
    guard (not (ltb 256 (length k) || ltb 1024 (length v))) oversized >> check_detail rest

unfoldable pub against_catalog : SignedResult → Looked → Result AdmitError (Unit {0})
against_catalog sr failed = err catalog_failed
against_catalog sr missing = ok tt
against_catalog sr (found entry) =
    guard
      (not (
        not (str_eq sr.content.target entry.entry.spec.target)
        || not (str_eq sr.content.check_type entry.entry.spec.check_type)))
      catalog_mismatch

-- A nil catalog is `none`.
unfoldable pub catalog_step : Option (Str → Looked) → SignedResult → Result AdmitError (Unit {0})
unfolding against_catalog
catalog_step none sr = ok tt
catalog_step (some look) sr = against_catalog sr (look sr.content.check_id)

unfoldable pub result : Option (Str → Looked) → SignedResult → ℤ → Result AdmitError (Unit {0})
unfolding check_detail catalog_step
result catalog sr now_ms =
    guard (known_status sr.content.status) bad_status
    >> guard (in_window now_ms sr.content.timestamp_ms) timestamp
    >> guard (not (ltb 2048 (length sr.content.target))) oversized
    >> guard
        (not (
          ltb 256 (length sr.content.location.city)
          || ltb 256 (length sr.content.location.country)))
        oversized
    >> guard (not (ltb 32 (length sr.content.detail))) oversized
    >> check_detail sr.content.detail
    >> catalog_step catalog sr
