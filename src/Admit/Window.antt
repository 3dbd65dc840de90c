-- ===== src/Admit/Window.antt =====
-- Which results hub/admit/admit.go admits.
use libre_ping.Base.{
  ◌≤◌, ◌≡◌, refl, ◌↔◌, ◌⊎◌, Bool, true, false, not, ◌||◌, Option, none, some, [], ◌∷◌, arith, ltb,
  eqb_iff, length, All, ℤ, pos, ◌≤ℤ◌, ◌+ℤ◌, ◌-ℤ◌, Str, str_dec, Map, InInt64, wrap64_id,
}
use libre_ping.Protocol.{
  SignedResult, Status, status_up, status_down, status_degraded, Result, ok, err, guard, ◌>>◌,
}
use libre_ping.Admit.{
  oversized, bad_status, timestamp, Looked, found, missing, failed, known_status, in_window,
  check_detail, against_catalog, catalog_step, result,
}

-- The status is one of the three, the time is at most two minutes ahead and a day behind, and no
-- field is larger than its bound.
pub record IsSane (sr : SignedResult) (now_ms : ℤ) : Type 0 where
  pub status :
      (sr.content.status ≡ status_up)
      ⊎ (sr.content.status ≡ status_down)
      ⊎ (sr.content.status ≡ status_degraded)
  pub not_ahead : sr.content.timestamp_ms ≤ℤ now_ms +ℤ pos 120000
  pub not_behind : now_ms ≤ℤ sr.content.timestamp_ms +ℤ pos 86400000
  pub target : length sr.content.target ≤ 2048
  pub city : length sr.content.location.city ≤ 256
  pub country : length sr.content.location.country ≤ 256
  pub entries : length sr.content.detail ≤ 32
  pub detail : All (λ e. (length e.0 ≤ 256) × (length e.1 ≤ 1024)) sr.content.detail

-- What the catalog knows of the check agrees with the result, or the check is not known.
abbrev pub AgreesWith : SignedResult → Looked → Type 0
AgreesWith sr failed = ⊥
AgreesWith sr missing = Unit
AgreesWith sr (found entry) =
    (sr.content.target ≡ entry.entry.spec.target)
    × (sr.content.check_type ≡ entry.entry.spec.check_type)

then_iff :
    {E : Type 0} (b : Bool) (e : E) (r : Result E (Unit {0}))
    → ((guard b e >> r) ≡ ok tt) ↔ ((b ≡ true) × (r ≡ ok tt))
then_iff true e r = (λ h. (refl, h), λ h. h.1)
then_iff false e r = (λ h. absurd cc, λ h. absurd (let f = h.0 in cc))

seq_iff :
    {E : Type 0} (r s : Result E (Unit {0})) → ((r >> s) ≡ ok tt) ↔ ((r ≡ ok tt) × (s ≡ ok tt))
seq_iff (ok u) s = (λ h. (refl, h), λ h. h.1)
seq_iff (err e) s = (λ h. absurd cc, λ h. absurd (let f = h.0 in cc))

check_detail_iff :
    (m : Map Str Str)
    → (check_detail m ≡ ok tt) ↔ All (λ e. (length e.0 ≤ 256) × (length e.1 ≤ 1024)) m
unfolding check_detail
check_detail_iff [] = (λ h. tt, λ h. refl)
check_detail_iff ((k, v) ∷ m) = (
  λ h.
      let g = (then_iff _ oversized (check_detail m)).0 h in
      ((ground (arith, g.0), ground (arith, g.0)), (check_detail_iff m).0 g.1),
  λ h. (then_iff _ oversized (check_detail m)).1 (ground (arith, h.0), (check_detail_iff m).1 h.1),
)

abbrev pub Agrees : Option (Str → Looked) → SignedResult → Type 0
Agrees none sr = Unit
Agrees (some look) sr = AgreesWith sr (look sr.content.check_id)

against_catalog_iff :
    (sr : SignedResult) (l : Looked) → (against_catalog sr l ≡ ok tt) ↔ AgreesWith sr l
unfolding against_catalog
against_catalog_iff sr failed = (λ h. absurd cc, λ h. elim h [ ])
against_catalog_iff sr missing = (λ h. tt, λ h. refl)
against_catalog_iff sr (found entry) = ground arith

catalog_step_iff :
    (catalog : Option (Str → Looked)) (sr : SignedResult)
    → (catalog_step catalog sr ≡ ok tt) ↔ Agrees catalog sr
unfolding catalog_step
catalog_step_iff none sr = (λ h. tt, λ h. refl)
catalog_step_iff (some look) sr = against_catalog_iff sr (look sr.content.check_id)

known_status_iff :
    (s : Status)
    → (known_status s ≡ true) ↔ ((s ≡ status_up) ⊎ (s ≡ status_down) ⊎ (s ≡ status_degraded))
known_status_iff s = ground (
  arith,
  eqb_iff str_dec s status_up,
  eqb_iff str_dec s status_down,
  eqb_iff str_dec s status_degraded,
)

in_window_iff :
    (now_ms t : ℤ)
    → InInt64 (now_ms +ℤ pos 120000)
    → InInt64 (now_ms -ℤ pos 86400000)
    → (in_window now_ms t ≡ true) ↔ ((t ≤ℤ now_ms +ℤ pos 120000) × (now_ms ≤ℤ t +ℤ pos 86400000))
in_window_iff now_ms t hi lo =
    rw (wrap64_id (now_ms +ℤ pos 120000) hi, wrap64_id (now_ms -ℤ pos 86400000) lo) (ground arith)

all_pass :
    {E : Type 0} (a b c d e : Bool) (r s : Result E (Unit {0})) (u v w x y : E)
    → ((guard a u >> guard b v >> guard c w >> guard d x >> guard e y >> r >> s) ≡ ok tt)
      ↔ ((a ≡ true) × (b ≡ true) × (c ≡ true) × (d ≡ true) × (e ≡ true) × (r ≡ ok tt) × (s ≡ ok tt))
all_pass a b c d e r s u v w x y = ground (arith, seq_iff r s)

-- While the clock is a day and two minutes away from the ends of int64, a result is admitted
-- exactly if it is sane and the catalog does not contradict it: a lookup that fails admits nothing,
-- and a check that is not known admits every sane result.
pub result_iff :
    (catalog : Option (Str → Looked)) (sr : SignedResult) (now_ms : ℤ)
    → InInt64 (now_ms +ℤ pos 120000)
    → InInt64 (now_ms -ℤ pos 86400000)
    → (result catalog sr now_ms ≡ ok tt) ↔ (IsSane sr now_ms × Agrees catalog sr)
unfolding result
result_iff catalog sr now_ms hi lo =
    let pass =
      all_pass (known_status sr.content.status) (in_window now_ms sr.content.timestamp_ms)
        (not (ltb 2048 (length sr.content.target)))
        (not (
          ltb 256 (length sr.content.location.city)
          || ltb 256 (length sr.content.location.country)))
        (not (ltb 32 (length sr.content.detail))) (check_detail sr.content.detail)
        (catalog_step catalog sr) bad_status timestamp oversized oversized oversized in
    let window = in_window_iff now_ms sr.content.timestamp_ms hi lo in
    (
      λ h.
          let (st, tm, tg, ct, en, dt, cg) = pass.0 h in
          (
            record {
              status = (known_status_iff sr.content.status).0 st;
              not_ahead = (window.0 tm).0;
              not_behind = (window.0 tm).1;
              target = ground (arith, tg);
              city = ground (arith, ct);
              country = ground (arith, ct);
              entries = ground (arith, en);
              detail = (check_detail_iff sr.content.detail).0 dt;
            },
            (catalog_step_iff catalog sr).0 cg,
          ),
      λ h.
          let sane = h.0 in
          pass.1 (
            (known_status_iff sr.content.status).1 sane.status,
            window.1 (sane.not_ahead, sane.not_behind),
            ground (arith, sane.target),
            ground (arith, sane.city, sane.country),
            ground (arith, sane.entries),
            (check_detail_iff sr.content.detail).1 sane.detail,
            (catalog_step_iff catalog sr).1 h.1,
          ),
    )
