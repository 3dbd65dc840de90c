-- ===== src/Assign.antt =====
-- hub/assign/assign.go: which probe runs which checks. The float64 arithmetic of the loads is the
-- interface `Floats`.
pub mod Capacity
use libre_ping.Base.{
  or_false, ℕ, zero, suc, Bool, true, false, not, ◌&&◌, Option, none, some, List, [], ◌∷◌, ◌++◌,
  map, ◌==◌, if◌then◌else◌, length, select, ℤ, pos, ltb_ℤ, leb_ℤ, Str, str_dec, str_lt, Map, get,
  put, pos_part,
}
use libre_ping.Base.Sorting.{Sorting}
use libre_ping.Base.Float.{Floats}
use libre_ping.Protocol.{CheckType, CheckSpec}

pub record Probe : Type 0 where
  pub id : Str
  pub capacity : ℤ
  pub supported_types : Map CheckType Bool

unfoldable pub supports : Probe → CheckType → Bool
supports p t =
    if length p.supported_types == 0 then true else or_false (get str_dec t p.supported_types)

-- A missing list reads as nil.
abbrev pub or_nil : Option (List CheckSpec) → List CheckSpec
or_nil none = []
or_nil (some cs) = cs

abbrev pub checks_of : Map Str (List CheckSpec) → Str → List CheckSpec
checks_of out id = or_nil (get str_dec id out)

abbrev pub by_id : CheckSpec → CheckSpec → Bool
by_id a b = str_lt a.id b.id

module _ (fl : Floats) where
  unfoldable pub check_cost : CheckSpec → fl.F
  check_cost s =
      fl.div (fl.of_int (pos 60))
        (fl.of_int (if leb_ℤ s.interval_seconds (pos 0) then pos 60 else s.interval_seconds))

  abbrev pub or_zero : Option fl.F → fl.F
  or_zero none = fl.of_int (pos 0)
  or_zero (some x) = x

  abbrev pub load_of : Map Str fl.F → Str → fl.F
  load_of load id = or_zero (get str_dec id load)

  -- The maps `out` and `load` of Assign.
  abbrev pub Assignment : Type 0
  Assignment = Map Str (List CheckSpec) × Map Str fl.F

  unfoldable pub start : List Probe → Assignment → Assignment
  start [] st = st
  start (p ∷ ps) st = start ps (put str_dec p.id [] st.0, put str_dec p.id (fl.of_int (pos 0)) st.1)

  -- Least loaded first, then by ID.
  abbrev pub less_loaded : Map Str fl.F → Probe → Probe → Bool
  less_loaded load a b =
      if not (fl.eq (load_of load a.id) (load_of load b.id))
      then fl.lt (load_of load a.id) (load_of load b.id)
      else str_lt a.id b.id

  -- Whether the probe's cap would be exceeded.
  abbrev pub over_cap : Probe → fl.F → Bool
  over_cap p x = ltb_ℤ (pos 0) p.capacity && fl.lt (fl.of_int p.capacity) x

  -- `out[p.ID] = append(out[p.ID], c); load[p.ID] += cost`
  abbrev pub given : CheckSpec → Probe → Assignment → Assignment
  given c p st = (
    put str_dec p.id (checks_of st.0 p.id ++ (c ∷ [])) st.0,
    put str_dec p.id (fl.add (load_of st.1 p.id) (check_cost c)) st.1,
  )

  -- The loop over the candidates of one check, with how many more probes it may go to.
  unfoldable pub place : CheckSpec → List Probe → ℕ → Assignment → Assignment
  unfolding check_cost
  place c [] more st = st
  place c (p ∷ ps) zero st = st
  place c (p ∷ ps) (suc more) st =
      let skip = over_cap p (fl.add (load_of st.1 p.id) (check_cost c)) in
      place c ps (if skip then suc more else more) (if skip then st else given c p st)

  unfoldable pub place_all : Sorting → List Probe → ℕ → List CheckSpec → Assignment → Assignment
  unfolding place supports
  place_all s probes redundancy [] st = st
  place_all s probes redundancy (c ∷ cs) st = place_all s probes redundancy cs (
      place c (s.sort Probe (less_loaded st.1) (select (λ p. supports p c.check_type) probes))
        redundancy st)

  unfoldable pub assign : Sorting → List CheckSpec → List Probe → ℤ → Map Str (List CheckSpec)
  unfolding place_all start
  assign s checks probes redundancy =
      (place_all s probes (if ltb_ℤ redundancy (pos 1) then 1 else pos_part redundancy)
        (s.sort CheckSpec by_id checks) (start probes ([], []))).0
