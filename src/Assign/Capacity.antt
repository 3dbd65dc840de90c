-- ===== src/Assign/Capacity.antt =====
-- What hub/assign/assign.go gives to a probe.
use libre_ping.Base.{◌≡◌, true, false, List, [], ◌∷◌, All, pos, Str}
use libre_ping.Base.Sorting.{Sorting}
use libre_ping.Base.Float.{Floats}
use libre_ping.Protocol.{CheckSpec}
use libre_ping.Assign.{Probe, supports, checks_of, check_cost, load_of, Assignment, over_cap}

module _ (fl : Floats) where
  -- The costs of some checks, added up in order.
  unfoldable pub total : fl.F → List CheckSpec → fl.F
  total x [] = x
  total x (c ∷ cs) = total (fl.add x (check_cost fl c)) cs

  -- The probe supports all its checks, and their cost is within its cap.
  pub record IsWithin (p : Probe) (cs : List CheckSpec) : Type 0 where
    pub supported : All (λ c. supports p c.check_type ≡ true) cs
    pub in_cap : over_cap fl p (total (fl.of_int (pos 0)) cs) ≡ false

  -- Every probe is within its cap and the loads are the costs of what was given.
  record IsFair (probes : List Probe) (st : Assignment fl) : Type 0 where
    within : All (λ p. IsWithin p (checks_of st.0 p.id)) probes
    loads : (id : Str) → load_of fl st.1 id ≡ total (fl.of_int (pos 0)) (checks_of st.0 id)
