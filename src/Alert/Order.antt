-- ===== src/Alert/Order.antt =====
-- When a check counts as down, by hub/alert/alert.go.
use libre_ping.Base.{◌≡◌, ◌⊎◌, Bool, true, false, In, All, ℤ, pos, ◌≤ℤ◌, ◌+ℤ◌, Str, str_eq, Map}
use libre_ping.Protocol.{ResultContent, status_up, status_down}

abbrev pub is_down : Str × ResultContent → Bool
is_down e = str_eq e.1.status status_down

-- The entry is not an up, or one of time 0 or earlier, or is at least that old.
abbrev pub IsQuiet : ℤ → ℤ → Str × ResultContent → Type 0
IsQuiet wait now_ms e =
    ((str_eq e.1.status status_up ≡ false) ⊎ (e.1.timestamp_ms ≤ℤ pos 0))
    ⊎ (e.1.timestamp_ms +ℤ wait ≤ℤ now_ms)

abbrev pub is_up : Str × ResultContent → Bool
is_up e = str_eq e.1.status status_up

-- The newest time of an up: not before where the loop began, no up is after it, and it is one of
-- theirs.
record IsNewestUp (w t : ℤ) (m : Map Str ResultContent) : Type 0 where
  from : t ≤ℤ w
  above : All (λ e. (is_up e ≡ false) ⊎ (e.1.timestamp_ms ≤ℤ w)) m
  attained :
      (w ≡ t) ⊎ ((e : Str × ResultContent) × In e m × (is_up e ≡ true) × (e.1.timestamp_ms ≡ w))
