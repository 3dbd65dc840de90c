-- ===== src/Shard/Placement.antt =====
-- Holders of hub/shard/shard.go: which hubs are chosen.
use libre_ping.Base.{
  ℕ, ◌≤◌, ◌≡◌, ◌∙◌, Bool, true, false, not, ◌&&◌, List, [], ◌∷◌, ◌++◌, map, arith, if◌then◌else◌,
  length, take, select, All, ℤ, pos, negsuc, ltb_ℤ, leb_ℤ, Str, str_eq, pos_part,
}
use mathlib.Core.List.{Permᴰ, append_assoc, append-nil}
use libre_ping.Base.Sorting.{Sorting, IsOrder}
use libre_ping.Base.Float.{Floats}
use libre_ping.Base.Text.{str_lt_asym, str_le_trans}
use libre_ping.Identity.{Crypto}
use libre_ping.Shard.{Hub, score, Scored, ahead, gather, holders}

-- The hubs that Holders lists as archives, and those that it ranks.
abbrev pub is_mirror : Hub → Bool
is_mirror h = not (str_eq h.id []) && h.archive

abbrev pub is_candidate : Hub → Bool
is_candidate h = not (str_eq h.id []) && (not h.archive && not (leb_ℤ h.capacity (pos 0)))

-- How many of n candidates hold a shard: k, or all where there are fewer, and none where k is negative.
abbrev pub places : ℤ → ℕ → ℕ
places k n = pos_part (if ltb_ℤ (pos n) k then pos n else k)

pub places-le : (k : ℤ) (n : ℕ) → places k n ≤ n
places-le (pos k) n = ground arith
places-le (negsuc k) n = ground arith

module _ (c : Crypto) (fl : Floats) where
  abbrev pub scored : ℕ → Hub → Scored c fl
  scored s h = (h.id, score c fl h s)

  pub gather_lem :
      (s : ℕ) (hubs : List Hub) (out : List Str) (cand : List (Scored c fl))
      → gather c fl s hubs out cand ≡ (
        out ++ map (λ h. h.id) (select is_mirror hubs),
        cand ++ map (scored s) (select is_candidate hubs),
      )
  unfolding gather
  gather_lem s [] out cand = ground (arith, append-nil out, append-nil cand)
  gather_lem s (h ∷ hs) out cand =
      gather_lem s hs _ _
      ∙ ground (
        arith,
        append_assoc out (h.id ∷ []) (map (λ g. g.id) (select is_mirror hs)),
        append_assoc cand ((h.id, score c fl h s) ∷ []) (map (scored s) (select is_candidate hs)),
      )

  ahead_asym : (a b : Scored c fl) → ahead c fl a b ≡ true → ahead c fl b a ≡ false
  ahead_asym a b h = ground (
    arith,
    fl.eq_lem a.1 b.1,
    fl.eq_lem b.1 a.1,
    fl.lt_asym b.1 a.1,
    fl.lt_asym a.1 b.1,
    str_lt_asym b.0 a.0,
  )

  ahead_le_trans :
      (a b d : Scored c fl)
      → ahead c fl b a ≡ false
      → ahead c fl d b ≡ false
      → ahead c fl d a ≡ false
  ahead_le_trans a b d h k = ground (
    arith,
    fl.eq_lem b.1 a.1,
    fl.eq_lem d.1 b.1,
    fl.eq_lem d.1 a.1,
    fl.le_trans a.1 b.1 d.1,
    fl.le_trans d.1 b.1 a.1,
    fl.le_trans b.1 a.1 d.1,
    fl.le_trans b.1 d.1 a.1,
    fl.le_trans a.1 d.1 b.1,
    fl.le_trans d.1 a.1 b.1,
    str_le_trans d.0 b.0 a.0,
  )

  pub ahead-IsOrder : IsOrder (ahead c fl)
  ahead-IsOrder = record { asym = ahead_asym; le_trans = ahead_le_trans }

  -- The hubs ranked for a shard, best first.
  abbrev pub ranked : Sorting → ℕ → List Hub → List (Scored c fl)
  ranked srt s hubs =
      srt.sort (Scored c fl) (ahead c fl) (map (scored s) (select is_candidate hubs))

  pub holders_lem :
      (srt : Sorting) (s : ℕ) (hubs : List Hub) (k : ℤ)
      → holders c fl srt s hubs k
        ≡ map (λ h. h.id) (select is_mirror hubs)
          ++ map (λ e. e.0) (take (places k (length (ranked srt s hubs))) (ranked srt s hubs))
  unfolding holders
  holders_lem srt s hubs k = rw (gather_lem s hubs [] [], holders)

  -- The chosen hubs of a shard and the rest: the chosen are as many as k and the candidates allow,
  -- and none of the rest is ahead of one of them.
  pub record IsTop (k : ℤ) (cand chosen : List (Scored c fl)) : Type 0 where
    pub rest : List (Scored c fl)
    pub split : Permᴰ (chosen ++ rest) cand
    pub best : All (λ x. All (λ y. ahead c fl y x ≡ false) rest) chosen
    pub filled : length chosen ≡ places k (length cand)
