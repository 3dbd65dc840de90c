-- ===== src/Alert.antt =====
-- hub/alert: which hub evaluates an alert rule, what it observes, and what it delivers. This file
-- is hub/alert/responsibility.go; the engine is in Alert/Engine.antt.
pub mod Winner
pub mod Observed
pub mod Order
pub mod Newest
pub mod Engine
pub mod Recorded
pub mod Delivered
use libre_ping.Base.{
  ℕ, Bool, true, false, ◌&&◌, ◌||◌, List, [], ◌∷◌, ◌++◌, ltb, ◌==◌, if◌then◌else◌, take, Str, codes,
  str_eq, str_lt,
}
use libre_ping.Identity.{Crypto}
use libre_ping.Shard.{big_endian}

module _ (c : Crypto) where
  unfoldable pub score : Str → Str → ℕ
  unfolding big_endian
  score hub_id key = big_endian 0 (take 8 (c.sha256 (hub_id ++ (codes "|" ++ key))))

  -- Higher score wins, a tie goes to the larger ID.
  unfoldable pub outranks : Str → Str → Str → Bool
  unfolding score
  outranks key h best =
      ltb (score best key) (score h key) || (score h key == score best key && str_lt best h)

  -- The loop of Responsible, from the best so far. Its bestScore is the best hub's score.
  unfoldable pub best_peer : Str → Str → List Str → Str → Str
  unfolding outranks
  best_peer self key [] best = best
  best_peer self key (h ∷ hs) best =
      best_peer self key hs
        (if str_eq h self then best else if outranks key h best then h else best)

  unfoldable pub responsible : Str → List Str → Str → Bool
  unfolding best_peer
  responsible self peers key = str_eq (best_peer self key peers self) self

  -- The loop of ResponsibleAmong: whether self is among the candidates, the best and its score.
  unfoldable pub among_loop : Str → Str → List Str → Bool → Str → ℕ → Bool × Str
  unfolding score
  among_loop self key [] in_set best best_score = (in_set, best)
  among_loop self key (h ∷ hs) in_set best best_score =
      let s = score h key in
      let wins = str_eq best [] || ltb best_score s || (s == best_score && str_lt best h) in
      among_loop self key hs (if str_eq h self then true else in_set) (if wins then h else best)
        (if wins then s else best_score)

  unfoldable pub responsible_among : Str → List Str → Str → Bool
  unfolding among_loop
  responsible_among self candidates key =
      let (in_set, best) = among_loop self key candidates false [] 0 in in_set && str_eq best self
