-- ===== src/Shard.antt =====
-- hub/shard/shard.go: which hubs store which shard. The float64 arithmetic of the scores is the
-- parameter `Floats`, SHA-256 is in `Crypto`, and sort.Slice is a `Sorting`.
pub mod Placement
pub mod Bounds
pub mod Agreement
use libre_ping.Base.{
  ℕ, zero, suc, ◌+◌, ◌-◌, ◌*◌, ◌/◌, ◌%◌, ◌^◌, Bool, true, false, not, ◌&&◌, ◌||◌, Option, none,
  some, List, [], ◌∷◌, ◌++◌, map, ℕ_discrete, ltb, leb, if◌then◌else◌, length, take, ℤ, pos, negsuc,
  ltb_ℤ, leb_ℤ, Str, Bytes, codes, str_eq, str_lt, Map, put, pos_part,
}
use libre_ping.Base.Sorting.{Sorting}
use libre_ping.Base.Float.{Floats}
use libre_ping.Identity.{Crypto}

-- shard.Count.
abbrev pub shard_count : ℕ
shard_count = 64

abbrev pub replication : ℤ
replication = pos 3

abbrev pub max_untrusted_capacity : ℤ
max_untrusted_capacity = pos 100

pub record Hub : Type 0 where
  pub id : Str
  pub capacity : ℤ
  pub archive : Bool

unfoldable pub hub_from : Str → ℤ → Bool → Bool → Hub
hub_from id capacity archive trusted =
    if trusted
    then record { id = id; capacity = capacity; archive = archive }
    else let raised =
        if archive && ltb_ℤ capacity max_untrusted_capacity
        then max_untrusted_capacity
        else capacity in
      let clamped =
        if ltb_ℤ max_untrusted_capacity raised then max_untrusted_capacity else raised in
      record { id = id; capacity = clamped; archive = false }

-- The value of one hexadecimal digit.
unfoldable pub hex_value : ℕ → Option ℕ
hex_value b =
    if leb b'0' b && leb b b'9'
    then some (b - b'0')
    else if leb b'a' b && leb b b'f'
    then some (b - b'a' + 10)
    else if leb b'A' b && leb b b'F'
    then some (b - b'A' + 10)
    else none

-- strconv.ParseUint(s, 16, 32) on the at most four bytes that it is called with, read after `acc`.
unfoldable pub parse_hex : ℕ → Str → Option ℕ
unfolding hex_value
parse_hex acc [] = some acc
parse_hex acc (b ∷ bs) = elim (hex_value b) [ none ↦ none | some d ↦ parse_hex (acc * 16 + d) bs ]

-- binary.BigEndian.Uint16 and Uint64 on the first bytes.
unfoldable pub big_endian : ℕ → Bytes → ℕ
big_endian acc [] = acc
big_endian acc (b ∷ bs) = big_endian (acc * 256 + b) bs

-- shard.Of.
unfoldable pub of : Crypto → Str → ℕ
unfolding parse_hex big_endian
of c check_id =
    let hashed = big_endian 0 (take 2 (c.sha256 check_id)) % shard_count in
    if ltb (length check_id) 4
    then hashed
    else elim (parse_hex 0 (take 4 check_id)) [ some v ↦ v % shard_count | none ↦ hashed ]

-- binary.BigEndian.PutUint32.
unfoldable pub put_uint32 : ℕ → Bytes
put_uint32 s = (s / 2 ^ 24 % 256) ∷ (s / 2 ^ 16 % 256) ∷ (s / 2 ^ 8 % 256) ∷ (s % 256) ∷ []

module _ (c : Crypto) (fl : Floats) where
  unfoldable pub unit : Str → ℕ → fl.F
  unfolding big_endian put_uint32
  unit hub_id s =
      let sum = c.sha256 (hub_id ++ (codes "|" ++ put_uint32 s)) in
      fl.div (fl.add (fl.of_int (pos (big_endian 0 (take 8 sum)))) fl.half)
        (fl.of_int (pos (2 ^ 64)))

  unfoldable pub score : Hub → ℕ → fl.F
  unfolding unit
  score h s =
      if leb_ℤ h.capacity (pos 0)
      then fl.of_int (pos 0)
      else fl.mul (fl.of_int h.capacity) (fl.div (fl.of_int (negsuc 0)) (fl.log (unit h.id s)))

  -- `scored` of Holders: a hub ID and its score.
  abbrev pub Scored : Type 0
  Scored = Str × fl.F

  -- Score descending, then ID descending.
  abbrev pub ahead : Scored → Scored → Bool
  ahead a b = if not (fl.eq a.1 b.1) then fl.lt b.1 a.1 else str_lt b.0 a.0

  -- The loop of Holders: the archives' IDs and the scored candidates so far.
  unfoldable pub gather : ℕ → List Hub → List Str → List Scored → List Str × List Scored
  unfolding score
  gather s [] out cand = (out, cand)
  gather s (h ∷ hs) out cand =
      gather s hs (if str_eq h.id [] then out else if h.archive then out ++ (h.id ∷ []) else out) (
        if str_eq h.id []
        then cand
        else if h.archive
        then cand
        else if leb_ℤ h.capacity (pos 0)
        then cand
        else cand ++ ((h.id, score h s) ∷ []))

  unfoldable pub holders : Sorting → ℕ → List Hub → ℤ → List Str
  unfolding gather
  holders srt s hubs k =
      let (out, cand) = gather s hubs [] [] in
      let ranked = srt.sort Scored ahead cand in
      let k' = if ltb_ℤ (pos (length ranked)) k then pos (length ranked) else k in
      out ++ map (λ e. e.0) (take (pos_part k') ranked)

-- The first loop of AssignedShards: is self an archive?
unfoldable pub is_archive : Str → List Hub → Bool
is_archive self [] = false
is_archive self (h ∷ hs) = str_eq h.id self && h.archive || is_archive self hs

-- `for _, id := range ids { if id == self }`.
unfoldable pub mentions : Str → List Str → Bool
mentions self [] = false
mentions self (id ∷ ids) = str_eq id self || mentions self ids

-- The loops of AssignedShards over the shards below `n`.
unfoldable pub assign_all : ℕ → Map ℕ Bool
assign_all zero = []
assign_all (suc n) = put ℕ_discrete n true (assign_all n)

module _ (c : Crypto) (fl : Floats) (srt : Sorting) where
  unfoldable pub assign_held : Str → List Hub → ℤ → ℕ → Map ℕ Bool
  unfolding mentions holders
  assign_held self hubs k zero = []
  assign_held self hubs k (suc n) =
      let rest = assign_held self hubs k n in
      if mentions self (holders c fl srt n hubs k) then put ℕ_discrete n true rest else rest

  unfoldable pub assigned_shards : Str → List Hub → ℤ → Map ℕ Bool
  unfolding is_archive assign_all assign_held
  assigned_shards self hubs k =
      if is_archive self hubs then assign_all shard_count else assign_held self hubs k shard_count
