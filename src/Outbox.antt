-- ===== src/Outbox.antt =====
-- hub/outbox/outbox.go: a bounded, age-limited buffer of pending results. The clock's reading `now`
-- is an argument; a nil *Outbox is `none`.
pub mod Ring
use libre_ping.Base.{
  Option, none, some, List, [], ◌∷◌, ◌++◌, if◌then◌else◌, length, drop, ℤ, pos, ltb_ℤ, leb_ℤ, ◌-ℤ◌,
  pos_part,
}
use libre_ping.Protocol.{SignedResult}

pub record Item : Type 0 where
  pub sr : SignedResult
  pub at : ℤ

pub record Outbox : Type 0 where
  pub items : List Item
  pub max_n : ℤ
  pub max_age : ℤ

unfoldable pub new : ℤ → ℤ → Outbox
new max_n max_age = record {
  items = [];
  max_n = if leb_ℤ max_n (pos 0) then pos 2048 else max_n;
  max_age = max_age;
}

-- `items[len(items)-maxN:]`, where that is not before the first.
abbrev pub keep_last : ℤ → List Item → List Item
keep_last max_n items =
    if ltb_ℤ max_n (pos (length items))
    then drop (pos_part (pos (length items) -ℤ max_n)) items
    else items

unfoldable pub add : ℤ → Option Outbox → SignedResult → Option Outbox
add now none sr = none
add now (some o) sr =
    some (record o { items = keep_last o.max_n (o.items ++ (record { sr = sr; at = now } ∷ [])) })

-- The loop of Recent: what is kept, and the results of it.
unfoldable pub recent_loop :
    ℤ → List Item → List Item → List SignedResult → List Item × List SignedResult
recent_loop cutoff [] kept out = (kept, out)
recent_loop cutoff (it ∷ rest) kept out =
    recent_loop cutoff rest (if ltb_ℤ it.at cutoff then kept else kept ++ (it ∷ []))
      (if ltb_ℤ it.at cutoff then out else out ++ (it.sr ∷ []))

unfoldable pub recent : ℤ → Option Outbox → Option Outbox × List SignedResult
unfolding recent_loop
recent now none = (none, [])
recent now (some o) =
    let (kept, out) = recent_loop (now -ℤ o.max_age) o.items [] [] in
    (some (record o { items = kept }), out)
