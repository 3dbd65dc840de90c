-- ===== src/Directory.antt =====
-- hub/directory/directory.go: the peer hubs that announced themselves and that a reachability
-- check confirmed. A goroutine of verifyLoop is a Loop, and its two critical sections are two
-- functions with the reachability check between them. Times are integers, the clock's reading
-- `now` is an argument.
pub mod Steps
pub mod Verified
use libre_ping.Base.{
  is_member, Bool, true, false, ◌&&◌, ◌||◌, Option, none, some, List, [], ◌∷◌, ◌++◌, map,
  if◌then◌else◌, select, ℤ, pos, ltb_ℤ, ◌-ℤ◌, Str, str_dec, str_eq, Map, get, put, del,
}
use libre_ping.Base.Sorting.{Sorting}
use libre_ping.Protocol.{HubAnnouncement, Location}

-- The zero value of the struct.
abbrev pub zero_announcement : HubAnnouncement
zero_announcement = record {
  hub_id = [];
  public_url = [];
  name = [];
  location = record { country = []; city = []; lat = 0; lon = 0 };
  timestamp_ms = pos 0;
  enc_pub_key = [];
  storage_capacity = pos 0;
  storage_archive = false;
  p2p_addrs = [];
}

pub record Entry : Type 0 where
  pub verified_ann : HubAnnouncement
  pub verified : Bool
  pub pending_ann : HubAnnouncement
  pub last_seen : ℤ

pub record Directory : Type 0 where
  pub entries : Map Str Entry
  pub verifying : Map Str (Unit {0})
  pub ttl : ℤ
  pub self_id : Str

-- `e, ok := d.entries[id]; if !ok { e = &entry{} }`
abbrev pub or_new : ℤ → Option Entry → Entry
or_new now none = record {
  verified_ann = zero_announcement;
  verified = false;
  pending_ann = zero_announcement;
  last_seen = now;
}
or_new now (some e) = e

-- The entry with the announcement received.
abbrev pub refreshed : HubAnnouncement → ℤ → Option Entry → Entry
refreshed ann now o = record (or_new now o) { pending_ann = ann; last_seen = now }

-- `e.verified && e.verifiedAnn.PublicURL == url`
abbrev pub settled : Entry → Str → Bool
settled e url = e.verified && str_eq e.verified_ann.public_url url

-- Add, up to its `go`: whether a goroutine of verifyLoop starts is the answer.
unfoldable pub add : HubAnnouncement → ℤ → Directory → Directory × Bool
add ann now d =
    if str_eq ann.hub_id d.self_id || str_eq ann.public_url []
    then (d, false)
    else (let e = refreshed ann now (get str_dec ann.hub_id d.entries) in
        let seen = record d { entries = put str_dec ann.hub_id e d.entries } in
        if settled e ann.public_url
        then (seen, false)
        else if is_member (get str_dec ann.hub_id d.verifying)
        then (seen, false)
        else (record seen { verifying = put str_dec ann.hub_id tt d.verifying }, true))

-- The goroutine ends: `delete(d.verifying, hubID)`.
abbrev pub finish : Str → Directory → Directory
finish id d = record d { verifying = del str_dec id d.verifying }

-- What a goroutine of verifyLoop does next.
pub data Phase : Type 0 where
  at_top : Phase
  checking : Str → Phase

abbrev pub top_with : Str → Directory → Option Entry → Directory × Option Phase
top_with id d none = (finish id d, none)
top_with id d (some e) =
    if settled e e.pending_ann.public_url
    then (finish id d, none)
    else (d, some (checking e.pending_ann.public_url))

-- The first critical section of verifyLoop. The phase `none` is the goroutine's return.
unfoldable pub loop_top : Str → Directory → Directory × Option Phase
loop_top id d = top_with id d (get str_dec id d.entries)

-- The verified fields after the check's answer.
abbrev pub judged : Str → Bool → Entry → Entry
judged url true e = record e { verified_ann = e.pending_ann; verified = true }
judged url false e =
    if str_eq e.verified_ann.public_url url then record e { verified = false } else e

abbrev pub reply_with : Str → Str → Bool → Directory → Option Entry → Directory × Option Phase
reply_with id url answer d none = (finish id d, none)
reply_with id url answer d (some e) =
    if str_eq e.pending_ann.public_url url
    then (record (finish id d) { entries = put str_dec id (judged url answer e) d.entries }, none)
    else (d, some at_top)

-- The second critical section, with the answer of the check of `url`.
unfoldable pub loop_reply : Str → Str → Bool → Directory → Directory × Option Phase
loop_reply id url answer d = reply_with id url answer d (get str_dec id d.entries)

-- AddVerified, for peers that are configured; only tests call it.
unfoldable pub add_verified : HubAnnouncement → ℤ → Directory → Directory
add_verified ann now d = record d {
  entries =
      put str_dec ann.hub_id
        (record { verified_ann = ann; verified = true; pending_ann = ann; last_seen = now })
        d.entries;
}

-- The loop of List: expired entries go, verified ones are listed.
unfoldable pub list_loop :
    ℤ → Map Str Entry → Map Str Entry → List HubAnnouncement → Map Str Entry × List HubAnnouncement
list_loop cutoff [] entries out = (entries, out)
list_loop cutoff ((id, e) ∷ rest) entries out =
    list_loop cutoff rest (if ltb_ℤ e.last_seen cutoff then del str_dec id entries else entries) (
      if ltb_ℤ e.last_seen cutoff
      then out
      else if e.verified
      then out ++ (e.verified_ann ∷ [])
      else out)

abbrev pub newest_first : HubAnnouncement → HubAnnouncement → Bool
newest_first a b = ltb_ℤ b.timestamp_ms a.timestamp_ms

unfoldable pub list : Sorting → ℤ → Directory → Directory × List HubAnnouncement
unfolding list_loop
list s now d =
    let (entries, out) = list_loop (now -ℤ d.ttl) d.entries d.entries [] in
    (record d { entries = entries }, s.sort HubAnnouncement newest_first out)

unfoldable pub active_within : ℤ → ℤ → Directory → List HubAnnouncement
active_within now window d =
    map (λ e. e.1.verified_ann)
      (select (λ e. e.1.verified && ltb_ℤ (now -ℤ window) e.1.last_seen) d.entries)
