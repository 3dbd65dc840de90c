-- ===== src/Failover.antt =====
-- The hub pool of probe/reporter/failover.go. A connection is the URL that it is made for, and what
-- FetchHubs answers is an argument: the public URLs of the directory, or nothing on an error.
pub mod Pool
pub mod Calls
pub mod Attempts
pub mod Answers
use libre_ping.Base.{
  or_false, ℕ, zero, Bool, true, false, not, ◌||◌, Option, none, some, List, [], ◌∷◌, ◌++◌, map,
  leb, ◌==◌, if◌then◌else◌, length, ℤ, Str, str_dec, str_eq, Map, get, put,
}

pub record Candidate : Type 0 where
  pub url : Str
  -- `none` is the zero time.
  pub cooldown_until : Option ℤ

pub record FailoverClient : Type 0 where
  pub discover_enabled : Bool
  pub candidates : List Candidate
  pub cur : ℕ
  pub seen : Map Str Bool

abbrev pub max_candidates : ℕ
max_candidates = 32

-- addLocked.
unfoldable pub add_url : FailoverClient → Str → FailoverClient
add_url f url =
    if (str_eq url [] || or_false (get str_dec url f.seen))
      || leb max_candidates (length f.candidates)
    then f
    else record f {
      seen = put str_dec url true f.seen;
      candidates = f.candidates ++ (record { url = url; cooldown_until = none } ∷ []);
    }

-- The loops of NewFailoverClient and discover.
unfoldable pub add_urls : FailoverClient → List Str → FailoverClient
unfolding add_url
add_urls f [] = f
add_urls f (url ∷ urls) = add_urls (add_url f url) urls

unfoldable pub new_failover_client : List Str → Bool → FailoverClient
unfolding add_urls
new_failover_client seeds enabled =
    add_urls (record { discover_enabled = enabled; candidates = []; cur = 0; seen = [] }) seeds

abbrev pub learned : FailoverClient → Option (List Str) → FailoverClient
learned f none = f
learned f (some urls) = add_urls f urls

unfoldable pub discover : FailoverClient → Option (List Str) → FailoverClient
unfolding add_urls
discover f answer =
    if not f.discover_enabled then f else if length f.candidates == 0 then f else learned f answer
