-- ===== src/Tests.antt =====
-- Concrete inputs for the theorems: a toy hash and signature scheme that meet the interface, and
-- some results, hubs, subscriptions and rules.
pub mod Records
pub mod Mesh
pub mod Alerts
pub mod Stores
pub mod Nodes
pub mod Hubs
pub mod Spread
pub mod Reach
pub mod Probes
use libre_ping.Base.{
  eqb_refl, ℕ, zero, suc, ◌%◌, ◌<◌, ◌≡◌, refl, ap, true, false, some, List, [], ◌∷◌, ◌++◌, arith,
  length, take, All, ℤ, pos, Str, Bytes, codes, str_dec, str_eq, Map, length-append, length-take,
}
use libre_ping.Base.Float.{Floats, whole}
use libre_ping.Base.Sorting.{Sorting, insertion}
use libre_ping.Identity.{Crypto, Identity}
use libre_ping.Protocol.{
  Location, ResultContent, SignedResult, status_up, status_down, check_http, CheckSpec,
  CatalogEntry, HubAnnouncement, DeliveryState, ProbeRegistration,
}
use libre_ping.Protocol.Verify.{Json}
use libre_ping.Shard.{Hub}

unfoldable pub zeros : ℕ → List ℕ
zeros zero = []
zeros (suc n) = 0 ∷ zeros n

length-zeros : (n : ℕ) → length (zeros n) ≡ n
unfolding zeros
length-zeros zero = refl
length-zeros (suc n) = ap suc (length-zeros n)

unfoldable pub low_bytes : Bytes → Bytes
low_bytes [] = []
low_bytes (b ∷ bs) = b % 256 ∷ low_bytes bs

pub low_bytes-IsByte : (bs : Bytes) → All (λ b. b < 256) (low_bytes bs)
unfolding low_bytes
low_bytes-IsByte [] = tt
low_bytes-IsByte (b ∷ bs) = (omega arith, low_bytes-IsByte bs)

unfoldable pub padded : Bytes → Bytes
unfolding zeros
padded priv = take 32 (priv ++ zeros 32)

pub padded-size : (priv : Bytes) → length (padded priv) ≡ 32
unfolding padded
padded-size priv =
    omega (arith, length-take 32 (priv ++ zeros 32), length-append priv (zeros 32), length-zeros 32)

unfoldable pub toy : Crypto
unfolding low_bytes padded
toy = record {
  sha256 = low_bytes;
  new_key_from_seed = λ seed. seed;
  public_of = padded;
  ed25519_sign = λ priv msg. padded priv ++ msg;
  ed25519_verify = λ key msg sig. str_eq sig (key ++ msg);
  sha256-IsByte = low_bytes-IsByte;
  public_of-size = padded-size;
  sign-verifies = λ priv msg. eqb_refl str_dec (padded priv ++ msg);
}

abbrev pub alice : Identity
alice = record { priv = 7 ∷ []; pub_key = toy.public_of (7 ∷ []) }

abbrev pub home : Location
home = record { country = codes "DE"; city = codes "Berlin"; lat = 0; lon = 0 }

-- A result of a probe for a check, at a time.
abbrev pub content_at : Str → Str → ℤ → Str → ResultContent
content_at probe check ts status = record {
  check_id = check;
  check_type = check_http;
  target = codes "https://example.org";
  probe_id = probe;
  location = home;
  timestamp_ms = ts;
  status = status;
  rtt_millis = 0;
  detail = [];
}

abbrev pub result_at : Str → Str → ℤ → Str → SignedResult
result_at probe check ts status = record {
  content = content_at probe check ts status;
  pub_key = [];
  signature = [];
}

abbrev pub early : SignedResult
early = result_at (codes "p1") (codes "c1") (pos 10) status_up

abbrev pub late : SignedResult
late = result_at (codes "p2") (codes "c1") (pos 20) status_down

abbrev pub other : SignedResult
other = result_at (codes "p1") (codes "c2") (pos 30) status_up

-- The same check with its parameters in two orders.
abbrev pub spec_with : Map Str Str → CheckSpec
spec_with params = record {
  id = [];
  check_type = check_http;
  target = codes "https://example.org";
  interval_seconds = pos 60;
  params = params;
}

abbrev pub toy_json : Json
toy_json = record {
  result = λ x. some (x.check_id ++ x.probe_id);
  catalog = λ x. some (x.hub_id ++ x.spec.target);
  hub = λ x. some (x.hub_id ++ x.public_url);
  delivery = λ x. some (x.rule_id ++ x.hub_id);
  registration = λ x. some x.probe_id;
}

abbrev pub three_hubs : List Hub
three_hubs =
    record { id = codes "h1"; capacity = pos 5; archive = false }
    ∷ record { id = codes "h2"; capacity = pos 9; archive = false }
    ∷ record { id = codes "h3"; capacity = pos 0; archive = true }
    ∷ []
