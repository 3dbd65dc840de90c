-- ===== src/Tests/Nodes.antt =====
-- Hubs for the tests: a toy configuration of the program, a server with nothing stored, and records
-- that their owners signed.
use libre_ping.Base.{
  ℕ, zero, suc, ◌≡◌, refl, ap, ◌∙◌, true, false, Option, none, some, [], ◌∷◌, arith, All, ℤ, pos,
  negsuc, Str, codes, decimal, if◌then◌else◌, ◌==◌, format_int,
}
use libre_ping.Base.Decimal.{read_decimal, read-decimal, decimal-IsDigit, IsDigit}
use libre_ping.Base.Sorting.{insertion}
use libre_ping.Identity.{node_id, verify-sign, pub_key-size}
use libre_ping.Protocol.{SignedSubscription, Subscription, ok}
use libre_ping.Protocol.Owner.{sign_subscription, verify_subscription, canonical_subscription}
use libre_ping.Protocol.SelfCertifying.{verify-sign_result}
use libre_ping.Protocol.Verify.{verify_result}
use libre_ping.Trust.{open_mesh}
use libre_ping.Store.Results.{new_mem_store}
use libre_ping.Store.Catalog.{new_mem_catalog}
use libre_ping.Store.Subscriptions.{new_mem_subscriptions}
use libre_ping.Store.Alerts.{new_mem_alerts}
use libre_ping.Hub.{Env, Stores}
use libre_ping.Api.{Server, Config}
use libre_ping.Api.Query.{Strconv}
use libre_ping.Outbox.{Outbox}
use libre_ping.Tests.{toy, toy_json, alice, early}
use libre_ping.Tests.Mesh.{empty}
use libre_ping.Tests.Records.{signed, signed_lem}

abbrev pub node : Env
node = record {
  crypto = toy;
  json = toy_json;
  sorting = insertion;
  policy = open_mesh;
  peer_id = codes "self";
  decode = λ bytes. none;
}

abbrev pub no_stores : Stores
no_stores = record {
  results = new_mem_store;
  catalog = new_mem_catalog;
  subs = new_mem_subscriptions;
  alerts = new_mem_alerts;
  world = record { dir = empty; loops = [] };
  interest = none;
}

abbrev pub no_items : Outbox
no_items = record { items = []; max_n = pos 2; max_age = pos 10 }

abbrev pub server : Server
server = record { stores = no_stores; outbox = some no_items; probes = []; remote_cache = [] }

abbrev pub config : Config
config = record {
  identity = some alice;
  redundancy = pos 2;
  self = record { id = codes "h1"; capacity = pos 5; archive = true };
}

pub signed-verified : verify_result toy toy_json signed ≡ ok tt
signed-verified = verify-sign_result toy toy_json alice early.content signed refl signed_lem

abbrev pub wish : Subscription
wish = record {
  owner = [];
  check_id = codes "c1";
  interval_seconds = pos 60;
  expiry_ms = pos 0;
  updated_ms = pos 5;
  deleted = false;
}

abbrev pub signed_wish : SignedSubscription
signed_wish = sign_subscription toy alice wish

pub wish-verified : verify_subscription toy signed_wish ≡ ok tt
unfolding sign_subscription verify_subscription node_id
wish-verified = ground (
  arith,
  pub_key-size toy alice refl,
  verify-sign toy alice (canonical_subscription (record wish { owner = node_id toy alice })) refl,
)

abbrev below : ℕ → ℤ
below zero = pos 0
below (suc n) = negsuc n

-- The number that a decimal reads as, with a sign or without.
unfoldable pub parsed : Str → ℤ
parsed [] = pos 0
parsed (d ∷ ds) = if d == b'-' then below (read_decimal 0 ds) else pos (read_decimal 0 (d ∷ ds))

parsed-IsDigit : (s : Str) → All IsDigit s → parsed s ≡ pos (read_decimal 0 s)
unfolding parsed
parsed-IsDigit [] h = refl
parsed-IsDigit (d ∷ ds) h = ground arith

pub parsed-format_int : (z : ℤ) → parsed (format_int z) ≡ z
unfolding format_int parsed
parsed-format_int (pos n) = parsed-IsDigit (decimal n) (decimal-IsDigit n) ∙ ap pos (read-decimal n)
parsed-format_int (negsuc n) = ap below (read-decimal (suc n))

abbrev pub natural : ℤ → Option ℕ
natural (pos n) = some n
natural (negsuc n) = none

pub parsed_nil : parsed [] ≡ pos 0
unfolding parsed
parsed_nil = refl

-- A strconv that reads decimals.
abbrev pub decimals : Strconv
decimals = record {
  trim_space = λ s. s;
  parse_int64 = parsed;
  atoi = λ s. some (parsed s);
  parse_uint32 = λ s. natural (parsed s);
  trim-format_int = λ z. refl;
  parse_int64-format_int = λ z h. parsed-format_int z;
  parse_int64-nil = parsed_nil;
  atoi-format_int = λ z h. ap some (parsed-format_int z);
  parse_uint32-format_int = λ n h. ap natural (parsed-format_int (pos n));
}
