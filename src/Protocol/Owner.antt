-- ===== src/Protocol/Owner.antt =====
-- pkg/protocol/owner.go: subscriptions and alert rules, signed by their owners in the browser over
-- a canonical text.
use libre_ping.Base.{
  Bool, ◌||◌, List, [], ◌∷◌, ◌++◌, ◌==◌, if◌then◌else◌, length, take, Str, Bytes, codes, str_dec,
  str_eq, str_lt, Map, get, format_int, hex_encode,
}
use libre_ping.Base.Sorting.{Sorting}
use libre_ping.Base.Maps.{keys}
use libre_ping.Identity.{Crypto, Identity, node_id, node_id_from_pub, sign, verify, public_key_size}
use libre_ping.Protocol.{
  Subscription, SignedSubscription, AlertChannel, AlertRule, SignedAlertRule, VerifyError, bad_key,
  bad_signature, id_mismatch, Result, ◌>>◌, guard,
}
use libre_ping.Protocol.CheckId.{or_empty}

unfoldable pub bool_field : Bool → Str
bool_field b = if b then codes "1" else codes "0"

-- strings.Join.
unfoldable pub join : Str → List Str → Str
join sep [] = []
join sep (x ∷ []) = x
join sep (x ∷ y ∷ ys) = x ++ (sep ++ join sep (y ∷ ys))

abbrev pub newline : Str
newline = 10 ∷ []

module _ (c : Crypto) where
  unfoldable pub verify_owner : Bytes → Str → Bytes → Bytes → Result VerifyError (Unit {0})
  verify_owner key owner payload sig = do
    guard (length key == public_key_size) bad_key
    guard (verify c key payload sig) bad_signature
    guard (str_eq owner (node_id_from_pub c key)) id_mismatch

unfoldable pub canonical_subscription : Subscription → Bytes
unfolding join bool_field
canonical_subscription s = join newline (
    codes "libreping-subscription-v2"
    ∷ s.owner
    ∷ s.check_id
    ∷ format_int s.interval_seconds
    ∷ format_int s.expiry_ms
    ∷ format_int s.updated_ms
    ∷ bool_field s.deleted
    ∷ [])

-- AlertChannel.Known.
unfoldable pub known : AlertChannel → Bool
known ch =
    str_eq ch (codes "webhook")
    || (str_eq ch (codes "ntfy") || (str_eq ch (codes "discord") || str_eq ch (codes "slack")))

unfoldable pub alert_dest_hash : Crypto → Str → Str → Str
alert_dest_hash c owner destination =
    hex_encode (take 16 (c.sha256 (owner ++ (codes "|" ++ destination))))

-- AlertRule.ID.
unfoldable pub rule_id : Crypto → AlertRule → Str
rule_id c a = hex_encode (
    take 8 (
      c.sha256 (
        a.owner
        ++ (codes "|"
            ++ (a.check_id ++ (codes "|" ++ (a.channel ++ (codes "|" ++ a.dest_hash))))))))

recipient_parts : Map Str Str → List Str → List Str
recipient_parts m [] = []
recipient_parts m (id ∷ ids) =
    (id ++ (codes ":" ++ or_empty (get str_dec id m))) ∷ recipient_parts m ids

module _ (s : Sorting) where
  unfoldable pub canonical_recipients : AlertRule → Str
  unfolding recipient_parts join
  canonical_recipients a =
      join (codes ",") (recipient_parts a.recipients (s.sort Str str_lt (keys a.recipients)))

  unfoldable pub canonical_alert : AlertRule → Bytes
  unfolding canonical_recipients join bool_field
  canonical_alert a = join newline (
      codes "libreping-alert-v3"
      ∷ a.owner
      ∷ a.check_id
      ∷ a.channel
      ∷ a.dest_hash
      ∷ canonical_recipients a
      ∷ format_int a.fail_locations
      ∷ format_int a.for_seconds
      ∷ format_int a.expiry_ms
      ∷ format_int a.updated_ms
      ∷ bool_field a.deleted
      ∷ [])

module _ (c : Crypto) where
  unfoldable pub sign_subscription : Identity → Subscription → SignedSubscription
  sign_subscription id s =
      let stamped : Subscription = record s { owner = node_id c id } in
      record {
        subscription = stamped;
        pub_key = id.pub_key;
        signature = sign c id (canonical_subscription stamped);
      }

  unfoldable pub verify_subscription : SignedSubscription → Result VerifyError (Unit {0})
  unfolding verify_owner
  verify_subscription ss =
      verify_owner c ss.pub_key ss.subscription.owner (canonical_subscription ss.subscription)
        ss.signature

  unfoldable pub sign_alert_rule : Sorting → Identity → AlertRule → SignedAlertRule
  sign_alert_rule s id a =
      let stamped : AlertRule = record a { owner = node_id c id } in
      record {
        rule = stamped;
        pub_key = id.pub_key;
        signature = sign c id (canonical_alert s stamped);
      }

  unfoldable pub verify_alert_rule : Sorting → SignedAlertRule → Result VerifyError (Unit {0})
  unfolding verify_owner
  verify_alert_rule s sa =
      verify_owner c sa.pub_key sa.rule.owner (canonical_alert s sa.rule) sa.signature
