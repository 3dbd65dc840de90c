-- ===== src/Protocol.antt =====
-- pkg/protocol: the records that probes, hubs and owners sign and gossip. A float64 is its 64-bit
-- pattern; an int or int64 is a ℤ, whose range is stated where it matters; a Go map is a `Map`.
pub mod CheckId
pub mod Verify
pub mod Owner
pub mod SelfCertifying
use libre_ping.Base.{ℕ, Bool, true, false, Option, none, some, List, ℤ, Str, Bytes, codes, Map}

abbrev pub Float64 : Type 0
Float64 = ℕ

abbrev pub CheckType : Type 0
CheckType = Str

abbrev pub check_http : CheckType
check_http = codes "http"

abbrev pub check_icmp : CheckType
check_icmp = codes "icmp"

abbrev pub Status : Type 0
Status = Str

abbrev pub status_up : Status
status_up = codes "up"

abbrev pub status_down : Status
status_down = codes "down"

abbrev pub status_degraded : Status
status_degraded = codes "degraded"

pub record Location : Type 0 where
  pub country : Str
  pub city : Str
  pub lat : Float64
  pub lon : Float64

pub record CheckSpec : Type 0 where
  pub id : Str
  pub check_type : CheckType
  pub target : Str
  pub interval_seconds : ℤ
  pub params : Map Str Str

pub record ResultContent : Type 0 where
  pub check_id : Str
  pub check_type : CheckType
  pub target : Str
  pub probe_id : Str
  pub location : Location
  pub timestamp_ms : ℤ
  pub status : Status
  pub rtt_millis : Float64
  pub detail : Map Str Str

pub record SignedResult : Type 0 where
  pub content : ResultContent
  pub pub_key : Bytes
  pub signature : Bytes

pub record CatalogEntry : Type 0 where
  pub spec : CheckSpec
  pub hub_id : Str

pub record SignedCatalogEntry : Type 0 where
  pub entry : CatalogEntry
  pub pub_key : Bytes
  pub signature : Bytes

pub record HubAnnouncement : Type 0 where
  pub hub_id : Str
  pub public_url : Str
  pub name : Str
  pub location : Location
  pub timestamp_ms : ℤ
  pub enc_pub_key : Bytes
  pub storage_capacity : ℤ
  pub storage_archive : Bool
  pub p2p_addrs : List Str

pub record SignedHubAnnouncement : Type 0 where
  pub announcement : HubAnnouncement
  pub pub_key : Bytes
  pub signature : Bytes

pub record DeliveryState : Type 0 where
  pub rule_id : Str
  pub status : Status
  pub hub_id : Str
  pub timestamp_ms : ℤ

pub record SignedDeliveryState : Type 0 where
  pub state : DeliveryState
  pub pub_key : Bytes
  pub signature : Bytes

pub record Subscription : Type 0 where
  pub owner : Str
  pub check_id : Str
  pub interval_seconds : ℤ
  pub expiry_ms : ℤ
  pub updated_ms : ℤ
  pub deleted : Bool

pub record SignedSubscription : Type 0 where
  pub subscription : Subscription
  pub pub_key : Bytes
  pub signature : Bytes

abbrev pub AlertChannel : Type 0
AlertChannel = Str

pub record AlertRule : Type 0 where
  pub owner : Str
  pub check_id : Str
  pub channel : AlertChannel
  pub dest_hash : Str
  pub recipients : Map Str Str
  pub fail_locations : ℤ
  pub for_seconds : ℤ
  pub expiry_ms : ℤ
  pub updated_ms : ℤ
  pub deleted : Bool

pub record SignedAlertRule : Type 0 where
  pub rule : AlertRule
  pub pub_key : Bytes
  pub signature : Bytes

pub record ProbeRegistration : Type 0 where
  pub probe_id : Str
  pub location : Location
  pub max_checks_per_minute : ℤ
  pub supported_types : List CheckType
  pub timestamp_ms : ℤ

pub record SignedProbeRegistration : Type 0 where
  pub registration : ProbeRegistration
  pub pub_key : Bytes
  pub signature : Bytes

abbrev pub GossipKind : Type 0
GossipKind = Str

-- A payload pointer is an option, nil is `none`.
pub record GossipEnvelope : Type 0 where
  pub kind : GossipKind
  pub result : Option SignedResult
  pub catalog : Option SignedCatalogEntry
  pub hub : Option SignedHubAnnouncement
  pub subscription : Option SignedSubscription
  pub alert : Option SignedAlertRule
  pub delivery : Option SignedDeliveryState

-- Why a signed record is refused.
pub data VerifyError : Type 0 where
  bad_key bad_signature id_mismatch spec_id_mismatch marshal_error : VerifyError

-- `error` as a result: `ok` is nil.
pub data Result (E : Type 0) (A : Type 0) : Type 0 where
  ok : A → Result E A
  err : E → Result E A

infixl 5 ◌>>=◌ ◌>>◌
abbrev pub ◌>>=◌ : {E A B : Type 0} → Result E A → (A → Result E B) → Result E B
ok a >>= f = f a
err e >>= f = err e

abbrev pub ◌>>◌ : {E B : Type 0} → Result E (Unit {0}) → Result E B → Result E B
m >> k = m >>= λ _. k

-- Refuse with the error unless the test holds.
abbrev pub guard : {E : Type 0} → Bool → E → Result E (Unit {0})
guard true e = ok tt
guard false e = err e

abbrev pub or_fail : {E A : Type 0} → Option A → E → Result E A
or_fail (some a) e = ok a
or_fail none e = err e

-- `err == nil`.
abbrev pub passes : {E A : Type 0} → Result E A → Bool
passes (ok a) = true
passes (err e) = false
