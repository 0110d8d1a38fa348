-- ===== src/Types.antt =====
-- The types that the services share (shared/types/index.ts), and the JavaScript values that the
-- modelled code only stores, copies and hands over.
use sentinelmesh.Common.{ℕ, String, Bool, Option}

-- A floating-point number, as its bit pattern: no modelled function computes with one.
pub data Double : Type 0 where
  double : ℕ → Double

-- Any other JSON value that is only stored, as its text.
pub data Json : Type 0 where
  json : String → Json

-- An optional field that may hold null: `f?: T | null`.
pub data Field {ℓ} (A : Type ℓ) : Type ℓ where
  undefined : Field A
  null : Field A
  value : A → Field A

pub data EventType : Type 0 where
  traffic_incident flood civil_unrest security_incident fire : EventType
  medical_emergency infrastructure_failure false_alarm : EventType

pub data Severity : Type 0 where
  critical high medium low : Severity

pub data EventState : Type 0 where
  reported active updated resolved expired : EventState

pub data ReportStatus : Type 0 where
  pending unverified verified authoritative disputed rejected : ReportStatus

pub data ReporterTier : Type 0 where
  newcomer trusted veteran sentinel : ReporterTier

pub data TrustState : Type 0 where
  heuristic corroborating confirmed : TrustState

pub data OriginClass : Type 0 where
  machine human : OriginClass

pub record SafetyEvent : Type 0 where
  pub id : String
  pub event_type : EventType
  pub severity : Severity
  pub title : String
  pub summary : Field String
  pub lat : Double
  pub lng : Double
  pub place_name : Field String
  pub county : Field String
  pub is_active : Bool
  pub state : EventState
  pub started_at : String
  pub created_at : String
  pub updated_at : Option String
  pub radius_meters : Field Double
  pub confidence : Field Double
  pub source_count : Field ℕ
  pub source_breakdown : Field Json
  pub nostr_event_id : Field String
  pub trust_state : Option TrustState
  pub origin_class : Option OriginClass

pub data ReportType : Type 0 where
  road_blocked flooding security_incident fire protest_march : ReportType
  accident infrastructure all_clear other : ReportType

pub record CommunityReport : Type 0 where
  pub id : String
  pub report_type : ReportType
  pub description : Option String
  pub lat : Double
  pub lng : Double
  pub place_name : Option String
  pub reporter_tier : ReporterTier
  pub consensus_score : Double
  pub status : ReportStatus
  pub confirmation_count : ℕ
  pub denial_count : ℕ
  pub photo_ipfs_cid : Option String
  pub linked_event_id : Option String
  pub created_at : String
  pub updated_at : String

pub data MemberStatus : Type 0 where
  online ghost offline : MemberStatus

pub data MembershipState : Type 0 where
  pending active : MembershipState

pub record Circle : Type 0 where
  pub circle_id : String
  pub name : Field String
  pub name_ciphertext : Field String
  pub name_version : Option ℕ
  pub key_epoch : Option ℕ
  pub location_protocol_version : Option ℕ
  pub rekey_required : Option Bool
  pub membership_revision : Option ℕ
  pub self_token : Option String
  pub created_at : String
  pub is_owner : Option Bool

pub record CircleMember : Type 0 where
  pub circle_id : String
  pub member_token : Field String
  pub alert_radius_km : Double
  pub alert_severity : Severity
  pub joined_at : String
  pub member_label_ciphertext : Field String
  pub membership_state : Option MembershipState
  pub accepted_at : Field String
  pub key_wrap_epoch : Field ℕ
  pub pubkey : Option String
  pub label : Option String

pub record ProximityAlert : Type 0 where
  pub id : String
  pub member_pubkey : String
  pub zone_name : String
  pub event_id : Option String
  pub severity : Severity
  pub triggered_at : String
