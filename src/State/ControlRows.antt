-- ===== src/State/ControlRows.antt =====
-- The rows of the control surface of apps/api/src/db/store.js: grid assets, control modes, decisions,
-- certificates, profile pushes and dead letters.
use volt_hub_csms.Prelude.{ℕ, Bool, String, List, Option}
use volt_hub_csms.Prelude.Dict.{Dict}
use volt_hub_csms.Prelude.Decimal.{Decimal}
use volt_hub_csms.State.Enums.{ControlMode, CertStatus, DedupeKey}
use volt_hub_csms.State.Events.{Payload, Reason, EnforcementTick}

pub data AssetKind : Type 0 where
  site panel feeder : AssetKind

pub data AssetStatus : Type 0 where
  active pending retired : AssetStatus

-- A label that is missing is the kind and the id.
pub record GridAsset : Type 0 where
  pub asset_id : ℕ
  pub station_id : ℕ
  pub parent_id : Option ℕ
  pub kind : AssetKind
  pub label : Option String
  pub cap_kw : Decimal
  pub ramp_kw : Option Decimal
  pub status : AssetStatus
  pub proposed_by : Option ℕ
  pub approved_by : Option ℕ
  pub created_at : ℕ
  pub updated_at : ℕ

pub record Station : Type 0 where
  pub station_id : ℕ
  pub name : String
  pub status : String
  pub operator_id : Option ℕ
  pub created_at : ℕ

-- `s.stations`, `s.gridAssets`, `s.controlMode`
pub record Grid : Type 0 where
  pub stations : Dict ℕ Station
  pub assets : Dict ℕ GridAsset
  pub modes : Dict ℕ ControlMode
  pub asset_seq : ℕ
  pub station_seq : ℕ

-- The schedule of a decision, its hash and the solver's name are left out.
pub record Decision : Type 0 where
  pub decision_id : ℕ
  pub site_id : ℕ
  pub horizon_start : ℕ
  pub interval_min : ℕ
  pub runtime_ms : Option ℕ
  pub state_version : Option ℕ
  pub created_at : ℕ

pub record Certificate : Type 0 where
  pub cert_id : ℕ
  pub session_id : Option ℕ
  pub reservation_id : Option ℕ
  pub station_id : ℕ
  pub cp_id : ℕ
  pub connector_no : ℕ
  pub floor_kw : Decimal
  pub margin_kwh : Decimal
  pub worst_case_kwh : Decimal
  pub required_kwh : Decimal
  pub deadline_at : Option ℕ
  pub decision_id : Option ℕ
  pub status : CertStatus
  pub issued_at : ℕ
  pub updated_at : ℕ
  pub reason : Option Reason

pub data RateUnit : Type 0 where
  amps watts : RateUnit

-- `{ startPeriod, limit }`, in seconds and watts.
pub record Period : Type 0 where
  pub start_period : ℕ
  pub limit : Decimal

-- The `chargingSchedule` of a profile's payload.
pub record Schedule : Type 0 where
  pub rate_unit : RateUnit
  pub start_schedule : Option ℕ
  pub periods : List Period

-- The answer of a charge point: `Accepted`, or any other text.
pub data Ack : Type 0 where
  accepted : Ack
  refused : String → Ack

-- A payload that is no JSON or has no schedule is `none`.
pub record ProfilePush : Type 0 where
  pub push_id : ℕ
  pub decision_id : ℕ
  pub cp_id : ℕ
  pub profile_payload : Option Schedule
  pub payload_sha256 : Option ℕ
  pub clamped : Bool
  pub push_at : ℕ
  pub ack_result : Option Ack
  pub sent_at : Option ℕ

-- What a dead letter is about: a relay event, or another reference.
pub data EventRef : Type 0 where
  relay_event : DedupeKey → EventRef
  other_event : String → EventRef
  -- `ack:${uid}`, `ack-timeout:${uid}`
  ack_event : String → EventRef
  ack_timeout_event : String → EventRef
  -- `push:${cp}:${decision}`, `push-rate:${cp}:${now}`
  push_event : ℕ → ℕ → EventRef
  push_rate_event : ℕ → ℕ → EventRef

pub data LetterStatus : Type 0 where
  opened replayed dismissed : LetterStatus

pub record DeadLetter : Type 0 where
  pub letter_id : ℕ
  pub event_ref : EventRef
  pub reason_code : String
  pub payload : Option Payload
  pub first_seen_at : ℕ
  pub last_seen_at : ℕ
  pub status : LetterStatus

-- `s.controlDecisions`, `s.certificates`, `s.profilePushes`, `s.deadLetters`, `s.enforcementTicks`
pub record Control : Type 0 where
  pub decisions : Dict ℕ Decision
  pub certificates : Dict ℕ Certificate
  pub pushes : Dict ℕ ProfilePush
  pub letters : Dict ℕ DeadLetter
  pub enforcement_ticks : List EnforcementTick
  pub decision_seq : ℕ
  pub cert_seq : ℕ
  pub push_seq : ℕ
  pub letter_seq : ℕ
