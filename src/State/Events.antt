-- ===== src/State/Events.antt =====
-- What the store tells others: outbox events, audit rows and notifications.
use volt_hub_csms.Prelude.{ℕ, String, Option, List}
use volt_hub_csms.Prelude.Decimal.{Decimal}
use volt_hub_csms.State.Rows.{Note}
use volt_hub_csms.State.Enums.{
  Role, ConnectorRef, ConnectorStatus, SessionState, Cause, DedupeKey, ControlMode, CertStatus,
  IntentId,
}

-- The reason of a certificate: the store's own, or a text.
pub data Reason : Type 0 where
  infeasible : Reason
  given : String → Reason

pub record EnforcementTick : Type 0 where
  pub ts : ℕ
  pub cp_id : ℕ
  pub session_id : Option ℕ
  pub decision_id : Option ℕ
  pub scheduled_kw : Decimal
  pub actual_kw : Option Decimal
  pub deviation_kw : Option Decimal

-- The payload of an event; the event's kind is that of the constructor.
pub data Payload : Type 0 where
  connector_state : ConnectorRef → ConnectorStatus → ConnectorStatus → Cause → Option ℕ → Payload
  session_event : ℕ → SessionState → SessionState → Payload
  -- session, seq, connector, register, power, time
  tick_payload : ℕ → ℕ → ConnectorRef → Decimal → Option Decimal → ℕ → Payload
  -- site, from, to
  mode_changed : ℕ → ControlMode → ControlMode → Payload
  -- decision, site, interval
  decision_committed : ℕ → ℕ → ℕ → Payload
  -- certificate, from, to, reason
  cert_lifecycle : ℕ → Option CertStatus → CertStatus → Option Reason → Payload
  -- push, charge point, decision, digest
  push_recorded : ℕ → ℕ → ℕ → Option ℕ → Payload
  enforcement_tick : EnforcementTick → Payload
  -- site, certificates with their deviations
  compliance_report : ℕ → List (ℕ × ℕ) → Payload
  -- Of letters only: the action of a call, the charge point, the decision.
  csms_call : String → Option ℕ → Option ℕ → Payload

pub record Event : Type 0 where
  pub event_id : ℕ
  pub dedupe_key : DedupeKey
  pub payload : Payload
  pub created_at : ℕ
  pub processed_at : Option ℕ
  pub quarantine_reason : Option String

pub data AuditValue : Type 0 where
  text : String → AuditValue
  connector : ConnectorRef → AuditValue
  moved : SessionState → AuditValue
  -- amount, balance after, note
  credit : Decimal → Decimal → Note → AuditValue
  -- session, total
  issued : ℕ → Decimal → AuditValue
  number : ℕ → AuditValue
  -- email, role
  registered : String → Role → AuditValue
  -- make and model of a vehicle
  car : String → String → AuditValue
  -- a name, or `Plan v${version}` if there is none
  version_name : Option String → ℕ → AuditValue
  kw : Decimal → AuditValue
  mode : ControlMode → AuditValue
  -- address, chain
  wallet_link : ℕ → ℕ → AuditValue
  -- intent, amount, signer, reference
  settlement : IntentId → Decimal → ℕ → ℕ → AuditValue

pub record AuditRow : Type 0 where
  pub audit_id : ℕ
  pub actor_user_id : Option ℕ
  pub entity_name : String
  pub entity_id : ℕ
  pub action : String
  pub old_value : Option AuditValue
  pub new_value : Option AuditValue
  pub created_at : ℕ

pub data Notice : Type 0 where
  -- reservation, connector
  reservation_confirmed : ℕ → ConnectorRef → Notice
  -- invoice, total
  invoice_issued : ℕ → Decimal → Notice
  -- certificate, floor, worst case
  guarantee_issued : ℕ → Decimal → Decimal → Notice

pub record Notification : Type 0 where
  pub notification_id : ℕ
  pub user_id : ℕ
  pub payload : Notice
  pub is_read : String
  pub created_at : ℕ
