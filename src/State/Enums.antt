-- ===== src/State/Enums.antt =====
-- The enumerations of packages/shared/src/index.js and of apps/api/src/db/store.js, and the connector
-- handle `cp:no`.
use native.Mathlib.Decide.{ℕ_discrete}
use volt_hub_csms.Prelude.Decimal.{Decimal}
use volt_hub_csms.Prelude.{ℕ, ◌≡◌, Bool, true, false, ◌&&◌, ◌↔◌, Option, arith}
use volt_hub_csms.Prelude.{Comparable, nat_beq, discrete_beq, discrete_beq_iff}

pub data Role : Type 0 where
  driver operator admin : Role

pub data ConnectorStatus : Type 0 where
  available occupied reserved faulted offline unavailable : ConnectorStatus

pub data SessionState : Type 0 where
  reserved preparing charging suspended completed cancelled failed : SessionState

pub data ReservationStatus : Type 0 where
  booked converted cancelled expired : ReservationStatus

pub data BillingState : Type 0 where
  unbilled billed : BillingState

pub data ControlMode : Type 0 where
  off advisory enforced : ControlMode

pub data CertStatus : Type 0 where
  issued active eroded failed met : CertStatus

-- `['AVAILABLE', 'RESERVED'].includes(c.status)`
abbrev pub is_bookable : ConnectorStatus → Bool
is_bookable ConnectorStatus.available = true
is_bookable ConnectorStatus.reserved = true
is_bookable _ = false

abbrev pub is_reserved : ConnectorStatus → Bool
is_reserved ConnectorStatus.reserved = true
is_reserved _ = false

abbrev pub is_booked : ReservationStatus → Bool
is_booked ReservationStatus.booked = true
is_booked _ = false

-- `['BOOKED', 'CONVERTED'].includes(r.status)`
abbrev pub holds_window : ReservationStatus → Bool
holds_window ReservationStatus.booked = true
holds_window ReservationStatus.converted = true
holds_window _ = false

-- `['COMPLETED', 'FAILED', 'CANCELLED'].includes(to)`
abbrev pub is_terminal : SessionState → Bool
is_terminal completed = true
is_terminal failed = true
is_terminal SessionState.cancelled = true
is_terminal _ = false

-- `['PREPARING', 'CHARGING', 'SUSPENDED'].includes(sess.state)`
abbrev pub is_active : SessionState → Bool
is_active preparing = true
is_active charging = true
is_active suspended = true
is_active _ = false

-- The handle `${cp}:${no}` of a connector.
pub record ConnectorRef : Type 0 where
  pub cp_id : ℕ
  pub connector_no : ℕ

abbrev pub ref_beq : ConnectorRef → ConnectorRef → Bool
ref_beq a b = nat_beq a.cp_id b.cp_id && nat_beq a.connector_no b.connector_no

pub ref_beq_iff : (a b : ConnectorRef) → (ref_beq a b ≡ true) ↔ (a ≡ b)
ref_beq_iff a b = (λ h. ground arith, λ h. ground arith)

instance abbrev pub ref_eq : Comparable ConnectorRef
ref_eq = record { same = ref_beq; same_iff = ref_beq_iff }

-- The id `int_${seq}_${nonce}` of a top-up intent.
pub record IntentId : Type 0 where
  pub seq : ℕ
  pub nonce : ℕ

abbrev pub intent_same : IntentId → IntentId → Bool
intent_same a b = nat_beq a.seq b.seq && nat_beq a.nonce b.nonce

pub intent_same_iff : (a b : IntentId) → (intent_same a b ≡ true) ↔ (a ≡ b)
intent_same_iff a b = (λ h. ground arith, λ h. ground arith)

instance abbrev pub intent_eq : Comparable IntentId
intent_eq = record { same = intent_same; same_iff = intent_same_iff }

-- What a gateway or a booking did to a connector.
pub data Cause : Type 0 where
  reservation ocpp : Cause

-- The dedupe keys of the outbox; each constructor is one of the templates in the source.
pub data DedupeKey : Type 0 where
  -- `connstate:${key}:${reservation_id}`
  connector_booked : ConnectorRef → ℕ → DedupeKey
  -- `connstate:${key}:${reservationId ?? 'none'}:release`
  connector_synced : ConnectorRef → Option ℕ → DedupeKey
  -- `ocpp:${cpId}:${connectorId}:${Date.now()}`
  connector_reported : ConnectorRef → ℕ → DedupeKey
  -- `sess:${sid}:${to}:${Date.now()}`
  session_moved : ℕ → SessionState → ℕ → DedupeKey
  -- `tick:${sid}:${seq}`
  meter_tick : ℕ → ℕ → DedupeKey
  -- `ctlmode:${sid}:${Date.now()}`
  mode_set : ℕ → ℕ → DedupeKey
  -- `ctl:${decision_id}`
  decision_made : ℕ → DedupeKey
  -- `cert:${cert_id}:ISSUED`
  cert_issued : ℕ → DedupeKey
  -- `cert:${cert_id}:${to}:${Date.now()}`
  cert_moved : ℕ → CertStatus → ℕ → DedupeKey
  -- `push:${push_id}`
  profile_pushed : ℕ → DedupeKey
  -- `enf:${cp_id}:${ts}:${scheduled_kw}`
  enforcement : ℕ → ℕ → Decimal → DedupeKey
  -- `compliance:${site}:${Date.now()}`
  compliance : ℕ → ℕ → DedupeKey

unfoldable pub ref-discrete : Discrete ConnectorRef
ref-discrete = hlevel ℕ_discrete

unfoldable pub decimal-discrete : Discrete Decimal
decimal-discrete = hlevel ℕ_discrete

unfoldable pub key-discrete : Discrete DedupeKey
key-discrete = hlevel (ℕ_discrete, ref-discrete, decimal-discrete)

instance abbrev pub key_eq : Comparable DedupeKey
key_eq = record { same = discrete_beq key-discrete; same_iff = discrete_beq_iff key-discrete }
