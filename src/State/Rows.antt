-- ===== src/State/Rows.antt =====
-- The rows of the store's tables. Times are milliseconds; a missing or null field is `none`. A
-- reservation's and a session's `cp_id` and `connector_no` are the fields of its connector handle.
use volt_hub_csms.Prelude.{ℕ, Bool, String, Option}
use volt_hub_csms.Prelude.Decimal.{Decimal}
use volt_hub_csms.State.Enums.{
  Role, ConnectorRef, ConnectorStatus, SessionState, ReservationStatus, BillingState, Cause,
  IntentId,
}

pub data UserStatus : Type 0 where
  active suspended : UserStatus

-- A user; the password is its hash.
pub record User : Type 0 where
  pub user_id : ℕ
  pub email : String
  pub password_hash : String
  pub full_name : String
  pub phone : Option String
  pub role : Role
  pub status : UserStatus
  pub created_at : ℕ

pub record Vehicle : Type 0 where
  pub vehicle_id : ℕ
  pub user_id : ℕ
  pub nickname : Option String
  pub make : String
  pub model : String
  pub battery_kwh : Decimal
  pub is_default : Bool
  pub created_at : ℕ

pub record Standard : Type 0 where
  pub standard_id : ℕ
  pub code : String

pub record Connector : Type 0 where
  pub standard_id : ℕ
  pub max_power_kw : Decimal
  pub status : ConnectorStatus
  pub last_state_change_at : ℕ

pub record ChargePoint : Type 0 where
  pub cp_id : ℕ
  pub station_id : ℕ
  pub ocpp_identity : String
  pub auth_secret : String
  pub vendor : String
  pub model : String
  -- `status` is ONLINE or OFFLINE
  pub is_online : Bool
  pub last_boot_at : Option ℕ
  pub last_seen_at : Option ℕ

-- A fault that a charge point reported; its severity is constant.
pub record Fault : Type 0 where
  pub fault_id : ℕ
  pub connector_ref : ConnectorRef
  pub error_code : String
  -- whether `source` is OCPP
  pub from_charger : Bool
  pub description : Option String
  pub reported_at : ℕ
  pub cleared_at : Option ℕ

pub record Reservation : Type 0 where
  pub reservation_id : ℕ
  pub connector_ref : ConnectorRef
  pub user_id : ℕ
  pub vehicle_id : Option ℕ
  pub start_at : ℕ
  pub end_at : ℕ
  pub status : ReservationStatus
  pub created_at : ℕ

pub record Session : Type 0 where
  pub session_id : ℕ
  pub user_id : ℕ
  pub vehicle_id : Option ℕ
  pub reservation_id : Option ℕ
  pub connector_ref : ConnectorRef
  pub tariff_plan_id : ℕ
  pub id_tag : Option String
  pub state : SessionState
  pub billing_state : BillingState
  pub started_at : ℕ
  pub ended_at : Option ℕ
  pub start_meter_kwh : Decimal
  pub end_meter_kwh : Option Decimal
  pub energy_kwh : Option Decimal
  pub stop_reason : Option String

pub record Reading : Type 0 where
  pub session_id : ℕ
  pub seq_no : ℕ
  pub taken_at : ℕ
  pub meter_kwh : Decimal
  pub power_kw : Option Decimal
  pub voltage_v : Option Decimal
  pub current_a : Option Decimal

pub record Tick : Type 0 where
  pub ts : ℕ
  pub session_id : ℕ
  pub connector_ref : ConnectorRef
  pub meter_kwh : Decimal
  pub power_kw : Option Decimal
  pub voltage_v : Option Decimal
  pub current_a : Option Decimal

pub record StateEvent : Type 0 where
  pub ts : ℕ
  pub connector_ref : ConnectorRef
  pub from_state : ConnectorStatus
  pub to_state : ConnectorStatus
  pub cause : Cause
  pub session_id : Option ℕ

pub record Wallet : Type 0 where
  pub user_id : ℕ
  pub balance : Decimal
  pub updated_at : Option ℕ

pub data LedgerKind : Type 0 where
  topup payment : LedgerKind

-- The note of a ledger row: a text, `Invoice ${invId}`, or the wallet rail's.
pub data Note : Type 0 where
  remark : String → Note
  for_invoice : ℕ → Note
  -- `wallet top-up ${intent_id} · ${signer}`
  wallet_topup : IntentId → ℕ → Note

pub record LedgerRow : Type 0 where
  pub user_id : ℕ
  pub seq_no : ℕ
  pub kind : LedgerKind
  pub amount : Decimal
  pub balance_after : Decimal
  pub payment_id : Option ℕ
  pub note : Note
  pub created_at : ℕ

pub data InvoiceStatus : Type 0 where
  due paid : InvoiceStatus

pub record Invoice : Type 0 where
  pub invoice_id : ℕ
  pub session_id : ℕ
  pub tariff_plan_id : ℕ
  pub status : InvoiceStatus
  pub total : Decimal
  pub issued_at : ℕ

pub data LineKind : Type 0 where
  energy session_fee : LineKind

pub record InvoiceLine : Type 0 where
  pub invoice_id : ℕ
  pub line_no : ℕ
  pub kind : LineKind
  pub quantity : Decimal
  pub unit_price : Decimal
  pub amount : Decimal

pub data PaymentStatus : Type 0 where
  success failed : PaymentStatus

pub record Payment : Type 0 where
  pub payment_id : ℕ
  pub invoice_id : ℕ
  pub amount : Decimal
  pub status : PaymentStatus
  -- the time in the reference `WLT-${Date.now()}`
  pub reference : Option ℕ
  pub created_at : ℕ

pub data DayScope : Type 0 where
  all_days weekday weekend : DayScope

-- Times of day are minutes, as `toMin` reads them.
pub record Band : Type 0 where
  pub band_id : ℕ
  pub plan_id : ℕ
  pub day_scope : DayScope
  pub start_time : ℕ
  pub end_time : ℕ
  pub price_per_kwh : Decimal

pub record Plan : Type 0 where
  pub plan_id : ℕ
  pub group_id : ℕ
  pub version_no : ℕ
  pub name : Option String
  pub session_fee : Decimal
  pub active_from : ℕ
  pub active_to : Option ℕ
  pub supersedes_plan_id : Option ℕ
  pub created_by : Option ℕ
