-- ===== src/State/Tables.antt =====
-- The state `s` of `createStore` in apps/api/src/db/store.js, grouped by part. A sequence `s.seq.x` stands
-- with the table that it numbers.
use volt_hub_csms.Prelude.{ℕ, String, List, []}
use volt_hub_csms.Prelude.Dict.{Dict}
use volt_hub_csms.Prelude.Decimal.{Decimal}
use volt_hub_csms.State.Enums.{ConnectorRef, DedupeKey}
use volt_hub_csms.State.Rows.{
  User, Vehicle, Standard, Connector, ChargePoint, Fault, Reservation, Session, Reading, Tick,
  StateEvent, Wallet, LedgerRow, Invoice, InvoiceLine, Payment, Band, Plan,
}
use volt_hub_csms.State.ControlRows.{Grid, Control}
use volt_hub_csms.State.RailRows.{Rail}
use volt_hub_csms.State.Events.{Event, AuditRow, Notification}

-- `s.outbox`, `s._outboxKeys`, `s._outboxStats`, `s._outboxNextPruneAt`, `s.seq.outbox`
pub record Outbox : Type 0 where
  pub events : List Event
  pub keys : List DedupeKey
  pub emitted : ℕ
  pub pruned : ℕ
  pub quarantined : ℕ
  pub next_prune_at : ℕ
  pub seq : ℕ

-- `s.audit`, `s.notifs`, `s.stateEvents`
pub record Trail : Type 0 where
  pub audit : List AuditRow
  pub notifs : List Notification
  pub state_events : List StateEvent
  pub audit_seq : ℕ
  pub notif_seq : ℕ

-- Connectors, reservations, sessions and their meter readings. `seq_seen` and `max_meter` are the
-- indexes `s._seqSeen` and `s._maxMeter`.
pub record Charging : Type 0 where
  pub cps : Dict ℕ ChargePoint
  pub cps_by_ocpp : Dict String ℕ
  pub connectors : Dict ConnectorRef Connector
  pub reservations : Dict ℕ Reservation
  pub sessions : Dict ℕ Session
  pub readings : List Reading
  pub ticks : List Tick
  pub seq_seen : Dict ℕ (List ℕ)
  pub max_meter : Dict ℕ Decimal
  pub res_seq : ℕ
  pub sess_seq : ℕ
  pub cp_seq : ℕ
  pub faults : Dict ℕ Fault
  pub fault_seq : ℕ

-- Tariffs, wallets, the ledger, invoices and payments.
pub record Money : Type 0 where
  pub plans : Dict ℕ Plan
  pub bands : List Band
  pub wallets : Dict ℕ Wallet
  pub ledgers : List LedgerRow
  pub invoices : Dict ℕ Invoice
  pub lines : List InvoiceLine
  pub payments : Dict ℕ Payment
  pub plan_seq : ℕ
  pub band_seq : ℕ
  pub inv_seq : ℕ
  pub pay_seq : ℕ

-- `s.users`, `s.vehicles`, `s.standards`, `s.vehicleStd`
pub record Directory : Type 0 where
  pub users : Dict ℕ User
  pub vehicles : Dict ℕ Vehicle
  pub standards : List Standard
  -- vehicle, standard
  pub vehicle_std : List (ℕ × ℕ)
  pub user_seq : ℕ
  pub vehicle_seq : ℕ

pub record Store : Type 0 where
  pub directory : Directory
  pub outbox : Outbox
  pub trail : Trail
  pub charging : Charging
  pub money : Money
  pub rail : Rail
  pub grid : Grid
  pub control : Control

abbrev pub empty_outbox : Outbox
empty_outbox = record {
  events = [];
  keys = [];
  emitted = 0;
  pruned = 0;
  quarantined = 0;
  next_prune_at = 0;
  seq = 0;
}

abbrev pub empty_trail : Trail
empty_trail = record { audit = []; notifs = []; state_events = []; audit_seq = 0; notif_seq = 0 }

abbrev pub empty_charging : Charging
empty_charging = record {
  cps = [];
  cps_by_ocpp = [];
  connectors = [];
  reservations = [];
  sessions = [];
  readings = [];
  ticks = [];
  seq_seen = [];
  max_meter = [];
  res_seq = 0;
  sess_seq = 0;
  cp_seq = 0;
  faults = [];
  fault_seq = 0;
}

abbrev pub empty_money : Money
empty_money = record {
  plans = [];
  bands = [];
  wallets = [];
  ledgers = [];
  invoices = [];
  lines = [];
  payments = [];
  plan_seq = 0;
  band_seq = 0;
  inv_seq = 0;
  pay_seq = 0;
}

-- What `createStore()` returns.
abbrev pub create_store : Store
create_store = record {
  directory = record {
    users = [];
    vehicles = [];
    standards = [];
    vehicle_std = [];
    user_seq = 0;
    vehicle_seq = 0;
  };
  outbox = empty_outbox;
  trail = empty_trail;
  charging = empty_charging;
  money = empty_money;
  rail = record { links = []; challenges = []; intents = []; link_seq = 0; intent_seq = 0 };
  grid = record { stations = []; assets = []; modes = []; asset_seq = 0; station_seq = 0 };
  control = record {
    decisions = [];
    certificates = [];
    pushes = [];
    letters = [];
    enforcement_ticks = [];
    decision_seq = 0;
    cert_seq = 0;
    push_seq = 0;
    letter_seq = 0;
  };
}
