-- ===== src/Ocpp/Meters.antt =====
-- What a charge point meters: MeterValues in apps/api/src/ocpp/gateway.js. A number that is no number is
-- `none`.
use volt_hub_csms.Prelude.{
  ℕ, suc, Bool, true, ◌&&◌, List, [], ◌∷◌, Option, none, some, ltb, ◌==◌, nat_eq, text_comparable,
  if◌then◌else◌,
}
use volt_hub_csms.Prelude.Int.{pos}
use volt_hub_csms.Prelude.Decimal.{Decimal}
use volt_hub_csms.Prelude.Dict.{Dict, lookup, insert}
use volt_hub_csms.Prelude.Outcome.{ok, err}
use volt_hub_csms.State.{Store, ref_eq, Reading, Session}
use volt_hub_csms.Outbox.{Limits}
use volt_hub_csms.Metering.{TickRequest, record_tick, max_reading}
use volt_hub_csms.Ocpp.Calls.{enforcement_sample}
use volt_hub_csms.Ocpp.Reports.{Reply, done, call_error}

-- The store and `seqByTx`.
pub record World : Type 0 where
  pub store : Store
  pub cursors : Dict ℕ ℕ

-- The largest sequence number of a session's readings.
unfoldable pub max_seq : ℕ → ℕ → List Reading → ℕ
max_seq from sid [] = from
max_seq from sid (r ∷ rs) =
    max_seq (if r.session_id == sid && ltb from r.seq_no then r.seq_no else from) sid rs

-- `if (!seqByTx.has(sid)) seqByTx.set(sid, maxSeq)`, and the cursor.
abbrev pub cursor_of : ℕ → World → ℕ
cursor_of sid w = elim (lookup sid w.cursors) [
  | some n ↦ n
  | none ↦ max_seq 0 sid w.store.charging.readings
]

-- What is metered: an energy register, with the power if it was sampled, or the power alone.
pub data Sample : Type 0 where
  -- `Number(e.value) / 1000`, and the power
  energy_sample : Option Decimal → Option Decimal → Sample
  power_sample : Option Decimal → Sample
  other_sample : Sample

abbrev pub start_meter : Option Session → Decimal
start_meter none = pos 0
start_meter (some x) = x.start_meter_kwh

abbrev pub is_owner : ℕ → Option Session → Bool
is_owner cp none = true
is_owner cp (some x) = x.connector_ref.cp_id == cp

module _ (l : Limits) (now : ℕ) where
  -- The enforcement sample of a tick that was not refused.
  abbrev pub sampled : ℕ → ℕ → Option Decimal → Store → Store
  sampled cp sid power s = (enforcement_sample l now cp (some sid) power now s).1

  -- The next number of a session is spent, the tick recorded, and the sample taken.
  unfoldable pub meter : ℕ → ℕ → Decimal → Option Decimal → World → Reply × World
  meter cp sid register power w =
      let next = suc (cursor_of sid w) in
      let q : TickRequest = record {
        sid = sid;
        seq = next;
        at = some now;
        kwh = some register;
        kw = power;
        v = none;
        a = none;
      } in
      let r = record_tick l now q w.store in
      let cursors = insert sid next w.cursors in
      elim r.0 [
        | ok _ ↦ (done, record { store = sampled cp sid power r.1; cursors = cursors })
        | err _ ↦ (call_error "InternalError", record { store = r.1; cursors = cursors })
      ]

  abbrev pub recovered : ℕ → World → World
  recovered sid w = record w { cursors = insert sid (cursor_of sid w) w.cursors }

  abbrev pub meter_sample : ℕ → ℕ → Sample → World → Reply × World
  meter_sample cp sid (energy_sample none power) w = (call_error "TypeMismatch", recovered sid w)
  meter_sample cp sid (energy_sample (some register) power) w = meter cp sid register power w
  meter_sample cp sid (power_sample power) w =
      meter cp sid
        (max_reading (start_meter (lookup sid w.store.charging.sessions)) sid
          w.store.charging.readings)
        power w
  meter_sample cp sid other_sample w = (done, recovered sid w)

  -- MeterValues; a transaction that is missing or 0 is `none`.
  unfoldable pub meter_values : ℕ → Option ℕ → Sample → World → Reply × World
  meter_values cp none sample w = (done, w)
  meter_values cp (some sid) sample w =
      if is_owner cp (lookup sid w.store.charging.sessions)
      then meter_sample cp sid sample w
      else (call_error "SecurityError", w)
