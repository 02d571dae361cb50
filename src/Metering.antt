-- ===== src/Metering.antt =====
-- Meter readings of apps/api/src/db/store.js: `recordTick`, and the meter part of `stopSession`. The
-- indexes `_seqSeen` and `_maxMeter` are filled as the code fills them.
pub mod Replay
pub mod Index
use volt_hub_csms.Prelude.{
  ℕ, not, List, [], ◌∷◌, map, Option, none, some, leb, ◌==◌, nat_eq, if◌then◌else◌,
}
use volt_hub_csms.Prelude.Lists.{push, filter, any}
use volt_hub_csms.Prelude.Int.{pos, negsuc, ◌+ℤ◌, ◌-ℤ◌, ltb_ℤ, max_ℤ}
use volt_hub_csms.Prelude.Decimal.{Decimal, thousandths}
use volt_hub_csms.Prelude.Dict.{lookup, insert}
use volt_hub_csms.Prelude.Outcome.{Outcome, ok, err, ◌>>=◌, ◌>>◌, throw_if, or_throw, commit}
use volt_hub_csms.State.{
  Store, Charging, Session, Reading, SessionState, preparing, charging, Failure, missing,
  e_meter_regression, e_tick_rejected, is_active, meter_tick, tick_payload,
}
use volt_hub_csms.Outbox.{Limits}
use volt_hub_csms.Store.{Result, emit}

-- `seen` of `recordTick`: the sequence numbers that a session has had.
abbrev pub seen_of : ℕ → Charging → List ℕ
seen_of sid ch = elim (lookup sid ch.seq_seen) [
  | some seen ↦ seen
  | none ↦ map (λ r. r.seq_no) (filter (λ r. r.session_id == sid) ch.readings)
]

-- `.reduce((m, r) => Math.max(m, r.meter_kwh), from)` over the readings of a session.
abbrev pub max_reading : Decimal → ℕ → List Reading → Decimal
max_reading from sid [] = from
max_reading from sid (r ∷ rs) =
    max_reading (if r.session_id == sid then max_ℤ from r.meter_kwh else from) sid rs

-- `last` of `recordTick`: the highest register of a session, -1 if there is none.
abbrev pub last_of : ℕ → Charging → Decimal
last_of sid ch = elim (lookup sid ch.max_meter) [
  | some m ↦ m
  | none ↦ max_reading (negsuc 999999) sid ch.readings
]

-- `peak` of `stopSession`.
abbrev pub peak_of : ℕ → Charging → Decimal
peak_of sid ch = elim (lookup sid ch.max_meter) [
  | some m ↦ max_ℤ m (pos 0)
  | none ↦ max_reading (pos 0) sid ch.readings
]

pub data TickResult : Type 0 where
  recorded deduped : TickResult

-- A tick as the gateway hands it over. A number that is not finite is `none`.
pub record TickRequest : Type 0 where
  pub sid : ℕ
  pub seq : ℕ
  pub at : Option ℕ
  pub kwh : Option Decimal
  pub kw : Option Decimal
  pub v : Option Decimal
  pub a : Option Decimal

abbrev pub or_now : Option ℕ → ℕ → ℕ
or_now none now = now
or_now (some at) now = at

-- `sess.state === 'PREPARING' && seq >= 1`
abbrev pub after_tick : SessionState → ℕ → SessionState
after_tick preparing seq = if leb 1 seq then charging else preparing
after_tick s seq = s

module _ (now : ℕ) where
  -- What a tick that is taken writes.
  unfoldable pub add_reading : TickRequest → Decimal → Session → Charging → Charging
  add_reading q register x ch =
      let seen = seen_of q.sid ch in
      let last = last_of q.sid ch in
      record ch {
        readings =
            push
              (record {
                session_id = q.sid;
                seq_no = q.seq;
                taken_at = or_now q.at now;
                meter_kwh = register;
                power_kw = q.kw;
                voltage_v = q.v;
                current_a = q.a;
              })
              ch.readings;
        seq_seen = insert q.sid (push q.seq seen) ch.seq_seen;
        max_meter = insert q.sid (if ltb_ℤ last register then register else last) ch.max_meter;
        sessions = insert x.session_id (record x { state = after_tick x.state q.seq }) ch.sessions;
        ticks =
            push
              (record {
                ts = or_now q.at now;
                session_id = q.sid;
                connector_ref = x.connector_ref;
                meter_kwh = register;
                power_kw = q.kw;
                voltage_v = q.v;
                current_a = q.a;
              })
              ch.ticks;
      }

-- The session and the register of a tick that is not refused at once.
unfoldable pub check_tick : TickRequest → Charging → Outcome Failure (Session × Decimal)
check_tick q ch = do
  x ← or_throw (lookup q.sid ch.sessions) missing
  throw_if (not (is_active x.state)) e_tick_rejected
  register ← or_throw q.kwh e_tick_rejected
  ok (x, register)

-- `s._seqSeen.set(sid, seen)` and `s._maxMeter.set(sid, last)`: the indexes are filled on the way.
abbrev pub cache_seen : ℕ → Charging → Charging
cache_seen sid ch = record ch { seq_seen = insert sid (seen_of sid ch) ch.seq_seen }

abbrev pub cache_last : ℕ → Charging → Charging
cache_last sid ch = record ch { max_meter = insert sid (last_of sid ch) ch.max_meter }

-- The register at the end of a session: the explicit one if it is finite and not negative.
abbrev pub end_register : Option Decimal → Decimal → Decimal
end_register none peak = peak
end_register (some x) peak = if ltb_ℤ x (pos 0) then peak else x

unfoldable pub check_stop : ℕ → Option Decimal → Charging → Outcome Failure (Session × Decimal)
check_stop sid end_meter ch = do
  x ← or_throw (lookup sid ch.sessions) missing
  throw_if (ltb_ℤ (end_register end_meter (peak_of sid ch) +ℤ thousandths 1) x.start_meter_kwh)
      e_meter_regression
  ok (x, end_register end_meter (peak_of sid ch))

-- `sess.end_meter_kwh = end`, and the index raised to it.
unfoldable pub close_meter : ℕ → Session → Decimal → Charging → Charging
close_meter sid x end ch = record ch {
  sessions = insert x.session_id (record x { end_meter_kwh = some end }) ch.sessions;
  max_meter = elim (lookup sid ch.max_meter) [
    | none ↦ insert sid end ch.max_meter
    | some m ↦ if ltb_ℤ m end then insert sid end ch.max_meter else ch.max_meter
  ];
}

module _ (l : Limits) (now : ℕ) where
  -- `s.recordTick`
  unfoldable pub record_tick : TickRequest → Store → Result TickResult
  record_tick q s =
      commit (check_tick q s.charging)
        (λ w.
          let x = w.0 in
          let seen : Store = record s { charging = cache_seen q.sid s.charging } in
          let lasted : Store = record s { charging = cache_last q.sid seen.charging } in
          let taken : Store =
            record (emit l now (meter_tick q.sid q.seq)
              (tick_payload q.sid q.seq x.connector_ref w.1 q.kw (or_now q.at now)) s) {
                charging = add_reading now q w.1 x s.charging;
              } in
          if any (λ n. n == q.seq) (seen_of q.sid s.charging)
          then (ok deduped, seen)
          else if ltb_ℤ w.1 (last_of q.sid s.charging -ℤ thousandths 1)
          then (err e_meter_regression, lasted)
          else (ok recorded, taken))
        s
