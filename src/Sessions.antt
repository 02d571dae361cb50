-- ===== src/Sessions.antt =====
-- Charging sessions of apps/api/src/db/store.js: `startSession`, `transition` and `stopSession`.
-- Each is one step here, and reads the clock once. A text that is missing or empty is `none`.
pub mod Starts
pub mod Ownership
pub mod Keeps
pub mod Moves
pub mod Sound
pub mod SoundKept
pub mod SoundMoves
pub mod SoundMeters
use volt_hub_csms.Prelude.{
  ℕ, suc, Bool, not, ◌&&◌, String, Option, none, some, ◌==◌, nat_eq, if◌then◌else◌,
}
use volt_hub_csms.Prelude.Lists.{find}
use volt_hub_csms.Prelude.Int.{pos, max_ℤ}
use volt_hub_csms.Prelude.Decimal.{Decimal}
use volt_hub_csms.Prelude.Dict.{values, lookup, insert}
use volt_hub_csms.Prelude.Outcome.{Outcome, ok, ◌>>=◌, ◌>>◌, throw_if, or_throw, commit}
use volt_hub_csms.State.{
  Store, Charging, Reservation, Session, Connector, ConnectorRef, ref_eq, ConnectorStatus,
  ReservationStatus, SessionState, preparing, charging, completed, BillingState, Cause, Failure,
  missing, e_not_bookable, e_reservation_mismatch, e_illegal_transition, is_bookable, is_reserved,
  is_terminal, is_active, session_moved, session_event, connector, moved,
}
use volt_hub_csms.Shared.{legal_transition}
use volt_hub_csms.Outbox.{Limits}
use volt_hub_csms.Store.{
  Result, emit, truthy, get_connector, set_status, audit_log, push_state_event,
}
use volt_hub_csms.Metering.{check_stop, close_meter}
use volt_hub_csms.Booking.{booked_on, sync_connector_hold}

pub record StartRequest : Type 0 where
  pub uid : ℕ
  pub vehicle_id : Option ℕ
  pub key : ConnectorRef
  pub plan_id : ℕ
  pub reservation_id : Option ℕ
  pub id_tag : Option String
  -- `Number(meterStartKwh)`, `none` if it is not finite
  pub meter_start_kwh : Option Decimal

-- `r.user_id === uid && r.connector_ref === key && r.status === 'BOOKED'`
abbrev pub owns_window : ℕ → ConnectorRef → Reservation → Bool
owns_window uid key r = booked_on key r && r.user_id == uid

-- The reservation that a start converts: the one that it names, or on a reserved connector the caller's
-- own.
unfoldable pub resolve_reservation :
    StartRequest → Connector → Charging → Outcome Failure (Option ℕ)
resolve_reservation q c ch = elim (truthy q.reservation_id) [
  | some rid ↦ do
    r ← or_throw (lookup rid ch.reservations) e_reservation_mismatch
    throw_if (not (owns_window q.uid q.key r)) e_reservation_mismatch
    ok (some rid)
  | none ↦
      let found = find (owns_window q.uid q.key) (values ch.reservations) in
      let mine : Outcome Failure (Option ℕ) =
        or_throw found e_reservation_mismatch >>= (λ r. ok (some r.reservation_id)) in
      if is_reserved c.status then mine else ok none
]

unfoldable pub check_start : StartRequest → Charging → Outcome Failure (Connector × Option ℕ)
check_start q ch = do
  c ← get_connector q.key ch
  throw_if (not (is_bookable c.status)) e_not_bookable
  rid ← resolve_reservation q c ch
  ok (c, rid)

-- `Number.isFinite(x) ? Math.max(0, x) : 0`
abbrev pub start_register : Option Decimal → Decimal
start_register none = pos 0
start_register (some x) = max_ℤ (pos 0) x

-- `r.status = 'CONVERTED'`, if there is one.
abbrev pub convert : Option ℕ → Charging → Charging
convert none ch = ch
convert (some rid) ch = elim (lookup rid ch.reservations) [
  | none ↦ ch
  | some r ↦ record ch {
    reservations = insert rid (record r { status = ReservationStatus.converted }) ch.reservations;
  }
]

abbrev pub or_else {ℓ} : {A : Type ℓ} → Option A → Option A → Option A
or_else none b = b
or_else (some a) b = some a

-- The status that a transition gives the connector.
abbrev pub moved_status : SessionState → ConnectorStatus → ConnectorStatus
moved_status charging st = ConnectorStatus.occupied
moved_status completed st = ConnectorStatus.available
moved_status SessionState.failed st = ConnectorStatus.available
moved_status SessionState.cancelled st = ConnectorStatus.available
moved_status _ st = st

module _ (now : ℕ) where
  abbrev pub new_session : StartRequest → Option ℕ → Charging → Session
  new_session q rid ch = record {
    session_id = suc ch.sess_seq;
    user_id = q.uid;
    vehicle_id = truthy q.vehicle_id;
    reservation_id = rid;
    connector_ref = q.key;
    tariff_plan_id = q.plan_id;
    id_tag = q.id_tag;
    state = preparing;
    billing_state = BillingState.unbilled;
    started_at = now;
    ended_at = none;
    start_meter_kwh = start_register q.meter_start_kwh;
    end_meter_kwh = none;
    energy_kwh = none;
    stop_reason = none;
  }

  -- The tables after a start: the session, the converted window, the occupied connector.
  unfoldable pub occupy : Session → Option ℕ → Connector → Charging → Charging
  occupy x rid c ch = set_status now x.connector_ref ConnectorStatus.occupied c (
      convert rid
        (record ch { sess_seq = x.session_id; sessions = insert x.session_id x ch.sessions }))

  -- The connector of a session that moves to a state, if there is one.
  unfoldable pub move_connector : ConnectorRef → SessionState → Charging → Charging
  move_connector key to ch = elim (lookup key ch.connectors) [
    | none ↦ ch
    | some c ↦ set_status now key (moved_status to c.status) c ch
  ]

  -- The session after `transitionLocal`.
  abbrev pub move_session : Session → SessionState → Option String → Session
  move_session x to reason = record x {
    state = to;
    stop_reason = or_else reason x.stop_reason;
    ended_at = if is_terminal to then some now else x.ended_at;
  }

  unfoldable pub noted_session : Session → SessionState → Option String → Charging → Charging
  noted_session x to reason ch = record ch {
    sessions = insert x.session_id (move_session x to reason) ch.sessions;
  }

  unfoldable pub move : Session → SessionState → Option String → Charging → Charging
  move x to reason ch = move_connector x.connector_ref to (noted_session x to reason ch)

abbrev pub stop_target : SessionState → SessionState
stop_target preparing = SessionState.cancelled
stop_target _ = completed

unfoldable pub check_transition : ℕ → SessionState → Charging → Outcome Failure Session
check_transition sid to ch = do
  x ← or_throw (lookup sid ch.sessions) missing
  throw_if (not (legal_transition x.state to)) e_illegal_transition
  ok x

module _ (l : Limits) (now : ℕ) where
  -- `s.startSession`
  unfoldable pub start_session : StartRequest → Store → Result Session
  start_session q s =
      commit (check_start q s.charging)
        (λ w.
          let x = new_session now q w.1 s.charging in
          let id = x.session_id in
          let t =
            push_state_event now q.key w.0.status ConnectorStatus.occupied Cause.ocpp (some id)
              s.trail in
          (
            ok x,
            record (emit l now (session_moved id preparing now)
                (session_event id SessionState.reserved preparing) s) {
                  charging = occupy now x w.1 w.0 s.charging;
                  trail =
                      audit_log now (some q.uid) "CHARGING_SESSION" id "START" none
                        (some (connector q.key)) t;
                },
          ))
        s

  -- `transitionLocal`, the store's `transition`. The source sets the status of the connector under the lock of
  -- the session and then waits for that of the connector before it looks at the booked windows; a start that
  -- was queued on that lock can run in between. Here both are one step.
  unfoldable pub transition : ℕ → SessionState → Option String → Store → Result Session
  transition sid to reason s =
      commit (check_transition sid to s.charging)
        (λ x.
          let changed : Store = record s { charging = move now x to reason s.charging } in
          let synced =
            if is_terminal to
            then sync_connector_hold l now x.connector_ref none changed
            else changed in
          (
            ok (move_session now x to reason),
            record (emit l now (session_moved sid to now) (session_event sid x.state to) synced) {
              trail =
                  audit_log now none "CHARGING_SESSION" sid "TRANSITION" (some (moved x.state))
                    (some (moved to)) synced.trail;
            },
          ))
        s

  -- `s.stopSession`. The source writes the end of the meter under no lock, and then queues the transition on the lock of
  -- the session; another call on the session can run in between. Here both are one step.
  unfoldable pub stop_session : ℕ → Option String → Option Decimal → Store → Result Session
  stop_session sid reason end_meter s =
      commit (check_stop sid end_meter s.charging)
        (λ w.
          let closed : Store = record s { charging = close_meter sid w.0 w.1 s.charging } in
          let stopped =
            transition sid (stop_target w.0.state) (or_else reason (some "REMOTE_STOP")) closed in
          if is_active w.0.state
          then stopped
          else (ok (record w.0 { end_meter_kwh = some w.1 }), closed))
        s
