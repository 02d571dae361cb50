-- ===== src/Booking.antt =====
-- Reservations of apps/api/src/db/store.js: `createReservation`, `cancelReservation`, `expireStale`
-- and `syncConnectorHold`. Each is one step here, and reads the clock once.
pub mod Holds
pub mod HoldsKept
pub mod Windows
use volt_hub_csms.Prelude.{
  ℕ, suc, ◌+◌, ◌-◌, ◌*◌, Bool, true, false, not, ◌&&◌, ◌||◌, List, [], ◌∷◌, map, Option, none, some,
  ltb, ◌==◌, nat_eq, if◌then◌else◌,
}
use volt_hub_csms.Prelude.Lists.{any}
use volt_hub_csms.Prelude.Dict.{Dict, values, lookup, insert}
use volt_hub_csms.Prelude.Outcome.{Outcome, ok, err, ◌>>=◌, ◌>>◌, throw_if, or_throw, commit}
use volt_hub_csms.State.{
  Store, Charging, Reservation, Connector, ConnectorRef, ref_eq, ConnectorStatus, ReservationStatus,
  booked, Role, driver, operator, admin, Cause, Failure, missing, failure, forbidden, out_of_scope,
  e_invalid_window, e_not_bookable, e_overlap, e_cancel_conflict, is_bookable, is_reserved,
  is_booked, holds_window, DedupeKey, connector_booked, connector_synced, Payload, connector_state,
  AuditValue, text, connector, reservation_confirmed,
}
use volt_hub_csms.Outbox.{Limits}
use volt_hub_csms.Store.{
  Result, emit, truthy, get_connector, set_status, audit_log, notify, push_state_event,
}

abbrev pub minutes : ℕ → ℕ
minutes n = n * 60000

-- A window of 15 to 120 minutes that does not begin more than a minute ago. An unreadable date is
-- `none`.
unfoldable pub check_window : ℕ → Option ℕ → Option ℕ → Outcome Failure (ℕ × ℕ)
check_window now none end_at = err e_invalid_window
check_window now (some start) none = err e_invalid_window
check_window now (some start) (some end) =
    if not (ltb start end)
      || ltb (end - start) (minutes 15)
      || ltb (minutes 120) (end - start)
      || ltb (start + minutes 1) now
    then err e_invalid_window
    else ok (start, end)

-- `r` is on the connector, holds its window, and meets the window from `start` to `end`.
abbrev pub overlaps : ConnectorRef → ℕ → ℕ → Reservation → Bool
overlaps key start end r =
    r.connector_ref == key && holds_window r.status && ltb r.start_at end && ltb start r.end_at

-- `r.connector_ref === key && r.status === 'BOOKED'`
abbrev pub booked_on : ConnectorRef → Reservation → Bool
booked_on key r = r.connector_ref == key && is_booked r.status

abbrev pub has_booking : ConnectorRef → Charging → Bool
has_booking key ch = any (booked_on key) (values ch.reservations)

-- The status that `syncConnectorHold` derives.
abbrev pub hold_status : ConnectorRef → Charging → ConnectorStatus
hold_status key ch =
    if has_booking key ch then ConnectorStatus.reserved else ConnectorStatus.available

-- `c.status === to`, for the two statuses that a hold may have.
abbrev pub same_hold : ConnectorStatus → ConnectorStatus → Bool
same_hold ConnectorStatus.available ConnectorStatus.available = true
same_hold ConnectorStatus.reserved ConnectorStatus.reserved = true
same_hold _ _ = false

-- `r.status = to`
abbrev pub set_reservation : Reservation → ReservationStatus → Charging → Charging
set_reservation r to ch = record ch {
  reservations = insert r.reservation_id (record r { status = to }) ch.reservations;
}

-- The station of a connector's charge point, and whether an operator's scope leaves it out.
abbrev pub is_out_of_scope : Option (List ℕ) → ConnectorRef → Charging → Bool
is_out_of_scope none key ch = false
is_out_of_scope (some stations) key ch = elim (lookup key.cp_id ch.cps) [
  | none ↦ false
  | some cp ↦ not (cp.station_id == 0) && not (any (λ n. n == cp.station_id) stations)
]

abbrev pub is_driver : Role → Bool
is_driver driver = true
is_driver _ = false

abbrev pub is_operator : Role → Bool
is_operator operator = true
is_operator _ = false

module _ (now : ℕ) where
  -- The checks of `createReservation`, in its order.
  unfoldable pub check_reservation :
      ConnectorRef → Option ℕ → Option ℕ → Charging → Outcome Failure (ℕ × ℕ × Connector)
  check_reservation key start_at end_at ch = do
    window ← check_window now start_at end_at
    c ← get_connector key ch
    throw_if (not (is_bookable c.status)) e_not_bookable
    throw_if (any (overlaps key window.0 window.1) (values ch.reservations)) e_overlap
    ok (window.0, window.1, c)

  abbrev pub new_reservation : ℕ → Option ℕ → ConnectorRef → ℕ → ℕ → Charging → Reservation
  new_reservation uid vehicle_id key start end ch = record {
    reservation_id = suc ch.res_seq;
    connector_ref = key;
    user_id = uid;
    vehicle_id = truthy vehicle_id;
    start_at = start;
    end_at = end;
    status = booked;
    created_at = now;
  }

  -- The reservation tables after a booking: the row, and the connector's hold.
  unfoldable pub book : Reservation → Connector → Charging → Charging
  book r c ch = set_status now r.connector_ref ConnectorStatus.reserved c (record ch {
    res_seq = r.reservation_id;
    reservations = insert r.reservation_id r ch.reservations;
  })

  -- `r.status !== 'BOOKED' || !(r.start_at < cutoff)` is the negation.
  abbrev pub is_stale : Reservation → Bool
  is_stale r = is_booked r.status && ltb (r.start_at + minutes 15) now

unfoldable pub check_cancel :
    ℕ → ℕ → Role → Option (List ℕ) → Charging → Outcome Failure Reservation
check_cancel rid actor role scope ch = do
  r ← or_throw (lookup rid ch.reservations) missing
  throw_if (is_driver role && not (r.user_id == actor)) (failure forbidden 403)
  throw_if (is_operator role && is_out_of_scope scope r.connector_ref ch) (failure out_of_scope 403)
  throw_if (not (is_booked r.status)) e_cancel_conflict
  ok r

module _ (l : Limits) (now : ℕ) where
  -- `syncConnectorHold(key, 'release', reservationId)`; no caller uses its result.
  unfoldable pub sync_connector_hold : ConnectorRef → Option ℕ → Store → Store
  sync_connector_hold key rid s = elim (lookup key s.charging.connectors) [
    | none ↦ s
    | some c ↦
        let to = hold_status key s.charging in
        let changed : Store =
          record (emit l now (connector_synced key rid)
            (connector_state key c.status to Cause.reservation (truthy rid)) s) {
              charging = set_status now key to c s.charging;
              trail = push_state_event now key c.status to Cause.reservation none s.trail;
            } in
        if not (is_bookable c.status) then s else if same_hold c.status to then s else changed
  ]

  -- `s.createReservation`
  unfoldable pub create_reservation :
      ℕ → Option ℕ → ConnectorRef → Option ℕ → Option ℕ → Store → Result Reservation
  create_reservation uid vehicle_id key start_at end_at s =
      commit (check_reservation now key start_at end_at s.charging)
        (λ w.
          let r = new_reservation now uid vehicle_id key w.0 w.1 s.charging in
          let id = r.reservation_id in
          let t =
            push_state_event now key w.2.status ConnectorStatus.reserved Cause.reservation none
              s.trail in
          let t =
            audit_log now (some uid) "RESERVATION" id "CREATE" none (some (connector key)) t in
          let t = notify now uid (reservation_confirmed id key) t in
          (
            ok r,
            record (emit l now (connector_booked key id)
                (connector_state key w.2.status ConnectorStatus.reserved Cause.reservation
                  (some id))
                s) { charging = book now r w.2 s.charging; trail = t },
          ))
        s

  -- `s.cancelReservation`. The source cancels the window under the lock of the reservation and then waits for that of
  -- the connector before it looks at the other windows. Here both are one step.
  unfoldable pub cancel_reservation : ℕ → ℕ → Role → Option (List ℕ) → Store → Result Reservation
  cancel_reservation rid actor role scope s =
      commit (check_cancel rid actor role scope s.charging)
        (λ r.
          let marked : Store = record s {
            charging = set_reservation r ReservationStatus.cancelled s.charging;
          } in
          let released = sync_connector_hold r.connector_ref (some rid) marked in
          (
            ok (record r { status = ReservationStatus.cancelled }),
            record released {
              trail =
                  audit_log now (some actor) "RESERVATION" rid "CANCEL" (some (text "BOOKED"))
                    (some (text "CANCELLED")) released.trail;
            },
          ))
        s

  -- One round of the loop of `expireStale`, on the live row.
  unfoldable pub expire_one : ℕ → Store × ℕ → Store × ℕ
  expire_one id (s, n) = elim (lookup id s.charging.reservations) [
    | none ↦ (s, n)
    | some r ↦
        let marked : Store = record s {
          charging = set_reservation r ReservationStatus.expired s.charging;
        } in
        if is_stale now r
        then (sync_connector_hold r.connector_ref (some r.reservation_id) marked, n + 1)
        else (s, n)
  ]

  unfoldable pub expire_all : List ℕ → Store × ℕ → Store × ℕ
  expire_all [] acc = acc
  expire_all (id ∷ ids) acc = expire_all ids (expire_one id acc)

  -- `s.expireStale`, with the number expired. The source takes the lock of each connector in turn, and other calls can run
  -- between two windows. Here the sweep is one step.
  unfoldable pub expire_stale : Store → Store × ℕ
  expire_stale s = expire_all (map (λ r. r.reservation_id) (values s.charging.reservations)) (s, 0)
