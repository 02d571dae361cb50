-- ===== src/Booking/Holds.antt =====
-- About the statuses RESERVED and AVAILABLE of a connector and its booked windows (F-05 in
-- apps/api/src/db/store.js), for a release and for a booking.
use volt_hub_csms.Prelude.{
  ℕ, suc, ◌<◌, ◌≡◌, ◌≢◌, refl, sym, subst, ◌∙◌, Bool, true, false, not, Option, none, some, arith,
  ◌==◌, nat_eq, Bool-cases, Option-cases, inl, inr, if◌then◌else◌,
}
use volt_hub_csms.Prelude.Dict.{
  lookup, lookup-insert, lookup-insert_ne, lookup-insert_self, any-values-insert_same,
  any-values-insert_new, any-values-insert_pass,
}
use volt_hub_csms.Prelude.Table.{IsTable, insert-IsTable}
use volt_hub_csms.State.{
  Store, Charging, Reservation, Connector, ConnectorRef, ref_eq, ConnectorStatus, ReservationStatus,
  is_booked, is_bookable,
}
use volt_hub_csms.Outbox.{Limits}
use volt_hub_csms.Store.{set_status}
use volt_hub_csms.Booking.{
  booked_on, has_booking, hold_status, same_hold, sync_connector_hold, book, set_reservation,
}

-- What a status says of the bookings on its connector.
abbrev pub Agrees : ConnectorStatus → Bool → Type 0
Agrees ConnectorStatus.available b = b ≡ false
Agrees ConnectorStatus.reserved b = b ≡ true
Agrees _ b = Unit

abbrev pub IsHeldBut : ConnectorRef → Charging → Type 0
IsHeldBut key ch =
    (k : ConnectorRef) (c : Connector)
    → key ≢ k
    → lookup k ch.connectors ≡ some c
    → Agrees c.status (has_booking k ch)

-- Reservations stand under their ids, none above the sequence is taken, and every connector's status
-- agrees with the bookings on it.
pub record IsHeld (ch : Charging) : Type 0 where
  pub table : IsTable (λ (r : Reservation). r.reservation_id) ch.reservations
  pub fresh : (k : ℕ) → ch.res_seq < k → lookup k ch.reservations ≡ none
  pub agrees :
      (k : ConnectorRef) (c : Connector)
      → lookup k ch.connectors ≡ some c
      → Agrees c.status (has_booking k ch)

-- What `sync_connector_hold` does to the tables.
unfoldable pub synced : ℕ → ConnectorRef → Charging → Charging
synced now key ch = elim (lookup key ch.connectors) [
  | none ↦ ch
  | some c ↦
      let to = hold_status key ch in
      if not (is_bookable c.status)
      then ch
      else if same_hold c.status to
      then ch
      else set_status now key to c ch
]

pub sync_connector_hold-charging :
    (l : Limits) (now : ℕ) (key : ConnectorRef) (rid : Option ℕ) (s : Store)
    → (sync_connector_hold l now key rid s).charging ≡ synced now key s.charging
unfolding sync_connector_hold synced
sync_connector_hold-charging l now key rid s = ground arith

pub synced-reservations :
    (now : ℕ) (key : ConnectorRef) (ch : Charging)
    → (synced now key ch).reservations ≡ ch.reservations
unfolding synced
synced-reservations now key ch = ground arith

pub synced-res_seq :
    (now : ℕ) (key : ConnectorRef) (ch : Charging) → (synced now key ch).res_seq ≡ ch.res_seq
unfolding synced
synced-res_seq now key ch = ground arith

-- The connector itself after the sync, and the others.
synced_here :
    (now : ℕ) (key : ConnectorRef) (ch : Charging) (c : Connector)
    → lookup key (synced now key ch).connectors ≡ some c
    → Agrees c.status (has_booking key ch)
unfolding synced
synced_here now key ch c e = elim (Option-cases (lookup key ch.connectors)) [
  | inl gone ↦ absurd (ground (arith, e, gone))
  | inr (d, there) ↦ ground (
    arith,
    e,
    there,
    lookup-insert_self key (record d { status = hold_status key ch; last_state_change_at = now })
        ch.connectors,
  )
]

synced_elsewhere :
    (now : ℕ) (key k : ConnectorRef) (ch : Charging)
    → key ≢ k
    → lookup k (synced now key ch).connectors ≡ lookup k ch.connectors
unfolding synced
synced_elsewhere now key k ch ne = elim (Option-cases (lookup key ch.connectors)) [
  | inl gone ↦ rw (gone, synced)
  | inr (d, there) ↦ ground (
    arith,
    there,
    lookup-insert_ne key k (record d { status = hold_status key ch; last_state_change_at = now })
        ch.connectors ne,
  )
]

pub synced-Agrees :
    (now : ℕ) (key : ConnectorRef) (ch : Charging)
    → IsHeldBut key ch
    → (k : ConnectorRef) (c : Connector) → lookup k (synced now key ch).connectors ≡ some c
    → Agrees c.status (has_booking k (synced now key ch))
synced-Agrees now key ch h k c e =
    rw (synced-reservations now key ch) (elim (Bool-cases (key == k)) [
      | inl same ↦
          let p : key ≡ k = (ref_eq.same_iff key k).0 same in
          subst (λ j. Agrees c.status (has_booking j ch)) p
            (synced_here now key ch c (rw (← p) at e))
      | inr other ↦
          let ne : key ≢ k = λ p. cc (other, (ref_eq.same_iff key k).1 p) in
          h k c ne (sym (synced_elsewhere now key k ch ne) ∙ e)
    ])

-- A reservation that changes its status changes the bookings of its own connector alone.
set_reservation-has_booking :
    (r : Reservation) (to : ReservationStatus) (k : ConnectorRef) (ch : Charging)
    → lookup r.reservation_id ch.reservations ≡ some r
    → r.connector_ref ≢ k
    → has_booking k (set_reservation r to ch) ≡ has_booking k ch
set_reservation-has_booking r to k ch e ne =
    any-values-insert_same (booked_on k) r.reservation_id (record r { status = to }) r
      ch.reservations e (ground (arith, ref_eq.same_iff r.connector_ref k))

set_reservation-fresh :
    (r : Reservation) (to : ReservationStatus) (ch : Charging)
    → ((k : ℕ) → ch.res_seq < k → lookup k ch.reservations ≡ none)
    → lookup r.reservation_id ch.reservations ≡ some r
    → (k : ℕ) → ch.res_seq < k
    → lookup k (set_reservation r to ch).reservations ≡ none
set_reservation-fresh r to ch f e k h =
    ground
      (arith, f k h, lookup-insert r.reservation_id k (record r { status = to }) ch.reservations)

-- Closing a reservation and then deriving its connector's hold, as a cancellation and an expiry do.
pub release-IsHeld :
    (now : ℕ) (r : Reservation) (to : ReservationStatus) (ch : Charging)
    → IsHeld ch
    → lookup r.reservation_id ch.reservations ≡ some r
    → IsHeld (synced now r.connector_ref (set_reservation r to ch))
release-IsHeld now r to ch v e =
    let marked = set_reservation r to ch in
    let same = synced-reservations now r.connector_ref marked in
    record {
      table = rw same (
          insert-IsTable (λ (x : Reservation). x.reservation_id) r.reservation_id
            (record r { status = to }) ch.reservations refl v.table);
      fresh =
          rw (same, synced-res_seq now r.connector_ref marked)
            (set_reservation-fresh r to ch v.fresh e);
      agrees =
          synced-Agrees now r.connector_ref marked
            (λ k c ne l. rw (set_reservation-has_booking r to k ch e ne) (v.agrees k c l));
    }

book-Agrees :
    (now : ℕ) (r : Reservation) (c : Connector) (ch : Charging)
    → IsHeld ch
    → lookup r.reservation_id ch.reservations ≡ none
    → is_booked r.status ≡ true
    → (k : ConnectorRef) (d : Connector) → lookup k (book now r c ch).connectors ≡ some d
    → Agrees d.status (has_booking k (book now r c ch))
unfolding book
book-Agrees now r c ch v absent b k d e =
    let held = record c { status = ConnectorStatus.reserved; last_state_change_at = now } in
    elim (Bool-cases (r.connector_ref == k)) [
      | inl same ↦ ground (
        arith,
        same,
        e,
        lookup-insert r.connector_ref k held ch.connectors,
        any-values-insert_pass (booked_on k) r.reservation_id r ch.reservations,
      )
      | inr other ↦ ground (
        arith,
        other,
        e,
        lookup-insert r.connector_ref k held ch.connectors,
        any-values-insert_new (booked_on k) r.reservation_id r ch.reservations absent,
        v.agrees k d,
      )
    ]

pub book-IsHeld :
    (now : ℕ) (r : Reservation) (c : Connector) (ch : Charging)
    → IsHeld ch
    → r.reservation_id ≡ suc ch.res_seq
    → is_booked r.status ≡ true
    → IsHeld (book now r c ch)
unfolding book
book-IsHeld now r c ch v next b =
    let absent : lookup r.reservation_id ch.reservations ≡ none =
      v.fresh r.reservation_id (omega arith) in
    record {
      table =
          insert-IsTable (λ (x : Reservation). x.reservation_id) r.reservation_id r ch.reservations
            refl v.table;
      fresh = λ k h. ground (arith, v.fresh k, lookup-insert r.reservation_id k r ch.reservations);
      agrees = λ k d e. book-Agrees now r c ch v absent b k d e;
    }
