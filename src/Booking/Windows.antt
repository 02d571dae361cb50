-- ===== src/Booking/Windows.antt =====
-- About the times of the windows that are held on a connector: `createReservation` of
-- apps/api/src/db/store.js.
use volt_hub_csms.Prelude.{
  ℕ, ◌+◌, ◌≤◌, ◌≡◌, ◌≢◌, ap, ◌∙◌, Bool, true, false, ◌&&◌, List, [], ◌∷◌, map, Option, none, some,
  arith, nat_eq, Option-cases, inl, inr,
}
use volt_hub_csms.Prelude.Lists.{any}
use volt_hub_csms.Prelude.Dict.{Dict, values, lookup, insert, lookup-insert, any-values_none}
use volt_hub_csms.Prelude.Table.{IsTable, lookup-id}
use volt_hub_csms.Prelude.Outcome.{ok, commit, Outcome-cases}
use volt_hub_csms.State.{
  Store, Charging, Reservation, Connector, ConnectorRef, ref_eq, ReservationStatus, Role,
  holds_window, is_bookable,
}
use volt_hub_csms.Outbox.{Limits}
use volt_hub_csms.Booking.{
  minutes, overlaps, check_window, check_reservation, book, new_reservation, set_reservation,
  sync_connector_hold, create_reservation, check_cancel, cancel_reservation, expire_one, expire_all,
  expire_stale,
}
use volt_hub_csms.Booking.Holds.{IsHeld, sync_connector_hold-charging, synced-reservations}
use volt_hub_csms.Booking.HoldsKept.{check_cancel-lookup, expire_one-IsHeld}

-- Two reservations that hold windows on one connector meet in time.
abbrev pub clashes : Reservation → Reservation → Bool
clashes r q = holds_window r.status && overlaps r.connector_ref r.start_at r.end_at q

abbrev pub IsWindow : Reservation → Type 0
IsWindow r = (r.start_at + minutes 15 ≤ r.end_at) × (r.end_at ≤ r.start_at + minutes 120)

pub record IsDisjoint (m : Dict ℕ Reservation) : Type 0 where
  pub disjoint :
      (i j : ℕ) (r q : Reservation)
      → lookup i m ≡ some r
      → lookup j m ≡ some q
      → i ≢ j
      → clashes r q ≡ false
  pub windows : (i : ℕ) (r : Reservation) → lookup i m ≡ some r → IsWindow r

clashes_sym : (r q : Reservation) → clashes r q ≡ clashes q r
clashes_sym r q = ground (
  arith,
  ref_eq.same_iff r.connector_ref q.connector_ref,
  ref_eq.same_iff q.connector_ref r.connector_ref,
)

-- A row that clashes with no other may be put in.
insert-IsDisjoint :
    (k : ℕ) (r : Reservation) (m : Dict ℕ Reservation)
    → IsWindow r
    → ((j : ℕ) (q : Reservation) → lookup j m ≡ some q → k ≢ j → clashes r q ≡ false)
    → IsDisjoint m
    → IsDisjoint (insert k r m)
insert-IsDisjoint k r m w apart v = record {
  disjoint = λ i j x y ex ey ne. ground (
    arith,
    lookup-insert k i r m,
    lookup-insert k j r m,
    v.disjoint i j x y,
    apart j y,
    apart i x,
    clashes_sym x y,
    ex,
    ey,
  );
  windows = λ i x e. ground (arith, lookup-insert k i r m, v.windows i x, e);
}

-- Changing a status never makes a window held that was not.
pub set_reservation-IsDisjoint :
    (k : ℕ) (r : Reservation) (to : ReservationStatus) (m : Dict ℕ Reservation)
    → lookup k m ≡ some r
    → (holds_window to ≡ true → holds_window r.status ≡ true)
    → IsDisjoint m
    → IsDisjoint (insert k (record r { status = to }) m)
set_reservation-IsDisjoint k r to m e weaker v =
    insert-IsDisjoint k (record r { status = to }) m (v.windows k r e)
      (λ j q f ne. ground (arith, v.disjoint k j r q e f ne, weaker)) v

-- What the checks of a reservation have found when they pass.
check_window_lem :
    (now : ℕ) (start_at end_at : Option ℕ) (w : ℕ × ℕ)
    → check_window now start_at end_at ≡ ok w
    → (start_at ≡ some w.0)
      × (end_at ≡ some w.1)
      × (w.0 + minutes 15 ≤ w.1)
      × (w.1 ≤ w.0 + minutes 120)
      × (now ≤ w.0 + minutes 1)
unfolding check_window
check_window_lem now none end_at w h = absurd (ground (arith, h))
check_window_lem now (some a) none w h = absurd (ground (arith, h))
check_window_lem now (some a) (some b) w h = ground (arith, h)

pub check_reservation_lem :
    (now : ℕ) (key : ConnectorRef) (start_at end_at : Option ℕ) (ch : Charging)
    (w : ℕ × ℕ × Connector)
    → check_reservation now key start_at end_at ch ≡ ok w
    → (w.0 + minutes 15 ≤ w.1)
      × (w.1 ≤ w.0 + minutes 120)
      × (any (overlaps key w.0 w.1) (values ch.reservations) ≡ false)
      × (lookup key ch.connectors ≡ some w.2)
      × (is_bookable w.2.status ≡ true)
unfolding check_reservation
check_reservation_lem now key start_at end_at ch w h =
    elim (Outcome-cases (check_window now start_at end_at)) [
      | inl (u, e) ↦ ground (arith, h, e, check_window_lem now start_at end_at u e)
      | inr (f, e) ↦ absurd (ground (arith, h, e))
    ]

book-IsDisjoint :
    (now : ℕ) (r : Reservation) (c : Connector) (ch : Charging)
    → IsWindow r
    → any (overlaps r.connector_ref r.start_at r.end_at) (values ch.reservations) ≡ false
    → IsDisjoint ch.reservations
    → IsDisjoint (book now r c ch).reservations
unfolding book
book-IsDisjoint now r c ch w free v =
    insert-IsDisjoint r.reservation_id r ch.reservations w
      (λ j q e ne. ground (
        arith,
        any-values_none (overlaps r.connector_ref r.start_at r.end_at) j q ch.reservations free e,
      ))
      v

module _ (l : Limits) (now : ℕ) where
  -- Where the held windows of each connector are disjoint and last 15 to 120 minutes, they are so
  -- after a reservation was asked for, whether it was made or refused.
  pub create_reservation-IsDisjoint :
      (uid : ℕ) (vehicle_id : Option ℕ) (key : ConnectorRef) (start_at end_at : Option ℕ)
      (s : Store)
      → IsDisjoint s.charging.reservations
      → IsDisjoint
          (create_reservation l now uid vehicle_id key start_at end_at s).1.charging.reservations
  unfolding create_reservation
  create_reservation-IsDisjoint uid vehicle_id key start_at end_at s v =
      elim (Outcome-cases (check_reservation now key start_at end_at s.charging)) [
        | inl (w, e) ↦
            let (long, short, free, _, _) =
              check_reservation_lem now key start_at end_at s.charging w e in
            rw (e, commit)
              (book-IsDisjoint now (new_reservation now uid vehicle_id key w.0 w.1 s.charging) w.2
                s.charging (long, short) free v)
        | inr (f, e) ↦ rw (e, commit) v
      ]

  sync_keeps :
      (key : ConnectorRef) (rid : Option ℕ) (s : Store)
      → (sync_connector_hold l now key rid s).charging.reservations ≡ s.charging.reservations
  sync_keeps key rid s =
      ap (λ c. c.reservations) (sync_connector_hold-charging l now key rid s)
      ∙ synced-reservations now key s.charging

  pub cancel_reservation-IsDisjoint :
      (rid actor : ℕ) (role : Role) (scope : Option (List ℕ)) (s : Store)
      → IsTable (λ (x : Reservation). x.reservation_id) s.charging.reservations
      → IsDisjoint s.charging.reservations
      → IsDisjoint (cancel_reservation l now rid actor role scope s).1.charging.reservations
  unfolding cancel_reservation
  cancel_reservation-IsDisjoint rid actor role scope s t v =
      elim (Outcome-cases (check_cancel rid actor role scope s.charging)) [
        | inl (r, e) ↦
            let there = check_cancel-lookup rid actor role scope s.charging r e in
            let marked : Store = record s {
              charging = set_reservation r ReservationStatus.cancelled s.charging;
            } in
            rw (e, commit)
              (rw (sync_keeps r.connector_ref (some rid) marked) (
                set_reservation-IsDisjoint r.reservation_id r ReservationStatus.cancelled
                  s.charging.reservations
                  (ap (λ n. lookup n s.charging.reservations)
                      (lookup-id (λ (x : Reservation). x.reservation_id) rid r
                        s.charging.reservations t there)
                    ∙ there)
                  (λ h. absurd (ground (arith, h))) v))
        | inr (f, e) ↦ rw (e, commit) v
      ]

  expire_one-IsDisjoint :
      (id : ℕ) (acc : Store × ℕ)
      → IsHeld acc.0.charging
      → IsDisjoint acc.0.charging.reservations
      → IsDisjoint (expire_one l now id acc).0.charging.reservations
  unfolding expire_one
  expire_one-IsDisjoint id (s, n) t v = elim (Option-cases (lookup id s.charging.reservations)) [
    | inl gone ↦ rw (gone, expire_one) v
    | inr (r, there) ↦
        let marked : Store = record s {
          charging = set_reservation r ReservationStatus.expired s.charging;
        } in
        let there' : lookup r.reservation_id s.charging.reservations ≡ some r =
          ap (λ n. lookup n s.charging.reservations)
            (lookup-id (λ (x : Reservation). x.reservation_id) id r s.charging.reservations t.table
              there)
          ∙ there in
        ground (
          arith,
          there,
          v,
          sync_keeps r.connector_ref (some r.reservation_id) marked,
          set_reservation-IsDisjoint r.reservation_id r ReservationStatus.expired
              s.charging.reservations there' (λ h. absurd (ground (arith, h))) v,
        )
  ]

  expire_all-IsDisjoint :
      (ids : List ℕ) (acc : Store × ℕ)
      → IsHeld acc.0.charging
      → IsDisjoint acc.0.charging.reservations
      → IsDisjoint (expire_all l now ids acc).0.charging.reservations
  unfolding expire_all
  expire_all-IsDisjoint [] acc t v = v
  expire_all-IsDisjoint (id ∷ ids) acc t v =
      expire_all-IsDisjoint ids (expire_one l now id acc) (expire_one-IsHeld l now id acc t)
        (expire_one-IsDisjoint id acc t v)

  pub expire_stale-IsDisjoint :
      (s : Store)
      → IsHeld s.charging
      → IsDisjoint s.charging.reservations
      → IsDisjoint (expire_stale l now s).0.charging.reservations
  unfolding expire_stale
  expire_stale-IsDisjoint s t v =
      expire_all-IsDisjoint (map (λ r. r.reservation_id) (values s.charging.reservations)) (s, 0) t
        v
