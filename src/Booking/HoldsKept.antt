-- ===== src/Booking/HoldsKept.antt =====
-- About the statuses of connectors and the booked windows, for each operation on reservations of
-- apps/api/src/db/store.js.
use volt_hub_csms.Prelude.{
  ℕ, ◌≡◌, refl, ap, ◌∙◌, List, [], ◌∷◌, map, Option, some, arith, nat_eq, Option-cases, inl, inr,
}
use volt_hub_csms.Prelude.Dict.{values, lookup}
use volt_hub_csms.Prelude.Table.{lookup-id}
use volt_hub_csms.Prelude.Outcome.{ok, commit, Outcome-cases}
use volt_hub_csms.State.{Store, Charging, Reservation, ConnectorRef, ReservationStatus, Role}
use volt_hub_csms.Outbox.{Limits}
use volt_hub_csms.Booking.{
  check_reservation, create_reservation, new_reservation, set_reservation, check_cancel,
  cancel_reservation, expire_one, expire_all, expire_stale,
}
use volt_hub_csms.Booking.Holds.{IsHeld, sync_connector_hold-charging, release-IsHeld, book-IsHeld}

-- The row that a cancellation has found.
pub check_cancel-lookup :
    (rid actor : ℕ) (role : Role) (scope : Option (List ℕ)) (ch : Charging) (r : Reservation)
    → check_cancel rid actor role scope ch ≡ ok r
    → lookup rid ch.reservations ≡ some r
unfolding check_cancel
check_cancel-lookup rid actor role scope ch r e = elim (Option-cases (lookup rid ch.reservations)) [
  | inl gone ↦ absurd (ground (arith, gone, e))
  | inr (q, there) ↦ there ∙ ap some (ground (arith, there, e))
]

module _ (l : Limits) (now : ℕ) where
  pub create_reservation-IsHeld :
      (uid : ℕ) (vehicle_id : Option ℕ) (key : ConnectorRef) (start_at end_at : Option ℕ)
      (s : Store)
      → IsHeld s.charging
      → IsHeld (create_reservation l now uid vehicle_id key start_at end_at s).1.charging
  unfolding create_reservation
  create_reservation-IsHeld uid vehicle_id key start_at end_at s v =
      elim (Outcome-cases (check_reservation now key start_at end_at s.charging)) [
        | inl (w, e) ↦
            rw (e, commit)
              (book-IsHeld now (new_reservation now uid vehicle_id key w.0 w.1 s.charging) w.2
                s.charging v refl refl)
        | inr (f, e) ↦ rw (e, commit) v
      ]

  pub cancel_reservation-IsHeld :
      (rid actor : ℕ) (role : Role) (scope : Option (List ℕ)) (s : Store)
      → IsHeld s.charging
      → IsHeld (cancel_reservation l now rid actor role scope s).1.charging
  unfolding cancel_reservation
  cancel_reservation-IsHeld rid actor role scope s v =
      elim (Outcome-cases (check_cancel rid actor role scope s.charging)) [
        | inl (r, e) ↦
            let there = check_cancel-lookup rid actor role scope s.charging r e in
            let id =
              lookup-id (λ (x : Reservation). x.reservation_id) rid r s.charging.reservations
                v.table there in
            let marked : Store = record s {
              charging = set_reservation r ReservationStatus.cancelled s.charging;
            } in
            rw (e, commit)
              (rw (sync_connector_hold-charging l now r.connector_ref (some rid) marked) (
                release-IsHeld now r ReservationStatus.cancelled s.charging v
                  (ap (λ n. lookup n s.charging.reservations) id ∙ there)))
        | inr (f, e) ↦ rw (e, commit) v
      ]

  pub expire_one-IsHeld :
      (id : ℕ) (acc : Store × ℕ)
      → IsHeld acc.0.charging
      → IsHeld (expire_one l now id acc).0.charging
  unfolding expire_one
  expire_one-IsHeld id (s, n) v = elim (Option-cases (lookup id s.charging.reservations)) [
    | inl gone ↦ rw (gone, expire_one) v
    | inr (r, there) ↦
        let same =
          lookup-id (λ (x : Reservation). x.reservation_id) id r s.charging.reservations v.table
            there in
        let marked : Store = record s {
          charging = set_reservation r ReservationStatus.expired s.charging;
        } in
        ground (
          arith,
          there,
          v,
          sync_connector_hold-charging l now r.connector_ref (some r.reservation_id) marked,
          release-IsHeld now r ReservationStatus.expired s.charging v
              (ap (λ n. lookup n s.charging.reservations) same ∙ there),
        )
  ]

  expire_all-IsHeld :
      (ids : List ℕ) (acc : Store × ℕ)
      → IsHeld acc.0.charging
      → IsHeld (expire_all l now ids acc).0.charging
  unfolding expire_all
  expire_all-IsHeld [] acc v = v
  expire_all-IsHeld (id ∷ ids) acc v =
      expire_all-IsHeld ids (expire_one l now id acc) (expire_one-IsHeld id acc v)

  pub expire_stale-IsHeld :
      (s : Store) → IsHeld s.charging → IsHeld (expire_stale l now s).0.charging
  unfolding expire_stale
  expire_stale-IsHeld s v =
      expire_all-IsHeld (map (λ r. r.reservation_id) (values s.charging.reservations)) (s, 0) v
