-- ===== src/Sessions/Ownership.antt =====
-- About starts on a RESERVED connector: `startSession` of apps/api/src/db/store.js.
use volt_hub_csms.Prelude.{
  ℕ, nat_eq, ◌≡◌, ap, ◌∙◌, true, Option, some, arith, Option-cases, inl, inr,
}
use volt_hub_csms.Prelude.Dict.{lookup}
use volt_hub_csms.Prelude.Outcome.{ok, Outcome-cases}
use volt_hub_csms.State.{
  Store, Charging, Reservation, ConnectorRef, booked, Session, Connector, ref_eq, is_reserved,
}
use volt_hub_csms.Outbox.{Limits}
use volt_hub_csms.Store.{truthy}
use volt_hub_csms.Booking.Holds.{IsHeld}
use volt_hub_csms.Sessions.{
  StartRequest, resolve_reservation, check_start, new_session, start_session, owns_window,
}
use volt_hub_csms.Sessions.Starts.{OwnWindow, check_start_lem, resolve_named, resolve_own}

resolve_reserved :
    (q : StartRequest) (ch : Charging) (rid : Option ℕ) (c : Connector)
    → IsHeld ch
    → is_reserved c.status ≡ true
    → resolve_reservation q c ch ≡ ok rid
    → OwnWindow q ch rid
resolve_reserved q ch rid c v held e = elim (Option-cases (truthy q.reservation_id)) [
  | inr (id, named) ↦ resolve_named q ch id rid c named e
  | inl unnamed ↦ resolve_own q ch rid c v.table unnamed held e
]

module _ (l : Limits) (now : ℕ) where
  start_session_checked :
      (q : StartRequest) (s : Store) (x : Session)
      → (start_session l now q s).0 ≡ ok x
      → (w : Connector × Option ℕ) × (check_start q s.charging ≡ ok w)
        × (x ≡ new_session now q w.1 s.charging)
  unfolding start_session
  start_session_checked q s x e = elim (Outcome-cases (check_start q s.charging)) [
    | inl (w, h) ↦ (w, h, ground (arith, h, e))
    | inr (f, h) ↦ absurd (ground (arith, h, e))
  ]

  owns_window_lem :
      (uid : ℕ) (key : ConnectorRef) (r : Reservation)
      → owns_window uid key r ≡ true
      → (r.user_id ≡ uid) × (r.connector_ref ≡ key) × (r.status ≡ booked)
  owns_window_lem uid key r h =
      ground (arith, h, nat_eq.same_iff r.user_id uid, ref_eq.same_iff r.connector_ref key)

  -- Where the connectors agree with the bookings, a start on a RESERVED connector succeeds only for
  -- a caller who has a BOOKED window on this connector, and the new session carries the id of that
  -- window.
  pub start_session_owned :
      (q : StartRequest) (s : Store) (x : Session) (c : Connector)
      → IsHeld s.charging
      → lookup q.key s.charging.connectors ≡ some c
      → is_reserved c.status ≡ true
      → (start_session l now q s).0 ≡ ok x
      → (id : ℕ) × (r : Reservation) × (x.reservation_id ≡ some id)
        × (lookup id s.charging.reservations ≡ some r)
        × (r.user_id ≡ q.uid)
        × (r.connector_ref ≡ q.key)
        × (r.status ≡ booked)
  start_session_owned q s x c v there held e =
      let (w, checked, made) = start_session_checked q s x e in
      let (found, _, resolved) = check_start_lem q s.charging w checked in
      let same : w.0 ≡ c = ground (arith, found, there) in
      let (id, r, named, row, owns) =
        resolve_reserved q s.charging w.1 w.0 v (rw same held) resolved in
      let (own, here, live) = owns_window_lem q.uid q.key r owns in
      (id, r, ap (λ y. y.reservation_id) made ∙ named, row, own, here, live)
