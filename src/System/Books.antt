-- ===== src/System/Books.antt =====
-- About the tables of money in a history of calls on apps/api/src/db/store.js, step by step.
use volt_hub_csms.Prelude.{
  ℕ, ◌≡◌, refl, ◌∙◌, List, [], ◌∷◌, map, Option, none, some, arith, nat_eq, String, Option-cases,
  inl, inr,
}
use volt_hub_csms.Prelude.Outcome.{commit, Outcome-cases}
use volt_hub_csms.Prelude.Dict.{values, lookup}
use volt_hub_csms.Prelude.Decimal.{Decimal}
use volt_hub_csms.State.{Store, ConnectorRef, Role, SessionState, ReservationStatus}
use volt_hub_csms.Outbox.{Limits}
use volt_hub_csms.Booking.{
  create_reservation, cancel_reservation, check_cancel, expire_stale, expire_one, expire_all,
  sync_connector_hold, set_reservation,
}
use volt_hub_csms.Metering.{TickRequest, record_tick, check_stop, close_meter}
use volt_hub_csms.Sessions.{
  StartRequest, start_session, transition, check_transition, stop_session, stop_target, move,
  or_else,
}
use volt_hub_csms.Billing.{LocalTime}
use volt_hub_csms.System.{
  Call, create, cancel, expire, start, transit, tick, stop, bill, pay, fund, step,
}

module _ (l : Limits) (now : ℕ) where
  sync-money :
      (key : ConnectorRef) (rid : Option ℕ) (s : Store)
      → (sync_connector_hold l now key rid s).money ≡ s.money
  unfolding sync_connector_hold
  sync-money key rid s = ground arith

  create_reservation-money :
      (uid : ℕ) (vehicle_id : Option ℕ) (key : ConnectorRef) (start_at end_at : Option ℕ)
      (s : Store)
      → (create_reservation l now uid vehicle_id key start_at end_at s).1.money ≡ s.money
  unfolding create_reservation
  create_reservation-money uid vehicle_id key start_at end_at s = ground arith

  cancel_reservation-money :
      (rid actor : ℕ) (role : Role) (scope : Option (List ℕ)) (s : Store)
      → (cancel_reservation l now rid actor role scope s).1.money ≡ s.money
  unfolding cancel_reservation
  cancel_reservation-money rid actor role scope s =
      elim (Outcome-cases (check_cancel rid actor role scope s.charging)) [
        | inl (r, e) ↦ rw (e, commit) (sync-money r.connector_ref (some rid) _)
        | inr (f, e) ↦ rw (e, commit) refl
      ]

  expire_one-money : (id : ℕ) (acc : Store × ℕ) → (expire_one l now id acc).0.money ≡ acc.0.money
  unfolding expire_one
  expire_one-money id (s, n) = elim (Option-cases (lookup id s.charging.reservations)) [
    | inl gone ↦ rw (gone, expire_one) refl
    | inr (r, there) ↦
        let marked : Store = record s {
          charging = set_reservation r ReservationStatus.expired s.charging;
        } in
        ground (arith, there, sync-money r.connector_ref (some r.reservation_id) marked)
  ]

  expire_all-money :
      (ids : List ℕ) (acc : Store × ℕ) → (expire_all l now ids acc).0.money ≡ acc.0.money
  unfolding expire_all
  expire_all-money [] acc = refl
  expire_all-money (id ∷ ids) acc =
      expire_all-money ids (expire_one l now id acc) ∙ expire_one-money id acc

  expire_stale-money : (s : Store) → (expire_stale l now s).0.money ≡ s.money
  unfolding expire_stale
  expire_stale-money s =
      expire_all-money (map (λ r. r.reservation_id) (values s.charging.reservations)) (s, 0)

  start_session-money : (q : StartRequest) (s : Store) → (start_session l now q s).1.money ≡ s.money
  unfolding start_session
  start_session-money q s = ground arith

  transition-money :
      (sid : ℕ) (to : SessionState) (reason : Option String) (s : Store)
      → (transition l now sid to reason s).1.money ≡ s.money
  unfolding transition
  transition-money sid to reason s = elim (Outcome-cases (check_transition sid to s.charging)) [
    | inl (x, e) ↦
        let changed : Store = record s { charging = move now x to reason s.charging } in
        ground (arith, e, sync-money x.connector_ref none changed)
    | inr (f, e) ↦ rw (e, commit) refl
  ]

  record_tick-money : (q : TickRequest) (s : Store) → (record_tick l now q s).1.money ≡ s.money
  unfolding record_tick
  record_tick-money q s = ground arith

  stop_session-money :
      (sid : ℕ) (reason : Option String) (end_meter : Option Decimal) (s : Store)
      → (stop_session l now sid reason end_meter s).1.money ≡ s.money
  unfolding stop_session
  stop_session-money sid reason end_meter s =
      elim (Outcome-cases (check_stop sid end_meter s.charging)) [
        | inl (w, e) ↦
            let closed : Store = record s { charging = close_meter sid w.0 w.1 s.charging } in
            ground (
              arith,
              e,
              transition-money sid (stop_target w.0.state) (or_else reason (some "REMOTE_STOP"))
                  closed,
            )
        | inr (f, e) ↦ rw (e, commit) refl
      ]

module _ (l : Limits) (local : ℕ → LocalTime) where
  -- A call that writes neither tariffs nor money.
  abbrev pub IsQuiet : ℕ × Call → Type 0
  IsQuiet (_, bill _) = ⊥
  IsQuiet (_, pay _ _) = ⊥
  IsQuiet (_, fund _ _ _) = ⊥
  IsQuiet _ = Unit

  pub quiet-money : (c : ℕ × Call) (s : Store) → IsQuiet c → (step l local c s).money ≡ s.money
  unfolding step
  quiet-money (now, create uid vehicle key from to) s q =
      create_reservation-money l now uid vehicle key from to s
  quiet-money (now, cancel rid actor role scope) s q =
      cancel_reservation-money l now rid actor role scope s
  quiet-money (now, expire) s q = expire_stale-money l now s
  quiet-money (now, start x) s q = start_session-money l now x s
  quiet-money (now, transit sid to reason) s q = transition-money l now sid to reason s
  quiet-money (now, tick x) s q = record_tick-money l now x s
  quiet-money (now, stop sid reason end_meter) s q = stop_session-money l now sid reason end_meter s
  quiet-money (now, bill sid) s q = absurd q
  quiet-money (now, pay inv uid) s q = absurd q
  quiet-money (now, fund uid amount note) s q = absurd q
