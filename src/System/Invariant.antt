-- ===== src/System/Invariant.antt =====
-- About the parts of the store that a call does not write, in apps/api/src/db/store.js.
use volt_hub_csms.Prelude.{
  ℕ, ◌≡◌, refl, ap, ◌∙◌, String, List, [], ◌∷◌, map, Option, some, arith, nat_eq, Option-cases, inl,
  inr,
}
use volt_hub_csms.Prelude.Decimal.{Decimal}
use volt_hub_csms.Prelude.Dict.{values, lookup, insert, lookup-insert}
use volt_hub_csms.Prelude.Outcome.{commit, Outcome-cases}
use volt_hub_csms.State.{
  Store, Charging, Session, ConnectorRef, Role, SessionState, ReservationStatus,
}
use volt_hub_csms.Outbox.{Limits}
use volt_hub_csms.Booking.{
  create_reservation, cancel_reservation, check_cancel, expire_one, expire_all, expire_stale, book,
  set_reservation, sync_connector_hold,
}
use volt_hub_csms.Booking.Holds.{IsHeld, sync_connector_hold-charging}
use volt_hub_csms.Metering.{
  TickRequest, record_tick, check_tick, add_reading, close_meter, check_stop, after_tick,
}
use volt_hub_csms.Sessions.{
  StartRequest, start_session, check_start, occupy, new_session, move, move_connector,
  noted_session, move_session, check_transition, transition, stop_session, stop_target, or_else,
}
use volt_hub_csms.Sessions.Keeps.{SameHolds, IsHeld-SameHolds, convert-keeps, move_connector-tables}
use volt_hub_csms.Sessions.Moves.{moved_tables, transition-tables}
use volt_hub_csms.Sessions.Sound.{IsSound, synced-Spares, replace_session-IsSound}
use volt_hub_csms.Sessions.SoundMoves.{own_id, check_transition_lem}
use volt_hub_csms.Sessions.SoundMeters.{check_tick_lem, check_stop_lem, close_meter-IsSound}
use volt_hub_csms.Billing.{LocalTime, bill_session, check_bill, mark_billed, billed_session}
use volt_hub_csms.Billing.Bills.{check_bill_lem}
use volt_hub_csms.Billing.Once.{billed_count}

-- The billing states of the sessions are the same, and a new session is not billed.
abbrev pub SameBilled : Charging → Charging → Type 0
SameBilled a b =
    (sid : ℕ) → billed_count (lookup sid b.sessions) ≡ billed_count (lookup sid a.sessions)

insert-SameBilled :
    (x y : Session) (a b : Charging)
    → b.sessions ≡ insert x.session_id y a.sessions
    → lookup x.session_id a.sessions ≡ some x
    → y.billing_state ≡ x.billing_state
    → SameBilled a b
insert-SameBilled x y a b e there same sid =
    rw e (ground (arith, there, same, lookup-insert x.session_id sid y a.sessions))

moved_tables-sessions :
    (now : ℕ) (x : Session) (to : SessionState) (reason : Option String) (ch : Charging)
    → (moved_tables now x to reason ch).sessions ≡ (noted_session now x to reason ch).sessions
unfolding moved_tables move
moved_tables-sessions now x to reason ch =
    let noted = noted_session now x to reason ch in
    let moved = move_connector now x.connector_ref to noted in
    ground (
      arith,
      (synced-Spares now x.connector_ref moved).sessions,
      move_connector-tables now x.connector_ref to noted,
    )

module _ (l : Limits) (now : ℕ) where
  sync_keeps_sessions :
      (key : ConnectorRef) (rid : Option ℕ) (s : Store)
      → (sync_connector_hold l now key rid s).charging.sessions ≡ s.charging.sessions
  sync_keeps_sessions key rid s =
      ap (λ c. c.sessions) (sync_connector_hold-charging l now key rid s)
      ∙ (synced-Spares now key s.charging).sessions

  pub create_reservation-sessions :
      (uid : ℕ) (vehicle_id : Option ℕ) (key : ConnectorRef) (start_at end_at : Option ℕ)
      (s : Store)
      → (create_reservation l now uid vehicle_id key start_at end_at s).1.charging.sessions
        ≡ s.charging.sessions
  unfolding create_reservation book
  create_reservation-sessions uid vehicle_id key start_at end_at s = ground arith

  pub cancel_reservation-sessions :
      (rid actor : ℕ) (role : Role) (scope : Option (List ℕ)) (s : Store)
      → (cancel_reservation l now rid actor role scope s).1.charging.sessions ≡ s.charging.sessions
  unfolding cancel_reservation
  cancel_reservation-sessions rid actor role scope s =
      elim (Outcome-cases (check_cancel rid actor role scope s.charging)) [
        | inl (r, e) ↦ rw (e, commit) (sync_keeps_sessions r.connector_ref (some rid) _)
        | inr (f, e) ↦ rw (e, commit) refl
      ]

  expire_one-sessions :
      (id : ℕ) (acc : Store × ℕ)
      → (expire_one l now id acc).0.charging.sessions ≡ acc.0.charging.sessions
  unfolding expire_one
  expire_one-sessions id (s, n) = elim (Option-cases (lookup id s.charging.reservations)) [
    | inl gone ↦ rw (gone, expire_one) refl
    | inr (r, there) ↦
        let marked : Store = record s {
          charging = set_reservation r ReservationStatus.expired s.charging;
        } in
        ground (arith, there, sync_keeps_sessions r.connector_ref (some r.reservation_id) marked)
  ]

  expire_all-sessions :
      (ids : List ℕ) (acc : Store × ℕ)
      → (expire_all l now ids acc).0.charging.sessions ≡ acc.0.charging.sessions
  unfolding expire_all
  expire_all-sessions [] acc = refl
  expire_all-sessions (id ∷ ids) acc =
      expire_all-sessions ids (expire_one l now id acc) ∙ expire_one-sessions id acc

  pub expire_stale-sessions :
      (s : Store) → (expire_stale l now s).0.charging.sessions ≡ s.charging.sessions
  unfolding expire_stale
  expire_stale-sessions s =
      expire_all-sessions (map (λ r. r.reservation_id) (values s.charging.reservations)) (s, 0)

  pub start_session-SameBilled :
      (q : StartRequest) (s : Store)
      → IsSound s.charging
      → SameBilled s.charging (start_session l now q s).1.charging
  unfolding start_session occupy
  start_session-SameBilled q s v sid = elim (Outcome-cases (check_start q s.charging)) [
    | inl (w, e) ↦
        let x = new_session now q w.1 s.charging in
        let ch : Charging = record (s.charging) {
          sess_seq = x.session_id;
          sessions = insert x.session_id x s.charging.sessions;
        } in
        ground (
          arith,
          e,
          convert-keeps w.1 ch,
          lookup-insert x.session_id sid x s.charging.sessions,
          v.fresh x.session_id (omega arith),
        )
    | inr (f, e) ↦ rw (e, commit) refl
  ]

  pub transition-SameBilled :
      (sid : ℕ) (to : SessionState) (reason : Option String) (s : Store)
      → IsSound s.charging
      → SameBilled s.charging (transition l now sid to reason s).1.charging
  transition-SameBilled sid to reason s v =
      elim (Outcome-cases (check_transition sid to s.charging)) [
        | inl (x, e) ↦
            let (there, _) = check_transition_lem sid to s.charging x e in
            insert-SameBilled x (move_session now x to reason) s.charging
              (transition l now sid to reason s).1.charging
              (ap (λ c. c.sessions) (transition-tables l now sid to reason s x e)
                ∙ moved_tables-sessions now x to reason s.charging
                ∙ unfold noted_session in refl)
              (own_id sid x s.charging v there) refl
        | inr (f, e) ↦ λ i. unfold transition in (rw (e, commit) refl)
      ]

  pub record_tick-SameBilled :
      (q : TickRequest) (s : Store)
      → IsSound s.charging
      → SameBilled s.charging (record_tick l now q s).1.charging
  unfolding record_tick add_reading
  record_tick-SameBilled q s v sid = elim (Outcome-cases (check_tick q s.charging)) [
    | inl (w, e) ↦
        let (there, _, _) = check_tick_lem q s.charging w e in
        let y = record (w.0) { state = after_tick w.0.state q.seq } in
        ground (
          arith,
          e,
          own_id q.sid w.0 s.charging v there,
          lookup-insert w.0.session_id sid y s.charging.sessions,
        )
    | inr (f, e) ↦ rw (e, commit) refl
  ]

  pub stop_session-SameBilled :
      (sid : ℕ) (reason : Option String) (end_meter : Option Decimal) (s : Store)
      → IsSound s.charging
      → SameBilled s.charging (stop_session l now sid reason end_meter s).1.charging
  unfolding stop_session close_meter
  stop_session-SameBilled sid reason end_meter s v i =
      elim (Outcome-cases (check_stop sid end_meter s.charging)) [
        | inr (f, e) ↦ rw (e, commit) refl
        | inl (w, e) ↦
            let there = own_id sid w.0 s.charging v (check_stop_lem sid end_meter s.charging w e) in
            let closed : Store = record s { charging = close_meter sid w.0 w.1 s.charging } in
            let same =
              insert-SameBilled w.0 (record (w.0) { end_meter_kwh = some w.1 }) s.charging
                closed.charging refl there refl in
            let u = close_meter-IsSound sid w.0 w.1 s.charging there v in
            ground (
              arith,
              e,
              same i,
              transition-SameBilled sid (stop_target w.0.state)
                  (or_else reason (some "REMOTE_STOP")) closed u i,
            )
      ]

module _ (local : ℕ → LocalTime) (now : ℕ) where
  bill_session-SameHolds :
      (sid : ℕ) (s : Store) → SameHolds s.charging (bill_session local now sid s).1.charging
  unfolding bill_session mark_billed
  bill_session-SameHolds sid s = ground arith

  pub bill_session-IsHeld :
      (sid : ℕ) (s : Store) → IsHeld s.charging → IsHeld (bill_session local now sid s).1.charging
  bill_session-IsHeld sid s v =
      IsHeld-SameHolds s.charging (bill_session local now sid s).1.charging
        (bill_session-SameHolds sid s) v

  pub bill_session-reservations :
      (sid : ℕ) (s : Store)
      → (bill_session local now sid s).1.charging.reservations ≡ s.charging.reservations
  bill_session-reservations sid s = (bill_session-SameHolds sid s).0

  pub bill_session-IsSound :
      (sid : ℕ) (s : Store) → IsSound s.charging → IsSound (bill_session local now sid s).1.charging
  unfolding bill_session mark_billed
  bill_session-IsSound sid s v = elim (Outcome-cases (check_bill local now sid s)) [
    | inl (w, e) ↦
        let (there, _, _, _) = check_bill_lem local now sid s w e in
        let own = own_id sid w.0 s.charging v there in
        rw (e, commit)
          (replace_session-IsSound w.0.session_id w.0 (billed_session w.0) s.charging own refl refl
            (λ a. a) (v.live w.0.session_id w.0 own) v)
    | inr (f, e) ↦ rw (e, commit) v
  ]
