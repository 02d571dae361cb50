-- ===== src/Sessions/Moves.antt =====
-- About transitions, stops and ticks of apps/api/src/db/store.js, the holds of the connectors and
-- the booked windows.
use volt_hub_csms.Prelude.{
  ℕ, ◌≡◌, refl, String, Option, none, some, arith, Bool-cases, inl, inr, if◌then◌else◌, nat_eq,
}
use volt_hub_csms.Prelude.Decimal.{Decimal}
use volt_hub_csms.Prelude.Outcome.{ok, commit, Outcome-cases}
use volt_hub_csms.State.{Store, Charging, Session, SessionState, is_terminal, is_active}
use volt_hub_csms.Outbox.{Limits}
use volt_hub_csms.Booking.Holds.{IsHeld, synced, sync_connector_hold-charging, synced-reservations}
use volt_hub_csms.Metering.{TickRequest, record_tick, add_reading, close_meter, check_stop}
use volt_hub_csms.Sessions.{
  move, check_transition, transition, stop_session, stop_target, move_connector, noted_session,
  or_else,
}
use volt_hub_csms.Sessions.Keeps.{
  SameHolds, IsHeld-SameHolds, move_connector-tables, move_connector-IsHeld,
  move_connector-IsHeldBut, synced-IsHeld,
}

-- What a transition that is let through does to the tables.
unfoldable pub moved_tables : ℕ → Session → SessionState → Option String → Charging → Charging
moved_tables now x to reason ch =
    if is_terminal to
    then synced now x.connector_ref (move now x to reason ch)
    else move now x to reason ch

pub transition-tables :
    (l : Limits) (now sid : ℕ) (to : SessionState) (reason : Option String) (s : Store)
    (x : Session)
    → check_transition sid to s.charging ≡ ok x
    → (transition l now sid to reason s).1.charging ≡ moved_tables now x to reason s.charging
unfolding transition moved_tables
transition-tables l now sid to reason s x e =
    let changed : Store = record s { charging = move now x to reason s.charging } in
    ground (arith, e, sync_connector_hold-charging l now x.connector_ref none changed)

noted_session-SameHolds :
    (now : ℕ) (x : Session) (to : SessionState) (reason : Option String) (ch : Charging)
    → SameHolds ch (noted_session now x to reason ch)
unfolding noted_session
noted_session-SameHolds now x to reason ch = (refl, refl, refl)

moved_tables-IsHeld :
    (now : ℕ) (x : Session) (to : SessionState) (reason : Option String) (ch : Charging)
    → IsHeld ch
    → IsHeld (moved_tables now x to reason ch)
unfolding moved_tables move
moved_tables-IsHeld now x to reason ch v =
    let noted = noted_session now x to reason ch in
    let w : IsHeld noted =
      IsHeld-SameHolds ch noted (noted_session-SameHolds now x to reason ch) v in
    let (res, seq, _, _) = move_connector-tables now x.connector_ref to noted in
    elim (Bool-cases (is_terminal to)) [
      | inl final ↦ rw final (
          synced-IsHeld now x.connector_ref (move_connector now x.connector_ref to noted)
            (rw res w.table) (rw (res, seq) w.fresh)
            (move_connector-IsHeldBut now x.connector_ref to noted w))
      | inr going ↦ rw going (move_connector-IsHeld now x.connector_ref to noted going w)
    ]

moved_tables-reservations :
    (now : ℕ) (x : Session) (to : SessionState) (reason : Option String) (ch : Charging)
    → (moved_tables now x to reason ch).reservations ≡ ch.reservations
unfolding moved_tables move
moved_tables-reservations now x to reason ch =
    let noted = noted_session now x to reason ch in
    ground (
      arith,
      synced-reservations now x.connector_ref (move_connector now x.connector_ref to noted),
      move_connector-tables now x.connector_ref to noted,
      noted_session-SameHolds now x to reason ch,
    )

module _ (l : Limits) (now : ℕ) where
  transition_refused :
      (sid : ℕ) (to : SessionState) (reason : Option String) (s : Store) (P : Charging → Type 0)
      → P s.charging
      → ((x : Session) → P (moved_tables now x to reason s.charging))
      → P (transition l now sid to reason s).1.charging
  transition_refused sid to reason s P before after =
      elim (Outcome-cases (check_transition sid to s.charging)) [
        | inl (x, e) ↦ rw (transition-tables l now sid to reason s x e) (after x)
        | inr (f, e) ↦ unfold transition in (rw (e, commit) before)
      ]

  pub transition-IsHeld :
      (sid : ℕ) (to : SessionState) (reason : Option String) (s : Store)
      → IsHeld s.charging
      → IsHeld (transition l now sid to reason s).1.charging
  transition-IsHeld sid to reason s v =
      transition_refused sid to reason s IsHeld v
        (λ x. moved_tables-IsHeld now x to reason s.charging v)

  pub transition-reservations :
      (sid : ℕ) (to : SessionState) (reason : Option String) (s : Store)
      → (transition l now sid to reason s).1.charging.reservations ≡ s.charging.reservations
  transition-reservations sid to reason s =
      transition_refused sid to reason s (λ ch. ch.reservations ≡ s.charging.reservations) refl
        (λ x. moved_tables-reservations now x to reason s.charging)

  close_meter-SameHolds :
      (sid : ℕ) (x : Session) (end : Decimal) (ch : Charging)
      → SameHolds ch (close_meter sid x end ch)
  unfolding close_meter
  close_meter-SameHolds sid x end ch = (refl, refl, refl)

  pub stop_session-IsHeld :
      (sid : ℕ) (reason : Option String) (end_meter : Option Decimal) (s : Store)
      → IsHeld s.charging
      → IsHeld (stop_session l now sid reason end_meter s).1.charging
  unfolding stop_session
  stop_session-IsHeld sid reason end_meter s v =
      elim (Outcome-cases (check_stop sid end_meter s.charging)) [
        | inr (f, e) ↦ rw (e, commit) v
        | inl ((x, end), e) ↦
            let closed : Store = record s { charging = close_meter sid x end s.charging } in
            let w =
              IsHeld-SameHolds s.charging closed.charging
                (close_meter-SameHolds sid x end s.charging) v in
            rw (e, commit)
              (elim (Bool-cases (is_active x.state)) [
                | inl going ↦ rw going (
                    transition-IsHeld sid (stop_target x.state)
                      (or_else reason (some "REMOTE_STOP")) closed w)
                | inr over ↦ rw over w
              ])
      ]

  pub stop_session-reservations :
      (sid : ℕ) (reason : Option String) (end_meter : Option Decimal) (s : Store)
      → (stop_session l now sid reason end_meter s).1.charging.reservations
        ≡ s.charging.reservations
  unfolding stop_session close_meter
  stop_session-reservations sid reason end_meter s =
      elim (Outcome-cases (check_stop sid end_meter s.charging)) [
        | inr (f, e) ↦ rw (e, commit) refl
        | inl ((x, end), e) ↦
            let closed : Store = record s { charging = close_meter sid x end s.charging } in
            rw (e, commit)
              (elim (Bool-cases (is_active x.state)) [
                | inl going ↦ rw going (
                    transition-reservations sid (stop_target x.state)
                      (or_else reason (some "REMOTE_STOP")) closed)
                | inr over ↦ rw over refl
              ])
      ]

  record_tick-SameHolds :
      (q : TickRequest) (s : Store) → SameHolds s.charging (record_tick l now q s).1.charging
  unfolding record_tick add_reading
  record_tick-SameHolds q s = ground arith

  pub record_tick-IsHeld :
      (q : TickRequest) (s : Store) → IsHeld s.charging → IsHeld (record_tick l now q s).1.charging
  record_tick-IsHeld q s v =
      IsHeld-SameHolds s.charging (record_tick l now q s).1.charging (record_tick-SameHolds q s) v

  pub record_tick-reservations :
      (q : TickRequest) (s : Store)
      → (record_tick l now q s).1.charging.reservations ≡ s.charging.reservations
  record_tick-reservations q s = (record_tick-SameHolds q s).0
