-- ===== src/Ocpp/SameBut.antt =====
-- About the sessions that an operation on another one does not name, in apps/api/src/db/store.js.
use volt_hub_csms.Prelude.{
  ℕ, suc, ◌≡◌, refl, ◌∙◌, subst, false, String, Option, some, arith, ◌==◌, nat_eq, inl, inr,
  Bool-cases,
}
use volt_hub_csms.Prelude.Decimal.{Decimal}
use volt_hub_csms.Prelude.Dict.{lookup, insert, lookup-insert}
use volt_hub_csms.Prelude.Table.{IsTable, lookup-id, insert-IsTable}
use volt_hub_csms.Prelude.Outcome.{ok, commit, Outcome-cases}
use volt_hub_csms.State.{Store, Charging, ConnectorRef, Session, SessionState, is_active}
use volt_hub_csms.Outbox.{Limits}
use volt_hub_csms.Metering.{
  TickRequest, record_tick, after_tick, check_tick, add_reading, close_meter, check_stop,
}
use volt_hub_csms.Booking.Holds.{synced}
use volt_hub_csms.Sessions.{
  StartRequest, start_session, stop_session, transition, move, noted_session, move_session,
  move_connector, occupy, convert, check_transition, check_start, new_session, stop_target, or_else,
}
use volt_hub_csms.Sessions.Moves.{moved_tables, transition-tables}

-- The sessions whose number is not `sid` stand as they did.
abbrev SameBut : ℕ → Charging → Charging → Type 0
SameBut sid a b = (j : ℕ) → (sid == j) ≡ false → lookup j b.sessions ≡ lookup j a.sessions

move_connector-sessions :
    (now : ℕ) (x : Session) (to : SessionState) (ch : Charging)
    → (move_connector now x.connector_ref to ch).sessions ≡ ch.sessions
unfolding move_connector
move_connector-sessions now x to ch = ground arith

convert-sessions : (rid : Option ℕ) (ch : Charging) → (convert rid ch).sessions ≡ ch.sessions
convert-sessions rid ch = ground arith

synced-sessions :
    (now : ℕ) (key : ConnectorRef) (ch : Charging) → (synced now key ch).sessions ≡ ch.sessions
unfolding synced
synced-sessions now key ch = ground arith

put_session :
    (x : Session) (a b : Charging)
    → b.sessions ≡ insert x.session_id x a.sessions
    → SameBut x.session_id a b
put_session x a b h j other = rw h (ground (arith, lookup-insert x.session_id j x a.sessions))

moved_tables-SameBut :
    (now : ℕ) (x : Session) (to : SessionState) (reason : Option String) (ch : Charging)
    → SameBut x.session_id ch (moved_tables now x to reason ch)
unfolding moved_tables move noted_session
moved_tables-SameBut now x to reason ch =
    let noted = noted_session now x to reason ch in
    put_session (move_session now x to reason) ch (moved_tables now x to reason ch) (
      ground (
        arith,
        move_connector-sessions now x to noted,
        synced-sessions now x.connector_ref (move_connector now x.connector_ref to noted),
      ))

abbrev pub Rows : Charging → Type 0
Rows ch = IsTable (λ (x : Session). x.session_id) ch.sessions

module _ (l : Limits) (now : ℕ) where
  check_transition-row :
      (sid : ℕ) (to : SessionState) (ch : Charging) (x : Session)
      → check_transition sid to ch ≡ ok x
      → lookup sid ch.sessions ≡ some x
  unfolding check_transition
  check_transition-row sid to ch x h = ground arith

  transition-SameBut :
      (sid : ℕ) (to : SessionState) (reason : Option String) (s : Store)
      → Rows s.charging
      → SameBut sid s.charging (transition l now sid to reason s).1.charging
  transition-SameBut sid to reason s t = elim (Outcome-cases (check_transition sid to s.charging)) [
    | inl (x, e) ↦ rw (transition-tables l now sid to reason s x e) (
        subst (λ k. SameBut k s.charging (moved_tables now x to reason s.charging))
          (lookup-id (λ (y : Session). y.session_id) sid x s.charging.sessions t
            (check_transition-row sid to s.charging x e))
          (moved_tables-SameBut now x to reason s.charging))
    | inr (f, e) ↦ unfold transition in (rw (e, commit) (λ j other. refl))
  ]

  check_stop-row :
      (sid : ℕ) (end : Option Decimal) (ch : Charging) (w : Session × Decimal)
      → check_stop sid end ch ≡ ok w
      → lookup sid ch.sessions ≡ some w.0
  unfolding check_stop
  check_stop-row sid end ch w h = ground arith

  close_meter-SameBut :
      (sid : ℕ) (x : Session) (end : Decimal) (ch : Charging)
      → x.session_id ≡ sid
      → Rows ch
      → SameBut sid ch (close_meter sid x end ch) × Rows (close_meter sid x end ch)
  unfolding close_meter
  close_meter-SameBut sid x end ch e t = (
    subst (λ k. SameBut k ch (close_meter sid x end ch)) e
        (put_session (record x { end_meter_kwh = some end }) ch (close_meter sid x end ch) refl),
    insert-IsTable (λ (y : Session). y.session_id) x.session_id
        (record x { end_meter_kwh = some end }) ch.sessions refl t,
  )

  pub stop_session-SameBut :
      (sid : ℕ) (reason : Option String) (end : Option Decimal) (s : Store)
      → Rows s.charging
      → SameBut sid s.charging (stop_session l now sid reason end s).1.charging
  unfolding stop_session
  stop_session-SameBut sid reason end s t = elim (Outcome-cases (check_stop sid end s.charging)) [
    | inr (f, e) ↦ rw (e, commit) (λ j other. refl)
    | inl (w, e) ↦
        let closed : Store = record s { charging = close_meter sid w.0 w.1 s.charging } in
        let row = check_stop-row sid end s.charging w e in
        let id = lookup-id (λ (y : Session). y.session_id) sid w.0 s.charging.sessions t row in
        let (same, rows) = close_meter-SameBut sid w.0 w.1 s.charging id t in
        rw (e, commit)
          (elim (Bool-cases (is_active w.0.state)) [
            | inl going ↦ rw going (λ j other.
                transition-SameBut sid (stop_target w.0.state) (or_else reason (some "REMOTE_STOP"))
                  closed rows j other
                ∙ same j other)
            | inr over ↦ rw over same
          ])
  ]

  check_tick-row :
      (q : TickRequest) (ch : Charging) (w : Session × Decimal)
      → check_tick q ch ≡ ok w
      → lookup q.sid ch.sessions ≡ some w.0
  unfolding check_tick
  check_tick-row q ch w h = ground arith

  add_reading-SameBut :
      (q : TickRequest) (register : Decimal) (x : Session) (ch : Charging)
      → SameBut x.session_id ch (add_reading now q register x ch)
  unfolding add_reading
  add_reading-SameBut q register x ch = λ j other. ground (
    arith,
    lookup-insert x.session_id j (record x { state = after_tick x.state q.seq }) ch.sessions,
  )

  pub record_tick-SameBut :
      (q : TickRequest) (s : Store)
      → Rows s.charging
      → SameBut q.sid s.charging (record_tick l now q s).1.charging
  unfolding record_tick
  record_tick-SameBut q s t j other = elim (Outcome-cases (check_tick q s.charging)) [
    | inr (f, e) ↦ rw (e, commit) refl
    | inl (w, e) ↦
        let id =
          lookup-id (λ (y : Session). y.session_id) q.sid w.0 s.charging.sessions t
            (check_tick-row q s.charging w e) in
        rw (e, commit) (ground (arith, id, add_reading-SameBut q w.1 w.0 s.charging j))
  ]

  pub start_session-SameBut :
      (q : StartRequest) (s : Store)
      → SameBut (suc s.charging.sess_seq) s.charging (start_session l now q s).1.charging
  unfolding start_session occupy
  start_session-SameBut q s = elim (Outcome-cases (check_start q s.charging)) [
    | inr (f, e) ↦ rw (e, commit) (λ j other. refl)
    | inl (w, e) ↦
        rw (e, commit)
          (put_session (new_session now q w.1 s.charging) s.charging
            (occupy now (new_session now q w.1 s.charging) w.1 w.0 s.charging)
            (convert-sessions w.1 _))
  ]
