-- ===== src/Sessions/SoundMoves.antt =====
-- About active sessions and their connectors, for transitions of apps/api/src/db/store.js.
use volt_hub_csms.Prelude.{
  ℕ, ◌≡◌, ◌≢◌, refl, sym, ap, ◌∙◌, true, ◌||◌, inl, inr, Option, some, arith, ◌==◌, nat_eq,
  Bool-cases, Option-cases, String,
}
use volt_hub_csms.Prelude.Dict.{lookup, lookup-insert}
use volt_hub_csms.Prelude.Table.{lookup-id}
use volt_hub_csms.Prelude.Outcome.{ok}
use volt_hub_csms.State.{
  Charging, Session, Connector, ref_eq, ConnectorStatus, SessionState, is_terminal, is_active,
}
use volt_hub_csms.Shared.{legal_transition}
use volt_hub_csms.Booking.Holds.{synced}
use volt_hub_csms.Sessions.{
  move, move_session, noted_session, move_connector, moved_status, check_transition,
}
use volt_hub_csms.Sessions.Moves.{moved_tables}
use volt_hub_csms.Sessions.Sound.{
  IsSound, IsSound-Spares, synced-Spares, replace_session-IsSound, set_status-IsSound,
}

-- The session that a check has found, under its own id.
pub own_id :
    (sid : ℕ) (x : Session) (ch : Charging)
    → IsSound ch
    → lookup sid ch.sessions ≡ some x
    → lookup x.session_id ch.sessions ≡ some x
own_id sid x ch v e =
    ap (λ n. lookup n ch.sessions)
      (lookup-id (λ (z : Session). z.session_id) sid x ch.sessions v.table e)
    ∙ e

pub check_transition_lem :
    (sid : ℕ) (to : SessionState) (ch : Charging) (x : Session)
    → check_transition sid to ch ≡ ok x
    → (lookup sid ch.sessions ≡ some x) × (legal_transition x.state to ≡ true)
unfolding check_transition
check_transition_lem sid to ch x e = elim (Option-cases (lookup sid ch.sessions)) [
  | inl gone ↦ absurd (ground (arith, gone, e))
  | inr (y, there) ↦ ground (arith, there, e)
]

legal_active :
    (from to : SessionState)
    → legal_transition from to ≡ true
    → is_active to ≡ true
    → (is_active from || is_terminal from) ≡ true
    → is_active from ≡ true
legal_active from to legal a live = ground arith

legal_live :
    (from to : SessionState)
    → legal_transition from to ≡ true
    → (is_active to || is_terminal to) ≡ true
legal_live from to legal = ground arith

noted_session-IsSound :
    (now : ℕ) (x : Session) (to : SessionState) (reason : Option String) (ch : Charging)
    → lookup x.session_id ch.sessions ≡ some x
    → legal_transition x.state to ≡ true
    → IsSound ch
    → IsSound (noted_session now x to reason ch)
unfolding noted_session
noted_session-IsSound now x to reason ch there legal v =
    replace_session-IsSound x.session_id x (move_session now x to reason) ch there refl refl
      (λ a. legal_active x.state to legal a (v.live x.session_id x there))
      (legal_live x.state to legal) v

-- After a legal move of `x`, a session that is active on its connector is `x` itself, which was active
-- there, so that the connector stays or becomes OCCUPIED.
moved_alone :
    (now : ℕ) (x : Session) (to : SessionState) (reason : Option String) (ch : Charging)
    → lookup x.session_id ch.sessions ≡ some x
    → legal_transition x.state to ≡ true
    → IsSound ch
    → (c : Connector) → lookup x.connector_ref ch.connectors ≡ some c
    → (i : ℕ) (y : Session) → lookup i (noted_session now x to reason ch).sessions ≡ some y
    → is_active y.state ≡ true
    → y.connector_ref ≡ x.connector_ref
    → moved_status to c.status ≡ ConnectorStatus.occupied
unfolding noted_session
moved_alone now x to reason ch there legal v c found i y e a same =
    let x' = move_session now x to reason in
    elim (Bool-cases (x.session_id == i)) [
      | inl self ↦
          let act : is_active to ≡ true =
            ground (arith, self, e, a, lookup-insert x.session_id i x' ch.sessions) in
          let was = legal_active x.state to legal act (v.live x.session_id x there) in
          ground (arith, act, v.occupied x.session_id x c there was found)
      | inr other ↦
          let before : lookup i ch.sessions ≡ some y =
            ground (arith, other, e, lookup-insert x.session_id i x' ch.sessions) in
          let ne : x.session_id ≢ i = λ p. ground (arith, other, p) in
          elim (Bool-cases (is_active x.state)) [
            | inl was ↦ absurd (v.single x.session_id i x y there before ne was a (sym same))
            | inr dead ↦ absurd (ground (arith, dead, v.live x.session_id x there, legal))
          ]
    ]

move_connector-IsSound :
    (now : ℕ) (x : Session) (to : SessionState) (reason : Option String) (ch : Charging)
    → lookup x.session_id ch.sessions ≡ some x
    → legal_transition x.state to ≡ true
    → IsSound ch
    → IsSound (move now x to reason ch)
unfolding move move_connector noted_session
move_connector-IsSound now x to reason ch there legal v =
    let noted = noted_session now x to reason ch in
    let w = noted_session-IsSound now x to reason ch there legal v in
    elim (Option-cases (lookup x.connector_ref noted.connectors)) [
      | inl gone ↦ rw (gone, move_connector) w
      | inr (c, found) ↦
          rw (found, move_connector)
            (set_status-IsSound now x.connector_ref (moved_status to c.status) c noted
              (λ i y e a same. moved_alone now x to reason ch there legal v c found i y e a same) w)
    ]

pub moved_tables-IsSound :
    (now : ℕ) (x : Session) (to : SessionState) (reason : Option String) (ch : Charging)
    → lookup x.session_id ch.sessions ≡ some x
    → legal_transition x.state to ≡ true
    → IsSound ch
    → IsSound (moved_tables now x to reason ch)
unfolding moved_tables
moved_tables-IsSound now x to reason ch there legal v =
    let w = move_connector-IsSound now x to reason ch there legal v in
    elim (Bool-cases (is_terminal to)) [
      | inl final ↦ rw final (
          IsSound-Spares (move now x to reason ch)
            (synced now x.connector_ref (move now x to reason ch))
            (synced-Spares now x.connector_ref (move now x to reason ch)) w)
      | inr going ↦ rw going w
    ]
