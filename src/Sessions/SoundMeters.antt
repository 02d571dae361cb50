-- ===== src/Sessions/SoundMeters.antt =====
-- About active sessions and their connectors, for ticks and stops of apps/api/src/db/store.js.
use volt_hub_csms.Prelude.{
  ℕ, ◌≡◌, refl, sym, ap, ◌∙◌, true, inl, inr, Option, some, arith, nat_eq, Option-cases, String,
}
use volt_hub_csms.Prelude.Decimal.{Decimal}
use volt_hub_csms.Prelude.Dict.{lookup}
use volt_hub_csms.Prelude.Outcome.{ok, commit, Outcome-cases}
use volt_hub_csms.State.{Store, Charging, Session, ref_eq, SessionState, is_active}
use volt_hub_csms.Outbox.{Limits}
use volt_hub_csms.Metering.{
  TickRequest, record_tick, check_tick, add_reading, close_meter, check_stop, after_tick,
  cache_seen, cache_last,
}
use volt_hub_csms.Sessions.{check_transition, transition, stop_session, stop_target, or_else}
use volt_hub_csms.Sessions.Moves.{transition-tables}
use volt_hub_csms.Sessions.Sound.{IsSound, Spares, IsSound-Spares, replace_session-IsSound}
use volt_hub_csms.Sessions.SoundMoves.{own_id, check_transition_lem, moved_tables-IsSound}

-- Tables that differ in neither sessions nor connectors.
untouched :
    (a b : Charging)
    → b.sessions ≡ a.sessions
    → b.sess_seq ≡ a.sess_seq
    → b.connectors ≡ a.connectors
    → Spares a b
untouched a b s n c = record {
  sessions = s;
  sess_seq = n;
  connectors = λ k d e. inl (ap (lookup k) (sym c) ∙ e);
}

pub check_tick_lem :
    (q : TickRequest) (ch : Charging) (w : Session × Decimal)
    → check_tick q ch ≡ ok w
    → (lookup q.sid ch.sessions ≡ some w.0) × (is_active w.0.state ≡ true) × (q.kwh ≡ some w.1)
unfolding check_tick
check_tick_lem q ch w e = elim (Option-cases (lookup q.sid ch.sessions)) [
  | inl gone ↦ absurd (ground (arith, gone, e))
  | inr (y, there) ↦ elim (Option-cases q.kwh) [
    | inl unread ↦ absurd (ground (arith, there, unread, e))
    | inr (d, read) ↦ ground (arith, there, read, e)
  ]
]

after_tick_active :
    (s : SessionState) (seq : ℕ) → is_active s ≡ true → is_active (after_tick s seq) ≡ true
after_tick_active s seq a = ground arith

add_reading-IsSound :
    (now : ℕ) (q : TickRequest) (register : Decimal) (x : Session) (ch : Charging)
    → lookup x.session_id ch.sessions ≡ some x
    → is_active x.state ≡ true
    → IsSound ch
    → IsSound (add_reading now q register x ch)
unfolding add_reading
add_reading-IsSound now q register x ch there act v =
    let act' = after_tick_active x.state q.seq act in
    let w =
      replace_session-IsSound x.session_id x (record x { state = after_tick x.state q.seq }) ch
        there refl refl (λ a. act) (ground (arith, act')) v in
    record {
      table = w.table;
      fresh = w.fresh;
      live = w.live;
      occupied = w.occupied;
      single = w.single;
    }

pub check_stop_lem :
    (sid : ℕ) (end_meter : Option Decimal) (ch : Charging) (w : Session × Decimal)
    → check_stop sid end_meter ch ≡ ok w
    → lookup sid ch.sessions ≡ some w.0
unfolding check_stop
check_stop_lem sid end_meter ch w e = elim (Option-cases (lookup sid ch.sessions)) [
  | inl gone ↦ absurd (ground (arith, gone, e))
  | inr (y, there) ↦ ground (arith, there, e)
]

pub close_meter-IsSound :
    (sid : ℕ) (x : Session) (end : Decimal) (ch : Charging)
    → lookup x.session_id ch.sessions ≡ some x
    → IsSound ch
    → IsSound (close_meter sid x end ch)
unfolding close_meter
close_meter-IsSound sid x end ch there v =
    let w =
      replace_session-IsSound x.session_id x (record x { end_meter_kwh = some end }) ch there refl
        refl (λ a. a) (v.live x.session_id x there) v in
    record {
      table = w.table;
      fresh = w.fresh;
      live = w.live;
      occupied = w.occupied;
      single = w.single;
    }

module _ (l : Limits) (now : ℕ) where
  pub transition-IsSound :
      (sid : ℕ) (to : SessionState) (reason : Option String) (s : Store)
      → IsSound s.charging
      → IsSound (transition l now sid to reason s).1.charging
  transition-IsSound sid to reason s v = elim (Outcome-cases (check_transition sid to s.charging)) [
    | inl (x, e) ↦
        let (there, legal) = check_transition_lem sid to s.charging x e in
        rw (transition-tables l now sid to reason s x e) (
          moved_tables-IsSound now x to reason s.charging (own_id sid x s.charging v there) legal v)
    | inr (f, e) ↦ unfold transition in (rw (e, commit) v)
  ]

  pub record_tick-IsSound :
      (q : TickRequest) (s : Store)
      → IsSound s.charging
      → IsSound (record_tick l now q s).1.charging
  unfolding record_tick
  record_tick-IsSound q s v = elim (Outcome-cases (check_tick q s.charging)) [
    | inl (w, e) ↦
        let (there, act, _) = check_tick_lem q s.charging w e in
        let cached =
          λ (ch : Charging) (same : ch.sessions ≡ s.charging.sessions)
              (n : ch.sess_seq ≡ s.charging.sess_seq) (c : ch.connectors ≡ s.charging.connectors).
            IsSound-Spares s.charging ch (untouched s.charging ch same n c) v in
        ground (
          arith,
          e,
          cached (cache_seen q.sid s.charging) refl refl refl,
          cached (cache_last q.sid (cache_seen q.sid s.charging)) refl refl refl,
          add_reading-IsSound now q w.1 w.0 s.charging (own_id q.sid w.0 s.charging v there) act v,
        )
    | inr (f, e) ↦ rw (e, commit) v
  ]

  pub stop_session-IsSound :
      (sid : ℕ) (reason : Option String) (end_meter : Option Decimal) (s : Store)
      → IsSound s.charging
      → IsSound (stop_session l now sid reason end_meter s).1.charging
  unfolding stop_session
  stop_session-IsSound sid reason end_meter s v =
      elim (Outcome-cases (check_stop sid end_meter s.charging)) [
        | inl (w, e) ↦
            let there = own_id sid w.0 s.charging v (check_stop_lem sid end_meter s.charging w e) in
            let closed : Store = record s { charging = close_meter sid w.0 w.1 s.charging } in
            let u = close_meter-IsSound sid w.0 w.1 s.charging there v in
            ground (
              arith,
              e,
              u,
              transition-IsSound sid (stop_target w.0.state) (or_else reason (some "REMOTE_STOP"))
                  closed u,
            )
        | inr (f, e) ↦ rw (e, commit) v
      ]
