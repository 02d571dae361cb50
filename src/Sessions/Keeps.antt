-- ===== src/Sessions/Keeps.antt =====
-- About session operations of apps/api/src/db/store.js, the holds of the connectors and the booked
-- windows.
use volt_hub_csms.Prelude.{
  ℕ, ◌<◌, ◌≡◌, ◌≢◌, refl, sym, ap, subst, ◌∙◌, false, Option, none, some, arith, ◌==◌, nat_eq,
  Bool-cases, Option-cases, inl, inr,
}
use volt_hub_csms.Prelude.Dict.{
  lookup, insert, lookup-insert, lookup-insert_ne, lookup-insert_self, any-values-insert_same,
}
use volt_hub_csms.Prelude.Table.{IsTable, insert-IsTable, lookup-id}
use volt_hub_csms.Prelude.Outcome.{commit, Outcome-cases}
use volt_hub_csms.State.{
  Store, Charging, Reservation, Session, Connector, ConnectorRef, ref_eq, ConnectorStatus,
  ReservationStatus, SessionState, is_terminal,
}
use volt_hub_csms.Outbox.{Limits}
use volt_hub_csms.Booking.{booked_on, has_booking}
use volt_hub_csms.Booking.Holds.{
  IsHeld, IsHeldBut, Agrees, synced, synced-reservations, synced-res_seq, synced-Agrees,
}
use volt_hub_csms.Booking.Windows.{IsDisjoint, set_reservation-IsDisjoint}
use volt_hub_csms.Sessions.{
  StartRequest, check_start, convert, new_session, occupy, start_session, move_connector,
  moved_status,
}
use volt_hub_csms.Sessions.Starts.{Adopts, check_start_lem, resolve-Adopts}

abbrev pub SameHolds : Charging → Charging → Type 0
SameHolds a b =
    (b.reservations ≡ a.reservations) × (b.connectors ≡ a.connectors) × (b.res_seq ≡ a.res_seq)

-- The holds are about three of the tables.
pub IsHeld-SameHolds : (a b : Charging) → SameHolds a b → IsHeld a → IsHeld b
IsHeld-SameHolds a b (r, c, n) v = record {
  table = rw r v.table;
  fresh = rw (r, n) v.fresh;
  agrees = λ k d e. rw r (v.agrees k d (ap (lookup k) (sym c) ∙ e));
}

convert-IsHeldBut :
    (q : StartRequest) (rid : Option ℕ) (ch : Charging)
    → Adopts q ch rid
    → IsHeld ch
    → IsHeldBut q.key (convert rid ch)
convert-IsHeldBut q rid ch (inl p) v k c ne e = ground (arith, p, v.agrees k c, e)
convert-IsHeldBut q rid ch (inr (id, r, p, there, own)) v k c ne e =
    let converted = record r { status = ReservationStatus.converted } in
    ground (
      arith,
      p,
      there,
      own,
      e,
      v.agrees k c,
      ref_eq.same_iff r.connector_ref q.key,
      ref_eq.same_iff r.connector_ref k,
      any-values-insert_same (booked_on k) id converted r ch.reservations there,
    )

convert-IsTable :
    (q : StartRequest) (rid : Option ℕ) (ch : Charging)
    → Adopts q ch rid
    → IsHeld ch
    → IsTable (λ (r : Reservation). r.reservation_id) (convert rid ch).reservations
convert-IsTable q rid ch (inl p) v = ground (arith, p, v.table)
convert-IsTable q rid ch (inr (id, r, p, there, own)) v =
    let converted = record r { status = ReservationStatus.converted } in
    let key =
      lookup-id (λ (x : Reservation). x.reservation_id) id r ch.reservations v.table there in
    rw (p, there, convert)
      (insert-IsTable (λ (x : Reservation). x.reservation_id) id converted ch.reservations key
        v.table)

convert-fresh :
    (q : StartRequest) (rid : Option ℕ) (ch : Charging)
    → Adopts q ch rid
    → IsHeld ch
    → (k : ℕ) → ch.res_seq < k
    → lookup k (convert rid ch).reservations ≡ none
convert-fresh q rid ch (inl p) v k h = ground (arith, p, v.fresh k h)
convert-fresh q rid ch (inr (id, r, p, there, own)) v k h = ground (
  arith,
  p,
  there,
  v.fresh k h,
  lookup-insert id k (record r { status = ReservationStatus.converted }) ch.reservations,
)

pub convert-keeps :
    (rid : Option ℕ) (ch : Charging)
    → ((convert rid ch).connectors ≡ ch.connectors)
      × ((convert rid ch).res_seq ≡ ch.res_seq)
      × ((convert rid ch).sessions ≡ ch.sessions)
      × ((convert rid ch).sess_seq ≡ ch.sess_seq)
convert-keeps none ch = (refl, refl, refl, refl)
convert-keeps (some rid) ch = ground arith

pub occupy-IsHeld :
    (now : ℕ) (q : StartRequest) (x : Session) (rid : Option ℕ) (c : Connector) (ch : Charging)
    → x.connector_ref ≡ q.key
    → Adopts q ch rid
    → IsHeld ch
    → IsHeld (occupy now x rid c ch)
unfolding occupy
occupy-IsHeld now q x rid c ch key a v =
    let ch' : Charging = record ch {
      sess_seq = x.session_id;
      sessions = insert x.session_id x ch.sessions;
    } in
    let v' : IsHeld ch' = record { table = v.table; fresh = v.fresh; agrees = v.agrees } in
    let d = record c { status = ConnectorStatus.occupied; last_state_change_at = now } in
    record {
      table = convert-IsTable q rid ch' a v';
      fresh = λ k h. convert-fresh q rid ch' a v' k (ground (arith, h, convert-keeps rid ch'));
      agrees = λ k e l. elim (Bool-cases (q.key == k)) [
        | inl same ↦
            ground
              (arith, same, key, l, lookup-insert x.connector_ref k d (convert rid ch').connectors)
        | inr other ↦
            let ne : q.key ≢ k = λ p. cc (other, (ref_eq.same_iff q.key k).1 p) in
            convert-IsHeldBut q rid ch' a v' k e ne (
              ground (
                arith,
                other,
                key,
                l,
                lookup-insert x.connector_ref k d (convert rid ch').connectors,
              ))
      ];
    }

occupy-IsDisjoint :
    (now : ℕ) (q : StartRequest) (x : Session) (rid : Option ℕ) (c : Connector) (ch : Charging)
    → Adopts q ch rid
    → IsDisjoint ch.reservations
    → IsDisjoint (occupy now x rid c ch).reservations
unfolding occupy
occupy-IsDisjoint now q x rid c ch (inl p) v = ground (arith, p, v)
occupy-IsDisjoint now q x rid c ch (inr (id, r, p, there, own)) v = ground (
  arith,
  p,
  there,
  set_reservation-IsDisjoint id r ReservationStatus.converted ch.reservations there
      (λ h. ground (arith, own)) v,
)

pub move_connector-IsHeldBut :
    (now : ℕ) (key : ConnectorRef) (to : SessionState) (ch : Charging)
    → IsHeld ch
    → IsHeldBut key (move_connector now key to ch)
unfolding move_connector
move_connector-IsHeldBut now key to ch v k c ne e = elim (Option-cases (lookup key ch.connectors)) [
  | inl gone ↦ ground (arith, gone, e, v.agrees k c)
  | inr (d, there) ↦
      let d' = record d { status = moved_status to d.status; last_state_change_at = now } in
      ground (arith, there, e, v.agrees k c, lookup-insert_ne key k d' ch.connectors ne)
]

move_connector-Agrees :
    (now : ℕ) (key : ConnectorRef) (to : SessionState) (ch : Charging) (c : Connector)
    → IsHeld ch
    → is_terminal to ≡ false
    → lookup key (move_connector now key to ch).connectors ≡ some c
    → Agrees c.status (has_booking key ch)
unfolding move_connector
move_connector-Agrees now key to ch c v go e = elim (Option-cases (lookup key ch.connectors)) [
  | inl gone ↦ ground (arith, gone, e)
  | inr (d, there) ↦
      let d' = record d { status = moved_status to d.status; last_state_change_at = now } in
      ground (arith, there, e, go, v.agrees key d there, lookup-insert_self key d' ch.connectors)
]

pub move_connector-tables :
    (now : ℕ) (key : ConnectorRef) (to : SessionState) (ch : Charging)
    → let ch' = move_connector now key to ch in
      (ch'.reservations ≡ ch.reservations)
      × (ch'.res_seq ≡ ch.res_seq)
      × (ch'.sessions ≡ ch.sessions)
      × (ch'.sess_seq ≡ ch.sess_seq)
unfolding move_connector
move_connector-tables now key to ch = ground arith

-- A move to a state that is not final leaves the hold as it is; a final one derives it anew.
pub move_connector-IsHeld :
    (now : ℕ) (key : ConnectorRef) (to : SessionState) (ch : Charging)
    → is_terminal to ≡ false
    → IsHeld ch
    → IsHeld (move_connector now key to ch)
move_connector-IsHeld now key to ch go v =
    let (res, seq, _, _) = move_connector-tables now key to ch in
    record {
      table = rw res v.table;
      fresh = rw (res, seq) v.fresh;
      agrees = λ k c e. rw res (elim (Bool-cases (key == k)) [
        | inl same ↦
            let p = (ref_eq.same_iff key k).0 same in
            subst (λ j. Agrees c.status (has_booking j ch)) p
              (move_connector-Agrees now key to ch c v go
                (ap (λ j. lookup j (move_connector now key to ch).connectors) p ∙ e))
        | inr other ↦
            let ne : key ≢ k = λ p. cc (other, (ref_eq.same_iff key k).1 p) in
            rw res at (move_connector-IsHeldBut now key to ch v k c ne e)
      ]);
    }

pub synced-IsHeld :
    (now : ℕ) (key : ConnectorRef) (ch : Charging)
    → IsTable (λ (r : Reservation). r.reservation_id) ch.reservations
    → ((k : ℕ) → ch.res_seq < k → lookup k ch.reservations ≡ none)
    → IsHeldBut key ch
    → IsHeld (synced now key ch)
synced-IsHeld now key ch t f h =
    let same = synced-reservations now key ch in
    record {
      table = rw same t;
      fresh = rw (same, synced-res_seq now key ch) f;
      agrees = synced-Agrees now key ch h;
    }

module _ (l : Limits) (now : ℕ) where
  pub start_session-IsHeld :
      (q : StartRequest) (s : Store)
      → IsHeld s.charging
      → IsHeld (start_session l now q s).1.charging
  unfolding start_session
  start_session-IsHeld q s v = elim (Outcome-cases (check_start q s.charging)) [
    | inl (w, e) ↦
        let (_, _, found) = check_start_lem q s.charging w e in
        rw (e, commit)
          (occupy-IsHeld now q (new_session now q w.1 s.charging) w.1 w.0 s.charging refl
            (resolve-Adopts q s.charging w.1 w.0 v.table found) v)
    | inr (f, e) ↦ rw (e, commit) v
  ]

  pub start_session-IsDisjoint :
      (q : StartRequest) (s : Store)
      → IsHeld s.charging
      → IsDisjoint s.charging.reservations
      → IsDisjoint (start_session l now q s).1.charging.reservations
  unfolding start_session
  start_session-IsDisjoint q s v d = elim (Outcome-cases (check_start q s.charging)) [
    | inl (w, e) ↦
        let (_, _, found) = check_start_lem q s.charging w e in
        rw (e, commit)
          (occupy-IsDisjoint now q (new_session now q w.1 s.charging) w.1 w.0 s.charging
            (resolve-Adopts q s.charging w.1 w.0 v.table found) d)
    | inr (f, e) ↦ rw (e, commit) d
  ]
