-- ===== src/Sessions/Sound.antt =====
-- About active sessions and their connectors, under each change of the tables of
-- apps/api/src/db/store.js.
use volt_hub_csms.Prelude.{
  ℕ, ◌<◌, ◌≡◌, ◌≢◌, refl, Bool, true, false, ◌||◌, ◌⊎◌, inl, inr, none, some, arith, ◌==◌, nat_eq,
  Bool-cases, Option-cases, if◌then◌else◌, not,
}
use volt_hub_csms.Prelude.Dict.{lookup, insert, lookup-insert}
use volt_hub_csms.Prelude.Table.{IsTable, insert-IsTable}
use volt_hub_csms.State.{
  Charging, Reservation, Session, Connector, ConnectorRef, ref_eq, ConnectorStatus,
  ReservationStatus, is_bookable, is_terminal, is_active,
}
use volt_hub_csms.Store.{set_status}
use volt_hub_csms.Booking.{book, set_reservation, hold_status, same_hold}
use volt_hub_csms.Booking.Holds.{synced}

pub record IsSound (ch : Charging) : Type 0 where
  pub table : IsTable (λ (x : Session). x.session_id) ch.sessions
  pub fresh : (k : ℕ) → ch.sess_seq < k → lookup k ch.sessions ≡ none
  pub live :
      (i : ℕ) (x : Session)
      → lookup i ch.sessions ≡ some x
      → (is_active x.state || is_terminal x.state) ≡ true
  pub occupied :
      (i : ℕ) (x : Session) (c : Connector)
      → lookup i ch.sessions ≡ some x
      → is_active x.state ≡ true
      → lookup x.connector_ref ch.connectors ≡ some c
      → c.status ≡ ConnectorStatus.occupied
  pub single :
      (i j : ℕ) (x y : Session)
      → lookup i ch.sessions ≡ some x
      → lookup j ch.sessions ≡ some y
      → i ≢ j
      → is_active x.state ≡ true
      → is_active y.state ≡ true
      → x.connector_ref ≢ y.connector_ref

-- A change that leaves the sessions alone, and of the connectors changes only bookable ones.
pub record Spares (a b : Charging) : Type 0 where
  pub sessions : b.sessions ≡ a.sessions
  pub sess_seq : b.sess_seq ≡ a.sess_seq
  pub connectors :
      (k : ConnectorRef) (c : Connector)
      → lookup k b.connectors ≡ some c
      → (lookup k a.connectors ≡ some c)
        ⊎ ((d : Connector) × (lookup k a.connectors ≡ some d) × (is_bookable d.status ≡ true))

pub IsSound-Spares : (a b : Charging) → Spares a b → IsSound a → IsSound b
IsSound-Spares a b p v = record {
  table = rw p.sessions v.table;
  fresh = rw (p.sessions, p.sess_seq) v.fresh;
  live = rw p.sessions v.live;
  occupied = rw p.sessions (λ i x c e act l. elim (p.connectors x.connector_ref c l) [
    | inl same ↦ v.occupied i x c e act same
    | inr (d, before, free) ↦ absurd (ground (arith, v.occupied i x d e act before, free))
  ]);
  single = rw p.sessions v.single;
}

-- A bookable connector changes its status.
set_status-Spares :
    (now : ℕ) (key : ConnectorRef) (to : ConnectorStatus) (c : Connector) (ch : Charging)
    → lookup key ch.connectors ≡ some c
    → is_bookable c.status ≡ true
    → Spares ch (set_status now key to c ch)
set_status-Spares now key to c ch there free = record {
  sessions = refl;
  sess_seq = refl;
  connectors = λ k d e.
      let c' = record c { status = to; last_state_change_at = now } in
      elim (Bool-cases (key == k)) [
        | inl same ↦ inr (c, ground (arith, same, there, ref_eq.same_iff key k), free)
        | inr other ↦ inl (ground (arith, other, e, lookup-insert key k c' ch.connectors))
      ];
}

pub synced-Spares : (now : ℕ) (key : ConnectorRef) (ch : Charging) → Spares ch (synced now key ch)
unfolding synced
synced-Spares now key ch = elim (Option-cases (lookup key ch.connectors)) [
  | inl gone ↦
      rw (gone, synced) (record { sessions = refl; sess_seq = refl; connectors = λ k c e. inl e })
  | inr (c, there) ↦
      rw (there, synced)
        (go c there (is_bookable c.status) refl (same_hold c.status (hold_status key ch)))
]
  where
    go :
        (c : Connector)
        → lookup key ch.connectors ≡ some c
        → (b : Bool) → is_bookable c.status ≡ b
        → (m : Bool)
        → Spares ch
            (if not b then ch else if m then ch else set_status now key (hold_status key ch) c ch)
    go c there true free false = set_status-Spares now key (hold_status key ch) c ch there free
    go c there true free true = record {
      sessions = refl;
      sess_seq = refl;
      connectors = λ k c e. inl e;
    }
    go c there false free m = record {
      sessions = refl;
      sess_seq = refl;
      connectors = λ k c e. inl e;
    }

pub book-Spares :
    (now : ℕ) (r : Reservation) (c : Connector) (ch : Charging)
    → lookup r.connector_ref ch.connectors ≡ some c
    → is_bookable c.status ≡ true
    → Spares ch (book now r c ch)
unfolding book
book-Spares now r c ch there free =
    let ch' : Charging = record ch {
      res_seq = r.reservation_id;
      reservations = insert r.reservation_id r ch.reservations;
    } in
    let p = set_status-Spares now r.connector_ref ConnectorStatus.reserved c ch' there free in
    record { sessions = refl; sess_seq = refl; connectors = p.connectors }

pub set_reservation-Spares :
    (r : Reservation) (to : ReservationStatus) (ch : Charging) → Spares ch (set_reservation r to ch)
set_reservation-Spares r to ch = record {
  sessions = refl;
  sess_seq = refl;
  connectors = λ k c e. inl e;
}

pub Spares-trans : (a b c : Charging) → Spares a b → Spares b c → IsSound a → IsSound c
Spares-trans a b c p q v = IsSound-Spares b c q (IsSound-Spares a b p v)

-- A session is replaced by one on the same connector that is active only if it was.
pub replace_session-IsSound :
    (k : ℕ) (x y : Session) (ch : Charging)
    → lookup k ch.sessions ≡ some x
    → y.session_id ≡ k
    → y.connector_ref ≡ x.connector_ref
    → (is_active y.state ≡ true → is_active x.state ≡ true)
    → (is_active y.state || is_terminal y.state) ≡ true
    → IsSound ch
    → IsSound (record ch { sessions = insert k y ch.sessions })
replace_session-IsSound k x y ch there id same weaker alive v = record {
  table = insert-IsTable (λ (z : Session). z.session_id) k y ch.sessions id v.table;
  fresh = λ i h. ground (arith, lookup-insert k i y ch.sessions, v.fresh i h, there);
  live = λ i z e. ground (arith, lookup-insert k i y ch.sessions, v.live i z, e, alive);
  occupied = λ i z c e act l. ground (
    arith,
    lookup-insert k i y ch.sessions,
    v.occupied i z c,
    v.occupied k x c there,
    e,
    act,
    l,
    weaker,
    same,
  );
  single = λ i j z w e f ne a b. ground (
    arith,
    lookup-insert k i y ch.sessions,
    lookup-insert k j y ch.sessions,
    v.single i j z w,
    v.single k j x w there,
    v.single i k z x,
    there,
    e,
    f,
    ne,
    a,
    b,
    weaker,
    same,
  );
}

-- A connector may change to anything if no session is active on it, and to OCCUPIED always.
pub set_status-IsSound :
    (now : ℕ) (key : ConnectorRef) (to : ConnectorStatus) (c : Connector) (ch : Charging)
    → ((i : ℕ) (x : Session)
        → lookup i ch.sessions ≡ some x
        → is_active x.state ≡ true
        → x.connector_ref ≡ key
        → to ≡ ConnectorStatus.occupied)
    → IsSound ch
    → IsSound (set_status now key to c ch)
set_status-IsSound now key to c ch allowed v =
    let c' = record c { status = to; last_state_change_at = now } in
    record {
      table = v.table;
      fresh = v.fresh;
      live = v.live;
      occupied = λ i x d e act l. ground (
        arith,
        lookup-insert key x.connector_ref c' ch.connectors,
        ref_eq.same_iff key x.connector_ref,
        v.occupied i x d e act,
        allowed i x e act,
        l,
      );
      single = v.single;
    }
