-- ===== src/Sessions/SoundKept.antt =====
-- About active sessions and their connectors, for reservations and session starts of
-- apps/api/src/db/store.js.
use volt_hub_csms.Prelude.{
  ℕ, suc, ◌≡◌, ◌≢◌, refl, sym, ap, ◌∙◌, true, inl, inr, List, [], ◌∷◌, map, Option, some, arith,
  nat_eq, Option-cases,
}
use volt_hub_csms.Prelude.Dict.{values, lookup, insert, lookup-insert}
use volt_hub_csms.Prelude.Table.{insert-IsTable}
use volt_hub_csms.Prelude.Outcome.{commit, Outcome-cases}
use volt_hub_csms.State.{
  Store, Charging, Session, Connector, ConnectorRef, ref_eq, ConnectorStatus, ReservationStatus,
  is_bookable, is_active, Role,
}
use volt_hub_csms.Outbox.{Limits}
use volt_hub_csms.Booking.{
  book, set_reservation, sync_connector_hold, create_reservation, check_reservation,
  new_reservation, cancel_reservation, check_cancel, expire_one, expire_all, expire_stale,
}
use volt_hub_csms.Booking.Holds.{synced, sync_connector_hold-charging}
use volt_hub_csms.Booking.Windows.{check_reservation_lem}
use volt_hub_csms.Sessions.{StartRequest, start_session, check_start, new_session, occupy}
use volt_hub_csms.Sessions.Starts.{check_start_lem}
use volt_hub_csms.Sessions.Keeps.{convert-keeps}
use volt_hub_csms.Sessions.Sound.{
  IsSound, IsSound-Spares, synced-Spares, book-Spares, set_reservation-Spares,
}

release-IsSound :
    (l : Limits) (now : ℕ) (key : ConnectorRef) (rid : Option ℕ) (s : Store)
    → IsSound s.charging
    → IsSound (sync_connector_hold l now key rid s).charging
release-IsSound l now key rid s v =
    rw (sync_connector_hold-charging l now key rid s)
      (IsSound-Spares s.charging (synced now key s.charging) (synced-Spares now key s.charging) v)

module _ (l : Limits) (now : ℕ) where
  pub create_reservation-IsSound :
      (uid : ℕ) (vehicle_id : Option ℕ) (key : ConnectorRef) (start_at end_at : Option ℕ)
      (s : Store)
      → IsSound s.charging
      → IsSound (create_reservation l now uid vehicle_id key start_at end_at s).1.charging
  unfolding create_reservation
  create_reservation-IsSound uid vehicle_id key start_at end_at s v =
      elim (Outcome-cases (check_reservation now key start_at end_at s.charging)) [
        | inl (w, e) ↦
            let (_, _, _, there, free) =
              check_reservation_lem now key start_at end_at s.charging w e in
            let r = new_reservation now uid vehicle_id key w.0 w.1 s.charging in
            rw (e, commit)
              (IsSound-Spares s.charging (book now r w.2 s.charging)
                (book-Spares now r w.2 s.charging there free) v)
        | inr (f, e) ↦ rw (e, commit) v
      ]

  pub cancel_reservation-IsSound :
      (rid actor : ℕ) (role : Role) (scope : Option (List ℕ)) (s : Store)
      → IsSound s.charging
      → IsSound (cancel_reservation l now rid actor role scope s).1.charging
  unfolding cancel_reservation
  cancel_reservation-IsSound rid actor role scope s v =
      elim (Outcome-cases (check_cancel rid actor role scope s.charging)) [
        | inl (r, e) ↦
            let marked : Store = record s {
              charging = set_reservation r ReservationStatus.cancelled s.charging;
            } in
            rw (e, commit)
              (release-IsSound l now r.connector_ref (some rid) marked (
                IsSound-Spares s.charging marked.charging
                  (set_reservation-Spares r ReservationStatus.cancelled s.charging) v))
        | inr (f, e) ↦ rw (e, commit) v
      ]

  expire_one-IsSound :
      (id : ℕ) (acc : Store × ℕ)
      → IsSound acc.0.charging
      → IsSound (expire_one l now id acc).0.charging
  unfolding expire_one
  expire_one-IsSound id (s, n) v = elim (Option-cases (lookup id s.charging.reservations)) [
    | inl gone ↦ rw (gone, expire_one) v
    | inr (r, there) ↦
        let marked : Store = record s {
          charging = set_reservation r ReservationStatus.expired s.charging;
        } in
        ground (
          arith,
          there,
          v,
          release-IsSound l now r.connector_ref (some r.reservation_id) marked (
              IsSound-Spares s.charging marked.charging
                (set_reservation-Spares r ReservationStatus.expired s.charging) v),
        )
  ]

  expire_all-IsSound :
      (ids : List ℕ) (acc : Store × ℕ)
      → IsSound acc.0.charging
      → IsSound (expire_all l now ids acc).0.charging
  unfolding expire_all
  expire_all-IsSound [] acc v = v
  expire_all-IsSound (id ∷ ids) acc v =
      expire_all-IsSound ids (expire_one l now id acc) (expire_one-IsSound id acc v)

  pub expire_stale-IsSound :
      (s : Store) → IsSound s.charging → IsSound (expire_stale l now s).0.charging
  unfolding expire_stale
  expire_stale-IsSound s v =
      expire_all-IsSound (map (λ r. r.reservation_id) (values s.charging.reservations)) (s, 0) v

-- A new session on a connector that no session is active on, which is then occupied.
occupy-IsSound :
    (now : ℕ) (x : Session) (rid : Option ℕ) (c : Connector) (ch : Charging)
    → x.session_id ≡ suc ch.sess_seq
    → is_active x.state ≡ true
    → lookup x.connector_ref ch.connectors ≡ some c
    → is_bookable c.status ≡ true
    → IsSound ch
    → IsSound (occupy now x rid c ch)
unfolding occupy
occupy-IsSound now x rid c ch next act there free v =
    let ch' : Charging = record ch {
      sess_seq = x.session_id;
      sessions = insert x.session_id x ch.sessions;
    } in
    let (conns, _, sess, seq) = convert-keeps rid ch' in
    let c' = record c { status = ConnectorStatus.occupied; last_state_change_at = now } in
    let alone : (i : ℕ) (y : Session)
        → lookup i ch.sessions ≡ some y
        → is_active y.state ≡ true
        → x.connector_ref ≢ y.connector_ref =
      (λ i y e a p.
        cc (free, v.occupied i y c e a (ap (λ k. lookup k ch.connectors) (sym p) ∙ there))) in
    record {
      table =
          rw sess (
            insert-IsTable (λ (z : Session). z.session_id) x.session_id x ch.sessions refl v.table);
      fresh =
          rw (sess, seq)
            (λ k h. ground (arith, lookup-insert x.session_id k x ch.sessions, v.fresh k));
      live =
          rw sess
            (λ i y e. ground (arith, lookup-insert x.session_id i x ch.sessions, v.live i y, e));
      occupied =
          rw (sess, conns)
            (λ i y d e a l'. ground (
              arith,
              lookup-insert x.session_id i x ch.sessions,
              lookup-insert x.connector_ref y.connector_ref c' ch.connectors,
              ref_eq.same_iff x.connector_ref y.connector_ref,
              v.occupied i y d,
              e,
              a,
              l',
            ));
      single = rw sess (λ i j y z e f ne a b. ground (
        arith,
        lookup-insert x.session_id i x ch.sessions,
        lookup-insert x.session_id j x ch.sessions,
        v.single i j y z,
        alone i y,
        alone j z,
        e,
        f,
        ne,
        a,
        b,
      ));
    }

module _ (l : Limits) (now : ℕ) where
  pub start_session-IsSound :
      (q : StartRequest) (s : Store)
      → IsSound s.charging
      → IsSound (start_session l now q s).1.charging
  unfolding start_session
  start_session-IsSound q s v = elim (Outcome-cases (check_start q s.charging)) [
    | inl (w, e) ↦
        let (there, free, _) = check_start_lem q s.charging w e in
        rw (e, commit)
          (occupy-IsSound now (new_session now q w.1 s.charging) w.1 w.0 s.charging refl refl there
            free v)
    | inr (f, e) ↦ rw (e, commit) v
  ]
