-- ===== src/Ocpp/Status.antt =====
-- About StatusNotification in apps/api/src/ocpp/gateway.js.
use volt_hub_csms.Prelude.{
  ℕ, ◌≡◌, refl, ap, ◌∙◌, String, Option, none, some, arith, ◌⊎◌, inl, inr, Option-cases,
}
use volt_hub_csms.Prelude.Dict.{lookup, insert, lookup-insert_self}
use volt_hub_csms.Store.{set_status}
use volt_hub_csms.State.{Store, Charging, Connector, ConnectorRef, ref_eq, ConnectorStatus}
use volt_hub_csms.Outbox.{Limits}
use volt_hub_csms.Ocpp.Reports.{
  StatusReport, status_notification, report_status, reported_status, kept_status, note_fault,
  real_error,
}

abbrev pub connector_at : ℕ → ℕ → ConnectorRef
connector_at cp number = record { cp_id = cp; connector_no = number }

-- `c.status`
abbrev pub status_at : ConnectorRef → Store → Option ConnectorStatus
status_at key s = elim (lookup key s.charging.connectors) [ none ↦ none | some c ↦ some c.status ]

-- A fault passes whatever the status was.
kept_faulted :
    (x : ConnectorStatus)
    → some (kept_status x ConnectorStatus.faulted) ≡ some ConnectorStatus.faulted
kept_faulted ConnectorStatus.available = refl
kept_faulted ConnectorStatus.occupied = refl
kept_faulted ConnectorStatus.reserved = refl
kept_faulted ConnectorStatus.faulted = refl
kept_faulted ConnectorStatus.offline = refl
kept_faulted ConnectorStatus.unavailable = refl

note_fault_connectors :
    (now : ℕ) (key : ConnectorRef) (e : Option String) (info : Option String) (ch : Charging)
    → (note_fault now key e info ch).connectors ≡ ch.connectors
unfolding note_fault
note_fault_connectors now key none info ch = refl
note_fault_connectors now key (some e) info ch = refl

inserted_status :
    (key : ConnectorRef) (c : Connector) (s t : Store)
    → t.charging.connectors ≡ insert key c s.charging.connectors
    → status_at key t ≡ some c.status
inserted_status key c s t h = ground (arith, h, lookup-insert_self key c s.charging.connectors)

status_at-some :
    (key : ConnectorRef) (s : Store) (x : ConnectorStatus)
    → status_at key s ≡ some x
    → (c : Connector) × (lookup key s.charging.connectors ≡ some c) × (c.status ≡ x)
status_at-some key s x h = elim (Option-cases (lookup key s.charging.connectors)) [
  | inl gone ↦ absurd (ground (arith, gone, h))
  | inr (c, there) ↦ (c, there, ground (arith, there, h))
]

module _ (l : Limits) where
  report_connectors :
      (now cp : ℕ) (p : StatusReport) (s : Store) (c : Connector)
      → lookup (connector_at cp p.connector_id) s.charging.connectors ≡ some c
      → (status_notification l now cp p s).1.charging.connectors
        ≡ insert
            (connector_at cp p.connector_id)
            (record c {
              status = kept_status c.status (reported_status p.status);
              last_state_change_at = now;
            })
            s.charging.connectors
  unfolding status_notification report_status
  report_connectors now cp p s c h =
      let key = connector_at cp p.connector_id in
      rw (h, status_notification)
        (note_fault_connectors now key (real_error p.error_code) p.info
          (set_status now key (kept_status c.status (reported_status p.status)) c s.charging))

  -- The status after a report, on a connector that is there.
  pub status_notification_status :
      (now cp : ℕ) (p : StatusReport) (s : Store) (x : ConnectorStatus)
      → status_at (connector_at cp p.connector_id) s ≡ some x
      → status_at (connector_at cp p.connector_id) (status_notification l now cp p s).1
        ≡ some (kept_status x (reported_status p.status))
  status_notification_status now cp p s x h =
      let key = connector_at cp p.connector_id in
      let (c, there, e) = status_at-some key s x h in
      inserted_status key _ s (status_notification l now cp p s).1
        (report_connectors now cp p s c there)
      ∙ ap (λ y. some (kept_status y (reported_status p.status))) e

  -- A report that a connector is Available never frees it: OCCUPIED and RESERVED stay.
  pub available_keeps :
      (now cp : ℕ) (p : StatusReport) (s : Store) (x : ConnectorStatus)
      → status_at (connector_at cp p.connector_id) s ≡ some x
      → p.status ≡ "Available"
      → (x ≡ ConnectorStatus.occupied) ⊎ (x ≡ ConnectorStatus.reserved)
      → status_at (connector_at cp p.connector_id) (status_notification l now cp p s).1 ≡ some x
  available_keeps now cp p s x h e held =
      status_notification_status now cp p s x h
      ∙ ap (λ t. some (kept_status x (reported_status t))) e
      ∙ elim held [ inl o ↦ rw o refl | inr r ↦ rw r refl ]

  -- A connector that is there, whatever its status, is AVAILABLE after its charge point reported a fault
  -- and then Available: what kept OCCUPIED and RESERVED is lost with the first report.
  pub faulted_then_available :
      (t1 t2 cp : ℕ) (p q : StatusReport) (s : Store) (x : ConnectorStatus)
      → status_at (connector_at cp p.connector_id) s ≡ some x
      → p.status ≡ "Faulted"
      → q.status ≡ "Available"
      → q.connector_id ≡ p.connector_id
      → status_at
          (connector_at cp q.connector_id)
          (status_notification l t2 cp q (status_notification l t1 cp p s).1).1
        ≡ some ConnectorStatus.available
  faulted_then_available t1 t2 cp p q s x h e f k =
      let faulted : status_at (connector_at cp q.connector_id) (status_notification l t1 cp p s).1
          ≡ some ConnectorStatus.faulted =
        ap (λ n. status_at (connector_at cp n) (status_notification l t1 cp p s).1) k
        ∙ status_notification_status t1 cp p s x h
        ∙ ap (λ t. some (kept_status x (reported_status t))) e
        ∙ kept_faulted x in
      status_notification_status t2 cp q (status_notification l t1 cp p s).1 ConnectorStatus.faulted
        faulted
      ∙ ap (λ t. some (kept_status ConnectorStatus.faulted (reported_status t))) f
