-- ===== src/Ocpp/Owned.antt =====
-- About the charge point of a session and the calls of others, in apps/api/src/ocpp/gateway.js.
use volt_hub_csms.Prelude.{
  ℕ, suc, ◌<◌, ◌≡◌, ◌≢◌, refl, ◌∙◌, ap, subst, true, false, String, Option, none, some, arith, ◌==◌,
  nat_eq, inl, inr, Option-cases, Bool-cases,
}
use volt_hub_csms.Prelude.Decimal.{Decimal}
use volt_hub_csms.Prelude.Dict.{lookup}
use volt_hub_csms.Prelude.Outcome.{Outcome, ok, err}
use volt_hub_csms.State.{Store, Charging, Failure, Session}
use volt_hub_csms.Outbox.{Limits}
use volt_hub_csms.Metering.{TickRequest, record_tick}
use volt_hub_csms.Ocpp.Metered.{sampled-charging}
use volt_hub_csms.Ocpp.Reports.{StatusReport, status_notification, report_status, note_fault}
use volt_hub_csms.Ocpp.Meters.{
  World, Sample, energy_sample, power_sample, other_sample, meter, meter_sample, meter_values,
  is_owner, cursor_of,
}
use volt_hub_csms.Ocpp.Frames.{
  Request, handle_call, stop_own, stop_transaction, start_transaction, started, user_of_tag,
  boot_notification, heartbeat, status_report, authorize_tag, start, meters, stop, unsupported,
}
use volt_hub_csms.Ocpp.SameBut.{
  stop_session-SameBut, record_tick-SameBut, start_session-SameBut, Rows,
}

-- A session that another charge point holds, the table of sessions being in order.
abbrev pub IsForeign : ℕ → ℕ → Session → Charging → Type 0
IsForeign cp j x ch =
    Rows ch
    × ((k : ℕ) → ch.sess_seq < k → lookup k ch.sessions ≡ none)
    × (lookup j ch.sessions ≡ some x)
    × (x.connector_ref.cp_id ≢ cp)

module _ (l : Limits) (now : ℕ) (cp j : ℕ) (x : Session) (w : World)
    (foreign : IsForeign cp j x w.store.charging) where
  not_own :
      (sid : ℕ) → is_owner cp (lookup sid w.store.charging.sessions) ≡ true → (sid == j) ≡ false
  not_own sid h = elim (Bool-cases (sid == j)) [
    | inr other ↦ other
    | inl same ↦
        let e : sid ≡ j = (nat_eq.same_iff sid j).0 same in
        absurd (
          foreign.3 (
            (nat_eq.same_iff x.connector_ref.cp_id cp).0 (
              subst (λ o. is_owner cp o ≡ true)
                (ap (λ k. lookup k w.store.charging.sessions) e ∙ foreign.2) h)))
  ]

  meter_foreign :
      (sid : ℕ) (register : Decimal) (power : Option Decimal)
      → (sid == j) ≡ false
      → lookup j (meter l now cp sid register power w).1.store.charging.sessions ≡ some x
  unfolding meter
  meter_foreign sid register power other =
      let q : TickRequest = record {
        sid = sid;
        seq = suc (cursor_of sid w);
        at = some now;
        kwh = some register;
        kw = power;
        v = none;
        a = none;
      } in
      ground (
        arith,
        record_tick-SameBut l now q w.store foreign.0 j other,
        foreign.2,
        sampled-charging l now cp sid power (record_tick l now q w.store).1,
      )

  sample_foreign :
      (sid : ℕ) (sample : Sample)
      → (sid == j) ≡ false
      → lookup j (meter_sample l now cp sid sample w).1.store.charging.sessions ≡ some x
  sample_foreign sid (energy_sample none power) other = foreign.2
  sample_foreign sid (energy_sample (some register) power) other =
      meter_foreign sid register power other
  sample_foreign sid (power_sample power) other = meter_foreign sid _ power other
  sample_foreign sid other_sample other = foreign.2

  meter_values_foreign :
      (tx : Option ℕ) (sample : Sample)
      → lookup j (meter_values l now cp tx sample w).1.store.charging.sessions ≡ some x
  unfolding meter_values
  meter_values_foreign none sample = foreign.2
  meter_values_foreign (some sid) sample =
      elim (Bool-cases (is_owner cp (lookup sid w.store.charging.sessions))) [
        | inl own ↦ rw own (sample_foreign sid sample (not_own sid own))
        | inr refused ↦ rw refused foreign.2
      ]

  stop_own_foreign :
      (sid : ℕ) (register : Option Decimal)
      → (sid == j) ≡ false
      → lookup j (stop_own l now sid register w).1.store.charging.sessions ≡ some x
  unfolding stop_own
  stop_own_foreign sid register other = ground (
    arith,
    stop_session-SameBut l now sid (some "OCPP_STOP") register w.store foreign.0 j other,
    foreign.2,
  )

  stop_transaction_foreign :
      (tx : Option ℕ) (register : Option Decimal)
      → lookup j (stop_transaction l now cp tx register w).1.store.charging.sessions ≡ some x
  unfolding stop_transaction
  stop_transaction_foreign none register = foreign.2
  stop_transaction_foreign (some sid) register =
      elim (Option-cases (lookup sid w.store.charging.sessions)) [
        | inl gone ↦ rw (gone, stop_transaction) foreign.2
        | inr (y, there) ↦ elim (Bool-cases (y.connector_ref.cp_id == cp)) [
          | inl own ↦
              rw (there, stop_transaction)
                (rw own (stop_own_foreign sid register (not_own sid (ground (arith, there, own)))))
          | inr refused ↦ rw (there, stop_transaction) (rw refused foreign.2)
        ]
      ]

  not_next : (suc w.store.charging.sess_seq == j) ≡ false
  not_next =
      ground (arith, foreign.1 j, foreign.2, nat_eq.same_iff (suc w.store.charging.sess_seq) j)

  started_store : (r : Outcome Failure Session × Store) → (started r w).1.store ≡ r.1
  unfolding started
  started_store (ok y, s) = refl
  started_store (err f, s) = refl

  start_transaction_foreign :
      (tags : String → Option ℕ) (tag : String) (connector : ℕ) (register : Option Decimal)
      → lookup j
          (start_transaction tags l now cp tag connector register w).1.store.charging.sessions
        ≡ some x
  unfolding start_transaction
  start_transaction_foreign tags tag connector register =
      elim (Option-cases (user_of_tag tags tag w.store)) [
        | inl unknown ↦ rw (unknown, start_transaction) foreign.2
        | inr (uid, user) ↦
            rw (user, start_transaction)
              (rw (started_store _) (start_session-SameBut l now _ w.store j not_next ∙ foreign.2))
      ]

  status_notification-sessions :
      (p : StatusReport)
      → (status_notification l now cp p w.store).1.charging.sessions ≡ w.store.charging.sessions
  unfolding status_notification report_status note_fault
  status_notification-sessions p = ground arith

  -- Whatever a charge point calls, a session on another charge point stands as it did, in all its fields, where
  -- sessions stand under their numbers and numbers above the sequence are free.
  pub handle_call_foreign :
      (tags : String → Option ℕ) (request : Request)
      → lookup j (handle_call tags l now cp request w).1.store.charging.sessions ≡ some x
  unfolding handle_call
  handle_call_foreign tags boot_notification = ground (arith, foreign.2)
  handle_call_foreign tags heartbeat = ground (arith, foreign.2)
  handle_call_foreign tags (status_report p) = rw (status_notification-sessions p) foreign.2
  handle_call_foreign tags (authorize_tag tag) = foreign.2
  handle_call_foreign tags (start tag connector register) =
      start_transaction_foreign tags tag connector register
  handle_call_foreign tags (meters tx sample) = meter_values_foreign tx sample
  handle_call_foreign tags (stop tx register) = stop_transaction_foreign tx register
  handle_call_foreign tags unsupported = foreign.2
