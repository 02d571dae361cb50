-- ===== src/Control.antt =====
-- Control records of apps/api/src/db/store.js: `recordDecision`, `latestDecisionFor`, `issueCertificate`,
-- `transitionCertificate` and `recordEnforcementTick`.
pub mod Certificates
use volt_hub_csms.Prelude.{
  ℕ, suc, ◌+◌, ◌-◌, ◌*◌, ◌/◌, Bool, true, false, not, ◌&&◌, ◌||◌, String, List, [], ◌∷◌, ◌++◌,
  Option, none, some, ltb, leb, ◌==◌, nat_eq, if◌then◌else◌,
}
use volt_hub_csms.Prelude.Lists.{push, filter, find, length}
use volt_hub_csms.Prelude.Int.{ℤ, pos, negsuc, ◌-ℤ◌}
use volt_hub_csms.Prelude.Decimal.{Decimal, to_fixed4, div_whole}
use volt_hub_csms.Prelude.Dict.{values, lookup, insert}
use volt_hub_csms.Prelude.Outcome.{Outcome, ok, err, ◌>>=◌, ◌>>◌, throw_if, or_throw, commit}
use volt_hub_csms.State.{
  Store, Control, Decision, Certificate, CertStatus, eroded, met, Reason, infeasible, given,
  RateUnit, amps, watts, Period, Schedule, Ack, accepted, refused, ProfilePush, EnforcementTick,
  Failure, missing, e_illegal_transition, DedupeKey, decision_made, cert_issued, cert_moved,
  profile_pushed, enforcement, Payload, decision_committed, cert_lifecycle, push_recorded,
  enforcement_tick,
}
use volt_hub_csms.Outbox.{Limits}
use volt_hub_csms.Store.{Result, emit}

abbrev pub or_value {ℓ} : {A : Type ℓ} → Option A → A → A
or_value none d = d
or_value (some a) d = a

-- `(legal[c.status] || []).includes(to)`
abbrev pub legal_certificate : CertStatus → CertStatus → Bool
legal_certificate CertStatus.issued CertStatus.active = true
legal_certificate CertStatus.issued CertStatus.failed = true
legal_certificate CertStatus.active eroded = true
legal_certificate CertStatus.active CertStatus.failed = true
legal_certificate CertStatus.active met = true
legal_certificate eroded CertStatus.failed = true
legal_certificate eroded met = true
legal_certificate eroded CertStatus.active = true
legal_certificate _ _ = false

-- The arguments of `issueCertificate`; numbers that are missing or no numbers are 0 already.
pub record CertRequest : Type 0 where
  pub session_id : Option ℕ
  pub reservation_id : Option ℕ
  pub station_id : ℕ
  pub cp_id : ℕ
  pub connector_no : ℕ
  pub floor_kw : Decimal
  pub margin_kwh : Decimal
  pub worst_case_kwh : Decimal
  pub required_kwh : Decimal
  pub deadline_at : Option ℕ
  pub decision_id : Option ℕ
  pub admitted : Bool

abbrev pub later_decision : Option Decision → Decision → Option Decision
later_decision none d = some d
later_decision (some b) d = if ltb b.decision_id d.decision_id then some d else some b

-- `s.latestDecisionFor`
unfoldable pub latest_decision : ℕ → Option Decision → List Decision → Option Decision
latest_decision site best [] = best
latest_decision site best (d ∷ ds) =
    let next = if d.site_id == site then later_decision best d else best in
    latest_decision site next ds

abbrev pub set_control : Control → Store → Store
set_control c s = record s { control = c }

-- `if (ticks.length > 5000) ticks.splice(0, ticks.length - 5000)`
unfoldable pub keep_last : ℕ → List EnforcementTick → List EnforcementTick
keep_last n [] = []
keep_last n (t ∷ ts) = let rest = keep_last n ts in if ltb n (suc (length ts)) then rest else t ∷ ts

module _ (l : Limits) (now : ℕ) where
  -- `s.recordDecision`
  unfoldable pub record_decision :
      ℕ → Option ℕ → Option ℕ → Option ℕ → Option ℕ → Store → Decision × Store
  record_decision site horizon interval runtime version s =
      let id = suc s.control.decision_seq in
      let d : Decision = record {
        decision_id = id;
        site_id = site;
        horizon_start = or_value horizon now;
        interval_min = or_value interval 15;
        runtime_ms = runtime;
        state_version = version;
        created_at = now;
      } in
      (
        d,
        set_control
            (record s.control { decision_seq = id; decisions = insert id d s.control.decisions })
            (emit l now (decision_made id) (decision_committed id site d.interval_min) s),
      )

  abbrev pub new_certificate : CertRequest → Control → Certificate
  new_certificate q c = record {
    cert_id = suc c.cert_seq;
    session_id = q.session_id;
    reservation_id = q.reservation_id;
    station_id = q.station_id;
    cp_id = q.cp_id;
    connector_no = q.connector_no;
    floor_kw = q.floor_kw;
    margin_kwh = q.margin_kwh;
    worst_case_kwh = q.worst_case_kwh;
    required_kwh = q.required_kwh;
    deadline_at = q.deadline_at;
    decision_id = q.decision_id;
    status = if q.admitted then CertStatus.active else CertStatus.failed;
    issued_at = now;
    updated_at = now;
    reason = if q.admitted then none else some infeasible;
  }

  -- `s.issueCertificate`
  unfoldable pub issue_certificate : CertRequest → Store → Certificate × Store
  issue_certificate q s =
      let c = new_certificate q s.control in
      let id = c.cert_id in
      (
        c,
        set_control
            (record s.control { cert_seq = id; certificates = insert id c s.control.certificates })
            (emit l now (cert_issued id) (cert_lifecycle id none c.status c.reason) s),
      )

  unfoldable pub check_certificate : ℕ → CertStatus → Control → Outcome Failure Certificate
  check_certificate id to c = do
    x ← or_throw (lookup id c.certificates) missing
    throw_if (not (legal_certificate x.status to)) e_illegal_transition
    ok x

  abbrev pub moved_certificate : CertStatus → Option String → Certificate → Certificate
  moved_certificate to reason x = record x {
    status = to;
    reason = elim reason [ none ↦ x.reason | some t ↦ some (given t) ];
    updated_at = now;
  }

  -- `s.transitionCertificate`; a reason that is missing or empty is `none`.
  unfoldable pub transition_certificate :
      ℕ → CertStatus → Option String → Store → Result Certificate
  transition_certificate id to reason s =
      commit (check_certificate id to s.control)
        (λ x.
          let y = moved_certificate to reason x in
          (
            ok y,
            set_control
                (record s.control { certificates = insert x.cert_id y s.control.certificates })
                (emit l now (cert_moved x.cert_id to now)
                  (cert_lifecycle x.cert_id (some x.status) to y.reason) s),
          ))
        s

  -- `s.recordEnforcementTick`
  unfoldable pub record_enforcement_tick :
      ℕ
      → Option ℕ
      → Option ℕ
      → Decimal
      → Option Decimal
      → Option ℕ
      → Store
      → EnforcementTick × Store
  record_enforcement_tick cp sid decision scheduled actual at s =
      let t : EnforcementTick = record {
        ts = or_value at now;
        cp_id = cp;
        session_id = sid;
        decision_id = decision;
        scheduled_kw = scheduled;
        actual_kw = actual;
        deviation_kw = elim actual [ none ↦ none | some x ↦ some (to_fixed4 (x -ℤ scheduled)) ];
      } in
      (
        t,
        set_control
            (record s.control {
              enforcement_ticks = keep_last 5000 (push t s.control.enforcement_ticks);
            })
            (emit l now (enforcement cp t.ts scheduled) (enforcement_tick t) s),
      )
