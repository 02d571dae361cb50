-- ===== src/Controller.antt =====
-- The controller of apps/api/src/control/controller.js: the resolvers, the compiler of profiles, the envelope
-- and the compliance check, with `shouldReplan` of apps/api/src/control/model.js. The flag that a
-- profile was clamped, and its digest, are left out.
pub mod Envelope
use volt_hub_csms.Prelude.{
  ℕ, zero, suc, ◌+◌, ◌-◌, ◌*◌, ◌/◌, Bool, true, false, not, ◌&&◌, ◌||◌, String, List, [], ◌∷◌, map,
  Option, none, some, ltb, leb, ◌==◌, nat_eq, if◌then◌else◌,
}
use volt_hub_csms.Prelude.Int.{ℤ, pos, negsuc, pos_part, neg_part, sub_ℕ, ◌+ℤ◌, ltb_ℤ}
use volt_hub_csms.Prelude.Decimal.{Decimal, to_fixed3, whole}
use volt_hub_csms.Prelude.Lists.{any, push, find}
use volt_hub_csms.Prelude.Dict.{Dict, values, lookup, contains_key, insert}
use volt_hub_csms.Prelude.Outcome.{Outcome, ok, err}
use volt_hub_csms.State.{
  Store, Charging, Session, Reservation, Schedule, Period, RateUnit, watts, EnforcementTick,
  Certificate, CertStatus, eroded, Decision, ConnectorRef, ref_eq, holds_window, compliance,
  compliance_report,
}
use volt_hub_csms.Outbox.{Limits}
use volt_hub_csms.Store.{emit}
use volt_hub_csms.Grid.{site_cap_kw}
use volt_hub_csms.Control.{transition_certificate, latest_decision, or_value}

-- `requirementKwhFor`: four fifths of the battery, to a watt-hour.
unfoldable pub requirement_kwh_for : Session → Store → Option Decimal
requirement_kwh_for x s = elim x.vehicle_id [
  | none ↦ none
  | some id ↦ elim (lookup id s.directory.vehicles) [
    | none ↦ none
    | some v ↦
        if ltb_ℤ (pos 0) v.battery_kwh
        then some (to_fixed3 (pos (pos_part v.battery_kwh * 8 / 10)))
        else none
  ]
]

-- The loop of `deadlineFor`: the earliest end of the windows held on a connector.
unfoldable pub earliest_end : ConnectorRef → Option ℕ → List Reservation → Option ℕ
earliest_end key best [] = best
earliest_end key best (r ∷ rs) =
    let next : Option ℕ = elim best [
      | none ↦ some r.end_at
      | some b ↦ some (if ltb r.end_at b then r.end_at else b)
    ] in
    earliest_end key (if r.connector_ref == key && holds_window r.status then next else best) rs

abbrev pub own_end : Session → Store → Option ℕ
own_end x s = elim x.reservation_id [
  | none ↦ none
  | some id ↦ elim (lookup id s.charging.reservations) [ none ↦ none | some r ↦ some r.end_at ]
]

-- `deadlineFor`
unfoldable pub deadline_for : ℕ → ConnectorRef → Store → Option ℕ
deadline_for sid key s = elim (lookup sid s.charging.sessions) [
  | none ↦ none
  | some x ↦ elim (own_end x s) [
    | some e ↦ some e
    | none ↦ earliest_end key none (values s.charging.reservations)
  ]
]

-- What `compileToProfiles` sums up for a charge point: the rows of the sessions on it. Energy is that of
-- the module Schedule.
unfoldable pub cp_row : ℕ → List (ℕ × (ℕ → ℕ)) → Charging → ℕ → ℕ
cp_row cp [] ch t = 0
cp_row cp ((sid, row) ∷ rows) ch t =
    (elim (lookup sid ch.sessions) as (λ _. ℕ) [
      | none ↦ 0
      | some x ↦ if x.connector_ref.cp_id == cp then row t else 0
    ])
    + cp_row cp rows ch t

-- `Math.round(kw * 1000)`, in millionths of a watt.
abbrev pub round_watts : ℕ → ℕ
round_watts kw = (kw * 1000 + 500000) / 1000000 * 1000000

-- The power of a slot, not above the capacity.
abbrev pub clamped_kw : Option ℕ → ℕ → ℕ → ℕ
clamped_kw none dt e = e / dt
clamped_kw (some cap) dt e = if ltb cap (e / dt) then cap else e / dt

-- The periods from slot `i`, with the count of those that are left.
unfoldable pub compile_periods : Option ℕ → ℕ → (ℕ → ℕ) → ℕ → ℕ → List Period
compile_periods cap dt row zero i = []
compile_periods cap dt row (suc n) i =
    record { start_period = i * dt * 60; limit = pos (round_watts (clamped_kw cap dt (row i))) }
    ∷ compile_periods cap dt row n (suc i)

unfoldable pub compile_profile : Option ℕ → ℕ → ℕ → ℕ → (ℕ → ℕ) → Schedule
compile_profile cap dt horizon start row = record {
  rate_unit = watts;
  start_schedule = some start;
  periods = compile_periods cap dt row horizon 0;
}

-- `profiles` of the charge points that the rows name.
abbrev pub cps_of : List (ℕ × (ℕ → ℕ)) → Charging → List ℕ → List ℕ
cps_of [] ch found = found
cps_of ((sid, row) ∷ rows) ch found =
    cps_of rows ch (elim (lookup sid ch.sessions) as (λ _. List ℕ) [
      | none ↦ found
      | some x ↦
          if any (λ c. c == x.connector_ref.cp_id) found
          then found
          else push x.connector_ref.cp_id found
    ])

unfoldable pub compile_to_profiles :
    Option ℕ → ℕ → ℕ → ℕ → List (ℕ × (ℕ → ℕ)) → Charging → List (ℕ × Schedule)
compile_to_profiles cap dt horizon start rows ch =
    map (λ cp. (cp, compile_profile cap dt horizon start (cp_row cp rows ch))) (cps_of rows ch [])

-- `cap * 1000 + 1e-6`, in millionths of a watt
abbrev pub watt_bound : Decimal → Decimal
watt_bound (pos n) = pos (n * 1000 + 1)
watt_bound (negsuc n) = sub_ℕ 1 (suc n * 1000)

abbrev pub exceeds : Decimal → Period → Bool
exceeds cap p = ltb_ℤ (watt_bound cap) p.limit

-- `envelopeCheck`, with the period that is refused.
unfoldable pub envelope_check : ℕ → Schedule → Store → Outcome Period (Unit {0})
envelope_check cp profile s = elim (lookup cp s.charging.cps) [
  | none ↦ ok tt
  | some x ↦ elim (site_cap_kw x.station_id s.grid) [
    | none ↦ ok tt
    | some cap ↦ elim (find (exceeds cap) profile.periods) [ none ↦ ok tt | some p ↦ err p ]
  ]
]

-- `Math.abs(t.deviation_kw || 0)`
abbrev pub deviation : EnforcementTick → ℕ
deviation t = elim t.deviation_kw [ none ↦ 0 | some d ↦ pos_part d + neg_part d ]

abbrev pub same_session : Option ℕ → Option ℕ → Bool
same_session none none = true
same_session (some a) (some b) = a == b
same_session _ _ = false

unfoldable pub worst_deviation : Certificate → List EnforcementTick → ℕ
worst_deviation c [] = 0
worst_deviation c (t ∷ ts) =
    let m = worst_deviation c ts in
    if t.cp_id == c.cp_id && same_session t.session_id c.session_id && ltb m (deviation t)
    then deviation t
    else m

abbrev pub is_active_cert : CertStatus → Bool
is_active_cert CertStatus.active = true
is_active_cert _ = false

-- The certificates of `shouldReplan` whose deviation is above the tolerance.
unfoldable pub eroded_certs : ℕ → List EnforcementTick → List Certificate → List (ℕ × ℕ)
eroded_certs tolerance ts [] = []
eroded_certs tolerance ts (c ∷ cs) =
    let rest = eroded_certs tolerance ts cs in
    let worst = worst_deviation c ts in
    if is_active_cert c.status && ltb tolerance worst then (c.cert_id, worst) ∷ rest else rest

pub data Replan : Type 0 where
  hysteresis : Replan
  within_tolerance : Replan
  -- certificate, deviation
  margin_erosion : List (ℕ × ℕ) → Replan

-- `shouldReplan`; a time that is 0 counts as missing.
abbrev pub is_waiting : ℕ → ℕ → Option ℕ → Bool
is_waiting now wait_min none = false
is_waiting now wait_min (some last) = not (last == 0) && ltb now (last + wait_min * 60000)

abbrev pub verdict_on : List (ℕ × ℕ) → Replan
verdict_on [] = within_tolerance
verdict_on (c ∷ cs) = margin_erosion (c ∷ cs)

unfoldable pub should_replan : ℕ → ℕ → ℕ → Option ℕ → Store → Replan
should_replan now tolerance wait_min last s =
    let certs =
      eroded_certs tolerance s.control.enforcement_ticks (values s.control.certificates) in
    if is_waiting now wait_min last then hysteresis else verdict_on certs

module _ (l : Limits) (now : ℕ) where
  -- The loop of `verifyCompliance`: a transition that is refused is passed over.
  unfoldable pub erode_all : List (ℕ × ℕ) → Store → Store
  erode_all [] s = s
  erode_all ((id, d) ∷ rest) s =
      erode_all rest (transition_certificate l now id eroded (some "deviation > tolerance") s).1

  -- `verifyCompliance`; the last replan is the latest decision if none is given.
  unfoldable pub verify_compliance : ℕ → ℕ → ℕ → Option ℕ → Store → Replan × Store
  verify_compliance site tolerance wait_min last s =
      let made : Option ℕ = elim (latest_decision site none (values s.control.decisions)) [
        | none ↦ none
        | some d ↦ some d.created_at
      ] in
      let anchor : Option ℕ = elim last [ none ↦ made | some t ↦ some t ] in
      let verdict = should_replan now tolerance wait_min anchor s in
      (
        verdict,
        elim verdict as (λ _. Store) [
          | margin_erosion certs ↦
              emit l now (compliance site now) (compliance_report site certs) (erode_all certs s)
          | _ ↦ s
        ],
      )
