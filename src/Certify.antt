-- ===== src/Certify.antt =====
-- Admission control: `certifyVehicle` of apps/api/src/control/model.js, and `certifySite` with
-- `latestCertFor`, `certifiedFloorFor` and `requirementKwhFor` of apps/api/src/control/controller.js.
-- Power and energy are the natural numbers of the module Schedule.
pub mod Floor
pub mod Promises
use volt_hub_csms.Prelude.{
  ℕ, zero, suc, ◌+◌, ◌-◌, ◌*◌, ◌/◌, Bool, true, false, not, ◌&&◌, ◌||◌, List, [], ◌∷◌, Option, none,
  some, ltb, leb, ◌==◌, nat_eq, if◌then◌else◌,
}
use volt_hub_csms.Prelude.Int.{pos, pos_part}
use volt_hub_csms.Prelude.Decimal.{Decimal, round_to}
use volt_hub_csms.Prelude.Lists.{push}
use volt_hub_csms.Prelude.Dict.{values, lookup}
use volt_hub_csms.State.{Store, Certificate, CertStatus, eroded, guarantee_issued}
use volt_hub_csms.Outbox.{Limits}
use volt_hub_csms.Store.{notify}
use volt_hub_csms.Control.{CertRequest, issue_certificate, or_value}
use volt_hub_csms.Schedule.{Vehicle, acceptance_factor, charged, min, at_most}
use volt_hub_csms.Schedule.Sorting.{sort_by}

-- `Math.max(0, siteCapKw - certifiedFloorKw)`; no capacity is an infinite one.
abbrev pub residual : Option ℕ → ℕ → Option ℕ
residual none floors = none
residual (some cap) floors = some (cap - floors)

-- The battery and the state of charge, where the battery is known.
abbrev pub battery_state : Vehicle → Option (ℕ × ℕ)
battery_state v = elim v.battery_kwh [
  | none ↦ none
  | some b ↦ if b == 0 then none else some (b, or_value v.soc_ref 0)
]

-- `Math.min(vehicle.maxKw * taper, residualKw)`
unfoldable pub rate_at : ℕ → Option ℕ → Option (ℕ × ℕ) → ℕ
rate_at max_kw room none = at_most room max_kw
rate_at max_kw room (some (b, soc)) = at_most room (max_kw * acceptance_factor soc / 1000000)

abbrev pub charged_state : ℕ → Option (ℕ × ℕ) → Option (ℕ × ℕ)
charged_state e none = none
charged_state e (some (b, soc)) = some (b, charged b soc e)

pub record Worst : Type 0 where
  pub energy : ℕ
  pub last_rate : ℕ

-- The loop over the intervals that are left.
unfoldable pub worst_case : ℕ → Option ℕ → ℕ → ℕ → Worst → Option (ℕ × ℕ) → Worst
worst_case max_kw room target zero w soc = w
worst_case max_kw room target (suc n) w soc =
    let rate = rate_at max_kw room soc in
    let kwh = rate * 15 in
    let w' : Worst = record { energy = w.energy + kwh; last_rate = rate } in
    let rest = worst_case max_kw room target n w' (charged_state kwh soc) in
    if leb target w'.energy then w' else rest

-- `Math.max(1, Math.floor(windowMin / dtMin))`
abbrev pub intervals_until : ℕ → Option ℕ → ℕ
intervals_until now none = 24
intervals_until now (some d) = let n = (d - now) / 900000 in if n == 0 then 1 else n

pub record Verdict : Type 0 where
  pub admitted : Bool
  pub floor_kw : ℕ
  pub margin_kwh : ℕ
  pub worst_case_kwh : ℕ
  pub required_kwh : ℕ

-- `certifyVehicle`, the margin as energy. Power is rounded to a watt, energy to a watt-hour.
unfoldable pub certify_vehicle : Vehicle → Option ℕ → ℕ → ℕ → ℕ → Verdict
certify_vehicle v cap floors now margin =
    let room = residual cap floors in
    let target = v.remaining + margin in
    let w =
      worst_case v.max_kw room target (intervals_until now v.deadline_at)
        (record { energy = 0; last_rate = at_most room v.max_kw }) (battery_state v) in
    record {
      admitted = leb target w.energy;
      floor_kw = round_to 1000 w.last_rate;
      margin_kwh = round_to 60000 margin;
      worst_case_kwh = round_to 60000 w.energy;
      required_kwh = round_to 60000 v.remaining;
    }

-- `latestCertFor`
abbrev pub later_cert : Option Certificate → Certificate → Option Certificate
later_cert none c = some c
later_cert (some b) c = if ltb b.cert_id c.cert_id then some c else some b

abbrev pub is_of : ℕ → Certificate → Bool
is_of sid c = elim c.session_id [ none ↦ false | some k ↦ k == sid ]

unfoldable pub latest_cert : ℕ → Option Certificate → List Certificate → Option Certificate
latest_cert sid best [] = best
latest_cert sid best (c ∷ cs) = latest_cert sid (if is_of sid c then later_cert best c else best) cs

abbrev pub is_active_cert : CertStatus → Bool
is_active_cert CertStatus.active = true
is_active_cert _ = false

-- `certifiedFloorFor`
unfoldable pub certified_floor_for : ℕ → List Certificate → ℕ
certified_floor_for sid [] = 0
certified_floor_for sid (c ∷ cs) =
    (if is_of sid c && is_active_cert c.status then pos_part c.floor_kw else 0)
    + certified_floor_for sid cs

-- `['ACTIVE', 'ERODED'].includes(prior.status)`
abbrev pub stands : CertStatus → Bool
stands CertStatus.active = true
stands eroded = true
stands _ = false

abbrev pub has_failed : CertStatus → Bool
has_failed CertStatus.failed = true
has_failed _ = false

-- `othersFloor`
unfoldable pub others_floor : ℕ → List Vehicle → ℕ
others_floor sid [] = 0
others_floor sid (v ∷ vs) =
    (if v.session_id == sid then 0 else v.certified_floor_kw) + others_floor sid vs

-- `target.certifiedFloorKw = row.floor_kw` on the first vehicle of a session.
unfoldable pub promise : ℕ → ℕ → List Vehicle → List Vehicle
promise sid floor [] = []
promise sid floor (v ∷ vs) =
    let rest = promise sid floor vs in
    if v.session_id == sid then record v { certified_floor_kw = floor } ∷ vs else v ∷ rest

-- The rows that `certifySite` returns: session, certificate, status, whether it was there already.
pub record Issued : Type 0 where
  pub session_id : ℕ
  pub cert_id : ℕ
  pub status : CertStatus
  pub reused : Bool

pub record Site : Type 0 where
  pub vehicles : List Vehicle
  pub issued : List Issued
  pub store : Store

abbrev pub reuse : ℕ → Certificate → Site → Site
reuse sid c t = record t {
  issued =
      push (record { session_id = sid; cert_id = c.cert_id; status = c.status; reused = true })
        t.issued;
}

-- An energy in the store's millionths of a kWh.
abbrev pub as_kwh : ℕ → Decimal
as_kwh e = pos (e / 60)

module _ (l : Limits) (now : ℕ) (station : ℕ) (user_of : ℕ → ℕ) (connector_of : ℕ → ℕ)
    (cap : Option ℕ) (margin : ℕ) where
  abbrev pub cert_request : Vehicle → Verdict → CertRequest
  cert_request v d = record {
    session_id = some v.session_id;
    reservation_id = none;
    station_id = station;
    cp_id = v.cp_id;
    connector_no = connector_of v.session_id;
    floor_kw = pos d.floor_kw;
    margin_kwh = as_kwh d.margin_kwh;
    worst_case_kwh = as_kwh d.worst_case_kwh;
    required_kwh = as_kwh d.required_kwh;
    deadline_at = v.deadline_at;
    decision_id = none;
    admitted = d.admitted;
  }

  -- A certificate is issued; an active one is kept as the vehicle's floor and told to the driver.
  unfoldable pub issue : Vehicle → Verdict → Site → Site
  issue v d t =
      let (c, s) = issue_certificate l now (cert_request v d) t.store in
      let told : Store = record s {
        trail =
            notify now (user_of v.session_id)
              (guarantee_issued c.cert_id c.floor_kw c.worst_case_kwh) s.trail;
      } in
      record {
        vehicles = if d.admitted then promise v.session_id d.floor_kw t.vehicles else t.vehicles;
        issued =
            push
              (record {
                session_id = v.session_id;
                cert_id = c.cert_id;
                status = c.status;
                reused = false;
              })
              t.issued;
        store = if d.admitted then told else s;
      }

  abbrev pub verdict_on : Vehicle → Site → Verdict
  verdict_on v t = certify_vehicle v cap (others_floor v.session_id t.vehicles) now margin

  -- A session whose last certificate is this one.
  unfoldable pub certify_after : Option Certificate → Vehicle → Site → Site
  certify_after none v t = issue v (verdict_on v t) t
  certify_after (some c) v t =
      if stands c.status || has_failed c.status && not (verdict_on v t).admitted
      then reuse v.session_id c t
      else issue v (verdict_on v t) t

  unfoldable pub certify_all : List Vehicle → Site → Site
  certify_all [] t = t
  certify_all (v ∷ vs) t =
      certify_all vs
        (certify_after (latest_cert v.session_id none (values t.store.control.certificates)) v t)

  -- `certifySite`
  unfoldable pub certify_site : List Vehicle → Store → Site
  certify_site vs s =
      certify_all (sort_by (λ a b. ltb a.session_id b.session_id) vs)
        (record { vehicles = vs; issued = []; store = s })
