-- ===== src/Schedule.antt =====
-- The schedule assembler of apps/api/src/control/model.js: `intervalGrid`, `acceptanceFactor` and
-- `solveSchedule`. Power, capacities and states of charge are natural numbers of millionths, and
-- energy is one of millionths of a kW for a minute, so a slot's energy is exact and what the code
-- takes for nothing (under 1e-9 kWh) is 0. A state of charge is cut to a millionth. The source
-- rounds the schedule and its metrics to four places when it returns them; the schedule and the
-- metrics here are those before that. Each vehicle has a session of its own, as the estimator's
-- have.
pub mod Sorting
pub mod Shift
pub mod Steps
pub mod Caps
pub mod Windows
pub mod Energy
pub mod Times
pub mod Floors
use volt_hub_csms.Prelude.{
  ℕ, zero, suc, ◌+◌, ◌-◌, ◌*◌, ◌/◌, Bool, true, false, not, ◌&&◌, ◌||◌, List, [], ◌∷◌, map, Option,
  none, some, ltb, leb, ◌==◌, nat_eq, if◌then◌else◌,
}
use volt_hub_csms.Prelude.Lists.{filter, find}
use volt_hub_csms.Prelude.Dict.{Dict, lookup}
use volt_hub_csms.Schedule.Sorting.{sort_by, upto, sum_below}

-- A vehicle as the estimator hands it over, with the fields that the assembler reads.
pub record Vehicle : Type 0 where
  pub session_id : ℕ
  pub cp_id : ℕ
  pub max_kw : ℕ
  -- `remainingKwh`, as energy
  pub remaining : ℕ
  pub deadline_at : Option ℕ
  pub arrival_at : Option ℕ
  pub certified_floor_kw : ℕ
  pub battery_kwh : Option ℕ
  pub soc_ref : Option ℕ
  pub start_soc : Option ℕ

-- The arguments of `solveSchedule`. `none` is an infinite capacity, as is a charge point that
-- `cp_caps` does not list. `price` is the tariff's price at a time, in millionths; `carbon` is the
-- intensity of each slot, in millionths of a gram to the kWh, where a series is given.
pub record Problem : Type 0 where
  pub vehicles : List Vehicle
  pub site_cap_kw : Option ℕ
  pub cp_caps : Dict ℕ ℕ
  pub price : ℕ → ℕ
  pub dt_min : ℕ
  pub horizon : ℕ
  pub now : ℕ
  pub acceptance_aware : Bool
  pub carbon : Option (ℕ → ℕ)
  pub carbon_weight : ℕ
  pub social_cost : ℕ

-- `clampHorizon` and `clampDtMin`; a value that is no natural number is `none`.
unfoldable pub clamp_horizon : Option ℕ → ℕ
clamp_horizon none = 24
clamp_horizon (some h) = if leb 1 h && leb h 168 then h else 24

unfoldable pub clamp_dt_min : Option ℕ → ℕ
clamp_dt_min none = 15
clamp_dt_min (some d) = if d == 5 || d == 10 || d == 15 || d == 30 || d == 60 then d else 15

abbrev pub min : ℕ → ℕ → ℕ
min a b = if ltb b a then b else a

-- `Math.min(room, n)`
abbrev pub at_most : Option ℕ → ℕ → ℕ
at_most none n = n
at_most (some r) n = min n r

-- `acceptanceFactor` with the knee at 0.8 and the floor at 0.15.
unfoldable pub acceptance_factor : ℕ → ℕ
acceptance_factor soc =
    if leb soc 800000
    then 1000000
    else if leb 1000000 soc
    then 150000
    else 150000 + 850000 * (1000000 - (soc - 800000) * 5) / 1000000

-- `v.maxKw * acceptanceFactor(soc) * dtH`
unfoldable pub rate_limit : ℕ → ℕ → ℕ → ℕ
rate_limit dt max_kw soc = max_kw * acceptance_factor soc / 1000000 * dt

-- `Math.min(1, soc + absorbed / v.batteryKwh)`
unfoldable pub charged : ℕ → ℕ → ℕ → ℕ
charged battery soc e = min 1000000 (soc + e * 1000000 / (60 * battery))

-- The rows `x` and the needs `need` of one vehicle. A slot that was not written holds 0.
pub record Entry : Type 0 where
  pub vehicle : Vehicle
  pub need : ℕ
  pub row : ℕ → ℕ

pub record Plan : Type 0 where
  pub entries : List Entry
  pub shifted : ℕ

abbrev pub new_entry : Vehicle → Entry
new_entry v = record { vehicle = v; need = v.remaining; row = λ _. 0 }

-- `x.get(sid)`, `need.get(sid)`, and their change.
abbrev pub is_entry : ℕ → Entry → Bool
is_entry sid e = e.vehicle.session_id == sid

unfoldable pub find_entry : ℕ → List Entry → Option Entry
find_entry sid es = find (is_entry sid) es

unfoldable pub put_entry : ℕ → Entry → List Entry → List Entry
put_entry sid e [] = []
put_entry sid e (x ∷ xs) = if is_entry sid x then e ∷ xs else x ∷ put_entry sid e xs

-- `row[t] += a`, `row[t] -= a`
abbrev pub add_at : ℕ → ℕ → (ℕ → ℕ) → ℕ → ℕ
add_at t a row u = if u == t then row u + a else row u

abbrev pub take_at : ℕ → ℕ → (ℕ → ℕ) → ℕ → ℕ
take_at t a row u = if u == t then row u - a else row u

-- `sumSite`, `sumCp`
unfoldable pub sum_site : ℕ → List Entry → ℕ
sum_site t [] = 0
sum_site t (e ∷ es) = e.row t + sum_site t es

unfoldable pub sum_cp : ℕ → ℕ → List Entry → ℕ
sum_cp cp t [] = 0
sum_cp cp t (e ∷ es) = (if e.vehicle.cp_id == cp then e.row t else 0) + sum_cp cp t es

module _ (q : Problem) where
  -- `intervalGrid`
  abbrev pub slot_ms : ℕ
  slot_ms = q.dt_min * 60000

  abbrev pub grid_start : ℕ
  grid_start = q.now / slot_ms * slot_ms

  abbrev pub tick_at : ℕ → ℕ
  tick_at t = grid_start + t * slot_ms

  -- `planningSoc`, with the battery.
  unfoldable pub planning_soc : Vehicle → Option (ℕ × ℕ)
  planning_soc v = elim v.battery_kwh [
    | none ↦ none
    | some b ↦ if not q.acceptance_aware || b == 0 then none else elim v.soc_ref [
      | some s ↦ some (b, min 1000000 s)
      | none ↦ elim v.start_soc [ some s ↦ some (b, min 1000000 s) | none ↦ none ]
    ]
  ]

  -- The loop of `socBefore` over the slots from `i`, with the count of those that are left.
  unfoldable pub soc_after : ℕ → ℕ → ℕ → ℕ → (ℕ → ℕ) → ℕ → ℕ
  soc_after max_kw battery zero i row soc = soc
  soc_after max_kw battery (suc n) i row soc = soc_after max_kw battery n (suc i) row (
      if row i == 0
      then soc
      else charged battery soc (min (row i) (rate_limit q.dt_min max_kw soc)))

  -- `acceptanceKwh`
  unfoldable pub acceptance_kwh : Entry → ℕ → ℕ
  acceptance_kwh e t =
      let most = e.vehicle.max_kw * q.dt_min in
      elim (planning_soc e.vehicle) [
        | none ↦ most
        | some (b, s) ↦
            min most
              (rate_limit q.dt_min e.vehicle.max_kw (soc_after e.vehicle.max_kw b t 0 e.row s))
      ]

  -- `deadlineSlot` and `arrivalSlot`; a deadline before the grid closes the window at once.
  abbrev pub deadline_slot : Vehicle → Option ℕ
  deadline_slot v = elim v.deadline_at [
    | none ↦ none
    | some d ↦ some ((d - grid_start + slot_ms - 1) / slot_ms)
  ]

  abbrev pub arrival_slot : Vehicle → ℕ
  arrival_slot v = elim v.arrival_at [ none ↦ 0 | some a ↦ (a - grid_start) / slot_ms ]

  abbrev pub vehicle_of : ℕ → Option Vehicle
  vehicle_of sid = find (λ v. v.session_id == sid) q.vehicles

  -- `dl`, `av`
  unfoldable pub dl : ℕ → ℕ
  dl sid = elim (vehicle_of sid) [ none ↦ q.horizon | some v ↦ at_most (deadline_slot v) q.horizon ]

  unfoldable pub av : ℕ → ℕ
  av sid = elim (vehicle_of sid) [ none ↦ 0 | some v ↦ arrival_slot v ]

  -- The two rooms whose lesser is `roomAt`.
  abbrev pub site_room : ℕ → List Entry → Option ℕ
  site_room t es = elim q.site_cap_kw [ none ↦ none | some c ↦ some (c * q.dt_min - sum_site t es) ]

  abbrev pub cp_room : ℕ → ℕ → List Entry → Option ℕ
  cp_room cp t es = elim (lookup cp q.cp_caps) [
    | none ↦ none
    | some c ↦ some (c * q.dt_min - sum_cp cp t es)
  ]

  unfoldable pub within_room : ℕ → ℕ → List Entry → ℕ → ℕ
  within_room cp t es n = at_most (site_room t es) (at_most (cp_room cp t es) n)

  abbrev pub deliverable : Entry → ℕ → ℕ → ℕ
  deliverable e t kwh = if q.acceptance_aware then acceptance_kwh e t else kwh

  unfoldable pub amount_for : Entry → ℕ → ℕ → List Entry → ℕ
  amount_for e t kwh es =
      within_room e.vehicle.cp_id t es (min (min kwh (deliverable e t kwh)) e.need)

  -- `give`
  unfoldable pub give : ℕ → ℕ → ℕ → List Entry → List Entry
  give sid t kwh es = if ltb t (av sid) || leb (dl sid) t then es else elim (find_entry sid es) [
    | none ↦ es
    | some e ↦
        let a = amount_for e t kwh es in
        put_entry sid (record e { need = e.need - a; row = add_at t a e.row }) es
  ]

  -- `need.get(sid) > 1e-9`
  abbrev pub has_need : ℕ → List Entry → Bool
  has_need sid es = elim (find_entry sid es) [ none ↦ false | some e ↦ ltb 0 e.need ]

  -- Pass 1: the slots from `t` of one promise, with the count of those that are left.
  unfoldable pub floor_slots : ℕ → ℕ → ℕ → ℕ → List Entry → List Entry
  floor_slots sid per_t zero t es = es
  floor_slots sid per_t (suc n) t es =
      let rest = floor_slots sid per_t n (suc t) (give sid t per_t es) in
      if has_need sid es then rest else es

  unfoldable pub serve_floors : List Vehicle → List Entry → List Entry
  serve_floors [] es = es
  serve_floors (v ∷ vs) es = serve_floors vs (
      if v.certified_floor_kw == 0
      then es
      else floor_slots v.session_id (min v.certified_floor_kw v.max_kw * q.dt_min)
          (dl v.session_id - av v.session_id) (av v.session_id) es)

  -- Pass 2: one slot, and the slots in turn.
  unfoldable pub fill_slot : ℕ → List Vehicle → List Entry → List Entry
  fill_slot t [] es = es
  fill_slot t (v ∷ vs) es =
      fill_slot t vs
        (if has_need v.session_id es then give v.session_id t (v.max_kw * q.dt_min) es else es)

  unfoldable pub fill : List ℕ → List Vehicle → List Entry → List Entry
  fill [] vs es = es
  fill (t ∷ ts) vs es = fill ts vs (fill_slot t vs es)
