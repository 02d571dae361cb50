-- ===== src/Schedule/Shift.antt =====
-- Pass 3 of `solveSchedule` in apps/api/src/control/model.js, the whole assembler, and its metrics.
-- The schedule and the metrics are those before the source rounds them to four places.
use volt_hub_csms.Prelude.{
  ℕ, zero, suc, ◌+◌, ◌-◌, ◌*◌, ◌/◌, Bool, false, not, ◌&&◌, ◌||◌, List, [], ◌∷◌, map, Option, none,
  some, ltb, leb, ◌==◌, nat_eq, if◌then◌else◌,
}
use volt_hub_csms.Prelude.Lists.{filter}
use volt_hub_csms.Schedule.Sorting.{sort_by, upto, sum_below}
use volt_hub_csms.Schedule.{
  Vehicle, Problem, Entry, Plan, min, new_entry, find_entry, put_entry, add_at, take_at, sum_site,
  tick_at, av, dl, within_room, acceptance_kwh, rate_limit, charged, planning_soc, serve_floors,
  fill, clamp_horizon, clamp_dt_min,
}

module _ (q : Problem) where
  -- `score`, times 10^12: the price, and the price of the carbon where it has a weight.
  unfoldable pub score : ℕ → ℕ
  score t =
      let price = q.price (tick_at q t) * 1000000000000 in
      elim q.carbon [
        | none ↦ price
        | some g ↦ price + g t * q.social_cost * min 1000000 q.carbon_weight
      ]

  -- The body of the innermost loop. What the row holds at `t_exp` is what the code calls `movable`:
  -- both lose what is moved.
  abbrev pub movable_to : Entry → ℕ → ℕ → List Entry → ℕ
  movable_to e t_exp t_cheap es =
      let room =
        if q.acceptance_aware then acceptance_kwh q e t_cheap - e.row t_cheap else e.row t_exp in
      within_room q e.vehicle.cp_id t_cheap es (min (e.row t_exp) room)

  unfoldable pub shift_one : ℕ → ℕ → ℕ → Plan → Plan
  shift_one sid t_exp t_cheap p = elim (find_entry sid p.entries) [
    | none ↦ p
    | some e ↦
        let moved = movable_to e t_exp t_cheap p.entries in
        if moved == 0 then p else record {
          entries =
              put_entry sid (record e { row = add_at t_cheap moved (take_at t_exp moved e.row) })
                p.entries;
          shifted = p.shifted + moved;
        }
  ]

  unfoldable pub shift_to : ℕ → ℕ → List ℕ → Plan → Plan
  shift_to sid t_exp [] p = p
  shift_to sid t_exp (t ∷ ts) p = shift_to sid t_exp ts (shift_one sid t_exp t p)

  -- `cheaper`: the slots of the window with a lower score, the cheapest first.
  abbrev pub is_cheaper : ℕ → ℕ → ℕ → Bool
  is_cheaper sid t_exp t =
      leb (av q sid) t && ltb t (dl q sid) && not (t == t_exp) && ltb (score t) (score t_exp)

  unfoldable pub cheaper : ℕ → ℕ → List ℕ
  cheaper sid t_exp =
      sort_by (λ a b. ltb (score a) (score b) || score a == score b && ltb a b)
        (filter (is_cheaper sid t_exp) (upto q.horizon 0))

  unfoldable pub shift_vehicles : ℕ → List Vehicle → Plan → Plan
  shift_vehicles t_exp [] p = p
  shift_vehicles t_exp (v ∷ vs) p =
      shift_vehicles t_exp vs (shift_to v.session_id t_exp (cheaper v.session_id t_exp) p)

  abbrev pub by_session : List Vehicle → List Vehicle
  by_session = sort_by (λ a b. ltb a.session_id b.session_id)

  -- `target`
  abbrev pub holders : ℕ → Plan → List Vehicle
  holders t p = by_session (
      filter
        (λ v. elim (find_entry v.session_id p.entries) [ none ↦ false | some e ↦ ltb 0 (e.row t) ])
        q.vehicles)

  unfoldable pub shift_slots : List ℕ → Plan → Plan
  shift_slots [] p = p
  shift_slots (t ∷ ts) p = shift_slots ts (shift_vehicles t (holders t p) p)

  -- `priceOrder`
  abbrev pub price_order : List ℕ
  price_order =
      sort_by (λ a b. ltb (score b) (score a) || score a == score b && ltb a b) (upto q.horizon 0)

  -- `edf`
  abbrev pub by_deadline : List Vehicle
  by_deadline =
      sort_by
        (λ a b.
          ltb (dl q a.session_id) (dl q b.session_id)
          || dl q a.session_id == dl q b.session_id && ltb a.session_id b.session_id)
        q.vehicles

  -- The schedule after the two passes that give energy, and after the one that moves it.
  unfoldable pub feasible_entries : List Entry
  feasible_entries =
      fill q (upto q.horizon 0) by_deadline
        (serve_floors q (by_session q.vehicles) (map new_entry q.vehicles))

  -- `solveSchedule` before `toFixed(4)`
  unfoldable pub solve_schedule : Plan
  solve_schedule = shift_slots price_order (record { entries = feasible_entries; shifted = 0 })

-- `dtMin` and `horizon` are clamped first.
abbrev pub clamped : Option ℕ → Option ℕ → Problem → Problem
clamped dt h q = record q { dt_min = clamp_dt_min dt; horizon = clamp_horizon h }

-- The metrics `unmet`, `delivered`, `peak` (a power) and `cost` (times 60) of a plan.
unfoldable pub unmet : List Entry → ℕ
unmet [] = 0
unmet (e ∷ es) = e.need + unmet es

unfoldable pub delivered : ℕ → List Entry → ℕ
delivered h [] = 0
delivered h (e ∷ es) = sum_below h e.row + delivered h es

abbrev pub max_below : ℕ → (ℕ → ℕ) → ℕ
max_below zero f = 0
max_below (suc n) f = let m = max_below n f in if ltb m (f n) then f n else m

unfoldable pub peak_kw : Problem → List Entry → ℕ
peak_kw q es = max_below q.horizon (λ t. sum_site t es / q.dt_min)

unfoldable pub cost : Problem → List Entry → ℕ
cost q es = sum_below q.horizon (λ t. q.price (tick_at q t) * sum_site t es)

-- `absorbedByVehicle` over the slots from `i`, with the count of those that are left.
unfoldable pub absorbed : ℕ → ℕ → ℕ → ℕ → ℕ → (ℕ → ℕ) → ℕ → ℕ
absorbed dt max_kw battery zero i row soc = 0
absorbed dt max_kw battery (suc n) i row soc =
    let a = min (row i) (rate_limit dt max_kw soc) in
    a + absorbed dt max_kw battery n (suc i) row (charged battery soc a)

unfoldable pub absorbed_by_vehicle : Problem → Entry → ℕ
absorbed_by_vehicle q e = elim (planning_soc q e.vehicle) [
  | none ↦ sum_below q.horizon e.row
  | some (b, s) ↦ absorbed q.dt_min e.vehicle.max_kw b q.horizon 0 e.row s
]
