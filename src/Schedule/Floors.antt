-- ===== src/Schedule/Floors.antt =====
-- About the first two passes of `solveSchedule` of apps/api/src/control/model.js, for one slot.
use volt_hub_csms.Prelude.{
  ℕ, ◌+◌, ◌-◌, ◌*◌, ◌≤◌, ◌<◌, ◌≡◌, Bool, true, [], ◌∷◌, map, none, refl, arith, nat_eq, nat_beq_iff,
}
use volt_hub_csms.Prelude.Dict.{lookup}
use volt_hub_csms.Schedule.{
  Vehicle, Problem, Entry, Plan, new_entry, add_at, has_need, give, find_entry, put_entry,
  amount_for, av, dl, within_room, sum_site, acceptance_kwh, planning_soc, floor_slots,
  serve_floors, fill_slot, fill,
}
use volt_hub_csms.Schedule.Shift.{
  shift_to, shift_vehicles, shift_slots, cheaper, solve_schedule, feasible_entries, price_order,
}
use volt_hub_csms.Schedule.Sorting.{sort_by}

-- A vehicle alone, in a horizon of one slot with no capacity listed; its battery is not known.
abbrev pub lone_problem : Vehicle → ℕ → ℕ → Bool → Problem
lone_problem v now dt aware = record {
  vehicles = v ∷ [];
  site_cap_kw = none;
  cp_caps = [];
  price = λ _. 0;
  dt_min = dt;
  horizon = 1;
  now = now;
  acceptance_aware = aware;
  carbon = none;
  carbon_weight = 0;
  social_cost = 0;
}

module _ (v : Vehicle) (now dt : ℕ) (aware : Bool) (no_deadline : v.deadline_at ≡ none)
    (here : v.arrival_at ≡ none) (unknown : v.battery_kwh ≡ none) where
  abbrev problem : Problem
  problem = lone_problem v now dt aware

  window : (dl problem v.session_id ≡ 1) × (av problem v.session_id ≡ 0)
  unfolding dl av
  window = (
    ground (arith, nat_beq_iff v.session_id v.session_id),
    ground (arith, nat_beq_iff v.session_id v.session_id),
  )

  abbrev entry : ℕ → (ℕ → ℕ) → Entry
  entry n r = record { vehicle = v; need = n; row = r }

  soc_unknown : planning_soc problem v ≡ none
  unfolding planning_soc
  soc_unknown = rw (unknown, planning_soc) refl

  amount_lone :
      (kwh n : ℕ) (r : ℕ → ℕ)
      → kwh ≤ v.max_kw * dt
      → kwh ≤ n
      → amount_for problem (entry n r) 0 kwh (entry n r ∷ []) ≡ kwh
  unfolding amount_for within_room acceptance_kwh lookup
  amount_lone kwh n r a b = ground (arith, soc_unknown)

  give_lone :
      (kwh n : ℕ) (r : ℕ → ℕ)
      → kwh ≤ v.max_kw * dt
      → kwh ≤ n
      → give problem v.session_id 0 kwh (entry n r ∷ []) ≡ entry (n - kwh) (add_at 0 kwh r) ∷ []
  unfolding give find_entry put_entry
  give_lone kwh n r a b =
      ground
        (arith, window.0, window.1, amount_lone kwh n r a b, nat_beq_iff v.session_id v.session_id)

  module _ (promised : 0 < v.certified_floor_kw) (rated : v.certified_floor_kw ≤ v.max_kw)
      (wanted : (v.certified_floor_kw + v.max_kw) * dt ≤ v.remaining) (long : 0 < dt) where
    abbrev after_floor : ℕ → ℕ
    after_floor = add_at 0 (v.certified_floor_kw * dt) (λ _. 0)

    has_need_lone :
        (n : ℕ) (r : ℕ → ℕ) → 0 < n → has_need problem v.session_id (entry n r ∷ []) ≡ true
    unfolding find_entry
    has_need_lone n r h = ground (arith, nat_beq_iff v.session_id v.session_id)

    floor_energy : v.certified_floor_kw * dt ≤ v.max_kw * dt
    floor_energy = grind arith

    max_energy : 0 < v.max_kw * dt
    max_energy = grind arith

    floors_lone :
        serve_floors problem (v ∷ []) (map new_entry (v ∷ []))
        ≡ entry (v.remaining - v.certified_floor_kw * dt) after_floor ∷ []
    unfolding serve_floors floor_slots
    floors_lone = ground (
      arith,
      window.0,
      window.1,
      floor_energy,
      max_energy,
      has_need_lone v.remaining (λ _. 0),
      give_lone (v.certified_floor_kw * dt) v.remaining (λ _. 0),
    )

    fill_lone :
        feasible_entries problem
        ≡ entry
            (v.remaining - v.certified_floor_kw * dt - v.max_kw * dt)
            (add_at 0 (v.max_kw * dt) after_floor)
          ∷ []
    unfolding feasible_entries fill fill_slot sort_by
    fill_lone = ground (
      arith,
      floors_lone,
      floor_energy,
      max_energy,
      has_need_lone (v.remaining - v.certified_floor_kw * dt) after_floor,
      give_lone (v.max_kw * dt) (v.remaining - v.certified_floor_kw * dt) after_floor,
    )

    shift_lone : (p : Plan) → shift_slots problem (price_order problem) p ≡ p
    unfolding shift_slots shift_vehicles cheaper shift_to sort_by
    shift_lone p = ground arith

    -- Alone in a horizon of one slot with no capacity listed, a vehicle of unknown battery that has a
    -- certified floor within its rating, and that needs enough, is planned its floor and its full rating in the
    -- same slot: more energy than its rating can take, whether or not the allocator is acceptance-aware.
    pub solve_schedule_exceeds :
        (sum_site 0 (solve_schedule problem).entries ≡ (v.certified_floor_kw + v.max_kw) * dt)
        × (v.max_kw * dt < sum_site 0 (solve_schedule problem).entries)
    unfolding solve_schedule sum_site
    solve_schedule_exceeds = rw (shift_lone, fill_lone) (grind arith, grind arith)
