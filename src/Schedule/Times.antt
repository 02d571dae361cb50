-- ===== src/Schedule/Times.antt =====
-- About the times at which a schedule of apps/api/src/control/model.js charges a vehicle.
use volt_hub_csms.Prelude.{
  ℕ, suc, ◌+◌, ◌-◌, ◌*◌, ◌/◌, ◌≤◌, ◌<◌, ◌≡◌, ◌||◌, List, [], ◌∷◌, map, some, sym, ap, ◌∙◌, arith,
  ◌==◌, nat_eq, leb, ltb, Bool-cases, Option-cases, inl, inr,
}
use volt_hub_csms.Prelude.Lists.{find}
use volt_hub_csms.Schedule.Sorting.{All}
use volt_hub_csms.Schedule.{
  Vehicle, Problem, Entry, Plan, new_entry, give, find_entry, av, dl, tick_at, slot_ms, vehicle_of,
  grid_start,
}
use volt_hub_csms.Schedule.Shift.{shift_one, solve_schedule, movable_to}
use volt_hub_csms.Schedule.Steps.{solve_schedule_keep}
use volt_hub_csms.Schedule.Windows.{
  IsInWindow, All-put_entry, find_entry-id, solve_schedule-IsInWindow,
}
use volt_hub_csms.Schedule.Energy.{
  dl-le-horizon, vehicles_of, give-vehicles, shift_one-vehicles, new_entry-vehicles,
}
use native.Mathlib.Nat.{le-div_iff_mul-le, div-lt_iff_lt-mul}

-- A slot with energy for a vehicle is one of the horizon, begins before the vehicle's deadline and ends after its
-- arrival, both in milliseconds.
abbrev pub IsTimely : Problem → Entry → Type 0
IsTimely q e =
    (t : ℕ)
    → 0 < e.row t
    → (t < q.horizon)
      × ((d : ℕ) → e.vehicle.deadline_at ≡ some d → tick_at q t < d)
      × ((a : ℕ) → e.vehicle.arrival_at ≡ some a → a < tick_at q t + slot_ms q)

before_ceiling : (x m t : ℕ) → 0 < m → t < (x + m - 1) / m → t * m < x
before_ceiling x m t h k =
    let l : suc t * m ≤ x + m - 1 =
      (le-div_iff_mul-le {k = m} {x = suc t} {y = x + m - 1} h).0 (omega (arith, k)) in
    omega (arith, l)

after_floor : (x m t : ℕ) → 0 < m → x / m ≤ t → x < t * m + m
after_floor x m t h k =
    let l : x < suc t * m =
      (div-lt_iff_lt-mul {k = m} {x = x} {y = suc t} h).0 (omega (arith, k)) in
    omega (arith, l)

find_entry-vehicle :
    (sid : ℕ) (e : Entry) (es : List Entry)
    → find_entry sid es ≡ some e
    → find (λ v. v.session_id == sid) (vehicles_of es) ≡ some e.vehicle
unfolding find_entry
find_entry-vehicle sid e [] h = cc
find_entry-vehicle sid e (x ∷ xs) h = ground (arith, find_entry-vehicle sid e xs)

module _ (q : Problem) where
  -- A vehicle that is given energy is the one that the bounds of its window are read from.
  abbrev IsKnown : Entry → Type 0
  IsKnown e = (t : ℕ) → 0 < e.row t → vehicle_of q e.vehicle.session_id ≡ some e.vehicle

  known :
      (sid : ℕ) (e : Entry) (es : List Entry)
      → vehicles_of es ≡ q.vehicles
      → find_entry sid es ≡ some e
      → vehicle_of q e.vehicle.session_id ≡ some e.vehicle
  known sid e es same found =
      ap (λ vs. find (λ v. v.session_id == e.vehicle.session_id) vs) (sym same)
      ∙ ap (λ k. find (λ v. v.session_id == k) (vehicles_of es)) (find_entry-id sid e es found)
      ∙ find_entry-vehicle sid e es found

  give-IsKnown :
      (sid t kwh : ℕ) (es : List Entry)
      → vehicles_of es ≡ q.vehicles
      → All IsKnown es
      → All IsKnown (give q sid t kwh es)
  unfolding give
  give-IsKnown sid t kwh es same h = elim (Bool-cases (ltb t (av q sid) || leb (dl q sid) t)) [
    | inl out ↦ rw out h
    | inr within ↦ elim (Option-cases (find_entry sid es)) [
      | inl missing ↦ rw (within, missing) h
      | inr (e, found) ↦
          rw (within, found) (All-put_entry IsKnown sid _ es h (λ u k. known sid e es same found))
    ]
  ]

  shift_one-IsKnown :
      (sid t_exp t : ℕ) (p : Plan)
      → vehicles_of p.entries ≡ q.vehicles
      → All IsKnown p.entries
      → All IsKnown (shift_one q sid t_exp t p).entries
  unfolding shift_one
  shift_one-IsKnown sid t_exp t p same h = elim (Option-cases (find_entry sid p.entries)) [
    | inl missing ↦ rw (missing, shift_one) h
    | inr (e, found) ↦ elim (Bool-cases (movable_to q e t_exp t p.entries == 0)) [
      | inl nothing ↦ rw (found, shift_one) (rw nothing h)
      | inr some_energy ↦
          rw (found, shift_one)
            (rw some_energy
              (All-put_entry IsKnown sid _ p.entries h (λ u k. known sid e p.entries same found)))
    ]
  ]

  new_entry-IsKnown : (vs : List Vehicle) → All IsKnown (map new_entry vs)
  new_entry-IsKnown [] = tt
  new_entry-IsKnown (v ∷ vs) = (λ t k. absurd (omega arith), new_entry-IsKnown vs)

  solve_schedule-IsKnown : All IsKnown (solve_schedule q).entries
  solve_schedule-IsKnown =
      (solve_schedule_keep q (λ es. (vehicles_of es ≡ q.vehicles) × All IsKnown es)
        (λ sid t kwh es h. (give-vehicles q sid t kwh es ∙ h.0, give-IsKnown sid t kwh es h.0 h.1))
        (λ sid t_exp t p c h.
          (shift_one-vehicles q sid t_exp t p ∙ h.0, shift_one-IsKnown sid t_exp t p h.0 h.1))
        (new_entry-vehicles q q.vehicles, new_entry-IsKnown q.vehicles)).1

  dl-deadline :
      (v : Vehicle) (d : ℕ)
      → vehicle_of q v.session_id ≡ some v
      → v.deadline_at ≡ some d
      → (dl q v.session_id ≤ q.horizon)
        × (dl q v.session_id ≤ (d - grid_start q + slot_ms q - 1) / slot_ms q)
  unfolding dl
  dl-deadline v d found e = ground (arith, found, e)

  av-arrival :
      (v : Vehicle) (a : ℕ)
      → vehicle_of q v.session_id ≡ some v
      → v.arrival_at ≡ some a
      → av q v.session_id ≡ (a - grid_start q) / slot_ms q
  unfolding av
  av-arrival v a found e = ground (arith, found, e)

  -- A slot of the window is one that begins before the deadline and ends after the arrival.
  window-IsTimely : (e : Entry) → 0 < q.dt_min → IsKnown e → IsInWindow q e → IsTimely q e
  window-IsTimely e step known_vehicle within t energy =
      let m : 0 < slot_ms q = omega arith in
      let found = known_vehicle t energy in
      let w = within t energy in
      (
        omega (arith, w.1, dl-le-horizon q e.vehicle.session_id),
        λ d k.
            let l =
              before_ceiling (d - grid_start q) (slot_ms q) t m
                (omega (arith, w.1, dl-deadline e.vehicle d found k)) in
            omega (arith, l),
        λ a k.
            let l =
              after_floor (a - grid_start q) (slot_ms q) t m
                (omega (arith, w.0, av-arrival e.vehicle a found k)) in
            omega (arith, l),
      )

  All-IsTimely :
      (es : List Entry)
      → 0 < q.dt_min
      → All IsKnown es
      → All (IsInWindow q) es
      → All (IsTimely q) es
  All-IsTimely [] step h k = tt
  All-IsTimely (e ∷ es) step h k = (window-IsTimely e step h.0 k.0, All-IsTimely es step h.1 k.1)

  -- Where a slot has a length, the schedule charges a vehicle only in slots before the horizon, that begin
  -- before its deadline, if it has one, and end after its arrival, if it has one.
  pub solve_schedule-IsTimely : 0 < q.dt_min → All (IsTimely q) (solve_schedule q).entries
  solve_schedule-IsTimely step =
      All-IsTimely (solve_schedule q).entries step solve_schedule-IsKnown
        (solve_schedule-IsInWindow q)
