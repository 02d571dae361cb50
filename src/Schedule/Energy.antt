-- ===== src/Schedule/Energy.antt =====
-- About the energy of a schedule and its metrics, in apps/api/src/control/model.js.
use volt_hub_csms.Prelude.{
  ℕ, zero, suc, ◌+◌, ◌-◌, ◌≤◌, ◌<◌, ◌≡◌, ◌||◌, true, List, [], ◌∷◌, map, some, refl, ap, ◌∙◌, arith,
  ◌==◌, nat_eq, nat_beq_iff, leb, ltb, if◌then◌else◌, Bool-cases, Option-cases, inl, inr,
}
use volt_hub_csms.Schedule.Sorting.{All, sum_below}
use volt_hub_csms.Schedule.{
  Vehicle, Problem, Entry, Plan, new_entry, give, find_entry, put_entry, amount_for, av, dl, add_at,
  min, deliverable, acceptance_kwh, take_at,
}
use volt_hub_csms.Schedule.Shift.{
  shift_one, is_cheaper, solve_schedule, movable_to, delivered, unmet,
}
use volt_hub_csms.Schedule.Steps.{solve_schedule_keep}
use volt_hub_csms.Schedule.Caps.{within_room-le}
use volt_hub_csms.Schedule.Windows.{
  IsInWindow, All-find_entry, All-put_entry, give-IsInWindow, shift_one-IsInWindow,
  new_entry-IsInWindow,
}

add_at_past : (h t a : ℕ) (f : ℕ → ℕ) → h ≤ t → sum_below h (add_at t a f) ≡ sum_below h f
unfolding sum_below
add_at_past zero t a f k = refl
add_at_past (suc h) t a f k = ground (arith, add_at_past h t a f)

sum_below-add_at : (h t a : ℕ) (f : ℕ → ℕ) → t < h → sum_below h (add_at t a f) ≡ sum_below h f + a
unfolding sum_below
sum_below-add_at zero t a f k = absurd (omega arith)
sum_below-add_at (suc h) t a f k =
    ground (arith, sum_below-add_at h t a f, add_at_past h t a f, nat_beq_iff h t)

take_at_past : (h t a : ℕ) (f : ℕ → ℕ) → h ≤ t → sum_below h (take_at t a f) ≡ sum_below h f
unfolding sum_below
take_at_past zero t a f k = refl
take_at_past (suc h) t a f k = ground (arith, take_at_past h t a f)

sum_below-take_at :
    (h t a : ℕ) (f : ℕ → ℕ) → t < h → a ≤ f t → sum_below h (take_at t a f) + a ≡ sum_below h f
unfolding sum_below
sum_below-take_at zero t a f k l = absurd (omega arith)
sum_below-take_at (suc h) t a f k l =
    ground (arith, sum_below-take_at h t a f, take_at_past h t a f, nat_beq_iff h t)

pub dl-le-horizon : (q : Problem) (sid : ℕ) → dl q sid ≤ q.horizon
unfolding dl
dl-le-horizon q sid = ground arith

-- What is planned for a vehicle and what it still needs make up what it needed.
abbrev pub IsAccounted : Problem → Entry → Type 0
IsAccounted q e = e.need + sum_below q.horizon e.row ≡ e.vehicle.remaining

module _ (q : Problem) where
  give-IsAccounted :
      (sid t kwh : ℕ) (es : List Entry)
      → All (IsAccounted q) es
      → All (IsAccounted q) (give q sid t kwh es)
  unfolding give amount_for
  give-IsAccounted sid t kwh es h = elim (Bool-cases (ltb t (av q sid) || leb (dl q sid) t)) [
    | inl out ↦ rw out h
    | inr within ↦ elim (Option-cases (find_entry sid es)) [
      | inl missing ↦ rw (within, missing) h
      | inr (e, found) ↦
          rw (within, found)
            (All-put_entry (IsAccounted q) sid _ es h (
              ground (
                arith,
                dl-le-horizon q sid,
                within_room-le q e.vehicle.cp_id t (min (min kwh (deliverable q e t kwh)) e.need)
                    es,
                sum_below-add_at q.horizon t (amount_for q e t kwh es) e.row,
                All-find_entry (IsAccounted q) sid e es h found,
              )))
    ]
  ]

  -- What is moved leaves a slot of the window, so it stays within the horizon.
  moved-IsAccounted :
      (e : Entry) (t_exp t a : ℕ)
      → IsInWindow q e
      → IsAccounted q e
      → t < q.horizon
      → a ≤ e.row t_exp
      → 0 < a
      → IsAccounted q (record e { row = add_at t a (take_at t_exp a e.row) })
  moved-IsAccounted e t_exp t a w h k l m = omega (
    arith,
    (w t_exp (omega arith)).1,
    dl-le-horizon q e.vehicle.session_id,
    sum_below-add_at q.horizon t a (take_at t_exp a e.row) k,
    sum_below-take_at q.horizon t_exp a e.row
        (omega (arith, (w t_exp (omega arith)).1, dl-le-horizon q e.vehicle.session_id)) l,
  )

  shift_one-IsAccounted :
      (sid t_exp t : ℕ) (p : Plan)
      → is_cheaper q sid t_exp t ≡ true
      → All (IsInWindow q) p.entries
      → All (IsAccounted q) p.entries
      → All (IsAccounted q) (shift_one q sid t_exp t p).entries
  unfolding shift_one
  shift_one-IsAccounted sid t_exp t p c w h = elim (Option-cases (find_entry sid p.entries)) [
    | inl missing ↦ rw (missing, shift_one) h
    | inr (e, found) ↦ elim (Bool-cases (movable_to q e t_exp t p.entries == 0)) [
      | inl nothing ↦ rw (found, shift_one) (rw nothing h)
      | inr some_energy ↦
          rw (found, shift_one)
            (rw some_energy (
              All-put_entry (IsAccounted q) sid _ p.entries h (
                moved-IsAccounted e t_exp t (movable_to q e t_exp t p.entries)
                  (All-find_entry (IsInWindow q) sid e p.entries w found)
                  (All-find_entry (IsAccounted q) sid e p.entries h found)
                  (ground (arith, dl-le-horizon q sid))
                  (ground (
                    arith,
                    within_room-le q e.vehicle.cp_id t
                        (min (e.row t_exp) (
                          if q.acceptance_aware
                          then acceptance_kwh q e t - e.row t
                          else e.row t_exp))
                        p.entries,
                  ))
                  (ground arith))))
    ]
  ]

  sum_below_zero : (h : ℕ) → sum_below h (λ _. 0) ≡ 0
  unfolding sum_below
  sum_below_zero zero = refl
  sum_below_zero (suc h) = omega (arith, sum_below_zero h)

  new_entry-IsAccounted : (vs : List Vehicle) → All (IsAccounted q) (map new_entry vs)
  new_entry-IsAccounted [] = tt
  new_entry-IsAccounted (v ∷ vs) =
      (omega (arith, sum_below_zero q.horizon), new_entry-IsAccounted vs)

  -- For each vehicle, the energy that the schedule plans within the horizon and the energy that it
  -- reports as unmet make up exactly what the vehicle needed: the pass that moves energy loses none.
  pub solve_schedule-IsAccounted : All (IsAccounted q) (solve_schedule q).entries
  solve_schedule-IsAccounted =
      (solve_schedule_keep q (λ es. All (IsInWindow q) es × All (IsAccounted q) es)
        (λ sid t kwh es h. (give-IsInWindow q sid t kwh es h.0, give-IsAccounted sid t kwh es h.1))
        (λ sid t_exp t p c h. (
          shift_one-IsInWindow q sid t_exp t p c h.0,
          shift_one-IsAccounted sid t_exp t p c h.0 h.1,
        ))
        (new_entry-IsInWindow q q.vehicles, new_entry-IsAccounted q.vehicles)).1

-- What all vehicles need.
abbrev pub total_remaining : List Vehicle → ℕ
total_remaining [] = 0
total_remaining (v ∷ vs) = v.remaining + total_remaining vs

abbrev pub vehicles_of : List Entry → List Vehicle
vehicles_of = map (λ e. e.vehicle)

vehicles-put_entry :
    (sid : ℕ) (e e' : Entry) (es : List Entry)
    → find_entry sid es ≡ some e
    → e'.vehicle ≡ e.vehicle
    → vehicles_of (put_entry sid e' es) ≡ vehicles_of es
unfolding find_entry put_entry
vehicles-put_entry sid e e' [] h k = refl
vehicles-put_entry sid e e' (x ∷ xs) h k = ground (arith, vehicles-put_entry sid e e' xs)

module _ (q : Problem) where
  pub give-vehicles :
      (sid t kwh : ℕ) (es : List Entry) → vehicles_of (give q sid t kwh es) ≡ vehicles_of es
  unfolding give
  give-vehicles sid t kwh es = elim (Bool-cases (ltb t (av q sid) || leb (dl q sid) t)) [
    | inl out ↦ rw out
    | inr within ↦ elim (Option-cases (find_entry sid es)) [
      | inl missing ↦ rw (within, missing) refl
      | inr (e, found) ↦ rw (within, found) (vehicles-put_entry sid e _ es found refl)
    ]
  ]

  pub shift_one-vehicles :
      (sid t_exp t : ℕ) (p : Plan)
      → vehicles_of (shift_one q sid t_exp t p).entries ≡ vehicles_of p.entries
  unfolding shift_one
  shift_one-vehicles sid t_exp t p = elim (Option-cases (find_entry sid p.entries)) [
    | inl missing ↦ rw (missing, shift_one) refl
    | inr (e, found) ↦ elim (Bool-cases (movable_to q e t_exp t p.entries == 0)) [
      | inl nothing ↦ rw (found, shift_one) (rw nothing refl)
      | inr some_energy ↦
          rw (found, shift_one) (rw some_energy (vehicles-put_entry sid e _ p.entries found refl))
    ]
  ]

  pub new_entry-vehicles : (vs : List Vehicle) → vehicles_of (map new_entry vs) ≡ vs
  new_entry-vehicles [] = refl
  new_entry-vehicles (v ∷ vs) = ap (λ r. v ∷ r) (new_entry-vehicles vs)

  solve_schedule-vehicles : vehicles_of (solve_schedule q).entries ≡ q.vehicles
  solve_schedule-vehicles =
      solve_schedule_keep q (λ es. vehicles_of es ≡ q.vehicles)
        (λ sid t kwh es h. give-vehicles sid t kwh es ∙ h)
        (λ sid t_exp t p c h. shift_one-vehicles sid t_exp t p ∙ h) (new_entry-vehicles q.vehicles)

  totals :
      (es : List Entry)
      → All (IsAccounted q) es
      → delivered q.horizon es + unmet es ≡ total_remaining (vehicles_of es)
  unfolding delivered unmet
  totals [] h = omega arith
  totals (e ∷ es) h = omega (arith, totals es h.1, h.0)

  -- The metrics `delivered` and `unmet` of a schedule add up to what all its vehicles need.
  pub solve_schedule_totals :
      delivered q.horizon (solve_schedule q).entries + unmet (solve_schedule q).entries
      ≡ total_remaining q.vehicles
  solve_schedule_totals =
      totals (solve_schedule q).entries (solve_schedule-IsAccounted q)
      ∙ ap total_remaining solve_schedule-vehicles
