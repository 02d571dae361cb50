-- ===== src/Schedule/Steps.antt =====
-- Induction over the passes of the schedule assembler of apps/api/src/control/model.js.
use volt_hub_csms.Prelude.{
  ℕ, zero, suc, ◌≡◌, Bool, true, false, List, [], ◌∷◌, map, if◌then◌else◌, Bool-cases, inl, inr,
}
use volt_hub_csms.Prelude.Lists.{filter}
use volt_hub_csms.Schedule.Sorting.{All, All-sort_by, upto}
use volt_hub_csms.Schedule.{
  Vehicle, Problem, Entry, Plan, new_entry, give, floor_slots, serve_floors, fill_slot, fill,
}
use volt_hub_csms.Schedule.Shift.{
  is_cheaper, cheaper, shift_one, shift_to, shift_vehicles, shift_slots, holders, price_order,
  by_deadline, by_session, feasible_entries, solve_schedule,
}

All-filter {ℓ} : {A : Type ℓ} (p : A → Bool) (xs : List A) → All (λ x. p x ≡ true) (filter p xs)
All-filter p [] = tt
All-filter p (x ∷ xs) = elim (Bool-cases (p x)) [
  | inl e ↦ rw e (e, All-filter p xs)
  | inr e ↦ rw e (All-filter p xs)
]

module _ (q : Problem) (P : List Entry → Type 0)
    (keep_give : (sid t kwh : ℕ) (es : List Entry) → P es → P (give q sid t kwh es)) where
  keep_if : (b : Bool) (x y : List Entry) → P x → P y → P (if b then x else y)
  keep_if true x y h k = h
  keep_if false x y h k = k

  floor_slots_keep :
      (sid per_t n t : ℕ) (es : List Entry) → P es → P (floor_slots q sid per_t n t es)
  unfolding floor_slots
  floor_slots_keep sid per_t zero t es h = h
  floor_slots_keep sid per_t (suc n) t es h =
      keep_if _ _ _
        (floor_slots_keep sid per_t n (suc t) (give q sid t per_t es) (keep_give sid t per_t es h))
        h

  pub serve_floors_keep : (vs : List Vehicle) (es : List Entry) → P es → P (serve_floors q vs es)
  unfolding serve_floors
  serve_floors_keep [] es h = h
  serve_floors_keep (v ∷ vs) es h =
      serve_floors_keep vs _ (keep_if _ _ _ h (floor_slots_keep _ _ _ _ es h))

  fill_slot_keep : (t : ℕ) (vs : List Vehicle) (es : List Entry) → P es → P (fill_slot q t vs es)
  unfolding fill_slot
  fill_slot_keep t [] es h = h
  fill_slot_keep t (v ∷ vs) es h = fill_slot_keep t vs _ (keep_if _ _ _ (keep_give _ _ _ es h) h)

  pub fill_keep : (ts : List ℕ) (vs : List Vehicle) (es : List Entry) → P es → P (fill q ts vs es)
  unfolding fill
  fill_keep [] vs es h = h
  fill_keep (t ∷ ts) vs es h = fill_keep ts vs _ (fill_slot_keep t vs es h)

  pub feasible_entries_keep : P (map new_entry q.vehicles) → P (feasible_entries q)
  unfolding feasible_entries
  feasible_entries_keep h =
      fill_keep (upto q.horizon 0) (by_deadline q) _
        (serve_floors_keep (by_session q q.vehicles) _ h)

  module _
      (keep_shift : (sid t_exp t : ℕ) (p : Plan)
        → is_cheaper q sid t_exp t ≡ true
        → P p.entries
        → P (shift_one q sid t_exp t p).entries) where
    shift_to_keep :
        (sid t_exp : ℕ) (ts : List ℕ) (p : Plan)
        → All (λ t. is_cheaper q sid t_exp t ≡ true) ts
        → P p.entries
        → P (shift_to q sid t_exp ts p).entries
    unfolding shift_to
    shift_to_keep sid t_exp [] p c h = h
    shift_to_keep sid t_exp (t ∷ ts) p c h =
        shift_to_keep sid t_exp ts (shift_one q sid t_exp t p) c.1 (keep_shift sid t_exp t p c.0 h)

    shift_vehicles_keep :
        (t_exp : ℕ) (vs : List Vehicle) (p : Plan)
        → P p.entries
        → P (shift_vehicles q t_exp vs p).entries
    unfolding shift_vehicles cheaper
    shift_vehicles_keep t_exp [] p h = h
    shift_vehicles_keep t_exp (v ∷ vs) p h = shift_vehicles_keep t_exp vs _ (
        shift_to_keep v.session_id t_exp (cheaper q v.session_id t_exp) p
          (All-sort_by _ _ _ (All-filter (is_cheaper q v.session_id t_exp) (upto q.horizon 0))) h)

    shift_slots_keep : (ts : List ℕ) (p : Plan) → P p.entries → P (shift_slots q ts p).entries
    unfolding shift_slots
    shift_slots_keep [] p h = h
    shift_slots_keep (t ∷ ts) p h =
        shift_slots_keep ts _ (shift_vehicles_keep t (holders q t p) p h)

    pub solve_schedule_keep : P (map new_entry q.vehicles) → P (solve_schedule q).entries
    unfolding solve_schedule
    solve_schedule_keep h = shift_slots_keep (price_order q) _ (feasible_entries_keep h)
