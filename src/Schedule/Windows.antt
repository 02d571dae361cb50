-- ===== src/Schedule/Windows.antt =====
-- About the window of slots of a vehicle in apps/api/src/control/model.js: `dl` and `av`.
use volt_hub_csms.Prelude.{
  ℕ, ◌≤◌, ◌<◌, ◌≡◌, ◌||◌, true, List, [], ◌∷◌, map, some, arith, ◌==◌, nat_eq, nat_beq_iff, leb,
  ltb, subst, Bool-cases, Option-cases, inl, inr,
}
use volt_hub_csms.Schedule.Sorting.{All}
use volt_hub_csms.Schedule.{
  Vehicle, Problem, Entry, Plan, new_entry, give, find_entry, put_entry, av, dl, is_entry,
}
use volt_hub_csms.Schedule.Shift.{shift_one, is_cheaper, solve_schedule, movable_to}
use volt_hub_csms.Schedule.Steps.{solve_schedule_keep}

-- What holds of every entry holds of the one that is found, and is kept where it is replaced.
module _ (P : Entry → Type 0) where
  pub All-find_entry :
      (sid : ℕ) (e : Entry) (es : List Entry) → All P es → find_entry sid es ≡ some e → P e
  unfolding find_entry
  All-find_entry sid e [] h k = cc
  All-find_entry sid e (x ∷ xs) h k = elim (Bool-cases (is_entry sid x)) [
    | inl hit ↦ subst P (ground arith) h.0
    | inr miss ↦ All-find_entry sid e xs h.1 (ground arith)
  ]

  pub All-put_entry :
      (sid : ℕ) (e : Entry) (es : List Entry) → All P es → P e → All P (put_entry sid e es)
  unfolding put_entry
  All-put_entry sid e [] h k = tt
  All-put_entry sid e (x ∷ xs) h k = elim (Bool-cases (is_entry sid x)) [
    | inl hit ↦ rw hit (k, h.1)
    | inr miss ↦ rw miss (h.0, All-put_entry sid e xs h.1 k)
  ]

pub find_entry-id :
    (sid : ℕ) (e : Entry) (es : List Entry)
    → find_entry sid es ≡ some e
    → e.vehicle.session_id ≡ sid
unfolding find_entry
find_entry-id sid e [] h = cc
find_entry-id sid e (x ∷ xs) h =
    ground (arith, find_entry-id sid e xs, nat_beq_iff x.vehicle.session_id sid)

-- Energy only in the slots from `av` on and before `dl`.
abbrev pub IsInWindow : Problem → Entry → Type 0
IsInWindow q e =
    (t : ℕ) → 0 < e.row t → (av q e.vehicle.session_id ≤ t) × (t < dl q e.vehicle.session_id)

module _ (q : Problem) where
  pub give-IsInWindow :
      (sid t kwh : ℕ) (es : List Entry)
      → All (IsInWindow q) es
      → All (IsInWindow q) (give q sid t kwh es)
  unfolding give
  give-IsInWindow sid t kwh es h = elim (Bool-cases (ltb t (av q sid) || leb (dl q sid) t)) [
    | inl out ↦ rw out h
    | inr within ↦ elim (Option-cases (find_entry sid es)) [
      | inl missing ↦ rw (within, missing) h
      | inr (e, found) ↦
          rw (within, found)
            (All-put_entry (IsInWindow q) sid _ es h (λ u k. ground (
              arith,
              find_entry-id sid e es found,
              nat_beq_iff u t,
              All-find_entry (IsInWindow q) sid e es h found u,
            )))
    ]
  ]

  pub shift_one-IsInWindow :
      (sid t_exp t : ℕ) (p : Plan)
      → is_cheaper q sid t_exp t ≡ true
      → All (IsInWindow q) p.entries
      → All (IsInWindow q) (shift_one q sid t_exp t p).entries
  unfolding shift_one
  shift_one-IsInWindow sid t_exp t p c h = elim (Option-cases (find_entry sid p.entries)) [
    | inl missing ↦ rw (missing, shift_one) h
    | inr (e, found) ↦ elim (Bool-cases (movable_to q e t_exp t p.entries == 0)) [
      | inl nothing ↦ rw (found, shift_one) (rw nothing h)
      | inr some_energy ↦
          rw (found, shift_one)
            (rw some_energy (
              All-put_entry (IsInWindow q) sid _ p.entries h (λ u k. ground (
                arith,
                find_entry-id sid e p.entries found,
                nat_beq_iff u t,
                All-find_entry (IsInWindow q) sid e p.entries h found u,
              ))))
    ]
  ]

  pub new_entry-IsInWindow : (vs : List Vehicle) → All (IsInWindow q) (map new_entry vs)
  new_entry-IsInWindow [] = tt
  new_entry-IsInWindow (v ∷ vs) = (λ t k. absurd (omega arith), new_entry-IsInWindow vs)

  pub solve_schedule-IsInWindow : All (IsInWindow q) (solve_schedule q).entries
  solve_schedule-IsInWindow =
      solve_schedule_keep q (All (IsInWindow q)) give-IsInWindow shift_one-IsInWindow
        (new_entry-IsInWindow q.vehicles)
