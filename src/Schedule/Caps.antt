-- ===== src/Schedule/Caps.antt =====
-- About the capacities and the schedule of apps/api/src/control/model.js.
use volt_hub_csms.Prelude.{
  ℕ, ◌+◌, ◌*◌, ◌≤◌, ◌≡◌, true, false, List, [], ◌∷◌, map, some, refl, if◌then◌else◌, arith, ◌==◌,
  nat_eq, nat_beq_iff, leb, ltb, ◌||◌, Bool-cases, Option-cases, inl, inr,
}
use volt_hub_csms.Prelude.Dict.{lookup}
use volt_hub_csms.Schedule.{
  Vehicle, Problem, Entry, Plan, new_entry, give, find_entry, put_entry, sum_site, sum_cp,
  amount_for, within_room, av, dl,
}
use volt_hub_csms.Schedule.Shift.{shift_one, is_cheaper, solve_schedule, movable_to}
use volt_hub_csms.Schedule.Steps.{solve_schedule_keep}

pub sum_site-put_entry :
    (sid t : ℕ) (e e' : Entry) (es : List Entry)
    → find_entry sid es ≡ some e
    → sum_site t (put_entry sid e' es) + e.row t ≡ sum_site t es + e'.row t
unfolding find_entry put_entry sum_site
sum_site-put_entry sid t e e' [] h = ground arith
sum_site-put_entry sid t e e' (x ∷ xs) h = ground (arith, sum_site-put_entry sid t e e' xs)

pub sum_cp-put_entry :
    (cp sid t : ℕ) (e e' : Entry) (es : List Entry)
    → find_entry sid es ≡ some e
    → e'.vehicle ≡ e.vehicle
    → sum_cp cp t (put_entry sid e' es) + (if e.vehicle.cp_id == cp then e.row t else 0)
      ≡ sum_cp cp t es + (if e.vehicle.cp_id == cp then e'.row t else 0)
unfolding find_entry put_entry sum_cp
sum_cp-put_entry cp sid t e e' [] h k = ground arith
sum_cp-put_entry cp sid t e e' (x ∷ xs) h k = ground (arith, sum_cp-put_entry cp sid t e e' xs)

-- What is within the room leaves both capacities kept.
within_room_site :
    (q : Problem) (cp t n c : ℕ) (es : List Entry)
    → q.site_cap_kw ≡ some c
    → sum_site t es ≤ c * q.dt_min
    → within_room q cp t es n + sum_site t es ≤ c * q.dt_min
unfolding within_room
within_room_site q cp t n c es h k = ground arith

within_room_cp :
    (q : Problem) (cp t n c : ℕ) (es : List Entry)
    → lookup cp q.cp_caps ≡ some c
    → sum_cp cp t es ≤ c * q.dt_min
    → within_room q cp t es n + sum_cp cp t es ≤ c * q.dt_min
unfolding within_room
within_room_cp q cp t n c es h k = ground arith

pub within_room-le : (q : Problem) (cp t n : ℕ) (es : List Entry) → within_room q cp t es n ≤ n
unfolding within_room
within_room-le q cp t n es = ground arith

-- No slot takes more than the site's capacity, nor more on a charge point than that one's.
pub record IsWithinCaps (q : Problem) (es : List Entry) : Type 0 where
  pub site : (t c : ℕ) → q.site_cap_kw ≡ some c → sum_site t es ≤ c * q.dt_min
  pub points : (cp t c : ℕ) → lookup cp q.cp_caps ≡ some c → sum_cp cp t es ≤ c * q.dt_min

module _ (q : Problem) (sid t : ℕ) (e e' : Entry) (es : List Entry)
    (found : find_entry sid es ≡ some e) (same : e'.vehicle ≡ e.vehicle)
    (h : IsWithinCaps q es) where
  -- A row that grows within the room at one slot, and nowhere else, keeps the capacities.
  pub put_entry-IsWithinCaps :
      (n a : ℕ)
      → a ≡ within_room q e.vehicle.cp_id t es n
      → e'.row t ≤ e.row t + a
      → ((u : ℕ) → (u == t) ≡ false → e'.row u ≤ e.row u)
      → IsWithinCaps q (put_entry sid e' es)
  put_entry-IsWithinCaps n a ea at_t others = record {
    site = λ u c k. elim (Bool-cases (u == t)) [
      | inl same_slot ↦ ground (
        arith,
        nat_beq_iff u t,
        sum_site-put_entry sid u e e' es found,
        within_room_site q e.vehicle.cp_id t n c es k (h.site t c k),
      )
      | inr other ↦
          omega (arith, sum_site-put_entry sid u e e' es found, others u other, h.site u c k)
    ];
    points = λ cp u c k. elim (Bool-cases (u == t)) [
      | inl same_slot ↦ ground (
        arith,
        nat_beq_iff u t,
        nat_beq_iff e.vehicle.cp_id cp,
        sum_cp-put_entry cp sid u e e' es found same,
        within_room_cp q cp t n c es k (h.points cp t c k),
        h.points cp u c k,
      )
      | inr other ↦
          ground
            (arith, sum_cp-put_entry cp sid u e e' es found same, others u other, h.points cp u c k)
    ];
  }

module _ (q : Problem) where
  give-IsWithinCaps :
      (sid t kwh : ℕ) (es : List Entry) → IsWithinCaps q es → IsWithinCaps q (give q sid t kwh es)
  unfolding give amount_for
  give-IsWithinCaps sid t kwh es h = elim (Bool-cases (ltb t (av q sid) || leb (dl q sid) t)) [
    | inl out ↦ rw out h
    | inr within ↦ elim (Option-cases (find_entry sid es)) [
      | inl missing ↦ rw (within, missing) h
      | inr (e, found) ↦
          rw (within, found)
            (put_entry-IsWithinCaps q sid t e _ es found refl h _ (amount_for q e t kwh es) refl
              (ground arith) (λ u k. ground arith))
    ]
  ]

  shift_one-IsWithinCaps :
      (sid t_exp t : ℕ) (p : Plan)
      → is_cheaper q sid t_exp t ≡ true
      → IsWithinCaps q p.entries
      → IsWithinCaps q (shift_one q sid t_exp t p).entries
  unfolding shift_one
  shift_one-IsWithinCaps sid t_exp t p c h = elim (Option-cases (find_entry sid p.entries)) [
    | inl missing ↦ rw (missing, shift_one) h
    | inr (e, found) ↦ elim (Bool-cases (movable_to q e t_exp t p.entries == 0)) [
      | inl nothing ↦ rw (found, shift_one) (rw nothing h)
      | inr some_energy ↦
          rw (found, shift_one)
            (rw some_energy (
              put_entry-IsWithinCaps q sid t e _ p.entries found refl h _
                (movable_to q e t_exp t p.entries) refl (ground arith) (λ u k. ground arith)))
    ]
  ]

  sums_of_new :
      (t cp : ℕ) (vs : List Vehicle)
      → (sum_site t (map new_entry vs) ≡ 0) × (sum_cp cp t (map new_entry vs) ≡ 0)
  unfolding sum_site sum_cp
  sums_of_new t cp [] = (refl, refl)
  sums_of_new t cp (v ∷ vs) = ground (arith, sums_of_new t cp vs)

  -- In no slot does the schedule give more energy than the site's capacity allows, nor more on a
  -- charge point than the capacity that is listed for it, whatever the prices and the carbon are.
  pub solve_schedule-IsWithinCaps : IsWithinCaps q (solve_schedule q).entries
  solve_schedule-IsWithinCaps =
      solve_schedule_keep q (IsWithinCaps q) give-IsWithinCaps shift_one-IsWithinCaps (record {
        site = λ t c k. omega (arith, (sums_of_new t 0 q.vehicles).0);
        points = λ cp t c k. omega (arith, (sums_of_new t cp q.vehicles).1);
      })
