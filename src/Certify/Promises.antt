-- ===== src/Certify/Promises.antt =====
-- About the floors of the vehicles of a site: `certifySite` of apps/api/src/control/controller.js.
use volt_hub_csms.Prelude.{
  ℕ, zero, suc, ◌+◌, ◌-◌, ◌*◌, ◌%◌, ◌≤◌, ◌≡◌, refl, ◌&&◌, ◌||◌, Bool, true, false, not, List, [],
  ◌∷◌, Option, none, some, arith, ltb, ◌==◌, nat_eq, nat_beq_iff, if◌then◌else◌, Bool-cases, inl,
  inr,
}
use volt_hub_csms.Prelude.Lists.{any}
use volt_hub_csms.Prelude.Dict.{values}
use volt_hub_csms.State.{Store, Certificate}
use volt_hub_csms.Outbox.{Limits}
use volt_hub_csms.Schedule.{Vehicle, at_most}
use volt_hub_csms.Schedule.Sorting.{sort_by}
use volt_hub_csms.Certify.{
  rate_at, charged_state, Worst, worst_case, certify_vehicle, others_floor, promise, Site, issue,
  certify_after, certify_all, certify_site, latest_cert, intervals_until, battery_state, stands,
  has_failed,
}

abbrev pub sum_floors : List Vehicle → ℕ
sum_floors [] = 0
sum_floors (v ∷ vs) = v.certified_floor_kw + sum_floors vs

abbrev has_session : ℕ → List Vehicle → Bool
has_session sid vs = any (λ v. v.session_id == sid) vs

-- Each session stands once, and floors are whole watts.
abbrev pub IsOrderly : List Vehicle → Type 0
IsOrderly [] = Unit
IsOrderly (v ∷ vs) =
    (has_session v.session_id vs ≡ false) × (v.certified_floor_kw % 1000 ≡ 0) × IsOrderly vs

others_floor_absent :
    (sid : ℕ) (vs : List Vehicle) → has_session sid vs ≡ false → others_floor sid vs ≡ sum_floors vs
unfolding others_floor
others_floor_absent sid [] h = refl
others_floor_absent sid (v ∷ vs) h = ground (arith, others_floor_absent sid vs)

others_floor-le : (sid : ℕ) (vs : List Vehicle) → others_floor sid vs ≤ sum_floors vs
unfolding others_floor
others_floor-le sid [] = omega arith
others_floor-le sid (v ∷ vs) = ground (arith, others_floor-le sid vs)

others_floor_whole : (sid : ℕ) (vs : List Vehicle) → IsOrderly vs → others_floor sid vs % 1000 ≡ 0
unfolding others_floor
others_floor_whole sid [] h = omega arith
others_floor_whole sid (v ∷ vs) h = ground (arith, others_floor_whole sid vs h.2)

promise_sum :
    (sid f : ℕ) (vs : List Vehicle)
    → IsOrderly vs
    → sum_floors (promise sid f vs) ≤ others_floor sid vs + f
unfolding promise others_floor
promise_sum sid f [] h = omega arith
promise_sum sid f (v ∷ vs) h =
    ground
      (arith, promise_sum sid f vs h.2, others_floor_absent sid vs, nat_beq_iff v.session_id sid)

promise-has_session :
    (sid f k : ℕ) (vs : List Vehicle) → has_session k (promise sid f vs) ≡ has_session k vs
unfolding promise
promise-has_session sid f k [] = refl
promise-has_session sid f k (v ∷ vs) = ground (arith, promise-has_session sid f k vs)

promise-IsOrderly :
    (sid f : ℕ) (vs : List Vehicle) → f % 1000 ≡ 0 → IsOrderly vs → IsOrderly (promise sid f vs)
unfolding promise
promise-IsOrderly sid f [] w h = tt
promise-IsOrderly sid f (v ∷ vs) w h =
    ground (arith, promise-IsOrderly sid f vs w h.2, promise-has_session sid f v.session_id vs)

worst_case-le :
    (max_kw r target n : ℕ) (w : Worst) (soc : Option (ℕ × ℕ))
    → w.last_rate ≤ r
    → (worst_case max_kw (some r) target n w soc).last_rate ≤ r
unfolding worst_case
worst_case-le max_kw r target zero w soc h = h
worst_case-le max_kw r target (suc n) w soc h =
    let rate = rate_at max_kw (some r) soc in
    ground (
      arith,
      rate_at-le max_kw r soc,
      worst_case-le max_kw r target n (record { energy = w.energy + rate * 15; last_rate = rate })
          (charged_state (rate * 15) soc) (rate_at-le max_kw r soc),
    )
  where
    rate_at-le : (max_kw r : ℕ) (soc : Option (ℕ × ℕ)) → rate_at max_kw (some r) soc ≤ r
    rate_at-le max_kw r none = unfold rate_at in (ground arith)
    rate_at-le max_kw r (some (b, c)) = unfold rate_at in (ground arith)

-- A floor fits into what the others leave of a capacity of whole watts.
certify_vehicle_floor :
    (v : Vehicle) (cap floors now margin : ℕ)
    → cap % 1000 ≡ 0
    → floors % 1000 ≡ 0
    → floors ≤ cap
    → (floors + (certify_vehicle v (some cap) floors now margin).floor_kw ≤ cap)
      × ((certify_vehicle v (some cap) floors now margin).floor_kw % 1000 ≡ 0)
unfolding certify_vehicle
certify_vehicle_floor v cap floors now margin c f h =
    let low =
      worst_case-le v.max_kw (cap - floors) (v.remaining + margin)
        (intervals_until now v.deadline_at)
        (record { energy = 0; last_rate = at_most (some (cap - floors)) v.max_kw })
        (battery_state v) (ground arith) in
    (omega (arith, low), omega arith)

-- The floors of a site are within a capacity.
abbrev pub IsCovered : ℕ → List Vehicle → Type 0
IsCovered cap vs = IsOrderly vs × (sum_floors vs ≤ cap)

module _ (l : Limits) (now station : ℕ) (user_of connector_of : ℕ → ℕ) (cap margin : ℕ)
    (whole_cap : cap % 1000 ≡ 0) where
  promise-IsCovered :
      (v : Vehicle) (vs : List Vehicle)
      → IsCovered cap vs
      → IsCovered cap (
          promise v.session_id
            (certify_vehicle v (some cap) (others_floor v.session_id vs) now margin).floor_kw
            vs)
  promise-IsCovered v vs h =
      let others = others_floor v.session_id vs in
      let floor = (certify_vehicle v (some cap) others now margin).floor_kw in
      let fits =
        certify_vehicle_floor v cap others now margin whole_cap
          (others_floor_whole v.session_id vs h.0)
          (omega (arith, others_floor-le v.session_id vs, h.1)) in
      (
        promise-IsOrderly v.session_id floor vs fits.1 h.0,
        omega (arith, promise_sum v.session_id floor vs h.0, fits.0),
      )

  issue-IsCovered :
      (v : Vehicle) (t : Site)
      → IsCovered cap t.vehicles
      → IsCovered cap
          (issue l now station user_of connector_of
            (some cap)
            margin
            v
            (certify_vehicle v (some cap) (others_floor v.session_id t.vehicles) now margin)
            t).vehicles
  unfolding issue
  issue-IsCovered v t h =
      let d = certify_vehicle v (some cap) (others_floor v.session_id t.vehicles) now margin in
      elim d.admitted
        as (λ b.
          IsCovered cap (if b then promise v.session_id d.floor_kw t.vehicles else t.vehicles)) [
            | true ↦ promise-IsCovered v t.vehicles h
            | false ↦ h
          ]

  certify_after-IsCovered :
      (o : Option Certificate) (v : Vehicle) (t : Site)
      → IsCovered cap t.vehicles
      → IsCovered cap
          (certify_after l now station user_of connector_of (some cap) margin o v t).vehicles
  unfolding certify_after
  certify_after-IsCovered none v t h = issue-IsCovered v t h
  certify_after-IsCovered (some c) v t h =
      let d = certify_vehicle v (some cap) (others_floor v.session_id t.vehicles) now margin in
      elim (Bool-cases (stands c.status || has_failed c.status && not d.admitted)) [
        | inl stays ↦ rw stays h
        | inr anew ↦ rw anew (issue-IsCovered v t h)
      ]

  certify_all-IsCovered :
      (vs : List Vehicle) (t : Site)
      → IsCovered cap t.vehicles
      → IsCovered cap
          (certify_all l now station user_of connector_of (some cap) margin vs t).vehicles
  unfolding certify_all
  certify_all-IsCovered [] t h = h
  certify_all-IsCovered (v ∷ vs) t h = certify_all-IsCovered vs _ (
      certify_after-IsCovered (latest_cert v.session_id none (values t.store.control.certificates))
        v t h)

  -- On a site whose usable capacity is whole watts, and whose vehicles stand once each with floors of whole
  -- watts that fit into it, all the floors fit into it together after an admission, however many
  -- certificates it issued.
  pub certify_site-IsCovered :
      (vs : List Vehicle) (s : Store)
      → IsCovered cap vs
      → IsCovered cap
          (certify_site l now station user_of connector_of (some cap) margin vs s).vehicles
  unfolding certify_site
  certify_site-IsCovered vs s h =
      certify_all-IsCovered (sort_by (λ a b. ltb a.session_id b.session_id) vs)
        (record { vehicles = vs; issued = []; store = s }) h
