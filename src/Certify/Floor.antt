-- ===== src/Certify/Floor.antt =====
-- About the simulation of the worst case in `certifyVehicle` of apps/api/src/control/model.js.
use volt_hub_csms.Prelude.{
  ℕ, zero, suc, ◌+◌, ◌*◌, ◌/◌, ◌≤◌, ◌<◌, ◌≡◌, refl, ap, ◌⊎◌, Option, none, some, arith, leb,
  Bool-cases, inl, inr,
}
use volt_hub_csms.Schedule.{acceptance_factor, charged, at_most}
use volt_hub_csms.Certify.{rate_at, charged_state, Worst, worst_case}

-- The acceptance falls as the battery fills.
pub acceptance_factor_mono : (a b : ℕ) → a ≤ b → acceptance_factor b ≤ acceptance_factor a
unfolding acceptance_factor
acceptance_factor_mono a b h = ground arith

charged-le : (b soc e : ℕ) → soc ≤ 1000000 → soc ≤ charged b soc e
unfolding charged
charged-le b soc e h = ground arith

abbrev pub IsCharge : Option (ℕ × ℕ) → Type 0
IsCharge none = Unit
IsCharge (some (b, soc)) = soc ≤ 1000000

-- A rate does not rise as energy is taken.
scaled_mono : (m a b : ℕ) → a ≤ b → m * a / 1000000 ≤ m * b / 1000000
scaled_mono m a b h = let k : m * a ≤ m * b = grind arith in omega (arith, k)

at_most_mono : (room : Option ℕ) (a b : ℕ) → a ≤ b → at_most room a ≤ at_most room b
at_most_mono none a b h = h
at_most_mono (some r) a b h = ground arith

rate_at_falls :
    (max_kw e : ℕ) (room : Option ℕ) (soc : Option (ℕ × ℕ))
    → IsCharge soc
    → rate_at max_kw room (charged_state e soc) ≤ rate_at max_kw room soc
unfolding rate_at
rate_at_falls max_kw e room none c = omega arith
rate_at_falls max_kw e room (some (b, soc)) c =
    at_most_mono room _ _
      (scaled_mono max_kw _ _ (acceptance_factor_mono soc (charged b soc e) (charged-le b soc e c)))

charged_state-IsCharge : (e : ℕ) (soc : Option (ℕ × ℕ)) → IsCharge (charged_state e soc)
unfolding charged
charged_state-IsCharge e none = tt
charged_state-IsCharge e (some (b, soc)) = ground arith

module _ (max_kw : ℕ) (room : Option ℕ) where
  -- The state of charge before an interval, the rate in it, and the energy of the first intervals.
  abbrev pub soc_before : ℕ → Option (ℕ × ℕ) → Option (ℕ × ℕ)
  soc_before zero soc = soc
  soc_before (suc i) soc = soc_before i (charged_state (rate_at max_kw room soc * 15) soc)

  abbrev pub rate_in : ℕ → Option (ℕ × ℕ) → ℕ
  rate_in i soc = rate_at max_kw room (soc_before i soc)

  abbrev pub energy_upto : ℕ → Option (ℕ × ℕ) → ℕ
  energy_upto zero soc = 0
  energy_upto (suc n) soc =
      let rate = rate_at max_kw room soc in
      rate * 15 + energy_upto n (charged_state (rate * 15) soc)

  -- The first interval has the highest rate.
  rate_in_falls :
      (i : ℕ) (soc : Option (ℕ × ℕ)) → IsCharge soc → rate_in i soc ≤ rate_at max_kw room soc
  rate_in_falls zero soc c = omega arith
  rate_in_falls (suc i) soc c =
      let e = rate_at max_kw room soc * 15 in
      omega (
        arith,
        rate_in_falls i (charged_state e soc) (charged_state-IsCharge e soc),
        rate_at_falls max_kw e room soc c,
      )

  -- How the simulation over the intervals from 0 to `n` comes to its end after interval `k`, where the energy before was
  -- `from`.
  abbrev pub IsFloor : ℕ → ℕ → ℕ → Option (ℕ × ℕ) → Worst → Type 0
  IsFloor target from n soc w =
      (k : ℕ) × (k ≤ n)
      × (w.last_rate ≡ rate_in k soc)
      × ((i : ℕ) → i ≤ k → w.last_rate ≤ rate_in i soc)
      × (w.energy ≡ from + energy_upto (suc k) soc)
      × ((i : ℕ) → i < k → from + energy_upto (suc i) soc < target)
      × ((k ≡ n) ⊎ (target ≤ w.energy))

  longer : {k n t e : ℕ} → (k ≡ n) ⊎ (t ≤ e) → (suc k ≡ suc n) ⊎ (t ≤ e)
  longer (inl h) = inl (ap suc h)
  longer (inr h) = inr h

  -- One more interval in front.
  earlier-IsFloor :
      (target from n : ℕ) (soc : Option (ℕ × ℕ)) (w : Worst)
      → IsCharge soc
      → from + rate_at max_kw room soc * 15 < target
      → let e = rate_at max_kw room soc * 15 in
        IsFloor target (from + e) n (charged_state e soc) w → IsFloor target from (suc n) soc w
  earlier-IsFloor target from n soc w c going h =
      let k = h.0 in
      (
        suc k,
        omega (arith, h.1),
        h.2,
        λ i l. lowest i l,
        omega (arith, h.4),
        λ i l. short i l,
        longer h.6,
      )
    where
      short : (i : ℕ) → i < suc h.0 → from + energy_upto (suc i) soc < target
      short zero l = omega (arith, going)
      short (suc i) l = omega (arith, h.5 i (omega (arith, l)))

      lowest : (i : ℕ) → i ≤ suc h.0 → w.last_rate ≤ rate_in i soc
      lowest zero l = omega (arith, h.2, rate_in_falls (suc h.0) soc c)
      lowest (suc i) l = h.3 i (omega (arith, l))

  one-IsFloor :
      (target from n : ℕ) (soc : Option (ℕ × ℕ))
      → (0 ≡ n) ⊎ (target ≤ from + rate_at max_kw room soc * 15)
      → IsFloor target from n soc (record {
        energy = from + rate_at max_kw room soc * 15;
        last_rate = rate_at max_kw room soc;
      })
  one-IsFloor target from n soc h =
      (0, omega arith, refl, λ i l. lowest i l, omega arith, λ i l. absurd (omega (arith, l)), h)
    where
      lowest : (i : ℕ) → i ≤ 0 → rate_at max_kw room soc ≤ rate_in i soc
      lowest zero l = omega arith
      lowest (suc i) l = absurd (omega (arith, l))

  worst_case_on-IsFloor :
      (target n : ℕ) (w : Worst) (soc : Option (ℕ × ℕ))
      → IsCharge soc
      → IsFloor target w.energy n soc (worst_case max_kw room target (suc n) w soc)
  unfolding worst_case
  worst_case_on-IsFloor target zero w soc c =
      elim (Bool-cases (leb target (w.energy + rate_at max_kw room soc * 15))) [
        | inl reached ↦ rw reached (one-IsFloor target w.energy 0 soc (inl refl))
        | inr going ↦ rw going (one-IsFloor target w.energy 0 soc (inl refl))
      ]
  worst_case_on-IsFloor target (suc n) w soc c =
      let rate = rate_at max_kw room soc in
      let w' : Worst = record { energy = w.energy + rate * 15; last_rate = rate } in
      let next = charged_state (rate * 15) soc in
      elim (Bool-cases (leb target w'.energy)) [
        | inl reached ↦ rw reached (one-IsFloor target w.energy (suc n) soc (inr (ground arith)))
        | inr going ↦ rw going (
            earlier-IsFloor target w.energy n soc (worst_case max_kw room target (suc n) w' next) c
              (ground arith)
              (worst_case_on-IsFloor target n w' next (charged_state-IsCharge (rate * 15) soc)))
      ]

  -- The simulation of the worst case over one interval or more stops after the first one by which the target is met, or
  -- after the last one where none is. Its energy is that of the intervals until then, each at the rate that the
  -- battery takes after those before; the rate that it ends with is the one of the interval that it stops after,
  -- and the lowest of all of them, where the state of charge is at most full.
  pub worst_case-IsFloor :
      (target n last : ℕ) (soc : Option (ℕ × ℕ))
      → IsCharge soc
      → IsFloor target 0 n soc
          (worst_case max_kw room target (suc n) (record { energy = 0; last_rate = last }) soc)
  worst_case-IsFloor target n last soc c =
      worst_case_on-IsFloor target n (record { energy = 0; last_rate = last }) soc c
