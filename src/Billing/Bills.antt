-- ===== src/Billing/Bills.antt =====
-- About the lines and the total of an invoice: `billSession` of apps/api/src/db/store.js.
use volt_hub_csms.Prelude.{
  ℕ, suc, ◌≡◌, refl, ◌∙◌, true, List, [], ◌∷◌, some, arith, ◌==◌, nat_eq, Bool-cases, Option-cases,
  inl, inr,
}
use volt_hub_csms.Prelude.Lists.{find, filter}
use volt_hub_csms.Prelude.Int.{pos, ◌+ℤ◌, ◌≤ℤ◌, ltb_ℤ, int_laws}
use volt_hub_csms.Prelude.Decimal.{
  Decimal, to_fixed2, mul_fixed2, IsCents, to_fixed2_idem, to_fixed2_nonneg, mul_fixed2_nonneg,
  mul_fixed2-IsCents, IsCents-add,
}
use volt_hub_csms.Prelude.Dict.{lookup, lookup-insert}
use volt_hub_csms.Prelude.Outcome.{ok, commit, Outcome-cases}
use volt_hub_csms.State.{Store, Money, Session, Band, Plan, InvoiceLine}
use volt_hub_csms.Wallets.Reconciled.{IsReconciled}
use volt_hub_csms.Wallets.Payments.{IsPaidOnce}
use volt_hub_csms.Billing.{
  LocalTime, is_candidate, band_hit, resolve_band_price, energy_of, fee_of, lines_for, check_bill,
  new_invoice, issue, bill_session, is_completed, is_unbilled,
}

abbrev pub AllPriced : List Band → Type 0
AllPriced [] = Unit
AllPriced (b ∷ bs) = (pos 0 ≤ℤ b.price_per_kwh) × AllPriced bs

-- No price and no session fee is negative.
pub record IsPriced (m : Money) : Type 0 where
  pub prices : AllPriced m.bands
  pub fees : (i : ℕ) (p : Plan) → lookup i m.plans ≡ some p → pos 0 ≤ℤ p.session_fee

find-AllPriced :
    (plan_id dow mins : ℕ) (bs : List Band) (b : Band)
    → AllPriced bs
    → find (band_hit mins) (filter (is_candidate plan_id dow) bs) ≡ some b
    → pos 0 ≤ℤ b.price_per_kwh
find-AllPriced plan_id dow mins [] b h e = absurd (ground (arith, e))
find-AllPriced plan_id dow mins (x ∷ bs) b h e = elim (Bool-cases (is_candidate plan_id dow x)) [
  | inl listed ↦ elim (Bool-cases (band_hit mins x)) [
    | inl hit ↦ ground (arith, listed, hit, e, h.0)
    | inr miss ↦ find-AllPriced plan_id dow mins bs b h.1 (ground (arith, listed, miss, e))
  ]
  | inr other ↦ find-AllPriced plan_id dow mins bs b h.1 (ground (arith, other, e))
]

fee_of-nonneg : (plan_id : ℕ) (m : Money) → IsPriced m → pos 0 ≤ℤ fee_of plan_id m
fee_of-nonneg plan_id m v = elim (Option-cases (lookup plan_id m.plans)) [
  | inl gone ↦ rw (gone, fee_of) (omega arith)
  | inr (p, there) ↦ rw (there, fee_of) (v.fees plan_id p there)
]

energy_of-nonneg : (x : Session) → pos 0 ≤ℤ energy_of x
energy_of-nonneg x = ground arith

abbrev pub sum_lines : List InvoiceLine → Decimal
sum_lines [] = pos 0
sum_lines (l ∷ ls) = l.amount +ℤ sum_lines ls

-- With a fee of whole hundredths, not negative, the total of an invoice is the sum of its lines.
pub total-eq-sum_lines :
    (now sid : ℕ) (x : Session) (price : Decimal) (m : Money) (local : ℕ → LocalTime)
    → IsCents (fee_of x.tariff_plan_id m)
    → pos 0 ≤ℤ fee_of x.tariff_plan_id m
    → (new_invoice local now sid x price m).total
      ≡ sum_lines (lines_for (suc m.inv_seq) (energy_of x) price (fee_of x.tariff_plan_id m))
total-eq-sum_lines now sid x price m local c n =
    let fee = fee_of x.tariff_plan_id m in
    let amount = mul_fixed2 (energy_of x) price in
    IsCents-add amount fee (mul_fixed2-IsCents (energy_of x) price) c
    ∙ elim (Bool-cases (ltb_ℤ (pos 0) fee)) [
      | inl some_fee ↦ rw some_fee (omega int_laws)
      | inr no_fee ↦
          let zero_fee : fee ≡ pos 0 = ground (arith, no_fee, n) in rw no_fee (rw zero_fee refl)
    ]

pub check_bill_lem :
    (local : ℕ → LocalTime) (now sid : ℕ) (s : Store) (w : Session × Decimal)
    → check_bill local now sid s ≡ ok w
    → (lookup sid s.charging.sessions ≡ some w.0)
      × (is_completed w.0.state ≡ true)
      × (is_unbilled w.0.billing_state ≡ true)
      × (resolve_band_price w.0.tariff_plan_id (local w.0.started_at) s.money.bands ≡ ok w.1)
unfolding check_bill
check_bill_lem local now sid s w e = elim (Option-cases (lookup sid s.charging.sessions)) [
  | inl gone ↦ absurd (ground (arith, gone, e))
  | inr (x, there) ↦
      elim (Outcome-cases
        (resolve_band_price x.tariff_plan_id (local x.started_at) s.money.bands)) [
          | inl (price, found) ↦ ground (arith, there, found, e)
          | inr (f, refused) ↦ absurd (ground (arith, there, refused, e))
        ]
]

resolve_band_price-nonneg :
    (plan_id : ℕ) (t : LocalTime) (bs : List Band) (price : Decimal)
    → AllPriced bs
    → resolve_band_price plan_id t bs ≡ ok price
    → pos 0 ≤ℤ price
unfolding resolve_band_price
resolve_band_price-nonneg plan_id t bs price h e =
    elim (Option-cases (find (band_hit t.mins) (filter (is_candidate plan_id t.dow) bs))) [
      | inl gone ↦ absurd (ground (arith, gone, e))
      | inr (b, hit) ↦ ground (arith, hit, e, find-AllPriced plan_id t.dow t.mins bs b h hit)
    ]

module _ (local : ℕ → LocalTime) (now : ℕ) where
  issue-IsReconciled :
      (sid : ℕ) (x : Session) (price : Decimal) (m : Money)
      → pos 0 ≤ℤ price
      → IsPriced m
      → IsReconciled m
      → IsReconciled (issue local now sid x price m)
  unfolding issue
  issue-IsReconciled sid x price m n p v =
      let inv = new_invoice local now sid x price m in
      let amount = mul_fixed2 (energy_of x) price in
      let fee = fee_of x.tariff_plan_id m in
      let sum_nonneg : pos 0 ≤ℤ amount +ℤ fee = omega (
        int_laws,
        mul_fixed2_nonneg (energy_of x) price (energy_of-nonneg x) n,
        fee_of-nonneg x.tariff_plan_id m p,
      ) in
      let c = to_fixed2_idem (amount +ℤ fee) in
      let t = to_fixed2_nonneg (amount +ℤ fee) sum_nonneg in
      record {
        cents = v.cents;
        nonneg = v.nonneg;
        balanced = v.balanced;
        numbered = v.numbered;
        totals = λ i j e. elim (Bool-cases (suc m.inv_seq == i)) [
          | inl same ↦
              let q : j.total ≡ to_fixed2 (amount +ℤ fee) =
                ground (arith, same, e, lookup-insert (suc m.inv_seq) i inv m.invoices) in
              rw q (c, t)
          | inr other ↦
              v.totals i j
                (ground (arith, other, e, lookup-insert (suc m.inv_seq) i inv m.invoices))
        ];
      }

  -- A bill keeps the books balanced and issues a total of whole hundredths that is not negative.
  pub bill_session-IsReconciled :
      (sid : ℕ) (s : Store)
      → IsPriced s.money
      → IsReconciled s.money
      → IsReconciled (bill_session local now sid s).1.money
  unfolding bill_session
  bill_session-IsReconciled sid s p v = elim (Outcome-cases (check_bill local now sid s)) [
    | inl (w, e) ↦
        let (_, _, _, found) = check_bill_lem local now sid s w e in
        let n =
          resolve_band_price-nonneg w.0.tariff_plan_id (local w.0.started_at) s.money.bands w.1
            p.prices found in
        rw (e, commit) (issue-IsReconciled sid w.0 w.1 s.money n p v)
    | inr (f, e) ↦ rw (e, commit) v
  ]

  pub bill_session-IsPaidOnce :
      (sid : ℕ) (s : Store) → IsPaidOnce s.money → IsPaidOnce (bill_session local now sid s).1.money
  unfolding bill_session issue
  bill_session-IsPaidOnce sid s v = elim (Outcome-cases (check_bill local now sid s)) [
    | inl (w, e) ↦
        let inv = new_invoice local now sid w.0 w.1 s.money in
        let absent = v.inv_fresh (suc s.money.inv_seq) (omega arith) in
        rw (e, commit)
          (record {
            pay_fresh = v.pay_fresh;
            inv_fresh = λ k h.
                ground (
                  arith,
                  lookup-insert (suc s.money.inv_seq) k inv s.money.invoices,
                  v.inv_fresh k,
                );
            once = λ i. ground (
              arith,
              lookup-insert (suc s.money.inv_seq) i inv s.money.invoices,
              v.once i,
              absent,
            );
          })
    | inr (f, e) ↦ rw (e, commit) v
  ]
