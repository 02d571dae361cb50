-- ===== src/Wallets/Payments.antt =====
-- About the payments of an invoice: `payInvoice` of apps/api/src/db/store.js.
use volt_hub_csms.Prelude.{
  ℕ, suc, ◌<◌, ◌≡◌, refl, Bool, true, false, ◌&&◌, Option, none, some, arith, ◌==◌, nat_eq,
  Option-cases, inl, inr, if◌then◌else◌,
}
use volt_hub_csms.Prelude.Lists.{count}
use volt_hub_csms.Prelude.Dict.{
  values, lookup, lookup-insert, lookup-insert_self, count-values-insert_new,
  count-values-insert_same,
}
use volt_hub_csms.Prelude.Outcome.{ok, err, commit, Outcome-cases}
use volt_hub_csms.State.{
  Store, Money, Invoice, InvoiceStatus, Payment, PaymentStatus, success, e_pay_conflict, Note,
}
use volt_hub_csms.Prelude.Decimal.{Decimal}
use volt_hub_csms.Wallets.{
  is_due, check_pay, new_payment, decline, settle, pay_invoice, topup, check_topup, add_funds,
}
use volt_hub_csms.Wallets.Reconciled.{check_pay_lem}

abbrev pub is_success : PaymentStatus → Bool
is_success success = true
is_success PaymentStatus.failed = false

abbrev pub pays : ℕ → Payment → Bool
pays i p = p.invoice_id == i && is_success p.status

abbrev pub paid_count : Option Invoice → ℕ
paid_count none = 0
paid_count (some inv) = if is_due inv.status then 0 else 1

-- Each PAID invoice has one successful payment and any other id has none; payments and invoices stand under
-- ids that their sequences have reached.
pub record IsPaidOnce (m : Money) : Type 0 where
  pub pay_fresh : (k : ℕ) → m.pay_seq < k → lookup k m.payments ≡ none
  pub inv_fresh : (k : ℕ) → m.inv_seq < k → lookup k m.invoices ≡ none
  pub once : (i : ℕ) → count (pays i) (values m.payments) ≡ paid_count (lookup i m.invoices)

check_pay_due :
    (inv_id : ℕ) (m : Money) (inv : Invoice)
    → check_pay inv_id m ≡ ok inv
    → is_due inv.status ≡ true
unfolding check_pay
check_pay_due inv_id m inv e = elim (Option-cases (lookup inv_id m.invoices)) [
  | inl gone ↦ absurd (ground (arith, gone, e))
  | inr (y, there) ↦ ground (arith, there, e)
]

module _ (now : ℕ) where
  settle-IsPaidOnce :
      (inv_id uid : ℕ) (inv : Invoice) (m : Money)
      → lookup inv_id m.invoices ≡ some inv
      → is_due inv.status ≡ true
      → IsPaidOnce m
      → IsPaidOnce (settle now inv_id uid inv m)
  unfolding settle
  settle-IsPaidOnce inv_id uid inv m there d v =
      let p = new_payment now inv_id inv.total success (some now) m in
      let paid = record inv { status = InvoiceStatus.paid } in
      let absent = v.pay_fresh (suc m.pay_seq) (omega arith) in
      record {
        pay_fresh =
            λ k h. ground (arith, lookup-insert (suc m.pay_seq) k p m.payments, v.pay_fresh k);
        inv_fresh =
            λ k h. ground (arith, lookup-insert inv_id k paid m.invoices, v.inv_fresh k h, there);
        once = λ i. ground (
          arith,
          count-values-insert_new (pays i) (suc m.pay_seq) p m.payments absent,
          lookup-insert inv_id i paid m.invoices,
          v.once i,
          there,
          d,
        );
      }

  decline-IsPaidOnce :
      (inv_id uid : ℕ) (inv : Invoice) (m : Money)
      → IsPaidOnce m
      → IsPaidOnce (decline now inv_id uid inv m)
  unfolding decline
  decline-IsPaidOnce inv_id uid inv m v =
      let p = new_payment now inv_id inv.total PaymentStatus.failed none m in
      let absent = v.pay_fresh (suc m.pay_seq) (omega arith) in
      record {
        pay_fresh =
            λ k h. ground (arith, lookup-insert (suc m.pay_seq) k p m.payments, v.pay_fresh k);
        inv_fresh = v.inv_fresh;
        once = λ i.
            ground (
              arith,
              count-values-insert_new (pays i) (suc m.pay_seq) p m.payments absent,
              v.once i,
            );
      }

  pub pay_invoice-IsPaidOnce :
      (inv_id uid : ℕ) (s : Store)
      → IsPaidOnce s.money
      → IsPaidOnce (pay_invoice now inv_id uid s).1.money
  unfolding pay_invoice
  pay_invoice-IsPaidOnce inv_id uid s v = elim (Outcome-cases (check_pay inv_id s.money)) [
    | inl (inv, e) ↦ ground (
      arith,
      e,
      decline-IsPaidOnce inv_id uid inv s.money v,
      settle-IsPaidOnce inv_id uid inv s.money (check_pay_lem now inv_id s.money inv e)
          (check_pay_due inv_id s.money inv e) v,
    )
    | inr (f, e) ↦ rw (e, commit) v
  ]

  pub topup-IsPaidOnce :
      (uid : ℕ) (amount : Option Decimal) (note : Note) (s : Store)
      → IsPaidOnce s.money
      → IsPaidOnce (topup now uid amount note s).1.money
  unfolding topup add_funds
  topup-IsPaidOnce uid amount note s v = elim (Outcome-cases (check_topup amount)) [
    | inl (a, e) ↦
        rw (e, commit) (record { pay_fresh = v.pay_fresh; inv_fresh = v.inv_fresh; once = v.once })
    | inr (f, e) ↦ rw (e, commit) v
  ]

  pay_invoice_settled :
      (inv_id uid : ℕ) (s : Store) (p : Payment)
      → (pay_invoice now inv_id uid s).0 ≡ ok p
      → (inv : Invoice) × (check_pay inv_id s.money ≡ ok inv)
        × ((pay_invoice now inv_id uid s).1.money ≡ settle now inv_id uid inv s.money)
  unfolding pay_invoice
  pay_invoice_settled inv_id uid s p h = elim (Outcome-cases (check_pay inv_id s.money)) [
    | inl (inv, e) ↦ (inv, e, ground (arith, e, h))
    | inr (f, e) ↦ absurd (ground (arith, e, h))
  ]

  -- After a payment that went through, every later attempt on the invoice, by whomever, is refused with
  -- PAY_CONFLICT and changes nothing.
  pub pay_invoice_twice :
      (later inv_id uid other : ℕ) (s : Store) (p : Payment)
      → (pay_invoice now inv_id uid s).0 ≡ ok p
      → let after = (pay_invoice now inv_id uid s).1 in
        pay_invoice later inv_id other after ≡ (err e_pay_conflict, after)
  pay_invoice_twice later inv_id uid other s p h =
      let (inv, e, m) = pay_invoice_settled inv_id uid s p h in
      let after = (pay_invoice now inv_id uid s).1 in
      let paid = record inv { status = InvoiceStatus.paid } in
      let refused : check_pay inv_id after.money ≡ err e_pay_conflict =
        unfold check_pay settle in
        (rw m (rw (lookup-insert_self inv_id paid s.money.invoices) refl)) in
      unfold pay_invoice in (rw (refused, commit) refl)

module _ (now : ℕ) where
  -- A payment changes no invoice but in its status.
  pub pay_invoice-bills :
      (p : Invoice → Bool)
      → ((inv : Invoice) → p (record inv { status = InvoiceStatus.paid }) ≡ p inv)
      → (inv_id uid : ℕ) (s : Store)
      → count p (values (pay_invoice now inv_id uid s).1.money.invoices)
        ≡ count p (values s.money.invoices)
  unfolding pay_invoice settle decline
  pay_invoice-bills p same inv_id uid s = elim (Outcome-cases (check_pay inv_id s.money)) [
    | inl (inv, e) ↦ ground (
      arith,
      e,
      count-values-insert_same p inv_id (record inv { status = InvoiceStatus.paid }) inv
          s.money.invoices (check_pay_lem now inv_id s.money inv e) (same inv),
    )
    | inr (f, e) ↦ rw (e, commit) refl
  ]

  pub topup-invoices :
      (uid : ℕ) (amount : Option Decimal) (note : Note) (s : Store)
      → (topup now uid amount note s).1.money.invoices ≡ s.money.invoices
  unfolding topup add_funds
  topup-invoices uid amount note s = ground arith
