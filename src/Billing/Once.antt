-- ===== src/Billing/Once.antt =====
-- About the invoices of a session: `billSession` of apps/api/src/db/store.js.
use volt_hub_csms.Prelude.{
  ℕ, suc, ◌≡◌, Bool, Option, none, some, arith, ◌==◌, nat_eq, inl, inr, if◌then◌else◌,
}
use volt_hub_csms.Prelude.Lists.{count}
use volt_hub_csms.Prelude.Dict.{values, lookup, lookup-insert, count-values-insert_new}
use volt_hub_csms.Prelude.Outcome.{commit, Outcome-cases}
use volt_hub_csms.Prelude.Table.{lookup-id}
use volt_hub_csms.State.{Store, Session, Invoice}
use volt_hub_csms.Sessions.Sound.{IsSound}
use volt_hub_csms.Wallets.Payments.{IsPaidOnce}
use volt_hub_csms.Billing.{
  LocalTime, is_unbilled, check_bill, new_invoice, issue, mark_billed, bill_session, billed_session,
}
use volt_hub_csms.Billing.Bills.{check_bill_lem}

abbrev pub bills : ℕ → Invoice → Bool
bills sid inv = inv.session_id == sid

abbrev pub billed_count : Option Session → ℕ
billed_count none = 0
billed_count (some x) = if is_unbilled x.billing_state then 0 else 1

-- Each BILLED session has one invoice, and every other id none.
abbrev pub IsBilledOnce : Store → Type 0
IsBilledOnce s =
    (sid : ℕ)
    → count (bills sid) (values s.money.invoices) ≡ billed_count (lookup sid s.charging.sessions)

module _ (local : ℕ → LocalTime) (now : ℕ) where
  pub bill_session-IsBilledOnce :
      (sid : ℕ) (s : Store)
      → IsSound s.charging
      → IsPaidOnce s.money
      → IsBilledOnce s
      → IsBilledOnce (bill_session local now sid s).1
  unfolding bill_session issue mark_billed
  bill_session-IsBilledOnce sid s v p b i = elim (Outcome-cases (check_bill local now sid s)) [
    | inl (w, e) ↦
        let (there, _, fresh, _) = check_bill_lem local now sid s w e in
        let inv = new_invoice local now sid w.0 w.1 s.money in
        let id =
          lookup-id (λ (x : Session). x.session_id) sid w.0 s.charging.sessions v.table there in
        let y = billed_session w.0 in
        ground (
          arith,
          e,
          fresh,
          there,
          id,
          b i,
          count-values-insert_new (bills i) (suc s.money.inv_seq) inv s.money.invoices
              (p.inv_fresh (suc s.money.inv_seq) (omega arith)),
          lookup-insert w.0.session_id i y s.charging.sessions,
        )
    | inr (f, e) ↦ rw (e, commit) (b i)
  ]
