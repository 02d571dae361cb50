-- ===== src/Wallets.antt =====
-- Wallets of apps/api/src/db/store.js: `topup` and `payInvoice`, with the append-only ledger. Each
-- is one step here, and reads the clock once.
pub mod Reconciled
pub mod Payments
pub mod Drift
use volt_hub_csms.Prelude.{
  ℕ, suc, ◌+◌, Bool, true, false, not, ◌||◌, String, List, Option, none, some, ◌==◌, nat_eq,
  if◌then◌else◌,
}
use volt_hub_csms.Prelude.Lists.{push, count}
use volt_hub_csms.Prelude.Int.{pos, ◌+ℤ◌, ◌-ℤ◌, ltb_ℤ}
use volt_hub_csms.Prelude.Decimal.{Decimal, whole, to_fixed2}
use volt_hub_csms.Prelude.Dict.{lookup, insert}
use volt_hub_csms.Prelude.Outcome.{Outcome, ok, err, ◌>>=◌, ◌>>◌, throw_if, or_throw, commit}
use volt_hub_csms.State.{
  Store, Money, Wallet, LedgerRow, LedgerKind, Note, for_invoice, Invoice, InvoiceStatus, due,
  Payment, PaymentStatus, success, Failure, failure, missing, invalid_amount, e_pay_conflict,
  e_insufficient_funds, text, credit,
}
use volt_hub_csms.Store.{Result, audit_log}

-- `s.ledgers.filter((l) => l.user_id === uid).length`
abbrev pub rows_of : ℕ → List LedgerRow → ℕ
rows_of uid = count (λ r. r.user_id == uid)

abbrev pub is_due : InvoiceStatus → Bool
is_due due = true
is_due _ = false

-- `s.wallets.get(uid) || { user_id: uid, balance: 0, … }`
abbrev pub wallet_of : ℕ → Money → Wallet
wallet_of uid m = elim (lookup uid m.wallets) [
  | none ↦ record { user_id = uid; balance = pos 0; updated_at = none }
  | some w ↦ w
]

-- The amount of a top-up; a number that is not finite is `none`.
unfoldable pub check_topup : Option Decimal → Outcome Failure Decimal
check_topup none = err (failure invalid_amount 422)
check_topup (some amount) = do
  throw_if (not (ltb_ℤ (pos 0) amount)) (failure invalid_amount 422)
  throw_if (ltb_ℤ (whole 10000) amount) (failure invalid_amount 422)
  ok amount

unfoldable pub check_pay : ℕ → Money → Outcome Failure Invoice
check_pay inv_id m = do
  inv ← or_throw (lookup inv_id m.invoices) missing
  throw_if (not (is_due inv.status)) e_pay_conflict
  ok inv

module _ (now : ℕ) where
  -- The wallet after a top-up or a payment, and the ledger row that goes with it.
  abbrev pub credited : Wallet → Decimal → Wallet
  credited w amount = record w { balance = to_fixed2 (w.balance +ℤ amount); updated_at = some now }

  unfoldable pub add_funds : ℕ → Decimal → Note → Money → Money
  add_funds uid amount note m =
      let w = credited (wallet_of uid m) amount in
      record m {
        wallets = insert uid w m.wallets;
        ledgers =
            push
              (record {
                user_id = uid;
                seq_no = rows_of uid m.ledgers + 1;
                kind = LedgerKind.topup;
                amount = amount;
                balance_after = w.balance;
                payment_id = none;
                note = note;
                created_at = now;
              })
              m.ledgers;
      }

  -- `s.topup`
  unfoldable pub topup : ℕ → Option Decimal → Note → Store → Result Wallet
  topup uid amount note s =
      commit (check_topup amount)
        (λ a.
          let w = credited (wallet_of uid s.money) a in
          (
            ok w,
            record s {
              money = add_funds uid a note s.money;
              trail =
                  audit_log now (some uid) "WALLET" uid "TOPUP" none
                    (some (credit a w.balance note)) s.trail;
            },
          ))
        s

  abbrev pub new_payment : ℕ → Decimal → PaymentStatus → Option ℕ → Money → Payment
  new_payment inv_id total st reference m = record {
    payment_id = suc m.pay_seq;
    invoice_id = inv_id;
    amount = total;
    status = st;
    reference = reference;
    created_at = now;
  }

  -- A payment that the wallet cannot cover: the wallet row and a FAILED payment stay behind.
  unfoldable pub decline : ℕ → ℕ → Invoice → Money → Money
  decline inv_id uid inv m =
      let p = new_payment inv_id inv.total PaymentStatus.failed none m in
      record m {
        wallets = insert uid (wallet_of uid m) m.wallets;
        pay_seq = p.payment_id;
        payments = insert p.payment_id p m.payments;
      }

  unfoldable pub settle : ℕ → ℕ → Invoice → Money → Money
  settle inv_id uid inv m =
      let w = wallet_of uid m in
      let left = to_fixed2 (w.balance -ℤ inv.total) in
      let p = new_payment inv_id inv.total success (some now) m in
      record m {
        wallets = insert uid (record w { balance = left; updated_at = some now }) m.wallets;
        pay_seq = p.payment_id;
        payments = insert p.payment_id p m.payments;
        ledgers =
            push
              (record {
                user_id = uid;
                seq_no = rows_of uid m.ledgers + 1;
                kind = LedgerKind.payment;
                amount = pos 0 -ℤ inv.total;
                balance_after = left;
                payment_id = some p.payment_id;
                note = for_invoice inv_id;
                created_at = now;
              })
              m.ledgers;
        invoices = insert inv_id (record inv { status = InvoiceStatus.paid }) m.invoices;
      }

  -- `s.payInvoice`
  unfoldable pub pay_invoice : ℕ → ℕ → Store → Result Payment
  pay_invoice inv_id uid s =
      commit (check_pay inv_id s.money)
        (λ inv.
          let p = new_payment inv_id inv.total success (some now) s.money in
          let declined : Store = record s { money = decline inv_id uid inv s.money } in
          let settled : Store = record s {
            money = settle inv_id uid inv s.money;
            trail =
                audit_log now (some uid) "INVOICE" inv_id "PAY" (some (text "DUE"))
                  (some (text "PAID")) s.trail;
          } in
          if ltb_ℤ (wallet_of uid s.money).balance inv.total
          then (err e_insufficient_funds, declined)
          else (ok p, settled))
        s
