-- ===== src/Wallets/Reconciled.antt =====
-- About the balance of a wallet and its ledger rows: `topup` and `payInvoice` of
-- apps/api/src/db/store.js.
use volt_hub_csms.Prelude.{
  ℕ, zero, suc, ◌+◌, ◌≡◌, refl, sym, ap, ◌∙◌, List, [], ◌∷◌, ◌++◌, map, Option, none, some, arith,
  ◌==◌, nat_eq, Bool-cases, Option-cases, inl, inr, if◌then◌else◌,
}
use mathlib.Core.List.{map-append, append-nil}
use volt_hub_csms.Prelude.Lists.{push, filter, filter-append}
use volt_hub_csms.Prelude.Int.{pos, ◌+ℤ◌, ◌-ℤ◌, ◌≤ℤ◌, ltb_ℤ, int_laws}
use volt_hub_csms.Prelude.Decimal.{Decimal, to_fixed2, IsCents, IsCents-add, IsCents-sub}
use volt_hub_csms.Prelude.Dict.{lookup, insert, lookup-insert}
use volt_hub_csms.Prelude.Outcome.{ok, commit, Outcome-cases}
use volt_hub_csms.State.{
  Store, Money, Wallet, LedgerRow, LedgerKind, Note, for_invoice, Invoice, InvoiceStatus,
}
use volt_hub_csms.Wallets.{
  rows_of, wallet_of, check_topup, credited, add_funds, topup, check_pay, decline, settle,
  pay_invoice,
}

abbrev pub balance_of : ℕ → Money → Decimal
balance_of uid m = (wallet_of uid m).balance

abbrev pub ledger_sum : ℕ → List LedgerRow → Decimal
ledger_sum uid [] = pos 0
ledger_sum uid (r ∷ rs) = (if r.user_id == uid then r.amount else pos 0) +ℤ ledger_sum uid rs

abbrev pub seqs : ℕ → List LedgerRow → List ℕ
seqs uid rs = map (λ r. r.seq_no) (filter (λ r. r.user_id == uid) rs)

-- 1, 2, …, n
abbrev pub upto : ℕ → List ℕ
upto zero = []
upto (suc n) = push (suc n) (upto n)

-- Every balance is a whole number of hundredths, not negative, and the sum of the user's ledger rows; the
-- rows of a user are numbered from 1 with no gap; invoice totals are whole hundredths and not negative.
pub record IsReconciled (m : Money) : Type 0 where
  pub cents : (uid : ℕ) → IsCents (balance_of uid m)
  pub nonneg : (uid : ℕ) → pos 0 ≤ℤ balance_of uid m
  pub balanced : (uid : ℕ) → balance_of uid m ≡ ledger_sum uid m.ledgers
  pub numbered : (uid : ℕ) → seqs uid m.ledgers ≡ upto (rows_of uid m.ledgers)
  pub totals :
      (i : ℕ) (inv : Invoice)
      → lookup i m.invoices ≡ some inv
      → IsCents inv.total × (pos 0 ≤ℤ inv.total)

pub ledger_sum-push :
    (uid : ℕ) (r : LedgerRow) (rs : List LedgerRow)
    → ledger_sum uid (push r rs)
      ≡ ledger_sum uid rs +ℤ (if r.user_id == uid then r.amount else pos 0)
ledger_sum-push uid r [] = omega int_laws
ledger_sum-push uid r (x ∷ rs) = rw (ledger_sum-push uid r rs) (omega int_laws)

rows_of-push :
    (uid : ℕ) (r : LedgerRow) (rs : List LedgerRow)
    → rows_of uid (push r rs) ≡ rows_of uid rs + (if r.user_id == uid then 1 else 0)
rows_of-push uid r [] = omega arith
rows_of-push uid r (x ∷ rs) = omega (arith, rows_of-push uid r rs)

-- A row that is numbered next keeps the numbering.
push-numbered :
    (uid : ℕ) (r : LedgerRow) (rs : List LedgerRow)
    → r.seq_no ≡ rows_of r.user_id rs + 1
    → seqs uid rs ≡ upto (rows_of uid rs)
    → seqs uid (push r rs) ≡ upto (rows_of uid (push r rs))
push-numbered uid r rs next h =
    let mine = λ (x : LedgerRow). x.user_id == uid in
    let split : seqs uid (push r rs) ≡ seqs uid rs ++ seqs uid (r ∷ []) =
      ap (map (λ x. x.seq_no)) (filter-append mine rs (r ∷ []))
      ∙ map-append (λ (x : LedgerRow). x.seq_no) (filter mine rs) (filter mine (r ∷ [])) in
    elim (Bool-cases (mine r)) [
      | inl own ↦
          let n : rows_of uid (push r rs) ≡ suc (rows_of uid rs) =
            omega (arith, rows_of-push uid r rs, ap {B = ℕ} (λ b. if b then 1 else 0) own) in
          let k : r.seq_no ≡ suc (rows_of uid rs) =
            omega
              (arith, next, ap (λ (u : ℕ). rows_of u rs) ((nat_eq.same_iff r.user_id uid).0 own)) in
          rw n (split ∙ ground (arith, own, h, k))
      | inr other ↦
          let n : rows_of uid (push r rs) ≡ rows_of uid rs =
            omega (arith, rows_of-push uid r rs, ap {B = ℕ} (λ b. if b then 1 else 0) other) in
          rw n (split ∙ ground (arith, other, h, append-nil (seqs uid rs)))
    ]

check_topup_lem :
    (amount : Option Decimal) (a : Decimal)
    → check_topup amount ≡ ok a
    → (amount ≡ some a) × (pos 0 ≤ℤ a)
unfolding check_topup
check_topup_lem none a h = absurd (ground (arith, h))
check_topup_lem (some b) a h = ground (arith, h)

+ℤ_zero : (a : Decimal) → a +ℤ pos 0 ≡ a
+ℤ_zero a = omega int_laws

-- A wallet row written with the ledger row that explains the change of its balance.
post-IsReconciled :
    (uid : ℕ) (w : Wallet) (r : LedgerRow) (m : Money)
    → r.user_id ≡ uid
    → r.seq_no ≡ rows_of uid m.ledgers + 1
    → IsCents w.balance
    → pos 0 ≤ℤ w.balance
    → w.balance ≡ balance_of uid m +ℤ r.amount
    → IsReconciled m
    → IsReconciled (record m { wallets = insert uid w m.wallets; ledgers = push r m.ledgers })
post-IsReconciled uid w r m own next c n change v = record {
  cents = λ u. ground (arith, lookup-insert uid u w m.wallets, v.cents u, c);
  nonneg = λ u. ground (arith, lookup-insert uid u w m.wallets, v.nonneg u, n);
  balanced = λ u. rw (ledger_sum-push u r m.ledgers) (elim (Bool-cases (uid == u)) [
    | inl same ↦
        let p = (nat_eq.same_iff uid u).0 same in
        ground (
          arith,
          same,
          p,
          own,
          lookup-insert uid u w m.wallets,
          change,
          v.balanced u,
          v.balanced uid,
        )
    | inr other ↦ ground (
      arith,
      other,
      own,
      lookup-insert uid u w m.wallets,
      v.balanced u,
      +ℤ_zero (ledger_sum u m.ledgers),
    )
  ]);
  numbered = λ u.
      push-numbered u r m.ledgers (next ∙ ap (λ k. rows_of k m.ledgers + 1) (sym own))
        (v.numbered u);
  totals = v.totals;
}

-- A top-up of a whole number of hundredths adds it to the balance exactly.
add_funds-IsReconciled :
    (now uid : ℕ) (a : Decimal) (note : Note) (m : Money)
    → IsCents a
    → pos 0 ≤ℤ a
    → IsReconciled m
    → IsReconciled (add_funds now uid a note m)
unfolding add_funds
add_funds-IsReconciled now uid a note m c n v =
    let exact = IsCents-add (balance_of uid m) a (v.cents uid) c in
    post-IsReconciled uid (credited now (wallet_of uid m) a) _ m refl refl (rw exact exact)
      (rw exact (omega (int_laws, v.nonneg uid))) exact v

settle-IsReconciled :
    (now inv_id uid : ℕ) (inv : Invoice) (m : Money)
    → lookup inv_id m.invoices ≡ some inv
    → inv.total ≤ℤ balance_of uid m
    → IsReconciled m
    → IsReconciled (settle now inv_id uid inv m)
unfolding settle
settle-IsReconciled now inv_id uid inv m there covered v =
    let (c, n) = v.totals inv_id inv there in
    let exact = IsCents-sub (balance_of uid m) inv.total (v.cents uid) c in
    let w =
      post-IsReconciled uid
        (record (wallet_of uid m) {
          balance = to_fixed2 (balance_of uid m -ℤ inv.total);
          updated_at = some now;
        })
        (record {
          user_id = uid;
          seq_no = rows_of uid m.ledgers + 1;
          kind = LedgerKind.payment;
          amount = pos 0 -ℤ inv.total;
          balance_after = to_fixed2 (balance_of uid m -ℤ inv.total);
          payment_id = some (suc m.pay_seq);
          note = for_invoice inv_id;
          created_at = now;
        })
        m refl refl (rw exact exact) (rw exact (omega int_laws)) (rw exact (omega int_laws)) v in
    record {
      cents = w.cents;
      nonneg = w.nonneg;
      balanced = w.balanced;
      numbered = w.numbered;
      totals = λ i j e. ground (
        arith,
        lookup-insert inv_id i (record inv { status = InvoiceStatus.paid }) m.invoices,
        v.totals i j,
        c,
        n,
        e,
      );
    }

decline-IsReconciled :
    (now inv_id uid : ℕ) (inv : Invoice) (m : Money)
    → IsReconciled m
    → IsReconciled (decline now inv_id uid inv m)
unfolding decline
decline-IsReconciled now inv_id uid inv m v = record {
  cents = λ u. rw (same u) (v.cents u);
  nonneg = λ u. rw (same u) (v.nonneg u);
  balanced = λ u. same u ∙ v.balanced u;
  numbered = v.numbered;
  totals = v.totals;
}
  where
    same : (u : ℕ) → balance_of u (decline now inv_id uid inv m) ≡ balance_of u m
    same u = ground (arith, lookup-insert uid u (wallet_of uid m) m.wallets)

module _ (now : ℕ) where
  -- A top-up of whole hundredths keeps the books balanced, and a refused one changes nothing.
  pub topup-IsReconciled :
      (uid : ℕ) (amount : Option Decimal) (note : Note) (s : Store)
      → ((a : Decimal) → amount ≡ some a → IsCents a)
      → IsReconciled s.money
      → IsReconciled (topup now uid amount note s).1.money
  unfolding topup
  topup-IsReconciled uid amount note s c v = elim (Outcome-cases (check_topup amount)) [
    | inl (a, e) ↦
        let (given, n) = check_topup_lem amount a e in
        rw (e, commit) (add_funds-IsReconciled now uid a note s.money (c a given) n v)
    | inr (f, e) ↦ rw (e, commit) v
  ]

  pub check_pay_lem :
      (inv_id : ℕ) (m : Money) (inv : Invoice)
      → check_pay inv_id m ≡ ok inv
      → lookup inv_id m.invoices ≡ some inv
  unfolding check_pay
  check_pay_lem inv_id m inv e = elim (Option-cases (lookup inv_id m.invoices)) [
    | inl gone ↦ absurd (ground (arith, gone, e))
    | inr (y, there) ↦ ground (arith, there, e)
  ]

  -- A payment, settled or declined, keeps the books balanced.
  pub pay_invoice-IsReconciled :
      (inv_id uid : ℕ) (s : Store)
      → IsReconciled s.money
      → IsReconciled (pay_invoice now inv_id uid s).1.money
  unfolding pay_invoice
  pay_invoice-IsReconciled inv_id uid s v = elim (Outcome-cases (check_pay inv_id s.money)) [
    | inl (inv, e) ↦ elim (Bool-cases (ltb_ℤ (balance_of uid s.money) inv.total)) [
      | inl short ↦ ground (arith, e, short, decline-IsReconciled now inv_id uid inv s.money v)
      | inr covered ↦ ground (
        arith,
        e,
        covered,
        settle-IsReconciled now inv_id uid inv s.money (check_pay_lem inv_id s.money inv e)
            (ground (arith, covered)) v,
      )
    ]
    | inr (f, e) ↦ rw (e, commit) v
  ]
