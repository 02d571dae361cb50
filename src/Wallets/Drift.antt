-- ===== src/Wallets/Drift.antt =====
-- About a top-up of a fraction of a hundredth: `topup` of apps/api/src/db/store.js.
use volt_hub_csms.Prelude.{ℕ, ◌≡◌, ◌≢◌, refl, sym, ◌∙◌, arith, nat_eq}
use volt_hub_csms.Prelude.Int.{◌+ℤ◌, ◌-ℤ◌, int_laws}
use volt_hub_csms.Prelude.Decimal.{Decimal, to_fixed2, IsCents, IsCents-sub}
use volt_hub_csms.Prelude.Dict.{lookup-insert_self}
use volt_hub_csms.State.{Money, Note}
use volt_hub_csms.Wallets.{wallet_of, credited, add_funds}
use volt_hub_csms.Wallets.Reconciled.{IsReconciled, balance_of, ledger_sum, ledger_sum-push}

-- From balanced books, any credited amount that is no whole number of hundredths leaves the balance of
-- the wallet different from the sum of its ledger rows.
pub add_funds_drifts :
    (now uid : ℕ) (a : Decimal) (note : Note) (m : Money)
    → IsReconciled m
    → ¬ IsCents a
    → balance_of uid (add_funds now uid a note m)
      ≢ ledger_sum uid (add_funds now uid a note m).ledgers
add_funds_drifts now uid a note m v fraction same = fraction whole_lem
  where
    old : Decimal
    old = balance_of uid m

    balance : balance_of uid (add_funds now uid a note m) ≡ to_fixed2 (old +ℤ a)
    balance =
        unfold add_funds in
        (rw
          (
            lookup-insert_self uid (credited now (wallet_of uid m) a) m.wallets,
            balance_of,
            wallet_of,
          )
          refl)

    sum : ledger_sum uid (add_funds now uid a note m).ledgers ≡ old +ℤ a
    sum =
        unfold add_funds in
        (ledger_sum-push uid _ m.ledgers
          ∙ ground (arith, sym (v.balanced uid), (nat_eq.same_iff uid uid).1 refl))

    total : IsCents (old +ℤ a)
    total = sym balance ∙ same ∙ sum

    whole_lem : IsCents a
    whole_lem =
        let e : old +ℤ a -ℤ old ≡ a = omega int_laws in
        rw e at (IsCents-sub (old +ℤ a) old total (v.cents uid))
