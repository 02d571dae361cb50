-- ===== src/Rail/Intents.antt =====
-- Top-up intents of signed wallets: `createTopupIntent` and `settleTopup` of apps/api/src/db/store.js.
use volt_hub_csms.Prelude.{ℕ, suc, ◌+◌, not, ◌||◌, Option, none, some, ltb, ◌==◌, nat_eq}
use volt_hub_csms.Prelude.Lists.{find}
use volt_hub_csms.Prelude.Int.{pos, ltb_ℤ}
use volt_hub_csms.Prelude.Decimal.{Decimal, whole, to_fixed2}
use volt_hub_csms.Prelude.Dict.{values, lookup, insert}
use volt_hub_csms.Prelude.Outcome.{Outcome, ok, err, ◌>>=◌, ◌>>◌, throw_if, or_throw, commit}
use volt_hub_csms.State.{
  Store, Rail, Message, intent_message, Link, Intent, IntentId, intent_eq, IntentStatus, Wallet,
  wallet_topup, Failure, failure, missing, no_wallet_linked, already_settled, intent_expired,
  invalid_amount, settlement,
}
use volt_hub_csms.Store.{Result, audit_log}
use volt_hub_csms.Wallets.{topup}
use volt_hub_csms.Rail.{
  intent_ttl_ms, wei, is_settled, is_lapsed, prune_wallet_auth, with_rail, owned_by,
  verify_signature,
}

module _ (chain : ℕ) (recover : Message → ℕ → Option ℕ) (digest : ℕ → ℕ) (now : ℕ) where
  -- `rail.MAX_TOPUP_INR` is 10000.
  unfoldable pub check_intent : ℕ → Option Decimal → Rail → Outcome Failure (Decimal × Link)
  check_intent uid amount r = do
    amt ← or_throw amount (failure invalid_amount 422)
    throw_if (not (ltb_ℤ (pos 0) amt)) (failure invalid_amount 422)
    throw_if (ltb_ℤ (whole 10000) amt) (failure invalid_amount 422)
    k ← or_throw (find (owned_by uid) (values r.links)) (failure no_wallet_linked 409)
    ok (amt, k)

  abbrev pub new_intent : ℕ → Decimal → ℕ → ℕ → Rail → Intent
  new_intent uid amt address nonce r =
      let id : IntentId = record { seq = suc r.intent_seq; nonce = nonce } in
      record {
        intent_id = id;
        user_id = uid;
        address = address;
        amount_inr = amt;
        amount_wei = wei amt;
        status = IntentStatus.pending;
        message = intent_message id address chain (to_fixed2 amt) (wei amt) (now + intent_ttl_ms);
        created_at = now;
        expires_at = now + intent_ttl_ms;
        settled_at = none;
        reference = none;
        balance_after = none;
      }

  -- `s.createTopupIntent`
  unfoldable pub create_topup_intent : ℕ → Option Decimal → ℕ → Store → Result Intent
  create_topup_intent uid amount nonce s =
      let r = prune_wallet_auth now s.rail in
      commit (check_intent uid amount r)
        (λ w.
          let i = new_intent uid w.0 (w.1).address nonce r in
          (
            ok i,
            with_rail
                (record r {
                  intent_seq = suc r.intent_seq;
                  intents = insert i.intent_id i r.intents;
                })
                s,
          ))
        (with_rail r s)

  unfoldable pub check_settle : ℕ → IntentId → ℕ → Rail → Outcome Failure (Intent × ℕ)
  check_settle uid id signature r = do
    i ← or_throw (lookup id r.intents) missing
    throw_if (not (i.user_id == uid)) missing
    throw_if (is_settled i.status) (failure already_settled 409)
    throw_if (is_lapsed i.status || ltb i.expires_at now) (failure intent_expired 409)
    signer ← verify_signature chain recover digest now i.message signature i.address
    ok (i, signer)

  abbrev pub settled_intent : ℕ → Wallet → Intent → Intent
  settled_intent signature w i = record i {
    status = IntentStatus.settled;
    settled_at = some now;
    reference = some (digest signature);
    balance_after = some w.balance;
  }

  -- What `settleTopup` writes after the credit.
  unfoldable pub note_settled : ℕ → ℕ → ℕ → Intent → Wallet → Store → Store
  note_settled uid signature signer i w s =
      let x = settlement i.intent_id i.amount_inr signer (digest signature) in
      record s {
        rail = record s.rail {
          intents = insert i.intent_id (settled_intent signature w i) s.rail.intents;
        };
        trail = audit_log now (some uid) "WALLET" uid "SETTLE" none (some x) s.trail;
      }

  -- `s.settleTopup`, with the wallet of its receipt. A credit that throws leaves the intent as it was.
  unfoldable pub settle_topup : ℕ → IntentId → ℕ → Store → Result Wallet
  settle_topup uid id signature s =
      let r = prune_wallet_auth now s.rail in
      commit (check_settle uid id signature r)
        (λ w.
          let i = w.0 in
          let credit =
            topup now uid (some i.amount_inr) (wallet_topup i.intent_id w.1) (with_rail r s) in
          elim credit.0 [
            | ok x ↦ (ok x, note_settled uid signature w.1 i x credit.1)
            | err e ↦ (err e, credit.1)
          ])
        (with_rail r s)
