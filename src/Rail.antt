-- ===== src/Rail.antt =====
-- The signed wallet rail of apps/api/src/db/store.js and apps/api/src/wallet/rail.js: challenges and
-- links. Recovering the signer of a message (`verifyMessage` of ethers) and the digest of a
-- signature are arguments, as is each random nonce. Labels are left out.
pub mod Intents
pub mod Settled
use volt_hub_csms.Prelude.{
  ℕ, suc, ◌+◌, ◌*◌, Bool, true, false, not, ◌&&◌, ◌||◌, List, [], ◌∷◌, Option, none, some, ltb,
  ◌==◌, nat_eq, if◌then◌else◌,
}
use volt_hub_csms.Prelude.Lists.{find}
use volt_hub_csms.Prelude.Int.{pos, negsuc, ltb_ℤ}
use volt_hub_csms.Prelude.Decimal.{Decimal, whole, to_fixed2}
use volt_hub_csms.Prelude.Dict.{Dict, values, lookup, insert, erase}
use volt_hub_csms.Prelude.Outcome.{Outcome, ok, err, ◌>>=◌, ◌>>◌, throw_if, or_throw, commit}
use volt_hub_csms.State.{
  Store, Rail, Message, challenge_message, intent_message, Challenge, Link, Intent, IntentId,
  intent_eq, IntentStatus, Wallet, Note, wallet_topup, Failure, failure, missing, challenge_invalid,
  challenge_expired, invalid_address, bad_signature, signature_mismatch, wallet_taken,
  no_wallet_linked, already_settled, intent_expired, invalid_amount, AuditValue, wallet_link,
  settlement, number,
}
use volt_hub_csms.Store.{Result, audit_log}
use volt_hub_csms.Wallets.{topup}

-- `CHALLENGE_TTL_MS` and `INTENT_TTL_MS`
abbrev pub challenge_ttl_ms : ℕ
challenge_ttl_ms = 300000

abbrev pub intent_ttl_ms : ℕ
intent_ttl_ms = 600000

-- `wei(inr)` at 250000 rupees: a millionth of a rupee is four million wei.
abbrev pub wei : Decimal → ℕ
wei (pos n) = n * 4000000
wei (negsuc n) = 0

abbrev pub is_open : IntentStatus → Bool
is_open IntentStatus.pending = true
is_open _ = false

abbrev pub is_settled : IntentStatus → Bool
is_settled IntentStatus.settled = true
is_settled _ = false

abbrev pub is_lapsed : IntentStatus → Bool
is_lapsed IntentStatus.expired = true
is_lapsed _ = false

-- `pruneWalletAuth`: challenges past their time go, intents past theirs expire.
unfoldable pub live_challenges : ℕ → Dict ℕ Challenge → Dict ℕ Challenge
live_challenges now [] = []
live_challenges now ((n, c) ∷ m) =
    let rest = live_challenges now m in if ltb c.expires_at now then rest else (n, c) ∷ rest

abbrev pub aged : ℕ → Intent → Intent
aged now i =
    if ltb i.expires_at now && is_open i.status
    then record i { status = IntentStatus.expired }
    else i

unfoldable pub aged_intents : ℕ → Dict IntentId Intent → Dict IntentId Intent
aged_intents now [] = []
aged_intents now ((k, i) ∷ m) = (k, aged now i) ∷ aged_intents now m

abbrev pub prune_wallet_auth : ℕ → Rail → Rail
prune_wallet_auth now r = record r {
  challenges = live_challenges now r.challenges;
  intents = aged_intents now r.intents;
}

abbrev pub with_rail : Rail → Store → Store
with_rail r s = record s { rail = r }

abbrev pub owned_by : ℕ → Link → Bool
owned_by uid k = k.user_id == uid

-- `s.walletLinks.get(key)` of another account.
abbrev pub is_taken : ℕ → ℕ → Rail → Bool
is_taken uid address r = elim (lookup address r.links) [
  | none ↦ false
  | some k ↦ not (k.user_id == uid)
]

module _ (chain : ℕ) (recover : Message → ℕ → Option ℕ) (digest : ℕ → ℕ) (now : ℕ) where
  -- `rail.verifySignature`
  unfoldable pub verify_signature : Message → ℕ → ℕ → Outcome Failure ℕ
  verify_signature message signature address = do
    signer ← or_throw (recover message signature) (failure bad_signature 401)
    throw_if (not (signer == address)) (failure signature_mismatch 401)
    ok signer

  -- `s.walletChallenge`; an address that is none is `none`.
  unfoldable pub wallet_challenge : ℕ → Option ℕ → ℕ → Store → Result Message
  wallet_challenge uid address nonce s =
      let r = prune_wallet_auth now s.rail in
      commit (or_throw address (failure invalid_address 422))
        (λ addr.
          let message = challenge_message addr chain nonce now in
          let c : Challenge = record {
            user_id = uid;
            address = addr;
            message = message;
            expires_at = now + challenge_ttl_ms;
          } in
          (ok message, with_rail (record r { challenges = insert nonce c r.challenges }) s))
        (with_rail r s)

  abbrev pub new_link : ℕ → ℕ → Rail → Link
  new_link uid addr r = record {
    link_id = elim (lookup addr r.links) [ none ↦ suc r.link_seq | some k ↦ k.link_id ];
    user_id = uid;
    address = addr;
    linked_at = now;
  }

  -- The checks before the challenge is used up, and those after it.
  unfoldable pub find_challenge : ℕ → ℕ → Rail → Outcome Failure Challenge
  find_challenge uid nonce r = do
    c ← or_throw (lookup nonce r.challenges) (failure challenge_invalid 409)
    throw_if (not (c.user_id == uid)) (failure challenge_invalid 403)
    ok c

  unfoldable pub check_link : ℕ → ℕ → Challenge → Rail → Outcome Failure ℕ
  check_link uid signature c r = do
    throw_if (ltb c.expires_at now) (failure challenge_expired 409)
    addr ← verify_signature c.message signature c.address
    throw_if (not (addr == c.address)) (failure signature_mismatch 401)
    throw_if (is_taken uid addr r) (failure wallet_taken 409)
    ok addr

  unfoldable pub add_link : ℕ → ℕ → Rail → Rail
  add_link uid addr r = record r {
    links = insert addr (new_link uid addr r) r.links;
    link_seq = elim (lookup addr r.links) [ none ↦ suc r.link_seq | some _ ↦ r.link_seq ];
  }

  -- `s.linkWallet`
  unfoldable pub link_wallet : ℕ → ℕ → ℕ → Store → Result Link
  link_wallet uid signature nonce s =
      let r = prune_wallet_auth now s.rail in
      commit (find_challenge uid nonce r)
        (λ c.
          let used = record r { challenges = erase nonce r.challenges } in
          commit (check_link uid signature c used)
            (λ addr.
              let k = new_link uid addr used in
              let old : Option AuditValue = elim (lookup addr used.links) [
                | none ↦ none
                | some x ↦ some (number x.address)
              ] in
              let id = k.link_id in
              (
                ok k,
                record s {
                  rail = add_link uid addr used;
                  trail =
                      audit_log now (some uid) "WALLET_LINK" id "LINK" old
                        (some (wallet_link addr chain)) s.trail;
                },
              ))
            (with_rail used s))
        (with_rail r s)

  unfoldable pub check_unlink : ℕ → ℕ → Rail → Outcome Failure Link
  check_unlink uid address r = do
    k ← or_throw (lookup address r.links) missing
    throw_if (not (k.user_id == uid)) missing
    ok k

  -- `s.unlinkWallet`
  unfoldable pub unlink_wallet : ℕ → ℕ → Store → Result ℕ
  unlink_wallet uid address s =
      commit (check_unlink uid address s.rail)
        (λ k.
          let id = k.link_id in
          (
            ok k.address,
            record s {
              rail = record s.rail { links = erase address s.rail.links };
              trail =
                  audit_log now (some uid) "WALLET_LINK" id "UNLINK" (some (number k.address)) none
                    s.trail;
            },
          ))
        s
