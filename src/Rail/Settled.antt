-- ===== src/Rail/Settled.antt =====
-- About the settlement of a signed top-up intent: `settleTopup` of apps/api/src/db/store.js.
use volt_hub_csms.Prelude.{
  ℕ, ◌≡◌, refl, sym, ap, ◌∙◌, true, false, Option, none, some, ltb, arith, nat_eq, Option-cases,
  inl, inr, [], ◌∷◌,
}
use volt_hub_csms.Prelude.Int.{◌+ℤ◌}
use volt_hub_csms.Prelude.Decimal.{Decimal, to_fixed2}
use volt_hub_csms.Prelude.Dict.{Dict, lookup, insert, lookup-insert_self}
use volt_hub_csms.Prelude.Table.{IsTable, lookup-id}
use volt_hub_csms.Prelude.Outcome.{ok, err, commit, Outcome-cases}
use volt_hub_csms.State.{
  Store, Rail, Message, Intent, IntentId, intent_eq, Wallet, Note, wallet_topup, Failure,
}
use volt_hub_csms.Wallets.{topup, check_topup, credited, wallet_of}
use volt_hub_csms.Rail.{
  is_open, is_settled, aged, aged_intents, prune_wallet_auth, with_rail, verify_signature,
}
use volt_hub_csms.Rail.Intents.{check_settle, settled_intent, note_settled, settle_topup}

abbrev mapped : ℕ → Option Intent → Option Intent
mapped now none = none
mapped now (some i) = some (aged now i)

lookup-aged_intents :
    (now : ℕ) (id : IntentId) (m : Dict IntentId Intent)
    → lookup id (aged_intents now m) ≡ mapped now (lookup id m)
unfolding lookup aged_intents
lookup-aged_intents now id [] = refl
lookup-aged_intents now id ((k, i) ∷ m) = ground (arith, lookup-aged_intents now id m)

module _ (chain : ℕ) (recover : Message → ℕ → Option ℕ) (digest : ℕ → ℕ) where
  -- What the checks of a settlement have found when they pass.
  check_settle_lem :
      (now uid signature : ℕ) (id : IntentId) (r : Rail) (w : Intent × ℕ)
      → check_settle chain recover digest now uid id signature (prune_wallet_auth now r) ≡ ok w
      → (lookup id r.intents ≡ some w.0)
        × (w.0.user_id ≡ uid)
        × (is_open w.0.status ≡ true)
        × (ltb w.0.expires_at now ≡ false)
        × (recover w.0.message signature ≡ some w.0.address)
        × (w.1 ≡ w.0.address)
  unfolding check_settle verify_signature
  check_settle_lem now uid signature id r w e = elim (Option-cases (lookup id r.intents)) [
    | inl gone ↦ absurd (ground (arith, gone, e, lookup-aged_intents now id r.intents))
    | inr (i, there) ↦ elim (Option-cases (recover (aged now i).message signature)) [
      | inl bad ↦ absurd (ground (arith, there, bad, e, lookup-aged_intents now id r.intents))
      | inr (signer, good) ↦ ground (
        arith,
        there,
        good,
        e,
        lookup-aged_intents now id r.intents,
        nat_eq.same_iff i.user_id uid,
        nat_eq.same_iff signer i.address,
      )
    ]
  ]

  topup_lem :
      (now uid : ℕ) (a : Decimal) (note : Note) (s : Store) (w : Wallet)
      → (topup now uid (some a) note s).0 ≡ ok w
      → w ≡ credited now (wallet_of uid s.money) a
  unfolding topup
  topup_lem now uid a note s w e = elim (Outcome-cases (check_topup (some a))) [
    | inl (b, h) ↦ unfold check_topup in ground (arith, h, e)
    | inr (f, h) ↦ absurd (ground (arith, h, e))
  ]

  topup-rail :
      (now uid : ℕ) (a : Option Decimal) (note : Note) (s : Store)
      → (topup now uid a note s).1.rail ≡ s.rail
  unfolding topup
  topup-rail now uid a note s = ground arith

  -- A settlement that succeeds: its intent, and the store that it leaves.
  settled_lem :
      (now uid signature : ℕ) (id : IntentId) (s : Store) (w : Wallet)
      → (settle_topup chain recover digest now uid id signature s).0 ≡ ok w
      → (i : Intent) × (signer : ℕ) × (check_settle chain recover digest now uid id signature
            (prune_wallet_auth now s.rail)
          ≡ ok (i, signer))
        × let credit =
            topup now uid
              (some i.amount_inr)
              (wallet_topup i.intent_id signer)
              (with_rail (prune_wallet_auth now s.rail) s) in
          (credit.0 ≡ ok w)
          × ((settle_topup chain recover digest now uid id signature s).1
              ≡ note_settled chain recover digest now uid signature signer i w credit.1)
  unfolding settle_topup
  settled_lem now uid signature id s w e =
      elim (Outcome-cases
        (check_settle chain recover digest now uid id signature (prune_wallet_auth now s.rail))) [
          | inr (f, h) ↦ absurd (ground (arith, h, e))
          | inl (v, h) ↦
              let credit =
                topup now uid (some v.0.amount_inr) (wallet_topup v.0.intent_id v.1)
                  (with_rail (prune_wallet_auth now s.rail) s) in
              elim (Outcome-cases credit.0) [
                | inr (f, g) ↦ absurd (ground (arith, h, g, e))
                | inl (x, g) ↦
                    let same : x ≡ w = ground (arith, h, g, e) in
                    (v.0, v.1, h, (g ∙ ap ok same, rw (h, commit) (rw g (rw same refl))))
              ]
        ]

  pub settle_topup_authorised :
      (now uid signature : ℕ) (id : IntentId) (s : Store) (w : Wallet)
      → (settle_topup chain recover digest now uid id signature s).0 ≡ ok w
      → (i : Intent) × (lookup id s.rail.intents ≡ some i)
        × (i.user_id ≡ uid)
        × (is_open i.status ≡ true)
        × (ltb i.expires_at now ≡ false)
        × (recover i.message signature ≡ some i.address)
        × (w.balance ≡ to_fixed2 ((wallet_of uid s.money).balance +ℤ i.amount_inr))
  settle_topup_authorised now uid signature id s w e =
      let (i, signer, checked, (credit, after)) = settled_lem now uid signature id s w e in
      let (there, own, live, intime, signed, same) =
        check_settle_lem now uid signature id s.rail (i, signer) checked in
      let r = prune_wallet_auth now s.rail in
      let note = wallet_topup i.intent_id signer in
      (
        i,
        there,
        own,
        live,
        intime,
        signed,
        ap (λ x. x.balance) (topup_lem now uid i.amount_inr note (with_rail r s) w credit),
      )

  noted_lem :
      (now uid signature signer : ℕ) (id : IntentId) (i : Intent) (w : Wallet) (s : Store)
      → i.intent_id ≡ id
      → lookup id (note_settled chain recover digest now uid signature signer i w s).rail.intents
        ≡ some (settled_intent chain recover digest now signature w i)
  unfolding note_settled
  noted_lem now uid signature signer id i w s named =
      let paid = settled_intent chain recover digest now signature w i in
      ap (λ k. lookup k (insert i.intent_id paid s.rail.intents)) (sym named)
      ∙ lookup-insert_self i.intent_id paid s.rail.intents

  -- An intent that is SETTLED in the tables is refused to everyone.
  refused_lem :
      (later uid signature : ℕ) (id : IntentId) (r : Rail) (i : Intent)
      → lookup id r.intents ≡ some i
      → is_settled i.status ≡ true
      → (f : Failure) × (check_settle chain recover digest later uid id signature
            (prune_wallet_auth later r)
          ≡ err f)
  unfolding check_settle
  refused_lem later uid signature id r i there done =
      let found : lookup id (aged_intents later r.intents) ≡ some (aged later i) =
        lookup-aged_intents later id r.intents ∙ ap (mapped later) there in
      let same : aged later i ≡ i = ground (arith, done) in
      elim (Outcome-cases
        (check_settle chain recover digest later uid id signature (prune_wallet_auth later r))) [
          | inr (f, h) ↦ (f, h)
          | inl (w, h) ↦ absurd (ground (arith, h, found, same, done))
        ]

  -- Where the intents stand under their ids, after a settlement has succeeded no later one of the
  -- same intent does, whoever asks and with any signature, and it leaves all money as it is.
  pub settle_topup_once :
      (now later uid other signature again : ℕ) (id : IntentId) (s : Store) (w : Wallet)
      → IsTable (λ (i : Intent). i.intent_id) s.rail.intents
      → (settle_topup chain recover digest now uid id signature s).0 ≡ ok w
      → let after = (settle_topup chain recover digest now uid id signature s).1 in
        let second = settle_topup chain recover digest later other id again after in
        ((f : Failure) × (second.0 ≡ err f)) × (second.1.money ≡ after.money)
  settle_topup_once now later uid other signature again id s w t e =
      let (i, signer, checked, (credit, after)) = settled_lem now uid signature id s w e in
      let (there, _, _, _, _, _) =
        check_settle_lem now uid signature id s.rail (i, signer) checked in
      let named = lookup-id (λ (x : Intent). x.intent_id) id i s.rail.intents t there in
      let left = (settle_topup chain recover digest now uid id signature s).1 in
      let paid = settled_intent chain recover digest now signature w i in
      let credit_left =
        (topup now uid (some i.amount_inr) (wallet_topup i.intent_id signer)
          (with_rail (prune_wallet_auth now s.rail) s)).1 in
      let found : lookup id left.rail.intents ≡ some paid =
        rw after (noted_lem now uid signature signer id i w credit_left named) in
      let (f, refused) = refused_lem later other again id left.rail paid found refl in
      unfold settle_topup in (rw refused ((f, refl), refl))
