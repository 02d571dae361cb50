-- ===== src/Tests/Rail.antt =====
-- The wallet rail and tariffs at concrete inputs.
use volt_hub_csms.Prelude.{ℕ, ◌≡◌, refl, true, false, [], ◌∷◌, Option, some, arith, nat_eq, ltb}
use volt_hub_csms.Prelude.Int.{pos, ◌+ℤ◌}
use volt_hub_csms.Prelude.Decimal.{whole, to_fixed2}
use volt_hub_csms.Prelude.Dict.{lookup}
use volt_hub_csms.Prelude.Table.{IsTable}
use volt_hub_csms.Prelude.Outcome.{ok, err}
use volt_hub_csms.State.{
  Store, Rail, Message, Intent, IntentId, intent_eq, Wallet, Failure, create_store,
}
use volt_hub_csms.Wallets.{wallet_of, topup, check_topup}
use volt_hub_csms.Rail.{is_open, verify_signature, aged_intents, live_challenges}
use volt_hub_csms.Rail.Intents.{settle_topup, check_settle, new_intent}
use volt_hub_csms.Rail.Settled.{settle_topup_once, settle_topup_authorised}
use volt_hub_csms.Tariffs.{TariffRequest, create_tariff_version}
use volt_hub_csms.Tariffs.Chain.{IsNext, IsVersioned, create_tariff_version-IsVersioned}
use volt_hub_csms.Tests.Data.{demo, demo_money}

-- A signature is the address of its signer.
abbrev recover : Message → ℕ → Option ℕ
recover message signature = some signature

abbrev digest : ℕ → ℕ
digest n = n

abbrev first_id : IntentId
first_id = record { seq = 1; nonce = 5 }

abbrev empty_rail : Rail
empty_rail = create_store.rail

abbrev first_intent : Intent
first_intent = new_intent 1 recover digest 1000 7 (whole 500) 99 5 empty_rail

-- User 7 has asked to top up 500 with the wallet 99.
abbrev asked : Store
asked = record demo {
  rail = record empty_rail { intents = (first_id, first_intent) ∷ []; intent_seq = 1 };
}

abbrev topped : Wallet
topped = record { user_id = 7; balance = whole 500; updated_at = some 2000 }

topped_lem : (settle_topup 1 recover digest 2000 7 first_id 99 asked).0 ≡ ok topped
unfolding settle_topup check_settle verify_signature aged_intents live_challenges lookup topup
    check_topup to_fixed2 ◌+ℤ◌
topped_lem = refl

asked-IsTable : IsTable (λ (i : Intent). i.intent_id) asked.rail.intents
unfolding lookup
asked-IsTable = (refl, refl, tt)

settle_topup_once_example :
    ((f : Failure) × ((settle_topup 1 recover digest 3000 8 first_id 99
          (settle_topup 1 recover digest 2000 7 first_id 99 asked).1).0
        ≡ err f))
    × ((settle_topup 1 recover digest 3000 8 first_id 99
          (settle_topup 1 recover digest 2000 7 first_id 99 asked).1).1.money
        ≡ (settle_topup 1 recover digest 2000 7 first_id 99 asked).1.money)
settle_topup_once_example =
    settle_topup_once 1 recover digest 2000 3000 7 8 99 99 first_id asked topped asked-IsTable
      topped_lem

settle_topup_authorised_example :
    (i : Intent) × (lookup first_id asked.rail.intents ≡ some i)
    × (i.user_id ≡ 7)
    × (is_open i.status ≡ true)
    × (ltb i.expires_at 2000 ≡ false)
    × (recover i.message 99 ≡ some i.address)
    × (topped.balance ≡ to_fixed2 ((wallet_of 7 asked.money).balance +ℤ i.amount_inr))
settle_topup_authorised_example =
    settle_topup_authorised 1 recover digest 2000 7 99 first_id asked topped topped_lem

abbrev night : TariffRequest
night = record {
  group_id = some 1;
  name = some "Night";
  session_fee = some (pos 0);
  bands = [];
  actor = 1;
}

demo-IsVersioned : IsVersioned demo_money
unfolding lookup
demo-IsVersioned = record {
  table = (refl, refl, tt);
  fresh = λ k h. ground (arith, h);
  once = λ group n. ground arith;
}

create_tariff_version-IsVersioned_example :
    IsVersioned (create_tariff_version 5000 night demo).1.money
    × IsNext 5000 night demo (create_tariff_version 5000 night demo)
create_tariff_version-IsVersioned_example =
    create_tariff_version-IsVersioned 5000 night demo demo-IsVersioned
