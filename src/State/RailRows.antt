-- ===== src/State/RailRows.antt =====
-- The rows of the wallet rail (apps/api/src/db/store.js and apps/api/src/wallet/rail.js). An address is its
-- 160-bit number, of which the checksummed and the lower-case text are two spellings; a nonce, a
-- signature and a digest are numbers too.
use volt_hub_csms.Prelude.{ℕ, Option}
use volt_hub_csms.Prelude.Dict.{Dict}
use volt_hub_csms.Prelude.Decimal.{Decimal}
use volt_hub_csms.State.Enums.{IntentId}

-- The texts that a wallet signs: `challengeMessage` and `intentMessage`, by what they print.
pub data Message : Type 0 where
  -- address, chain, nonce, time
  challenge_message : ℕ → ℕ → ℕ → ℕ → Message
  -- intent, address, chain, amount, wei, expiry
  intent_message : IntentId → ℕ → ℕ → Decimal → ℕ → ℕ → Message

pub record Challenge : Type 0 where
  pub user_id : ℕ
  pub address : ℕ
  pub message : Message
  pub expires_at : ℕ

pub record Link : Type 0 where
  pub link_id : ℕ
  pub user_id : ℕ
  pub address : ℕ
  pub linked_at : ℕ

pub data IntentStatus : Type 0 where
  pending settled expired : IntentStatus

pub record Intent : Type 0 where
  pub intent_id : IntentId
  pub user_id : ℕ
  pub address : ℕ
  pub amount_inr : Decimal
  pub amount_wei : ℕ
  pub status : IntentStatus
  pub message : Message
  pub created_at : ℕ
  pub expires_at : ℕ
  pub settled_at : Option ℕ
  pub reference : Option ℕ
  pub balance_after : Option Decimal

-- `s.walletLinks`, `s.walletChallenges`, `s.walletIntents`
pub record Rail : Type 0 where
  pub links : Dict ℕ Link
  pub challenges : Dict ℕ Challenge
  pub intents : Dict IntentId Intent
  pub link_seq : ℕ
  pub intent_seq : ℕ
