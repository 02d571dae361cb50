-- ===== src/Ocpp/Commands.antt =====
-- The commands of the management console: `buildCommand` of apps/api/src/ocpp/commands.js. `number` is what
-- `Number` makes of a field, `trim`, `lower` and `size` are the methods of texts, and `date` reads a time and
-- writes it again.

use volt_hub_csms.Prelude.{
  ℕ, suc, ◌/◌, ◌%◌, Bool, true, false, ◌||◌, String, List, [], ◌∷◌, Option, none, some, ltb, ◌==◌,
  nat_eq, text_comparable, if◌then◌else◌,
}
use volt_hub_csms.Prelude.Int.{pos, negsuc}
use volt_hub_csms.Prelude.Decimal.{Decimal, whole}
use volt_hub_csms.Prelude.Lists.{any}
use volt_hub_csms.Prelude.Outcome.{Outcome, ok, err, ◌>>=◌, ◌>>◌, throw_if, or_throw}
use volt_hub_csms.Ocpp.Messages.{
  Json, null, num, str, arr, obj, Items, nil, cons, Fields, end, field,
}
use volt_hub_csms.Ocpp.Calls.{get_field}

pub data Action : Type 0 where
  reset unlock_connector change_availability get_configuration change_configuration : Action
  trigger_message reserve_now cancel_booking clear_cache data_transfer : Action

-- A 400, with the field that it is about.
pub data CommandError : Type 0 where
  bad_field : String → CommandError
  unknown_command : CommandError

pub record Command : Type 0 where
  pub action : Action
  pub payload : Fields
  pub expects_status : Bool

-- `ACCEPTED`
unfoldable pub accepted_statuses : Action → List String
accepted_statuses Action.unlock_connector = "Unlocked" ∷ []
accepted_statuses Action.change_availability = "Accepted" ∷ "Scheduled" ∷ []
accepted_statuses Action.get_configuration = []
accepted_statuses Action.change_configuration = "Accepted" ∷ "RebootRequired" ∷ []
accepted_statuses _ = "Accepted" ∷ []

abbrev pub is_among : String → List String → Bool
is_among s ts = any (λ t. t == s) ts

abbrev trigger_messages : List String
trigger_messages =
    "BootNotification" ∷ "DiagnosticStatusNotification" ∷ "FirmwareStatusNotification" ∷ "Heartbeat"
    ∷ "MeterValues" ∷ "StatusNotification" ∷ []

-- `pick`: the fields of an object; anything else has none.
abbrev fields_of : Json → Fields
fields_of (obj fs) = fs
fields_of _ = end

abbrev first_unknown : List String → Fields → Option String
first_unknown allowed end = none
first_unknown allowed (field k j fs) =
    if is_among k allowed then first_unknown allowed fs else some k

unfoldable pub pick : List String → Json → Outcome CommandError Fields
pick allowed body = elim (first_unknown allowed (fields_of body)) [
  | none ↦ ok (fields_of body)
  | some k ↦ err (bad_field k)
]

-- A natural number that a decimal is.
abbrev as_natural : Decimal → Option ℕ
as_natural (pos n) = if n % 1000000 == 0 then some (n / 1000000) else none
as_natural (negsuc n) = none

-- `enumValue`, without a fallback and with one.
unfoldable pub enum_value : String → List String → Fields → Outcome CommandError String
enum_value k allowed b = elim (get_field k b) as (λ _. Outcome CommandError String) [
  | some (str s) ↦ if is_among s allowed then ok s else err (bad_field k)
  | _ ↦ err (bad_field k)
]

unfoldable pub enum_or : String → List String → String → Fields → Outcome CommandError String
enum_or k allowed fallback b = elim (get_field k b) as (λ _. Outcome CommandError String) [
  | none ↦ ok fallback
  | some null ↦ ok fallback
  | _ ↦ enum_value k allowed b
]

abbrev with_optional : String → Option String → Fields → Fields
with_optional k none fs = fs
with_optional k (some s) fs = field k (str s) fs

abbrev command : Action → Fields → Outcome CommandError Command
command a fs = ok (record { action = a; payload = fs; expects_status = true })

module _ (number : Option Json → Option Decimal) (size : String → ℕ) (trim lower : String → String)
    (date : String → Option String) where
  -- `int`
  unfoldable pub int_value : String → ℕ → ℕ → Option Json → Outcome CommandError ℕ
  int_value k least most j = do
    x ← or_throw (number j) (bad_field k)
    n ← or_throw (as_natural x) (bad_field k)
    throw_if (ltb n least || ltb most n) (bad_field k)
    ok n

  -- `str`, and where it is optional.
  unfoldable pub bounded : String → ℕ → String → Outcome CommandError String
  bounded k most s =
      let t = trim s in if ltb (size t) 1 || ltb most (size t) then err (bad_field k) else ok t

  unfoldable pub str_value : String → ℕ → Option Json → Outcome CommandError String
  str_value k most (some (str s)) = if s == "" then err (bad_field k) else bounded k most s
  str_value k most _ = err (bad_field k)

  unfoldable pub optional_str : String → ℕ → Option Json → Outcome CommandError (Option String)
  optional_str k most none = ok none
  optional_str k most (some null) = ok none
  optional_str k most (some (str s)) =
      if s == "" then ok none else (bounded k most s >>= λ t. ok (some t))
  optional_str k most (some _) = err (bad_field k)

  -- `iso`
  unfoldable pub iso_value : String → Option Json → Outcome CommandError String
  iso_value k j = do s ← str_value k 64 j; or_throw (date s) (bad_field k)

  -- The keys that GetConfiguration asks for.
  unfoldable pub keys_value : Items → Outcome CommandError Items
  keys_value nil = ok nil
  keys_value (cons j js) = do
    s ← str_value "key" 50 (some j)
    rest ← keys_value js
    ok (cons (str s) rest)

  abbrev item_count : Items → ℕ
  item_count nil = 0
  item_count (cons j js) = suc (item_count js)

  unfoldable pub configuration_keys : Option Json → Outcome CommandError Fields
  configuration_keys none = ok end
  configuration_keys (some (arr js)) =
      if ltb 50 (item_count js)
      then err (bad_field "key")
      else (keys_value js >>= λ ks. ok (field "key" (arr ks) end))
  configuration_keys (some _) = err (bad_field "key")

  abbrev int_field : ℕ → Json
  int_field n = num (whole n)

  unfoldable pub optional_connector : Option Json → Outcome CommandError Fields
  optional_connector none = ok end
  optional_connector (some j) =
      int_value "connectorId" 0 65535 (some j) >>= λ n. ok (field "connectorId" (int_field n) end)

  -- The `switch` of `buildCommand`.
  unfoldable pub build : Action → Json → Outcome CommandError Command
  build Action.reset body = do
    b ← pick ("type" ∷ []) body
    t ← enum_or "type" ("Soft" ∷ "Hard" ∷ []) "Soft" b
    command Action.reset (field "type" (str t) end)
  build Action.unlock_connector body = do
    b ← pick ("connectorId" ∷ []) body
    n ← int_value "connectorId" 1 65535 (get_field "connectorId" b)
    command Action.unlock_connector (field "connectorId" (int_field n) end)
  build Action.change_availability body = do
    b ← pick ("connectorId" ∷ "type" ∷ []) body
    n ← int_value "connectorId" 0 65535 (get_field "connectorId" b)
    t ← enum_value "type" ("Operative" ∷ "Inoperative" ∷ []) b
    command Action.change_availability
        (field "connectorId" (int_field n) (field "type" (str t) end))
  build Action.get_configuration body = do
    b ← pick ("key" ∷ []) body
    fs ← configuration_keys (get_field "key" b)
    ok (record { action = Action.get_configuration; payload = fs; expects_status = false })
  build Action.change_configuration body = do
    b ← pick ("key" ∷ "value" ∷ []) body
    k ← str_value "key" 50 (get_field "key" b)
    v ← str_value "value" 500 (get_field "value" b)
    command Action.change_configuration (field "key" (str k) (field "value" (str v) end))
  build Action.trigger_message body = do
    b ← pick ("requestedMessage" ∷ "connectorId" ∷ []) body
    t ← enum_value "requestedMessage" trigger_messages b
    rest ← optional_connector (get_field "connectorId" b)
    command Action.trigger_message (field "requestedMessage" (str t) rest)
  build Action.reserve_now body = do
    b ← pick ("connectorId" ∷ "expiryDate" ∷ "idTag" ∷ "parentIdTag" ∷ "reservationId" ∷ []) body
    n ← int_value "connectorId" 0 65535 (get_field "connectorId" b)
    t ← iso_value "expiryDate" (get_field "expiryDate" b)
    tag ← str_value "idTag" 20 (get_field "idTag" b)
    id ← int_value "reservationId" 1 2147483647 (get_field "reservationId" b)
    parent ← optional_str "parentIdTag" 20 (get_field "parentIdTag" b)
    command Action.reserve_now (
        field "connectorId" (int_field n) (
          field "expiryDate" (str t) (
            field "idTag" (str tag)
              (field "reservationId" (int_field id) (with_optional "parentIdTag" parent end)))))
  build Action.cancel_booking body = do
    b ← pick ("reservationId" ∷ []) body
    id ← int_value "reservationId" 1 2147483647 (get_field "reservationId" b)
    command Action.cancel_booking (field "reservationId" (int_field id) end)
  build Action.clear_cache body = do b ← pick [] body; command Action.clear_cache end
  build Action.data_transfer body = do
    b ← pick ("vendorId" ∷ "messageId" ∷ "data" ∷ []) body
    v ← str_value "vendorId" 255 (get_field "vendorId" b)
    m ← optional_str "messageId" 50 (get_field "messageId" b)
    d ← optional_str "data" 4096 (get_field "data" b)
    command Action.data_transfer
        (field "vendorId" (str v) (with_optional "messageId" m (with_optional "data" d end)))

  abbrev command_named : String → Option Action
  command_named s =
      if s == "reset"
      then some Action.reset
      else if s == "unlockconnector"
      then some Action.unlock_connector
      else if s == "changeavailability"
      then some Action.change_availability
      else if s == "getconfiguration"
      then some Action.get_configuration
      else if s == "changeconfiguration"
      then some Action.change_configuration
      else if s == "triggermessage"
      then some Action.trigger_message
      else if s == "reservenow"
      then some Action.reserve_now
      else if s == "cancelreservation"
      then some Action.cancel_booking
      else if s == "clearcache"
      then some Action.clear_cache
      else if s == "datatransfer"
      then some Action.data_transfer
      else none

  -- `buildCommand`
  unfoldable pub build_command : String → Json → Outcome CommandError Command
  build_command raw body = do
    a ← or_throw (command_named (lower (trim raw))) unknown_command
    build a body
