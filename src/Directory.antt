-- ===== src/Directory.antt =====
-- Users and vehicles of apps/api/src/db/store.js: `createUser`, `setUserStatus` and `createVehicle`. The password
-- hash, a third-party call, comes as its result, and `normalise` is `trim` with `toLowerCase`.
pub mod Registration
use volt_hub_csms.Prelude.{
  ℕ, suc, Bool, true, false, not, ◌&&◌, String, List, [], ◌∷◌, ◌++◌, Option, none, some, ◌==◌,
  nat_eq, text_comparable, if◌then◌else◌,
}
use volt_hub_csms.Prelude.Int.{pos}
use volt_hub_csms.Prelude.Decimal.{Decimal}
use volt_hub_csms.Prelude.Lists.{any, find, push}
use volt_hub_csms.Prelude.Dict.{Dict, values, lookup, insert, contains_key}
use volt_hub_csms.Prelude.Outcome.{Outcome, ok, err, ◌>>=◌, ◌>>◌, throw_if, or_throw, commit}
use volt_hub_csms.State.{
  Store, Directory, User, UserStatus, Vehicle, Standard, Role, Money, Wallet, Failure, failure,
  missing, duplicate_email, invalid_status, text, registered, car,
}
use volt_hub_csms.Store.{Result, audit_log}

-- The arguments of `createUser`; the e-mail address is normalised already.
pub record UserRequest : Type 0 where
  pub email : String
  pub full_name : String
  pub phone : Option String
  pub role : Role

abbrev pub is_driver_role : Role → Bool
is_driver_role Role.driver = true
is_driver_role _ = false

module _ (lower : String → String) where
  -- `String(u.email).toLowerCase() === normEmail`
  abbrev pub has_email : String → User → Bool
  has_email email u = lower u.email == email

  -- What `createUser` does before it awaits the hash: the check, and the number of the new user.
  unfoldable pub begin_create_user : UserRequest → Store → Result ℕ
  begin_create_user q s =
      commit
        (throw_if (any (has_email q.email) (values s.directory.users))
          (failure duplicate_email 409))
        (λ _.
          let id = suc s.directory.user_seq in
          (ok id, record s { directory = record s.directory { user_seq = id } }))
        s

  -- `s.wallets.set(user_id, …)`, for a driver who has none.
  abbrev pub open_wallet : ℕ → Role → ℕ → Money → Money
  open_wallet now role id m =
      if is_driver_role role && not (contains_key id m.wallets)
      then record m {
        wallets =
            insert id (record { user_id = id; balance = pos 0; updated_at = some now }) m.wallets;
      }
      else m

  abbrev pub new_user : ℕ → UserRequest → String → ℕ → User
  new_user id q hash now = record {
    user_id = id;
    email = q.email;
    password_hash = hash;
    full_name = q.full_name;
    phone = q.phone;
    role = q.role;
    status = UserStatus.active;
    created_at = now;
  }

  -- What it does once the hash is there.
  unfoldable pub finish_create_user : ℕ → ℕ → UserRequest → String → Store → User × Store
  finish_create_user now id q hash s =
      let u = new_user id q hash now in
      (
        u,
        record s {
          directory = record s.directory { users = insert id u s.directory.users };
          money = open_wallet now q.role id s.money;
          trail =
              audit_log now none "APP_USER" id "CREATE" none (some (registered q.email q.role))
                s.trail;
        },
      )

  -- `s.createUser` where nothing happens while it waits.
  unfoldable pub create_user : ℕ → UserRequest → String → Store → Result User
  create_user now q hash s =
      let begun = begin_create_user q s in
      elim begun.0 [
        | err e ↦ (err e, begun.1)
        | ok id ↦ let done = finish_create_user now id q hash begun.1 in (ok done.0, done.1)
      ]

abbrev pub user_status_name : UserStatus → String
user_status_name UserStatus.active = "ACTIVE"
user_status_name UserStatus.suspended = "SUSPENDED"

unfoldable pub check_user_status :
    ℕ → Option UserStatus → Store → Outcome Failure (User × UserStatus)
check_user_status uid status s = do
  u ← or_throw (lookup uid s.directory.users) missing
  to ← or_throw status (failure invalid_status 422)
  ok (u, to)

-- `s.setUserStatus`, with the status before; a status that is none of the two is `none`.
unfoldable pub set_user_status :
    ℕ → ℕ → Option UserStatus → Option ℕ → Store → Result (User × UserStatus)
set_user_status now uid status actor s =
    commit (check_user_status uid status s)
      (λ w.
        let u = record w.0 { status = w.1 } in
        (
          ok (u, w.0.status),
          record s {
            directory = record s.directory { users = insert uid u s.directory.users };
            trail =
                audit_log now actor "APP_USER" u.user_id "UPDATE"
                  (some (text (user_status_name w.0.status))) (some (text (user_status_name w.1)))
                  s.trail;
          },
        ))
      s

-- The arguments of `createVehicle`; standards that are missing are `none`.
pub record VehicleRequest : Type 0 where
  pub nickname : Option String
  pub make : String
  pub model : String
  pub battery_kwh : Decimal
  pub is_default : Bool
  pub standards : Option (List String)

abbrev pub wanted_standards : Option (List String) → List String
wanted_standards none = "TYPE2" ∷ "CCS2" ∷ []
wanted_standards (some codes) = codes

-- The loop over the codes: those that are known are linked.
unfoldable pub link_standards : ℕ → List String → Directory → Directory
link_standards id [] d = d
link_standards id (c ∷ cs) d =
    link_standards id cs (elim (find (λ x. x.code == c) d.standards) as (λ _. Directory) [
      | none ↦ d
      | some x ↦ record d { vehicle_std = push (id, x.standard_id) d.vehicle_std }
    ])

-- `s.createVehicle`
unfoldable pub create_vehicle : ℕ → ℕ → VehicleRequest → Store → Vehicle × Store
create_vehicle now uid q s =
    let id = suc s.directory.vehicle_seq in
    let v : Vehicle = record {
      vehicle_id = id;
      user_id = uid;
      nickname = q.nickname;
      make = q.make;
      model = q.model;
      battery_kwh = q.battery_kwh;
      is_default = q.is_default;
      created_at = now;
    } in
    (
      v,
      record s {
        directory =
            link_standards id (wanted_standards q.standards) (record s.directory {
              vehicle_seq = id;
              vehicles = insert id v s.directory.vehicles;
            });
        trail =
            audit_log now (some uid) "VEHICLE" id "CREATE" none (some (car q.make q.model)) s.trail;
      },
    )
