-- ===== src/Provision.antt =====
-- Provisioning of apps/api/src/db/store.js: `provisionStation`, `provisionChargePoint` and `updateStation`. The
-- text `VH-${station}-CP${n}` is an argument, as its numerals are; a secret that the store would draw
-- at random is in the request. The place and the address of a station are left out.
pub mod Identities
use volt_hub_csms.Prelude.{
  ℕ, suc, ◌+◌, Bool, true, false, not, ◌&&◌, ◌||◌, String, List, [], ◌∷◌, Option, none, some, ltb,
  ◌==◌, nat_eq, text_comparable, if◌then◌else◌,
}
use volt_hub_csms.Prelude.Lists.{push, any, count}
use volt_hub_csms.Prelude.Decimal.{Decimal, whole}
use volt_hub_csms.Prelude.Dict.{Dict, values, lookup, insert, contains_key}
use volt_hub_csms.Prelude.Outcome.{Outcome, ok, err, ◌>>=◌, ◌>>◌, throw_if, or_throw, commit}
use volt_hub_csms.State.{
  Store, Charging, Grid, Station, ChargePoint, Connector, ConnectorRef, ref_eq, ConnectorStatus,
  Failure, failure, missing, invalid_station, duplicate_ocpp_id, text,
}
use volt_hub_csms.Store.{Result, audit_log}

-- A standard that is missing or unknown, and a power that is missing or 0, is `none`.
pub record ConnectorInput : Type 0 where
  pub standard_id : Option ℕ
  pub max_power_kw : Option Decimal

pub record PointInput : Type 0 where
  pub ocpp_identity : Option String
  pub auth_secret : String
  pub vendor : Option String
  pub model : Option String
  pub connectors : Option (List ConnectorInput)

-- `located` tells whether latitude and longitude are finite numbers.
pub record StationInput : Type 0 where
  pub name : Option String
  pub located : Bool
  pub operator_id : Option ℕ
  pub charge_points : List PointInput

abbrev pub or_text : Option String → String → String
or_text none d = d
or_text (some x) d = x

-- `p.connectors || [{ standard: 'TYPE2', max_power_kw: 22 }]`
abbrev pub or_one : Option (List ConnectorInput) → List ConnectorInput
or_one none = (record { standard_id = none; max_power_kw = none }) ∷ []
or_one (some cs) = cs

abbrev pub largest_key {ℓ} : {V : Type ℓ} → ℕ → Dict ℕ V → ℕ
largest_key n [] = n
largest_key n ((k, _) ∷ m) = largest_key (if ltb n k then k else n) m

-- `predicted.find((v, i) => predicted.indexOf(v) !== i)`, whether there is one.
abbrev pub has_repeat : List String → Bool
has_repeat [] = false
has_repeat (x ∷ xs) = any (λ y. y == x) xs || has_repeat xs

abbrev pub is_known : Charging → String → Bool
is_known ch x = contains_key x ch.cps_by_ocpp

abbrev pub add_connector : ℕ → ℕ → ℕ → ConnectorInput → Charging → Charging
add_connector now cp k c ch = record ch {
  connectors =
      insert (record { cp_id = cp; connector_no = suc k })
        (record {
          standard_id = elim c.standard_id [ none ↦ 1 | some n ↦ n ];
          max_power_kw = elim c.max_power_kw [ none ↦ whole 22 | some x ↦ x ];
          status = ConnectorStatus.available;
          last_state_change_at = now;
        })
        ch.connectors;
}

-- The connectors of a charge point, numbered from `k + 1`.
unfoldable pub add_connectors : ℕ → ℕ → ℕ → List ConnectorInput → Charging → Charging
add_connectors now cp k [] ch = ch
add_connectors now cp k (c ∷ cs) ch = add_connectors now cp (suc k) cs (add_connector now cp k c ch)

-- A charge point of an identity with its connectors; `model` is the one of the caller if none is given.
unfoldable pub add_point : ℕ → ℕ → String → String → PointInput → Charging → Charging
add_point now sid identity model p ch =
    let id = suc ch.cp_seq in
    add_connectors now id 0 (or_one p.connectors) (record ch {
      cp_seq = id;
      cps =
          insert id
            (record {
              cp_id = id;
              station_id = sid;
              ocpp_identity = identity;
              auth_secret = p.auth_secret;
              vendor = or_text p.vendor "VoltHub";
              model = or_text p.model model;
              is_online = false;
              last_boot_at = none;
              last_seen_at = none;
            })
            ch.cps;
      cps_by_ocpp = insert identity id ch.cps_by_ocpp;
    })

module _ (default_identity : ℕ → ℕ → String) (now : ℕ) where
  abbrev pub identity_of : ℕ → ℕ → PointInput → String
  identity_of sid n p = or_text p.ocpp_identity (default_identity sid n)

  -- `predicted`, from the number `n`.
  unfoldable pub predicted : ℕ → ℕ → List PointInput → List String
  predicted sid n [] = []
  predicted sid n (p ∷ ps) = identity_of sid n p ∷ predicted sid (suc n) ps

  unfoldable pub check_station : StationInput → Store → Outcome Failure String
  check_station b s = do
    name ← or_throw b.name (failure invalid_station 422)
    throw_if (not b.located) (failure invalid_station 422)
    let ids = predicted (largest_key 0 s.grid.stations + 1) 1 b.charge_points
    throw_if (has_repeat ids) (failure duplicate_ocpp_id 409)
    throw_if (any (is_known s.charging) ids) (failure duplicate_ocpp_id 409)
    ok name

  unfoldable pub add_points : ℕ → ℕ → List PointInput → Charging → Charging
  add_points sid n [] ch = ch
  add_points sid n (p ∷ ps) ch =
      add_points sid (suc n) ps (add_point now sid (identity_of sid n p) "VH-AC22" p ch)

  abbrev pub new_station : String → Option ℕ → Grid → Station
  new_station name operator g = record {
    station_id = suc g.station_seq;
    name = name;
    status = "ACTIVE";
    operator_id = operator;
    created_at = now;
  }

  -- `s.provisionStation`
  unfoldable pub provision_station : ℕ → StationInput → Store → Result Station
  provision_station actor b s =
      commit (check_station b s)
        (λ name.
          let st = new_station name b.operator_id s.grid in
          let id = st.station_id in
          (
            ok st,
            record s {
              grid = record s.grid { station_seq = id; stations = insert id st s.grid.stations };
              charging = add_points id 1 b.charge_points s.charging;
              trail =
                  audit_log now (some actor) "STATION" id "CREATE" none (some (text name)) s.trail;
            },
          ))
        s

  -- `cps` of the station, and one more.
  abbrev pub next_number : ℕ → Charging → ℕ
  next_number sid ch = count (λ c. c.station_id == sid) (values ch.cps) + 1

  unfoldable pub check_point : ℕ → PointInput → Store → Outcome Failure String
  check_point sid p s = do
    throw_if (not (contains_key sid s.grid.stations)) missing
    let identity = identity_of sid (next_number sid s.charging) p
    throw_if (is_known s.charging identity) (failure duplicate_ocpp_id 409)
    ok identity

  -- `s.provisionChargePoint`, with the new id.
  unfoldable pub provision_charge_point : ℕ → PointInput → Store → Result ℕ
  provision_charge_point sid p s =
      commit (check_point sid p s)
        (λ identity. (
          ok (suc s.charging.cp_seq),
          record s { charging = add_point now sid identity "VH-DC60" p s.charging },
        ))
        s

-- The fields of `updateStation`; one that is missing is `none`.
pub record StationFields : Type 0 where
  pub status : Option String
  pub operator_id : Option (Option ℕ)
  pub name : Option String

abbrev pub changed_station : StationFields → Station → Station
changed_station f st = record st {
  status = or_text f.status st.status;
  operator_id = elim f.operator_id [ none ↦ st.operator_id | some o ↦ o ];
  name = or_text f.name st.name;
}

-- `s.updateStation`, with the station before.
unfoldable pub update_station : ℕ → StationFields → Store → Result (Station × Station)
update_station id f s =
    commit (or_throw (lookup id s.grid.stations) missing)
      (λ st.
        let new = changed_station f st in
        (
          ok (new, st),
          record s { grid = record s.grid { stations = insert id new s.grid.stations } },
        ))
      s
