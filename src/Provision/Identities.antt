-- ===== src/Provision/Identities.antt =====
-- About the identities of charge points: `provisionChargePoint` of apps/api/src/db/store.js.
use volt_hub_csms.Prelude.{
  ℕ, suc, ◌≡◌, ◌≢◌, refl, ap, ◌∙◌, String, List, [], ◌∷◌, none, some, arith, nat_eq,
  text_comparable, inl, inr,
}
use volt_hub_csms.Prelude.Dict.{lookup, insert, lookup-insert_self, lookup-insert_ne}
use volt_hub_csms.Prelude.Outcome.{ok, commit, Outcome-cases}
use volt_hub_csms.State.{Store, Charging}
use volt_hub_csms.Provision.{
  ConnectorInput, PointInput, or_one, add_connector, add_connectors, add_point, identity_of,
  next_number, check_point, provision_charge_point,
}

connectors-cps_by_ocpp :
    (now cp k : ℕ) (cs : List ConnectorInput) (ch : Charging)
    → (add_connectors now cp k cs ch).cps_by_ocpp ≡ ch.cps_by_ocpp
unfolding add_connectors
connectors-cps_by_ocpp now cp k [] ch = refl
connectors-cps_by_ocpp now cp k (c ∷ cs) ch =
    connectors-cps_by_ocpp now cp (suc k) cs (add_connector now cp k c ch)

add_point-cps_by_ocpp :
    (now sid : ℕ) (identity model : String) (p : PointInput) (ch : Charging)
    → (add_point now sid identity model p ch).cps_by_ocpp
      ≡ insert identity (suc ch.cp_seq) ch.cps_by_ocpp
unfolding add_point
add_point-cps_by_ocpp now sid identity model p ch =
    connectors-cps_by_ocpp now (suc ch.cp_seq) 0 (or_one p.connectors) _

module _ (default_identity : ℕ → ℕ → String) (now : ℕ) where
  check_point_lem :
      (sid : ℕ) (p : PointInput) (s : Store) (identity : String)
      → check_point default_identity now sid p s ≡ ok identity
      → (identity
          ≡ identity_of default_identity now sid
              (next_number default_identity now sid s.charging)
              p)
        × (lookup identity s.charging.cps_by_ocpp ≡ none)
  unfolding check_point
  check_point_lem sid p s identity e = ground (arith, e)

  -- A charge point that is provisioned gets an identity that no other had, under which it is found from then
  -- on; every other identity leads where it led before.
  pub provision_charge_point_lem :
      (sid id : ℕ) (p : PointInput) (s : Store)
      → (provision_charge_point default_identity now sid p s).0 ≡ ok id
      → let after = (provision_charge_point default_identity now sid p s).1 in
        let identity =
          identity_of default_identity now sid
            (next_number default_identity now sid s.charging)
            p in
        (lookup identity s.charging.cps_by_ocpp ≡ none)
        × (lookup identity after.charging.cps_by_ocpp ≡ some id)
        × ((other : String)
            → identity ≢ other
            → lookup other after.charging.cps_by_ocpp ≡ lookup other s.charging.cps_by_ocpp)
  unfolding provision_charge_point
  provision_charge_point_lem sid id p s e =
      elim (Outcome-cases (check_point default_identity now sid p s)) [
        | inr (f, h) ↦ absurd (ground (arith, h, e))
        | inl (identity, h) ↦
            let (same, new) = check_point_lem sid p s identity h in
            let n = suc s.charging.cp_seq in
            let made : n ≡ id = ground (arith, h, e) in
            let index = add_point-cps_by_ocpp now sid identity "VH-DC60" p s.charging in
            rw⁻¹ (same) (
              new,
              rw (h, commit)
                  (rw index (lookup-insert_self identity n s.charging.cps_by_ocpp ∙ ap some made)),
              λ other ne.
                  rw (h, commit)
                    (rw index (lookup-insert_ne identity other n s.charging.cps_by_ocpp ne)),
            )
      ]
