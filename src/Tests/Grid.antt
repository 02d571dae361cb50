-- ===== src/Tests/Grid.antt =====
-- Grid assets and control records at concrete inputs.
use volt_hub_csms.Prelude.{text_comparable, ℕ, ◌≡◌, ◌≢◌, refl, [], ◌∷◌, none, some, arith, nat_eq}
use volt_hub_csms.Prelude.Decimal.{whole}
use volt_hub_csms.Prelude.Dict.{lookup}
use volt_hub_csms.Prelude.Outcome.{ok}
use volt_hub_csms.State.{Store, Grid, GridAsset, AssetKind, AssetStatus, create_store}
use volt_hub_csms.Grid.{
  AssetBody, place_asset, upsert_grid_asset, check_approval, approve_grid_asset, site_cap_kw,
}
use volt_hub_csms.Grid.Roots.{
  IsRooted, upsert_grid_asset-IsRooted, active_root, root_cap, site_cap_kw-active_root,
}
use volt_hub_csms.Grid.TwoPerson.{approve_grid_asset_four_eyes, place_asset_again}

abbrev root_asset : GridAsset
root_asset = record {
  asset_id = 1;
  station_id = 1;
  parent_id = none;
  kind = AssetKind.site;
  label = none;
  cap_kw = whole 100;
  ramp_kw = none;
  status = AssetStatus.active;
  proposed_by = some 4;
  approved_by = none;
  created_at = 0;
  updated_at = 0;
}

abbrev one_root : Grid
one_root = record {
  stations =
      (
        1,
        record {
          station_id = 1;
          name = "Depot";
          status = "ACTIVE";
          operator_id = none;
          created_at = 0;
        },
      )
      ∷ [];
  assets = (1, root_asset) ∷ [];
  modes = [];
  asset_seq = 1;
  station_seq = 1;
}

abbrev wired : Store
wired = record create_store { grid = one_root }

abbrev lower : AssetBody
lower = record {
  asset_id = some 1;
  kind = some AssetKind.site;
  label = none;
  cap_kw = some (whole 60);
  ramp_kw = none;
  parent_id = none;
}

one_root-IsRooted : IsRooted one_root
unfolding lookup
one_root-IsRooted = record {
  table = (refl, refl, tt);
  fresh = λ k h. ground (arith, h);
  zero_free = refl;
  standing = λ i a e. ground (arith, e);
  single = λ sid. ground arith;
}

upsert_grid_asset-IsRooted_example : IsRooted (upsert_grid_asset 10 1 lower (some 4) wired).1.grid
upsert_grid_asset-IsRooted_example =
    upsert_grid_asset-IsRooted 10 1 lower (some 4) wired one_root-IsRooted

site_cap_kw-active_root_example : site_cap_kw 1 one_root ≡ root_cap (active_root 1 one_root)
site_cap_kw-active_root_example = site_cap_kw-active_root 1 one_root one_root-IsRooted

abbrev waiting_asset : GridAsset
waiting_asset = record root_asset { status = AssetStatus.pending; cap_kw = whole 60 }

abbrev waiting_store : Store
waiting_store = record wired { grid = record one_root { assets = (1, waiting_asset) ∷ [] } }

abbrev agreed_asset : GridAsset
agreed_asset = record waiting_asset {
  status = AssetStatus.active;
  approved_by = some 5;
  updated_at = 20;
}

agreed_lem : (approve_grid_asset 20 1 (some 5) waiting_store).0 ≡ ok agreed_asset
unfolding approve_grid_asset check_approval lookup
agreed_lem = refl

waiting_lem : lookup 1 waiting_store.grid.assets ≡ some waiting_asset
unfolding lookup
waiting_lem = refl

approve_grid_asset_four_eyes_example :
    (waiting_asset.status ≡ AssetStatus.pending)
    × (◌≢◌ {A = ℕ} 5 4)
    × (agreed_asset.status ≡ AssetStatus.active)
    × (agreed_asset.cap_kw ≡ waiting_asset.cap_kw)
approve_grid_asset_four_eyes_example =
    approve_grid_asset_four_eyes 20 1 5 4 waiting_store waiting_asset agreed_asset waiting_lem refl
      agreed_lem

root_lem : lookup 1 one_root.assets ≡ some root_asset
unfolding lookup
root_lem = refl

place_asset_again_example :
    ((place_asset 10 1 lower AssetKind.site (whole 60) (some 4) one_root).0.status
      ≡ AssetStatus.pending)
    × ((place_asset 11 1 lower AssetKind.site
          (whole 60)
          (some 4)
          (place_asset 10 1 lower AssetKind.site (whole 60) (some 4) one_root).1).0.status
        ≡ AssetStatus.active)
    × ((place_asset 11 1 lower AssetKind.site
          (whole 60)
          (some 4)
          (place_asset 10 1 lower AssetKind.site (whole 60) (some 4) one_root).1).0.cap_kw
        ≡ whole 60)
place_asset_again_example =
    place_asset_again 10 11 1 lower AssetKind.site (whole 60) (some 4) (some 4) one_root root_asset
      one_root-IsRooted root_lem refl
