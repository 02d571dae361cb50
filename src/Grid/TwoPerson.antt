-- ===== src/Grid/TwoPerson.antt =====
-- About the change of the cap of a grid asset: `upsertGridAsset` and `approveGridAsset` of
-- apps/api/src/db/store.js.
use volt_hub_csms.Prelude.{
  ℕ, ◌≡◌, ◌≢◌, refl, ap, ◌∙◌, true, false, sym, Option, some, arith, nat_eq, Option-cases, inl, inr,
}
use volt_hub_csms.Prelude.Int.{ltb_ℤ}
use volt_hub_csms.Prelude.Decimal.{Decimal}
use volt_hub_csms.Prelude.Dict.{lookup, lookup-insert_self}
use volt_hub_csms.Prelude.Table.{lookup-id}
use volt_hub_csms.Prelude.Outcome.{ok}
use volt_hub_csms.Store.{truthy}
use volt_hub_csms.State.{Store, Grid, GridAsset, AssetKind, AssetStatus}
use volt_hub_csms.Grid.{
  AssetBody, existing_asset, put_asset, reduced, raised, place_asset, check_approval,
  approve_grid_asset,
}
use volt_hub_csms.Grid.Roots.{IsRooted}

pub approve_grid_asset_four_eyes :
    (now id actor proposer : ℕ) (s : Store) (a b : GridAsset)
    → lookup id s.grid.assets ≡ some a
    → a.proposed_by ≡ some proposer
    → (approve_grid_asset now id (some actor) s).0 ≡ ok b
    → (a.status ≡ AssetStatus.pending)
      × (actor ≢ proposer)
      × (b.status ≡ AssetStatus.active)
      × (b.cap_kw ≡ a.cap_kw)
unfolding approve_grid_asset check_approval
approve_grid_asset_four_eyes now id actor proposer s a b there by e =
    ground (arith, there, by, e, nat_eq.same_iff actor proposer)

ltb_refl : (x : Decimal) → ltb_ℤ x x ≡ false
ltb_refl x = ground arith

reduce_lem :
    (now sid : ℕ) (b : AssetBody) (kind : AssetKind) (limit : Decimal) (actor : Option ℕ) (g : Grid)
    (old : GridAsset)
    → existing_asset b g ≡ some old
    → ltb_ℤ limit old.cap_kw ≡ true
    → let low = reduced now b limit actor old in
      place_asset now sid b kind limit actor g ≡ (low, put_asset low g)
unfolding place_asset
reduce_lem now sid b kind limit actor g old e less = rw (e, less, place_asset) refl

raise_lem :
    (now sid : ℕ) (b : AssetBody) (kind : AssetKind) (limit : Decimal) (actor : Option ℕ) (g : Grid)
    (old : GridAsset)
    → existing_asset b g ≡ some old
    → ltb_ℤ limit old.cap_kw ≡ false
    → let high = raised now b limit old in
      place_asset now sid b kind limit actor g ≡ (high, put_asset high g)
unfolding place_asset
raise_lem now sid b kind limit actor g old e more = rw (e, more, place_asset) refl

reduced_found :
    (b : AssetBody) (g : Grid) (old low : GridAsset)
    → IsRooted g
    → existing_asset b g ≡ some old
    → low.asset_id ≡ old.asset_id
    → existing_asset b (put_asset low g) ≡ some low
reduced_found b g old low v e same = elim (Option-cases (truthy b.asset_id)) [
  | inl gone ↦ absurd (ground (arith, gone, e))
  | inr (id, given) ↦
      let there : lookup id g.assets ≡ some old = ground (arith, given, e) in
      let named = lookup-id (λ (x : GridAsset). x.asset_id) id old g.assets v.table there in
      rw (given, existing_asset)
        (ap (λ n. lookup n (put_asset low g).assets) (sym (same ∙ named))
          ∙ lookup-insert_self low.asset_id low g.assets)
]

-- Where each station has one site root at most, an existing asset whose cap is lowered is PENDING
-- until it is approved, but the same request once more, by the same person or any other, makes it
-- ACTIVE with no approval.
pub place_asset_again :
    (now later sid : ℕ) (b : AssetBody) (kind : AssetKind) (limit : Decimal)
    (actor other : Option ℕ) (g : Grid) (old : GridAsset)
    → IsRooted g
    → existing_asset b g ≡ some old
    → ltb_ℤ limit old.cap_kw ≡ true
    → let first = place_asset now sid b kind limit actor g in
      let second = place_asset later sid b kind limit other first.1 in
      (first.0.status ≡ AssetStatus.pending)
      × (second.0.status ≡ AssetStatus.active)
      × (second.0.cap_kw ≡ limit)
place_asset_again now later sid b kind limit actor other g old v e less =
    let low = reduced now b limit actor old in
    let found = reduced_found b g old low v e refl in
    rw (reduce_lem now sid b kind limit actor g old e less) (
      rw (raise_lem later sid b kind limit other (put_asset low g) low found (ltb_refl limit))
        (refl, refl, refl))
