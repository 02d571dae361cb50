-- ===== src/Grid/Roots.antt =====
-- About the site roots among the grid assets of a station: `upsertGridAsset` and `siteCapKw` of
-- apps/api/src/db/store.js.
use volt_hub_csms.Prelude.{
  ℕ, suc, ◌<◌, ◌≤◌, ◌≡◌, refl, sym, ap, ◌∙◌, Bool, true, false, ◌&&◌, List, [], ◌∷◌, Option, none,
  some, arith, ◌==◌, nat_eq, Bool-cases, Option-cases, inl, inr,
}
use volt_hub_csms.Prelude.Lists.{any, count, find}
use volt_hub_csms.Prelude.Int.{ltb_ℤ}
use volt_hub_csms.Prelude.Decimal.{Decimal}
use volt_hub_csms.Prelude.Dict.{
  Dict, values, lookup, lookup-insert, lookup-insert_self, count-values-insert_new,
  count-values-insert_same,
}
use volt_hub_csms.Prelude.Table.{IsTable, insert-IsTable, lookup-id}
use volt_hub_csms.Prelude.Outcome.{ok, commit, Outcome-cases}
use volt_hub_csms.State.{Store, Grid, GridAsset, AssetKind, ControlMode}
use volt_hub_csms.Store.{truthy}
use volt_hub_csms.Outbox.{Limits}
use volt_hub_csms.Grid.{
  AssetBody, is_given, is_site, is_retired, is_root_of, is_other, check_asset, check_parent,
  existing_asset, put_asset, reduced, raised, new_asset, place_asset, upsert_grid_asset, counts_for,
  cap_over, site_cap_kw, is_enforced, get_control_mode, check_mode, set_control_mode,
}

-- ENFORCED is accepted only for a station that has an ACTIVE site root, and every mode that is accepted is
-- the station's mode from then on.
pub set_control_mode_lem :
    (l : Limits) (now sid : ℕ) (to : Option ControlMode) (actor : Option ℕ) (s : Store)
    (m prev : ControlMode)
    → (set_control_mode l now sid to actor s).0 ≡ ok (m, prev)
    → (prev ≡ get_control_mode sid s.grid)
      × (get_control_mode sid (set_control_mode l now sid to actor s).1.grid ≡ m)
      × (is_enforced m ≡ true → is_given (site_cap_kw sid s.grid) ≡ true)
unfolding set_control_mode check_mode
set_control_mode_lem l now sid to actor s m prev e =
    ground (arith, e, lookup-insert_self sid m s.grid.modes)

-- Assets stand under their ids, which begin at 1, and none above the sequence is taken; none is RETIRED,
-- and no station has two roots.
pub record IsRooted (g : Grid) : Type 0 where
  pub table : IsTable (λ (a : GridAsset). a.asset_id) g.assets
  pub fresh : (k : ℕ) → g.asset_seq < k → lookup k g.assets ≡ none
  pub zero_free : lookup 0 g.assets ≡ none
  pub standing : (i : ℕ) (a : GridAsset) → lookup i g.assets ≡ some a → is_retired a.status ≡ false
  pub single : (sid : ℕ) → count (is_root_of sid) (values g.assets) ≤ 1

check_asset_lem :
    (sid : ℕ) (b : AssetBody) (g : Grid) (w : AssetKind × Decimal)
    → check_asset sid b g ≡ ok w
    → is_site w.0 ≡ true
    → any (λ a. is_root_of sid a && is_other b.asset_id a) (values g.assets) ≡ false
unfolding check_asset
check_asset_lem sid b g w e root = elim (Outcome-cases (check_parent sid w.1 b.parent_id g)) [
  | inl (u, p) ↦ ground (arith, e, root, p)
  | inr (f, p) ↦ ground (arith, e, root, p)
]

-- A search that leaves out an id that is not in the table leaves out nothing.
no_other :
    (sid id : ℕ) (m : Dict ℕ GridAsset)
    → IsTable (λ (a : GridAsset). a.asset_id) m
    → lookup id m ≡ none
    → any (λ a. is_root_of sid a && is_other (some id) a) (values m)
      ≡ any (is_root_of sid) (values m)
unfolding lookup
no_other sid id [] t h = refl
no_other sid id ((k, a) ∷ m) t h = ground (arith, no_other sid id m t.2, t.0, h)

count_none : (p : GridAsset → Bool) (xs : List GridAsset) → any p xs ≡ false → count p xs ≡ 0
count_none p [] h = refl
count_none p (a ∷ rest) h = ground (arith, count_none p rest)

-- The new root is the only one.
free_root :
    (sid : ℕ) (b : AssetBody) (g : Grid)
    → IsRooted g
    → existing_asset b g ≡ none
    → any (λ a. is_root_of sid a && is_other b.asset_id a) (values g.assets) ≡ false
    → count (is_root_of sid) (values g.assets) ≡ 0
free_root sid b g v gone free =
    count_none (is_root_of sid) (values g.assets) (all_lem b.asset_id gone free)
  where
    all_lem :
        (id : Option ℕ)
        → elim (truthy id) [ none ↦ none | some n ↦ lookup n g.assets ] ≡ none
        → any (λ a. is_root_of sid a && is_other id a) (values g.assets) ≡ false
        → any (is_root_of sid) (values g.assets) ≡ false
    all_lem none absent h = unlisted_lem (values g.assets) h
      where
        unlisted_lem :
            (xs : List GridAsset)
            → any (λ a. is_root_of sid a && true) xs ≡ false
            → any (is_root_of sid) xs ≡ false
        unlisted_lem [] h = refl
        unlisted_lem (x ∷ xs) h = ground (arith, unlisted_lem xs)
    all_lem (some n) absent h =
        let absent' : lookup n g.assets ≡ none = elim (Bool-cases (n == 0)) [
          | inl zero_id ↦ rw ((nat_eq.same_iff n 0).0 zero_id) v.zero_free
          | inr id ↦ ground (arith, absent, id)
        ] in
        sym (no_other sid n g.assets v.table absent') ∙ h

create-IsRooted :
    (now sid : ℕ) (b : AssetBody) (kind : AssetKind) (cap : Decimal) (actor : Option ℕ) (g : Grid)
    → IsRooted g
    → (is_site kind ≡ true → count (is_root_of sid) (values g.assets) ≡ 0)
    → let a = new_asset now sid b kind cap actor g in
      IsRooted (record (put_asset a g) { asset_seq = a.asset_id })
create-IsRooted now sid b kind cap actor g v free =
    let a = new_asset now sid b kind cap actor g in
    let absent = v.fresh (suc g.asset_seq) (omega arith) in
    record {
      table = insert-IsTable (λ (x : GridAsset). x.asset_id) a.asset_id a g.assets refl v.table;
      fresh = λ k h. ground (arith, v.fresh k, h, lookup-insert a.asset_id k a g.assets);
      zero_free = ground (arith, v.zero_free, lookup-insert a.asset_id 0 a g.assets);
      standing = λ i x e. ground (arith, v.standing i x, e, lookup-insert a.asset_id i a g.assets);
      single = λ st. ground (
        arith,
        v.single st,
        free,
        nat_eq.same_iff sid st,
        count-values-insert_new (is_root_of st) a.asset_id a g.assets absent,
      );
    }

change-IsRooted :
    (a old : GridAsset) (g : Grid)
    → lookup a.asset_id g.assets ≡ some old
    → a.kind ≡ old.kind
    → a.station_id ≡ old.station_id
    → is_retired a.status ≡ false
    → IsRooted g
    → IsRooted (put_asset a g)
change-IsRooted a old g there kind station live v = record {
  table = insert-IsTable (λ (x : GridAsset). x.asset_id) a.asset_id a g.assets refl v.table;
  fresh = λ k h. ground (arith, v.fresh k, h, there, lookup-insert a.asset_id k a g.assets);
  zero_free = ground (arith, v.zero_free, there, lookup-insert a.asset_id 0 a g.assets);
  standing =
      λ i x e. ground (arith, live, v.standing i x, e, lookup-insert a.asset_id i a g.assets);
  single = λ st.
      let same : is_root_of st a ≡ is_root_of st old =
        rw (kind, station) (ground (arith, live, v.standing a.asset_id old there)) in
      rw (count-values-insert_same (is_root_of st) a.asset_id a old g.assets there same)
        (v.single st);
}

existing_lem :
    (b : AssetBody) (g : Grid) (old : GridAsset)
    → IsRooted g
    → existing_asset b g ≡ some old
    → lookup old.asset_id g.assets ≡ some old
existing_lem b g old v e = elim (Option-cases (truthy b.asset_id)) [
  | inl gone ↦ absurd (ground (arith, gone, e))
  | inr (id, given) ↦
      let there : lookup id g.assets ≡ some old = ground (arith, given, e) in
      ap (λ n. lookup n g.assets)
        (lookup-id (λ (x : GridAsset). x.asset_id) id old g.assets v.table there)
      ∙ there
]

place_asset-IsRooted :
    (now sid : ℕ) (b : AssetBody) (kind : AssetKind) (limit : Decimal) (actor : Option ℕ) (g : Grid)
    → IsRooted g
    → (is_site kind ≡ true
        → any (λ a. is_root_of sid a && is_other b.asset_id a) (values g.assets) ≡ false)
    → IsRooted (place_asset now sid b kind limit actor g).1
unfolding place_asset
place_asset-IsRooted now sid b kind limit actor g v free =
    elim (Option-cases (existing_asset b g)) [
      | inl gone ↦
          rw (gone, place_asset)
            (create-IsRooted now sid b kind limit actor g v
              (λ root. free_root sid b g v gone (free root)))
      | inr (old, e) ↦
          let there = existing_lem b g old v e in
          let low = change-IsRooted (reduced now b limit actor old) old g there refl refl refl v in
          let high = change-IsRooted (raised now b limit old) old g there refl refl refl v in
          elim (Bool-cases (ltb_ℤ limit old.cap_kw)) [
            | inl less ↦ rw (e, less, place_asset) low
            | inr more ↦ rw (e, more, place_asset) high
          ]
    ]

-- Where each station has one site root at most, no asset is RETIRED and assets stand under their
-- ids, this is so after every upsert, on every branch, whoever asks.
pub upsert_grid_asset-IsRooted :
    (now sid : ℕ) (b : AssetBody) (actor : Option ℕ) (s : Store)
    → IsRooted s.grid
    → IsRooted (upsert_grid_asset now sid b actor s).1.grid
unfolding upsert_grid_asset
upsert_grid_asset-IsRooted now sid b actor s v = elim (Outcome-cases (check_asset sid b s.grid)) [
  | inl (w, e) ↦
      rw (e, commit)
        (place_asset-IsRooted now sid b w.0 w.1 actor s.grid v (check_asset_lem sid b s.grid w e))
  | inr (f, e) ↦ rw (e, commit) v
]

cap_over_none :
    (sid : ℕ) (cap : Option Decimal) (xs : List GridAsset)
    → count (is_root_of sid) xs ≡ 0
    → cap_over sid cap xs ≡ cap
unfolding cap_over
cap_over_none sid cap [] h = refl
cap_over_none sid cap (x ∷ xs) h = ground (arith, cap_over_none sid cap xs)

cap_over_one :
    (sid : ℕ) (a : GridAsset) (xs : List GridAsset)
    → count (is_root_of sid) xs ≤ 1
    → find (counts_for sid) xs ≡ some a
    → cap_over sid none xs ≡ some a.cap_kw
unfolding cap_over
cap_over_one sid a [] one h = absurd (ground (arith, h))
cap_over_one sid a (x ∷ xs) one h = elim (Bool-cases (counts_for sid x)) [
  | inl hit ↦
      let none_left : count (is_root_of sid) xs ≡ 0 = ground (arith, hit, one) in
      ground (arith, hit, h, cap_over_none sid (some x.cap_kw) xs none_left)
  | inr miss ↦ ground (arith, miss, h, cap_over_one sid a xs)
]

cap_over_missing :
    (sid : ℕ) (xs : List GridAsset) → find (counts_for sid) xs ≡ none → cap_over sid none xs ≡ none
unfolding cap_over
cap_over_missing sid [] h = refl
cap_over_missing sid (x ∷ xs) h = ground (arith, cap_over_missing sid xs)

abbrev pub active_root : ℕ → Grid → Option GridAsset
active_root sid g = find (counts_for sid) (values g.assets)

abbrev pub root_cap : Option GridAsset → Option Decimal
root_cap none = none
root_cap (some a) = some a.cap_kw

-- Where a station has one site root at most, its cap is that of its ACTIVE root; without an ACTIVE root
-- there is no cap.
pub site_cap_kw-active_root :
    (sid : ℕ) (g : Grid) → IsRooted g → site_cap_kw sid g ≡ root_cap (active_root sid g)
site_cap_kw-active_root sid g v = elim (Option-cases (active_root sid g)) [
  | inl gone ↦ cap_over_missing sid (values g.assets) gone ∙ rw gone refl
  | inr (a, found) ↦ cap_over_one sid a (values g.assets) (v.single sid) found ∙ rw found refl
]
