-- ===== src/Grid.antt =====
-- Grid assets and control modes of apps/api/src/db/store.js: `upsertGridAsset`, `approveGridAsset`, `siteCapKw`,
-- `getControlMode` and `setControlMode`. The audit row of a new asset leaves out its kind.
pub mod Roots
pub mod TwoPerson
use volt_hub_csms.Prelude.{
  ℕ, suc, Bool, true, false, not, ◌&&◌, ◌||◌, String, List, [], ◌∷◌, Option, none, some, ◌==◌,
  nat_eq, if◌then◌else◌,
}
use volt_hub_csms.Prelude.Lists.{any}
use volt_hub_csms.Prelude.Int.{pos, ltb_ℤ, min_ℤ}
use volt_hub_csms.Prelude.Decimal.{Decimal}
use volt_hub_csms.Prelude.Dict.{values, lookup, insert, contains_key}
use volt_hub_csms.Prelude.Outcome.{Outcome, ok, err, ◌>>=◌, ◌>>◌, throw_if, or_throw, commit}
use volt_hub_csms.State.{
  Store, Grid, GridAsset, AssetKind, site, AssetStatus, ControlMode, Failure, missing,
  e_grid_asset_invalid, e_grid_cap_monotonic, AuditValue, kw, mode, text, DedupeKey, mode_set,
  Payload, mode_changed,
}
use volt_hub_csms.Outbox.{Limits}
use volt_hub_csms.Store.{Result, emit, truthy, audit_log}

-- The body of a request. A kind that is none of the three, and a number that is none, is `none`.
pub record AssetBody : Type 0 where
  pub asset_id : Option ℕ
  pub kind : Option AssetKind
  pub label : Option String
  pub cap_kw : Option Decimal
  pub ramp_kw : Option Decimal
  pub parent_id : Option ℕ

abbrev pub is_site : AssetKind → Bool
is_site site = true
is_site _ = false

abbrev pub is_retired : AssetStatus → Bool
is_retired AssetStatus.retired = true
is_retired _ = false

abbrev pub is_in_force : AssetStatus → Bool
is_in_force AssetStatus.active = true
is_in_force _ = false

abbrev pub is_proposed : AssetStatus → Bool
is_proposed AssetStatus.pending = true
is_proposed _ = false

abbrev pub is_given {ℓ} : {A : Type ℓ} → Option A → Bool
is_given none = false
is_given (some _) = true

-- `a.asset_id !== b.asset_id`
abbrev pub is_other : Option ℕ → GridAsset → Bool
is_other none a = true
is_other (some id) a = not (a.asset_id == id)

-- What `existingRoot` looks for.
abbrev pub is_root_of : ℕ → GridAsset → Bool
is_root_of sid a = a.station_id == sid && is_site a.kind && not (is_retired a.status)

unfoldable pub check_parent : ℕ → Decimal → Option ℕ → Grid → Outcome Failure (Unit {0})
check_parent sid cap none g = ok tt
check_parent sid cap (some id) g = do
  p ← or_throw (lookup id g.assets) e_grid_asset_invalid
  throw_if (not (p.station_id == sid)) e_grid_cap_monotonic
  throw_if (ltb_ℤ p.cap_kw cap) e_grid_cap_monotonic

unfoldable pub check_asset : ℕ → AssetBody → Grid → Outcome Failure (AssetKind × Decimal)
check_asset sid b g = do
  throw_if (not (contains_key sid g.stations)) missing
  kind ← or_throw b.kind e_grid_asset_invalid
  cap ← or_throw b.cap_kw e_grid_asset_invalid
  throw_if (not (ltb_ℤ (pos 0) cap)) e_grid_asset_invalid
  throw_if (is_site kind && is_given b.parent_id) e_grid_asset_invalid
  throw_if (not (is_site kind) && not (is_given b.parent_id)) e_grid_asset_invalid
  check_parent sid cap b.parent_id g
  throw_if (is_site kind && any (λ a. is_root_of sid a && is_other b.asset_id a) (values g.assets))
      e_grid_asset_invalid
  ok (kind, cap)

-- `b.asset_id ? s.gridAssets.get(Number(b.asset_id)) : null`
abbrev pub existing_asset : AssetBody → Grid → Option GridAsset
existing_asset b g = elim (truthy b.asset_id) [ none ↦ none | some id ↦ lookup id g.assets ]

abbrev pub or_kept : Option Decimal → Option Decimal → Option Decimal
or_kept none old = old
or_kept (some x) old = some x

abbrev pub put_asset : GridAsset → Grid → Grid
put_asset a g = record g { assets = insert a.asset_id a g.assets }

module _ (now : ℕ) where
  -- An asset whose cap is lowered, one whose cap is raised or kept, and a new one.
  abbrev pub reduced : AssetBody → Decimal → Option ℕ → GridAsset → GridAsset
  reduced b cap actor a = record a {
    cap_kw = cap;
    ramp_kw = or_kept b.ramp_kw a.ramp_kw;
    status = AssetStatus.pending;
    proposed_by = actor;
    approved_by = none;
    updated_at = now;
  }

  abbrev pub raised : AssetBody → Decimal → GridAsset → GridAsset
  raised b cap a = record a {
    cap_kw = cap;
    ramp_kw = or_kept b.ramp_kw a.ramp_kw;
    status = AssetStatus.active;
    updated_at = now;
  }

  abbrev pub new_asset : ℕ → AssetBody → AssetKind → Decimal → Option ℕ → Grid → GridAsset
  new_asset sid b kind cap actor g = record {
    asset_id = suc g.asset_seq;
    station_id = sid;
    parent_id = b.parent_id;
    kind = kind;
    label = b.label;
    cap_kw = cap;
    ramp_kw = b.ramp_kw;
    status = AssetStatus.active;
    proposed_by = actor;
    approved_by = none;
    created_at = now;
    updated_at = now;
  }

  -- The asset and the tables that `upsertGridAsset` leaves when its checks have passed.
  unfoldable pub place_asset :
      ℕ → AssetBody → AssetKind → Decimal → Option ℕ → Grid → GridAsset × Grid
  place_asset sid b kind cap actor g =
      let a = new_asset sid b kind cap actor g in
      let created : Grid = record (put_asset a g) { asset_seq = a.asset_id } in
      elim (existing_asset b g) [
        | none ↦ (a, created)
        | some old ↦
            let low = reduced b cap actor old in
            let high = raised b cap old in
            if ltb_ℤ cap old.cap_kw then (low, put_asset low g) else (high, put_asset high g)
      ]

  -- The action that the audit trail names, and the old value, which is read after it was overwritten.
  abbrev pub asset_action : AssetBody → Decimal → Grid → String × Option AuditValue
  asset_action b cap g = elim (existing_asset b g) [
    | none ↦ ("CREATE", none)
    | some old ↦
        if ltb_ℤ cap old.cap_kw then ("CAP_REDUCE_PROPOSED", some (kw cap)) else ("UPDATE", none)
  ]

  -- `s.upsertGridAsset`
  unfoldable pub upsert_grid_asset : ℕ → AssetBody → Option ℕ → Store → Result GridAsset
  upsert_grid_asset sid b actor s =
      commit (check_asset sid b s.grid)
        (λ w.
          let placed = place_asset sid b w.0 w.1 actor s.grid in
          let action = asset_action b w.1 s.grid in
          let id = (placed.0).asset_id in
          (
            ok placed.0,
            record s {
              grid = placed.1;
              trail = audit_log now actor "GRID_ASSET" id action.0 action.1 (some (kw w.1)) s.trail;
            },
          ))
        s

abbrev pub same_person : Option ℕ → Option ℕ → Bool
same_person (some a) (some b) = a == b
same_person _ _ = false

unfoldable pub check_approval : ℕ → Option ℕ → Grid → Outcome Failure GridAsset
check_approval id actor g = do
  a ← or_throw (lookup id g.assets) missing
  throw_if (not (is_proposed a.status)) e_grid_asset_invalid
  throw_if (same_person actor a.proposed_by) e_grid_asset_invalid
  ok a

abbrev pub approved : ℕ → Option ℕ → GridAsset → GridAsset
approved now actor a = record a {
  status = AssetStatus.active;
  approved_by = actor;
  updated_at = now;
}

-- `s.approveGridAsset`
unfoldable pub approve_grid_asset : ℕ → ℕ → Option ℕ → Store → Result GridAsset
approve_grid_asset now id actor s =
    commit (check_approval id actor s.grid)
      (λ a.
        let b = approved now actor a in
        (
          ok b,
          record s {
            grid = put_asset b s.grid;
            trail =
                audit_log now actor "GRID_ASSET" a.asset_id "APPROVE" (some (text "PENDING"))
                  (some (text "ACTIVE")) s.trail;
          },
        ))
      s

abbrev pub counts_for : ℕ → GridAsset → Bool
counts_for sid a = a.station_id == sid && is_site a.kind && is_in_force a.status

-- `Math.min(cap, a.cap_kw)`, where `none` is `Infinity`.
abbrev pub min_cap : Option Decimal → Decimal → Option Decimal
min_cap none x = some x
min_cap (some c) x = some (min_ℤ c x)

unfoldable pub cap_over : ℕ → Option Decimal → List GridAsset → Option Decimal
cap_over sid cap [] = cap
cap_over sid cap (a ∷ rest) =
    let next = if counts_for sid a then min_cap cap a.cap_kw else cap in cap_over sid next rest

-- `s.siteCapKw`
abbrev pub site_cap_kw : ℕ → Grid → Option Decimal
site_cap_kw sid g = cap_over sid none (values g.assets)

abbrev pub is_enforced : ControlMode → Bool
is_enforced ControlMode.enforced = true
is_enforced _ = false

-- `s.getControlMode`
abbrev pub get_control_mode : ℕ → Grid → ControlMode
get_control_mode sid g = elim (lookup sid g.modes) [ none ↦ ControlMode.off | some m ↦ m ]

-- A mode that is none of the three is `none`.
unfoldable pub check_mode : ℕ → Option ControlMode → Grid → Outcome Failure ControlMode
check_mode sid to g = do
  throw_if (not (contains_key sid g.stations)) missing
  m ← or_throw to e_grid_asset_invalid
  throw_if (is_enforced m && not (is_given (site_cap_kw sid g))) e_grid_asset_invalid
  ok m

-- `s.setControlMode`, with the mode before.
unfoldable pub set_control_mode :
    Limits → ℕ → ℕ → Option ControlMode → Option ℕ → Store → Result (ControlMode × ControlMode)
set_control_mode l now sid to actor s =
    commit (check_mode sid to s.grid)
      (λ m.
        let prev = get_control_mode sid s.grid in
        let t =
          audit_log now actor "CONTROL_MODE" sid "SET" (some (mode prev)) (some (mode m)) s.trail in
        (
          ok (m, prev),
          record (emit l now (mode_set sid now) (mode_changed sid prev m) s) {
            grid = record s.grid { modes = insert sid m s.grid.modes };
            trail = t;
          },
        ))
      s
