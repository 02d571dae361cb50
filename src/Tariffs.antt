-- ===== src/Tariffs.antt =====
-- Tariff versions of apps/api/src/db/store.js: `createTariffVersion`.
pub mod Versions
pub mod Chain
use volt_hub_csms.Prelude.{
  ℕ, suc, ◌+◌, ◌*◌, Bool, true, false, not, ◌&&◌, ◌||◌, String, List, [], ◌∷◌, ◌++◌, Option, none,
  some, ltb, leb, ◌==◌, nat_eq, if◌then◌else◌,
}
use volt_hub_csms.Prelude.Lists.{push, any, filter, find}
use volt_hub_csms.Prelude.Int.{pos, ltb_ℤ}
use volt_hub_csms.Prelude.Decimal.{Decimal, whole}
use volt_hub_csms.Prelude.Dict.{values, insert}
use volt_hub_csms.Prelude.Outcome.{Outcome, ok, err, ◌>>=◌, ◌>>◌, throw_if, or_throw, commit}
use volt_hub_csms.State.{
  Store, Money, Plan, Band, DayScope, all_days, weekday, weekend, Failure, failure, invalid_group,
  invalid_fee, invalid_band, AuditValue, number, version_name,
}
use volt_hub_csms.Store.{Result, audit_log}

-- A time of day by its two numbers, as the patterns of the source take it apart. A text that is no such
-- time is `none`.
pub record Clock : Type 0 where
  pub hour : ℕ
  pub minute : ℕ

-- A band of the request. A scope that is none of the three, and a price that is no number, is `none`.
pub record BandInput : Type 0 where
  pub day_scope : Option DayScope
  pub start_time : Option Clock
  pub end_time : Option Clock
  pub price_per_kwh : Option Decimal

-- A band that has passed its checks; times are minutes.
pub record CleanBand : Type 0 where
  pub day_scope : DayScope
  pub start_time : ℕ
  pub end_time : ℕ
  pub price_per_kwh : Decimal

-- `groupId || 1` and `sessionFee || 0` are applied; a number that is not finite is `none`.
pub record TariffRequest : Type 0 where
  pub group_id : Option ℕ
  pub name : Option String
  pub session_fee : Option Decimal
  pub bands : List BandInput
  pub actor : ℕ

-- `timeRe` and `endRe`
abbrev pub is_start : Clock → Bool
is_start t = ltb t.hour 24 && ltb t.minute 60

abbrev pub is_end : Clock → Bool
is_end t = is_start t || (t.hour == 24 && t.minute == 0)

-- `toMin`
abbrev pub to_min : Clock → ℕ
to_min t = t.hour * 60 + t.minute

abbrev pub scope_same : DayScope → DayScope → Bool
scope_same all_days all_days = true
scope_same weekday weekday = true
scope_same weekend weekend = true
scope_same _ _ = false

-- `seen.has(slot)` for the slot `${day_scope}:${start_time}`
abbrev pub same_slot : DayScope → ℕ → CleanBand → Bool
same_slot scope start b = scope_same b.day_scope scope && b.start_time == start

unfoldable pub clean_band : BandInput → List CleanBand → Outcome Failure CleanBand
clean_band b seen = do
  scope ← or_throw b.day_scope (failure invalid_band 422)
  start ← or_throw b.start_time (failure invalid_band 422)
  end ← or_throw b.end_time (failure invalid_band 422)
  throw_if (not (is_start start)) (failure invalid_band 422)
  throw_if (not (is_end end)) (failure invalid_band 422)
  throw_if (leb (to_min end) (to_min start)) (failure invalid_band 422)
  price ← or_throw b.price_per_kwh (failure invalid_band 422)
  throw_if (not (ltb_ℤ (pos 0) price)) (failure invalid_band 422)
  throw_if (any (same_slot scope (to_min start)) seen) (failure invalid_band 422)
  ok (record {
    day_scope = scope;
    start_time = to_min start;
    end_time = to_min end;
    price_per_kwh = price;
  })

-- `input.map(…)`, with the bands accepted so far.
unfoldable pub clean_bands : List BandInput → List CleanBand → Outcome Failure (List CleanBand)
clean_bands [] seen = ok seen
clean_bands (b ∷ bs) seen = do c ← clean_band b seen; clean_bands bs (push c seen)

-- The band that stands for a missing list.
abbrev pub default_band : BandInput
default_band = record {
  day_scope = some all_days;
  start_time = some (record { hour = 0; minute = 0 });
  end_time = some (record { hour = 24; minute = 0 });
  price_per_kwh = some (whole 22);
}

abbrev pub or_default : List BandInput → List BandInput
or_default [] = default_band ∷ []
or_default (b ∷ bs) = b ∷ bs

unfoldable pub check_tariff : TariffRequest → Outcome Failure (ℕ × Decimal × List CleanBand)
check_tariff q = do
  group ← or_throw q.group_id (failure invalid_group 422)
  throw_if (ltb group 1) (failure invalid_group 422)
  fee ← or_throw q.session_fee (failure invalid_fee 422)
  throw_if (ltb_ℤ fee (pos 0)) (failure invalid_fee 422)
  bands ← clean_bands (or_default q.bands) []
  ok (group, fee, bands)

-- `s.plans` of a group, their highest version, and the plan that has it.
abbrev pub versions : ℕ → Money → List Plan
versions group m = filter (λ p. p.group_id == group) (values m.plans)

abbrev pub highest : ℕ → List Plan → ℕ
highest n [] = n
highest n (p ∷ ps) = highest (if ltb n p.version_no then p.version_no else n) ps

abbrev pub max_version : ℕ → Money → ℕ
max_version group m = highest 0 (versions group m)

abbrev pub previous : ℕ → Money → Option Plan
previous group m = find (λ p. p.version_no == max_version group m) (versions group m)

-- `created`: the rows of the new bands, with ids from the sequence.
unfoldable pub band_rows : ℕ → ℕ → List CleanBand → List Band
band_rows plan_id seq [] = []
band_rows plan_id seq (b ∷ bs) =
    record {
      band_id = suc seq;
      plan_id = plan_id;
      day_scope = b.day_scope;
      start_time = b.start_time;
      end_time = b.end_time;
      price_per_kwh = b.price_per_kwh;
    }
    ∷ band_rows plan_id (suc seq) bs

abbrev pub plan_id_of : Option Plan → Option ℕ
plan_id_of none = none
plan_id_of (some p) = some p.plan_id

abbrev pub band_count : List CleanBand → ℕ
band_count [] = 0
band_count (b ∷ bs) = suc (band_count bs)

module _ (now : ℕ) where
  -- A name that is missing is `Plan v${version}`.
  abbrev pub new_plan : ℕ → Decimal → TariffRequest → Money → Plan
  new_plan group fee q m = record {
    plan_id = suc m.plan_seq;
    group_id = group;
    version_no = max_version group m + 1;
    name = q.name;
    session_fee = fee;
    active_from = now;
    active_to = none;
    supersedes_plan_id = plan_id_of (previous group m);
    created_by = some q.actor;
  }

  -- `if (prev) prev.active_to = plan.active_from;`
  abbrev pub close_previous : Option Plan → Money → Money
  close_previous none m = m
  close_previous (some p) m = record m {
    plans = insert p.plan_id (record p { active_to = some now }) m.plans;
  }

  unfoldable pub add_version : ℕ → Decimal → List CleanBand → TariffRequest → Money → Money
  add_version group fee bands q m =
      let p = new_plan group fee q m in
      record (close_previous (previous group m)
        (record m { plan_seq = p.plan_id; plans = insert p.plan_id p m.plans })) {
          band_seq = m.band_seq + band_count bands;
          bands = m.bands ++ band_rows p.plan_id m.band_seq bands;
        }

  -- `s.createTariffVersion`
  unfoldable pub create_tariff_version : TariffRequest → Store → Result Plan
  create_tariff_version q s =
      commit (check_tariff q)
        (λ w.
          let p = new_plan w.0 w.1 q s.money in
          let prev = previous w.0 s.money in
          let old : Option AuditValue = elim (plan_id_of prev) [
            | none ↦ none
            | some id ↦ some (number id)
          ] in
          let id = p.plan_id in
          let new_value = version_name q.name p.version_no in
          (
            ok p,
            record s {
              money = add_version w.0 w.1 w.2 q s.money;
              trail =
                  audit_log now (some q.actor) "TARIFF_PLAN" id "VERSION" old (some new_value)
                    s.trail;
            },
          ))
        s
