-- ===== src/Tariffs/Versions.antt =====
-- About the bands and the versions of tariffs: `createTariffVersion` of apps/api/src/db/store.js.
use volt_hub_csms.Prelude.{
  ℕ, ◌≤◌, ◌<◌, ◌≡◌, refl, true, false, List, [], ◌∷◌, arith, nat_eq, inl, inr,
}
use volt_hub_csms.Prelude.Lists.{push, any, any-append}
use volt_hub_csms.Prelude.Int.{pos, ltb_ℤ}
use volt_hub_csms.Prelude.Decimal.{Decimal}
use volt_hub_csms.Prelude.Outcome.{ok, Outcome-cases}
use volt_hub_csms.Tariffs.{
  BandInput, CleanBand, TariffRequest, clean_band, clean_bands, or_default, check_tariff, same_slot,
}

-- A band that ends after it begins, within the day, with a price above zero.
abbrev pub IsCleanBand : CleanBand → Type 0
IsCleanBand b =
    (b.start_time < b.end_time) × (b.end_time ≤ 1440) × (ltb_ℤ (pos 0) b.price_per_kwh ≡ true)

-- All bands are of that kind, and no two have the same scope and start.
abbrev pub AreClean : List CleanBand → Type 0
AreClean [] = Unit
AreClean (b ∷ bs) =
    IsCleanBand b × (any (same_slot b.day_scope b.start_time) bs ≡ false) × AreClean bs

same_slot_sym :
    (b c : CleanBand) → same_slot b.day_scope b.start_time c ≡ same_slot c.day_scope c.start_time b
same_slot_sym b c = ground arith

push-AreClean :
    (b : CleanBand) (seen : List CleanBand)
    → IsCleanBand b
    → any (same_slot b.day_scope b.start_time) seen ≡ false
    → AreClean seen
    → AreClean (push b seen)
push-AreClean b [] w new v = (w, refl, tt)
push-AreClean b (x ∷ seen) w new v = ground (
  arith,
  push-AreClean b seen w,
  v,
  new,
  same_slot_sym b x,
  any-append (same_slot x.day_scope x.start_time) seen (b ∷ []),
)

clean_band_lem :
    (b : BandInput) (seen : List CleanBand) (c : CleanBand)
    → clean_band b seen ≡ ok c
    → IsCleanBand c × (any (same_slot c.day_scope c.start_time) seen ≡ false)
unfolding clean_band
clean_band_lem b seen c e = ground (arith, e)

clean_bands-AreClean :
    (bs : List BandInput) (seen out : List CleanBand)
    → clean_bands bs seen ≡ ok out
    → AreClean seen
    → AreClean out
unfolding clean_bands
clean_bands-AreClean [] seen out e v = ground (arith, e, v)
clean_bands-AreClean (b ∷ bs) seen out e v = elim (Outcome-cases (clean_band b seen)) [
  | inl (c, h) ↦
      let (w, new) = clean_band_lem b seen c h in
      clean_bands-AreClean bs (push c seen) out (ground (arith, h, e))
        (push-AreClean c seen w new v)
  | inr (f, h) ↦ absurd (ground (arith, h, e))
]

-- A tariff that is accepted has a group, a fee that is not negative, and bands that each end after they
-- begin and within the day, have a price above zero, and differ in scope or start.
pub check_tariff_lem :
    (q : TariffRequest) (group : ℕ) (fee : Decimal) (bands : List CleanBand)
    → check_tariff q ≡ ok (group, fee, bands)
    → (1 ≤ group) × (ltb_ℤ fee (pos 0) ≡ false) × AreClean bands
unfolding check_tariff
check_tariff_lem q group fee bands e = elim (Outcome-cases (clean_bands (or_default q.bands) [])) [
  | inl (out, h) ↦ ground (arith, h, e, clean_bands-AreClean (or_default q.bands) [] out h tt)
  | inr (f, h) ↦ absurd (ground (arith, h, e))
]
