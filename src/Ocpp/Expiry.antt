-- ===== src/Ocpp/Expiry.antt =====
-- The sweep of unanswered calls (apps/api/src/ocpp/gateway.js).
use volt_hub_csms.Prelude.{
  ℕ, ◌≡◌, refl, ◌||◌, ◌&&◌, Bool, true, false, String, [], ◌∷◌, none, some, arith, leb, ◌<◌, ◌==◌,
  text_comparable, if◌then◌else◌, ◌↔◌,
}
use volt_hub_csms.Prelude.Dict.{Dict, lookup, erase}
use volt_hub_csms.Prelude.Table.{IsMap, lookup-erase, erase-IsMap}
use volt_hub_csms.State.{Store}
use volt_hub_csms.Ocpp.Calls.{Pending, Calls, time_out, sweep, sweep_expired_acks}
use volt_hub_csms.Ocpp.Correlated.{settle_call_pending}

module _ (upper : String → String) (cap_count now : ℕ) where
  -- Whether the calls hold an expired one under a uid.
  abbrev expires : String → Dict String Pending → Bool
  expires uid [] = false
  expires uid ((u, p) ∷ ps) = u == uid && leb p.deadline now || expires uid ps

  time_out_pending :
      (uid : String) (p : Pending) (w : Calls × Store)
      → (time_out upper cap_count now uid p w).0.pending ≡ erase uid w.0.pending
  time_out_pending uid p (c, s) = settle_call_pending uid _ _

  step : String → Pending → Calls × Store → Calls × Store
  step u p w = if leb p.deadline now then time_out upper cap_count now u p w else w

  step-IsMap :
      (u : String) (p : Pending) (w : Calls × Store)
      → IsMap w.0.pending
      → IsMap (step u p w).0.pending
  unfolding step
  step-IsMap u p w m =
      elim (leb p.deadline now)
        as (λ b. IsMap (if b then time_out upper cap_count now u p w else w).0.pending) [
          | true ↦ rw (time_out_pending u p w) (erase-IsMap u w.0.pending m)
          | false ↦ m
        ]

  lookup-step :
      (uid u : String) (p : Pending) (w : Calls × Store)
      → IsMap w.0.pending
      → lookup uid (step u p w).0.pending
        ≡ (if u == uid && leb p.deadline now then none else lookup uid w.0.pending)
  unfolding step
  lookup-step uid u p w m = ground (arith, time_out_pending u p w, lookup-erase u uid w.0.pending m)

  lookup-sweep :
      (uid : String) (ps : Dict String Pending) (w : Calls × Store)
      → IsMap w.0.pending
      → lookup uid (sweep upper cap_count now ps w).1.pending
        ≡ (if expires uid ps then none else lookup uid w.0.pending)
  unfolding sweep step
  lookup-sweep uid [] w m = refl
  lookup-sweep uid ((u, p) ∷ ps) w m =
      ground (arith, lookup-sweep uid ps (step u p w) (step-IsMap u p w m), lookup-step uid u p w m)

  expires_lem :
      (uid : String) (m : Dict String Pending)
      → IsMap m
      → expires uid m
        ≡ elim (lookup uid m) as (λ _. Bool) [ none ↦ false | some p ↦ leb p.deadline now ]
  unfolding lookup
  expires_lem uid [] h = refl
  expires_lem uid ((u, p) ∷ ps) h =
      ground (arith, expires_lem uid ps h.1, text_comparable.same_iff u uid)

  -- Where no uid is pending twice: after a sweep the calls that are pending are exactly those that were and whose deadline lies
  -- ahead: a call waits for its answer until the first sweep after its deadline, and no longer.
  pub sweep_expired_acks_pending :
      (uid : String) (p : Pending) (w : Calls × Store)
      → IsMap w.0.pending
      → (lookup uid (sweep_expired_acks upper cap_count now w).1.pending ≡ some p)
        ↔ ((lookup uid w.0.pending ≡ some p) × (now < p.deadline))
  unfolding sweep_expired_acks
  sweep_expired_acks_pending uid p w m = (
    λ h. ground (arith, lookup-sweep uid w.0.pending w m, expires_lem uid w.0.pending m),
    λ h. ground (arith, lookup-sweep uid w.0.pending w m, expires_lem uid w.0.pending m),
  )
