-- ===== src/Profiles/InForce.antt =====
-- About profiles pushed to charge points: `recordProfilePush` and `activeProfileFor` of
-- apps/api/src/db/store.js.
use volt_hub_csms.Prelude.{
  ℕ, suc, ◌≤◌, ◌≡◌, refl, sym, ap, subst, ◌∙◌, Bool, true, false, ◌&&◌, List, [], ◌∷◌, Option, none,
  some, ltb, arith, nat_eq, Bool-cases, Option-cases, inl, inr,
}
use volt_hub_csms.Prelude.Lists.{any, find}
use volt_hub_csms.Prelude.Dict.{Dict, values, lookup, insert}
use volt_hub_csms.State.{Store, Control, ProfilePush}
use volt_hub_csms.Outbox.{Limits}
use volt_hub_csms.Profiles.{
  PushRequest, same_push, is_candidate_push, best_push, active_profile_for, new_push,
  record_profile_push,
}

find-values-insert :
    (q : ProfilePush → Bool) (k : ℕ) (p : ProfilePush) (m : Dict ℕ ProfilePush)
    → lookup k m ≡ none
    → find q (values m) ≡ none
    → q p ≡ true
    → find q (values (insert k p m)) ≡ some p
unfolding lookup insert
find-values-insert q k p [] l h t = ground (arith, t)
find-values-insert q k p ((j, x) ∷ m) l h t = ground (arith, find-values-insert q k p m, l, h, t)

known_lem :
    (l : Limits) (now : ℕ) (q : PushRequest) (s : Store) (p : ProfilePush)
    → find (same_push q.cp_id q.decision_id) (values s.control.pushes) ≡ some p
    → record_profile_push l now q s ≡ (p, true, s)
unfolding record_profile_push
known_lem l now q s p e = rw (e, record_profile_push) refl

recorded_lem :
    (l : Limits) (now : ℕ) (q : PushRequest) (s : Store)
    → lookup (suc s.control.push_seq) s.control.pushes ≡ none
    → let first = record_profile_push l now q s in
      find (same_push q.cp_id q.decision_id) (values first.2.control.pushes) ≡ some first.0
unfolding record_profile_push
recorded_lem l now q s absent =
    elim (Option-cases (find (same_push q.cp_id q.decision_id) (values s.control.pushes))) [
      | inr (p, e) ↦ rw (e, record_profile_push) e
      | inl e ↦
          let p = new_push l now q s.control in
          rw (e, record_profile_push)
            (find-values-insert (same_push q.cp_id q.decision_id) p.push_id p s.control.pushes
              absent e
              (ground (
                arith,
                nat_eq.same_iff q.cp_id q.cp_id,
                nat_eq.same_iff q.decision_id q.decision_id,
              )))
    ]

-- While the next push id is free, a push is recorded once for each charge point and decision: the
-- same request again, at any time and with any payload, answers with the first row and changes
-- nothing.
pub record_profile_push_twice :
    (l : Limits) (now later : ℕ) (q r : PushRequest) (s : Store)
    → lookup (suc s.control.push_seq) s.control.pushes ≡ none
    → r.cp_id ≡ q.cp_id
    → r.decision_id ≡ q.decision_id
    → let first = record_profile_push l now q s in
      record_profile_push l later r first.2 ≡ (first.0, true, first.2)
record_profile_push_twice l now later q r s absent cp decision =
    let first = record_profile_push l now q s in
    known_lem l later r first.2 first.0 (
      ap (λ n. find (same_push n r.decision_id) (values first.2.control.pushes)) cp
      ∙ ap (λ n. find (same_push q.cp_id n) (values first.2.control.pushes)) decision
      ∙ recorded_lem l now q s absent)

abbrev pub above : ℕ → ProfilePush → Bool
above n p = ltb n p.push_id

-- The best of a list is a candidate, and no candidate has a higher id.
abbrev pub IsBest : ℕ → List ProfilePush → Option ProfilePush → Type 0
IsBest cp ps none = any (is_candidate_push cp) ps ≡ false
IsBest cp ps (some b) =
    (is_candidate_push cp b ≡ true)
    × (any (λ p. is_candidate_push cp p && above b.push_id p) ps ≡ false)

best_push_none :
    (cp : ℕ) (b : ProfilePush) (ps : List ProfilePush)
    → is_candidate_push cp b ≡ true
    → (c : ProfilePush) × (best_push cp (some b) ps ≡ some c)
      × (is_candidate_push cp c ≡ true)
      × (b.push_id ≤ c.push_id)
      × (any (λ p. is_candidate_push cp p && above c.push_id p) ps ≡ false)
unfolding best_push
best_push_none cp b [] h = (b, refl, h, omega arith, refl)
best_push_none cp b (p ∷ ps) h = elim (Bool-cases (is_candidate_push cp p)) [
  | inr other ↦
      let (c, e, k, le, rest) = best_push_none cp b ps h in (c, rw other e, k, le, rw other rest)
  | inl hit ↦ elim (Bool-cases (ltb b.push_id p.push_id)) [
    | inl higher ↦
        let (c, e, k, le, rest) = best_push_none cp p ps hit in
        (c, rw (hit, higher) e, k, ground (arith, higher, le), ground (arith, hit, le, rest))
    | inr lower ↦
        let (c, e, k, le, rest) = best_push_none cp b ps h in
        (c, rw (hit, lower) e, k, le, ground (arith, hit, lower, le, rest))
  ]
]

skip-IsBest :
    (cp : ℕ) (p : ProfilePush) (ps : List ProfilePush) (o : Option ProfilePush)
    → is_candidate_push cp p ≡ false
    → IsBest cp ps o
    → IsBest cp (p ∷ ps) o
skip-IsBest cp p ps none h v = ground (arith, h, v)
skip-IsBest cp p ps (some b) h v = (v.0, ground (arith, h, v.1))

best_push-IsBest : (cp : ℕ) (ps : List ProfilePush) → IsBest cp ps (best_push cp none ps)
unfolding best_push
best_push-IsBest cp [] = refl
best_push-IsBest cp (p ∷ ps) = elim (Bool-cases (is_candidate_push cp p)) [
  | inr other ↦
      let v = skip-IsBest cp p ps (best_push cp none ps) other (best_push-IsBest cp ps) in
      subst (λ o. IsBest cp (p ∷ ps) o) (rw other refl) v
  | inl hit ↦
      let (b, e, k, le, rest) = best_push_none cp p ps hit in
      let top : IsBest cp (p ∷ ps) (some b) = (k, ground (arith, hit, le, rest)) in
      subst (λ o. IsBest cp (p ∷ ps) o) {x = some b} (rw hit (sym e)) top
]

-- The profile in force on a charge point is, of those that were sent and not refused, the one with the
-- highest id; there is none only if no push was sent and not refused.
pub active_profile_for_lem :
    (cp : ℕ) (c : Control) → IsBest cp (values c.pushes) (active_profile_for cp c)
active_profile_for_lem cp c = best_push-IsBest cp (values c.pushes)
