-- ===== src/Tariffs/Chain.antt =====
-- About the version numbers of a tariff group: `createTariffVersion` of apps/api/src/db/store.js.
use volt_hub_csms.Prelude.{
  ℕ, suc, ◌+◌, ◌<◌, ◌≡◌, refl, sym, ap, ◌∙◌, Bool, ◌&&◌, List, [], ◌∷◌, ◌++◌, none, some, ltb, leb,
  arith, ◌==◌, nat_eq, Bool-cases, Option-cases, inl, inr, if◌then◌else◌,
}
use volt_hub_csms.Prelude.Lists.{filter, find, count, filter-append}
use volt_hub_csms.Prelude.Dict.{
  Dict, values, lookup, insert, lookup-insert, lookup-insert_self, count-values-insert_new,
  count-values-insert_same,
}
use volt_hub_csms.Prelude.Table.{IsTable, insert-IsTable, find-lookup}
use volt_hub_csms.Prelude.Outcome.{Outcome, ok, err, commit, Outcome-cases}
use volt_hub_csms.Prelude.Decimal.{Decimal}
use volt_hub_csms.State.{Store, Money, Plan, Failure}
use volt_hub_csms.Tariffs.{
  TariffRequest, CleanBand, check_tariff, create_tariff_version, new_plan, add_version,
  close_previous, max_version, versions, highest, previous,
}

abbrev pub is_version : ℕ → ℕ → Plan → Bool
is_version group n p = p.group_id == group && p.version_no == n

-- Plans stand under their ids, none above the sequence is taken, and each group has exactly one plan of
-- each version from 1 to its highest one.
pub record IsVersioned (m : Money) : Type 0 where
  pub table : IsTable (λ (p : Plan). p.plan_id) m.plans
  pub fresh : (k : ℕ) → m.plan_seq < k → lookup k m.plans ≡ none
  pub once :
      (group n : ℕ)
      → count (is_version group n) (values m.plans)
        ≡ (if leb 1 n && leb n (max_version group m) then 1 else 0)

highest-max : (n : ℕ) (ps qs : List Plan) → highest n (ps ++ qs) ≡ highest (highest n ps) qs
highest-max n [] qs = refl
highest-max n (p ∷ ps) qs = highest-max (if ltb n p.version_no then p.version_no else n) ps qs

values-insert_new :
    (k : ℕ) (p : Plan) (m : Dict ℕ Plan)
    → lookup k m ≡ none
    → values (insert k p m) ≡ values m ++ (p ∷ [])
unfolding lookup insert
values-insert_new k p [] h = refl
values-insert_new k p ((j, q) ∷ m) h = ground (arith, values-insert_new k p m)

-- A change that keeps the group and the version keeps the highest version of each group.
highest-insert_same :
    (group n k : ℕ) (p q : Plan) (m : Dict ℕ Plan)
    → lookup k m ≡ some q
    → p.group_id ≡ q.group_id
    → p.version_no ≡ q.version_no
    → highest n (filter (λ x. x.group_id == group) (values (insert k p m)))
      ≡ highest n (filter (λ x. x.group_id == group) (values m))
unfolding lookup insert
highest-insert_same group n k p q [] l g v = cc
highest-insert_same group n k p q ((j, x) ∷ m) l g v = elim (Bool-cases (j == k)) [
  | inl here ↦ let same : x ≡ q = ground (arith, l, here) in ground (arith, here, same, g, v)
  | inr apart ↦ elim (Bool-cases (x.group_id == group)) [
    | inl listed ↦ ground (
      arith,
      apart,
      listed,
      l,
      highest-insert_same group (if ltb n x.version_no then x.version_no else n) k p q m,
    )
    | inr other ↦ ground (arith, apart, other, l, highest-insert_same group n k p q m)
  ]
]

-- The tables with the new plan, before the previous one is closed.
abbrev added : Plan → Money → Money
added p m = record m { plan_seq = p.plan_id; plans = insert p.plan_id p m.plans }

max_version-added :
    (group : ℕ) (p : Plan) (m : Money)
    → lookup p.plan_id m.plans ≡ none
    → p.version_no ≡ max_version p.group_id m + 1
    → max_version group (added p m)
      ≡ (if p.group_id == group then max_version group m + 1 else max_version group m)
max_version-added group p m absent next =
    ap (λ ps. highest 0 (filter (λ x. x.group_id == group) ps))
      (values-insert_new p.plan_id p m.plans absent)
    ∙ ap (highest 0) (filter-append (λ x. x.group_id == group) (values m.plans) (p ∷ []))
    ∙ highest-max 0 (versions group m) (filter (λ x. x.group_id == group) (p ∷ []))
    ∙ last_lem
  where
    last_lem :
        highest (max_version group m) (filter (λ x. x.group_id == group) (p ∷ []))
        ≡ (if p.group_id == group then max_version group m + 1 else max_version group m)
    last_lem = elim (Bool-cases (p.group_id == group)) [
      | inl same ↦
          let g : p.group_id ≡ group = (nat_eq.same_iff p.group_id group).0 same in
          let v : p.version_no ≡ max_version group m + 1 = next ∙ ap (λ n. max_version n m + 1) g in
          ground (arith, same, v)
      | inr other ↦ ground (arith, other)
    ]

added-IsVersioned :
    (p : Plan) (m : Money)
    → p.plan_id ≡ suc m.plan_seq
    → p.version_no ≡ max_version p.group_id m + 1
    → IsVersioned m
    → IsVersioned (added p m)
added-IsVersioned p m id next v =
    let absent : lookup p.plan_id m.plans ≡ none = v.fresh p.plan_id (rw id (omega arith)) in
    record {
      table = insert-IsTable (λ (x : Plan). x.plan_id) p.plan_id p m.plans refl v.table;
      fresh = λ k h. ground (arith, v.fresh k, h, id, lookup-insert p.plan_id k p m.plans);
      once = λ group n.
          rw (max_version-added group p m absent next) (elim (Bool-cases (p.group_id == group)) [
            | inl same ↦
                let g = (nat_eq.same_iff p.group_id group).0 same in
                let top : p.version_no ≡ max_version group m + 1 =
                  next ∙ ap (λ i. max_version i m + 1) g in
                ground (
                  arith,
                  same,
                  top,
                  v.once group n,
                  count-values-insert_new (is_version group n) p.plan_id p m.plans absent,
                )
            | inr other ↦ ground (
              arith,
              other,
              v.once group n,
              count-values-insert_new (is_version group n) p.plan_id p m.plans absent,
            )
          ]);
    }

closed-IsVersioned :
    (now : ℕ) (old : Plan) (m : Money)
    → lookup old.plan_id m.plans ≡ some old
    → IsVersioned m
    → IsVersioned (close_previous now (some old) m)
closed-IsVersioned now old m there v =
    let p = record old { active_to = some now } in
    record {
      table = insert-IsTable (λ (x : Plan). x.plan_id) old.plan_id p m.plans refl v.table;
      fresh = λ k h. ground (arith, v.fresh k, h, there, lookup-insert old.plan_id k p m.plans);
      once = λ group n. rw (highest-insert_same group 0 old.plan_id p old m.plans there refl refl) (
          count-values-insert_same (is_version group n) old.plan_id p old m.plans there refl
          ∙ v.once group n);
    }

find-filter :
    (p q : Plan → Bool) (ps : List Plan) → find q (filter p ps) ≡ find (λ x. p x && q x) ps
find-filter p q [] = refl
find-filter p q (x ∷ ps) = ground (arith, find-filter p q ps)

there_before :
    (group : ℕ) (old : Plan) (m : Money)
    → IsVersioned m
    → previous group m ≡ some old
    → lookup old.plan_id m.plans ≡ some old
there_before group old m v e =
    let is_last = λ (x : Plan). x.version_no == max_version group m in
    let in_group = λ (x : Plan). x.group_id == group in
    find-lookup (λ (x : Plan). x.plan_id) (λ x. in_group x && is_last x) old m.plans v.table
      (sym (find-filter in_group is_last (values m.plans)) ∙ e)

-- The previous version stands in the tables, also after the new one is put in.
previous_lem :
    (group : ℕ) (p old : Plan) (m : Money)
    → IsVersioned m
    → p.plan_id ≡ suc m.plan_seq
    → previous group m ≡ some old
    → lookup old.plan_id (added p m).plans ≡ some old
previous_lem group p old m v id e =
    let there = there_before group old m v e in
    let absent : lookup p.plan_id m.plans ≡ none = v.fresh p.plan_id (rw id (omega arith)) in
    ground (
      arith,
      there,
      absent,
      nat_eq.same_iff p.plan_id old.plan_id,
      lookup-insert p.plan_id old.plan_id p m.plans,
    )

close-IsVersioned :
    (now group : ℕ) (p : Plan) (m : Money)
    → IsVersioned m
    → p.plan_id ≡ suc m.plan_seq
    → p.version_no ≡ max_version p.group_id m + 1
    → IsVersioned (close_previous now (previous group m) (added p m))
close-IsVersioned now group p m v id next =
    let w = added-IsVersioned p m id next v in
    elim (Option-cases (previous group m)) [
      | inl first ↦ rw (first, close_previous) w
      | inr (old, e) ↦
          rw (e, close_previous)
            (closed-IsVersioned now old (added p m) (previous_lem group p old m v id e) w)
    ]

-- What a request is answered with, and the tables that it leaves: refused, the store as it was; else a new plan of
-- the group that was asked for, with the number after its highest one, that stands under a new id, and the plan
-- that was the highest one closed.
abbrev pub IsNext : ℕ → TariffRequest → Store → Outcome Failure Plan × Store → Type 0
IsNext now q s (err f, t) = t ≡ s
IsNext now q s (ok p, t) =
    (q.group_id ≡ some p.group_id)
    × (p.version_no ≡ max_version p.group_id s.money + 1)
    × (lookup p.plan_id s.money.plans ≡ none)
    × (lookup p.plan_id t.money.plans ≡ some p)
    × ((old : Plan)
        → previous p.group_id s.money ≡ some old
        → lookup old.plan_id t.money.plans ≡ some (record old { active_to = some now }))

check_tariff-group :
    (q : TariffRequest) (w : ℕ × Decimal × List CleanBand)
    → check_tariff q ≡ ok w
    → q.group_id ≡ some w.0
unfolding check_tariff
check_tariff-group q w e = ground (arith, e)

-- The new plan stands, also after the previous one was closed, and that one is closed.
new_plan_stands :
    (now group : ℕ) (p : Plan) (m : Money)
    → IsVersioned m
    → p.plan_id ≡ suc m.plan_seq
    → lookup p.plan_id (close_previous now (previous group m) (added p m)).plans ≡ some p
new_plan_stands now group p m v id =
    let absent : lookup p.plan_id m.plans ≡ none = v.fresh p.plan_id (rw id (omega arith)) in
    elim (Option-cases (previous group m)) [
      | inl first ↦
          rw (first, close_previous)
            (ground (
              arith,
              lookup-insert p.plan_id p.plan_id p m.plans,
              nat_eq.same_iff p.plan_id p.plan_id,
            ))
      | inr (old, e) ↦
          rw (e, close_previous)
            (ground (
              arith,
              absent,
              previous_lem group p old m v id e,
              there_before group old m v e,
              nat_eq.same_iff old.plan_id p.plan_id,
              lookup-insert old.plan_id p.plan_id (record old { active_to = some now })
                  (added p m).plans,
              lookup-insert_self p.plan_id p m.plans,
            ))
    ]

previous_closed :
    (now group : ℕ) (p old : Plan) (m : Money)
    → previous group m ≡ some old
    → lookup old.plan_id (close_previous now (previous group m) (added p m)).plans
      ≡ some (record old { active_to = some now })
previous_closed now group p old m e =
    rw (e, close_previous) (lookup-insert_self old.plan_id _ (added p m).plans)

-- A request for a new version of a tariff that is refused changes nothing; one that is accepted answers the plan
-- that stands under its id afterwards, which was free: of the group that was asked for, with the number after
-- the highest one of that group, and the plan that had that one is closed. Either way each group keeps exactly one
-- plan of each version from 1 to its highest one, where it had that, the plans stood under their ids
-- and none above the sequence was taken.
pub create_tariff_version-IsVersioned :
    (now : ℕ) (q : TariffRequest) (s : Store)
    → IsVersioned s.money
    → IsVersioned (create_tariff_version now q s).1.money
      × IsNext now q s (create_tariff_version now q s)
unfolding create_tariff_version add_version
create_tariff_version-IsVersioned now q s v = elim (Outcome-cases (check_tariff q)) [
  | inl (w, e) ↦
      let p = new_plan now w.0 w.1 q s.money in
      let u = close-IsVersioned now w.0 p s.money v refl refl in
      rw (e, commit)
        (
          record { table = u.table; fresh = u.fresh; once = u.once },
          (
            check_tariff-group q w e,
            refl,
            v.fresh p.plan_id (omega arith),
            new_plan_stands now w.0 p s.money v refl,
            λ old k. previous_closed now w.0 p old s.money k,
          ),
        )
  | inr (f, e) ↦ rw (e, commit) (v, refl)
]
