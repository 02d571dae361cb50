-- ===== src/Metering/Index.antt =====
-- About the index of readings by session: `s.readingsFor` of apps/api/src/db/store.js.
use volt_hub_csms.Prelude.{
  ℕ, suc, zero, ◌≡◌, refl, List, [], ◌∷◌, ◌++◌, none, some, ◌==◌, nat_eq, sym, ap, ◌∙◌,
  if◌then◌else◌, Bool-cases, inl, inr,
}
use mathlib.Core.List.{append-nil, append_assoc}
use volt_hub_csms.Prelude.Lists.{push, filter, length, filter-append}
use volt_hub_csms.Prelude.Dict.{Dict, lookup, insert, lookup-insert}
use volt_hub_csms.State.{Reading}

-- `_readingsBySession` and `_readingsIndexed`
pub record ReadingIndex : Type 0 where
  pub by_session : Dict ℕ (List Reading)
  pub indexed : ℕ

-- `s._readingsBySession.get(k) || []`
abbrev pub rows_at : ℕ → Dict ℕ (List Reading) → List Reading
rows_at k m = elim (lookup k m) [ none ↦ [] | some rs ↦ rs ]

-- `readings` from an index on
abbrev pub drop : ℕ → List Reading → List Reading
drop zero rs = rs
drop (suc n) [] = []
drop (suc n) (r ∷ rs) = drop n rs

-- The loop over the readings that are not in the index.
unfoldable pub index_readings : List Reading → Dict ℕ (List Reading) → Dict ℕ (List Reading)
index_readings [] m = m
index_readings (r ∷ rs) m =
    index_readings rs (insert r.session_id (push r (rows_at r.session_id m)) m)

-- `s.readingsFor`, with the index that it leaves.
unfoldable pub readings_for : ℕ → List Reading → ReadingIndex → List Reading × ReadingIndex
readings_for sid readings i =
    let m = index_readings (drop i.indexed readings) i.by_session in
    (rows_at sid m, record { by_session = m; indexed = length readings })

-- The readings of a session, by a search.
abbrev pub of_session : ℕ → List Reading → List Reading
of_session sid = filter (λ r. r.session_id == sid)

rows_after :
    (k sid : ℕ) (r : Reading) (m : Dict ℕ (List Reading))
    → rows_at sid (insert k (push r (rows_at k m)) m)
      ≡ (if k == sid then push r (rows_at sid m) else rows_at sid m)
rows_after k sid r m = elim (Bool-cases (k == sid)) [
  | inl same ↦
      rw (lookup-insert k sid (push r (rows_at k m)) m, rows_at)
        (rw (same, rows_at) (ap (λ n. push r (rows_at n m)) ((nat_eq.same_iff k sid).0 same)))
  | inr other ↦
      rw (lookup-insert k sid (push r (rows_at k m)) m, rows_at) (rw (other, rows_at) refl)
]

joined :
    (r : Reading) (sid : ℕ) (xs rs : List Reading)
    → (if r.session_id == sid then push r xs else xs) ++ of_session sid rs
      ≡ xs ++ of_session sid (r ∷ rs)
joined r sid xs rs = elim (Bool-cases (r.session_id == sid)) [
  | inl same ↦ rw same (append_assoc xs (r ∷ []) (of_session sid rs))
  | inr other ↦ rw other refl
]

index_readings-rows :
    (sid : ℕ) (rs : List Reading) (m : Dict ℕ (List Reading))
    → rows_at sid (index_readings rs m) ≡ rows_at sid m ++ of_session sid rs
unfolding index_readings
index_readings-rows sid [] m = sym (append-nil (rows_at sid m))
index_readings-rows sid (r ∷ rs) m =
    let old = rows_at r.session_id m in
    index_readings-rows sid rs (insert r.session_id (push r old) m)
    ∙ ap (λ xs. xs ++ of_session sid rs) (rows_after r.session_id sid r m)
    ∙ joined r sid (rows_at sid m) rs

-- The index holds what a search finds in the readings that it has seen, and it has seen the first of them.
abbrev pub IsIndex : List Reading → ReadingIndex → Type 0
IsIndex seen i =
    (i.indexed ≡ length seen) × ((sid : ℕ) → rows_at sid i.by_session ≡ of_session sid seen)

drop-append : (xs ys : List Reading) → drop (length xs) (xs ++ ys) ≡ ys
drop-append [] ys = refl
drop-append (x ∷ xs) ys = drop-append xs ys

-- What the index answers for a session is what a search through all the readings finds, in their order,
-- and the index is right for all of them afterwards, where it was right for those that were there when it
-- was last asked and readings were only added since.
pub readings_for-eq-of_session :
    (sid : ℕ) (old new : List Reading) (i : ReadingIndex)
    → IsIndex old i
    → ((readings_for sid (old ++ new) i).0 ≡ of_session sid (old ++ new))
      × IsIndex (old ++ new) (readings_for sid (old ++ new) i).1
unfolding readings_for
readings_for-eq-of_session sid old new i h =
    let rest : drop i.indexed (old ++ new) ≡ new =
      ap (λ n. drop n (old ++ new)) h.0 ∙ drop-append old new in
    let all : (k : ℕ)
        → rows_at k (index_readings (drop i.indexed (old ++ new)) i.by_session)
          ≡ of_session k (old ++ new) =
      (λ k.
        index_readings-rows k (drop i.indexed (old ++ new)) i.by_session
        ∙ ap (λ rs. rows_at k i.by_session ++ of_session k rs) rest
        ∙ ap (λ rs. rs ++ of_session k new) (h.1 k)
        ∙ sym (filter-append (λ r. r.session_id == k) old new)) in
    (all sid, (refl, all))
