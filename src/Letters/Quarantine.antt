-- ===== src/Letters/Quarantine.antt =====
-- About `quarantineOutbox` of apps/api/src/db/store.js.
use volt_hub_csms.Prelude.{
  ℕ, suc, ◌+◌, ◌≡◌, refl, sym, ap, ◌∙◌, not, String, List, [], ◌∷◌, arith, nat_eq, Bool-cases, inl,
  inr, some,
}
use volt_hub_csms.Prelude.Lists.{push, filter, length, any}
use volt_hub_csms.State.{Store, Control, Event, DedupeKey, key_eq, DeadLetter, relay_event}
use volt_hub_csms.Outbox.Index.{IsIndexed, DistinctKeys, holds_key}
use volt_hub_csms.Outbox.Emission.{waiting}
use volt_hub_csms.Letters.{is_wanted, quarantine, quarantine_outbox, dead_letter}

module _ (cap_count now : ℕ) (ids : List ℕ) (keys : List DedupeKey) (reason : String) where
  waiting-quarantine :
      (es : List Event) (letters : List DeadLetter) (c : Control)
      → waiting (quarantine cap_count now ids keys reason es letters c).0
        ≡ filter (λ e. not (is_wanted cap_count now ids keys e)) (waiting es)
  unfolding quarantine
  waiting-quarantine [] letters c = refl
  waiting-quarantine (e ∷ es) letters c =
      let d = dead_letter cap_count now (relay_event e.dedupe_key) reason (some e.payload) c in
      elim (Bool-cases (is_wanted cap_count now ids keys e)) [
        | inl named ↦ ground (arith, named, waiting-quarantine es (push d.0 letters) d.1)
        | inr other ↦ ground (arith, other, waiting-quarantine es letters c)
      ]

  length-quarantine :
      (es : List Event) (letters : List DeadLetter) (c : Control)
      → length (quarantine cap_count now ids keys reason es letters c).0 ≡ length es
  unfolding quarantine
  length-quarantine [] letters c = refl
  length-quarantine (e ∷ es) letters c = ap suc (length-quarantine es _ _)

  any-quarantine :
      (k : DedupeKey) (es : List Event) (letters : List DeadLetter) (c : Control)
      → any (holds_key k) (quarantine cap_count now ids keys reason es letters c).0
        ≡ any (holds_key k) es
  unfolding quarantine
  any-quarantine k [] letters c = refl
  any-quarantine k (e ∷ es) letters c =
      let d = dead_letter cap_count now (relay_event e.dedupe_key) reason (some e.payload) c in
      elim (Bool-cases (is_wanted cap_count now ids keys e)) [
        | inl named ↦ ground (arith, named, any-quarantine k es (push d.0 letters) d.1)
        | inr other ↦ ground (arith, other, any-quarantine k es letters c)
      ]

  quarantine-DistinctKeys :
      (es : List Event) (letters : List DeadLetter) (c : Control)
      → DistinctKeys es
      → DistinctKeys (quarantine cap_count now ids keys reason es letters c).0
  unfolding quarantine
  quarantine-DistinctKeys [] letters c v = tt
  quarantine-DistinctKeys (e ∷ es) letters c v =
      let d = dead_letter cap_count now (relay_event e.dedupe_key) reason (some e.payload) c in
      elim (Bool-cases (is_wanted cap_count now ids keys e)) [
        | inl named ↦ rw named (
          any-quarantine e.dedupe_key es (push d.0 letters) d.1 ∙ v.0,
          quarantine-DistinctKeys es (push d.0 letters) d.1 v.1,
        )
        | inr other ↦ rw other (
          any-quarantine e.dedupe_key es letters c ∙ v.0,
          quarantine-DistinctKeys es letters c v.1,
        )
      ]

  -- In a queue whose dedupe index is right, quarantining takes from the events that wait exactly
  -- those that are named by id or key, keeps the others in order, loses no event, and leaves the
  -- index right.
  pub waiting-quarantine_outbox :
      (s : Store)
      → IsIndexed s.outbox
      → let after = (quarantine_outbox cap_count now ids keys reason s).1 in
        (waiting after.outbox.events
          ≡ filter (λ e. not (is_wanted cap_count now ids keys e)) (waiting s.outbox.events))
        × (length after.outbox.events ≡ length s.outbox.events)
        × IsIndexed after.outbox
  unfolding quarantine_outbox
  waiting-quarantine_outbox s v =
      let es = s.outbox.events in
      (
        waiting-quarantine es [] s.control,
        length-quarantine es [] s.control,
        record {
          agrees = λ k. v.agrees k ∙ sym (any-quarantine k es [] s.control);
          distinct = quarantine-DistinctKeys es [] s.control v.distinct;
          accounted =
              v.accounted ∙ ap (λ n. s.outbox.pruned + n) (sym (length-quarantine es [] s.control));
        },
      )
