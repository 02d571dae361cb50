-- ===== src/Letters.antt =====
-- Poison events and dead letters of apps/api/src/db/store.js: `quarantineOutbox`, `outboxLag`, `deadLetter`,
-- `listDeadLetters` and `resolveDeadLetter`. The kind of a letter is that of its payload, and its detail is
-- left out.
pub mod Quarantine
use package.text.Mathlib.Text.{◌==◌ as same_text}
use volt_hub_csms.Prelude.{
  ℕ, suc, ◌+◌, ◌-◌, ◌/◌, Bool, true, false, not, ◌&&◌, ◌||◌, String, List, [], ◌∷◌, ◌++◌, map,
  Option, none, some, ltb, leb, ◌==◌, nat_eq, if◌then◌else◌,
}
use volt_hub_csms.Prelude.Lists.{push, filter, find, take, length, count}
use volt_hub_csms.Prelude.Dict.{Dict, values, lookup, insert, erase}
use volt_hub_csms.Prelude.Outcome.{Outcome, ok, err, ◌>>=◌, ◌>>◌, throw_if, or_throw, commit}
use volt_hub_csms.State.{
  Store, Control, Outbox, Event, Payload, DedupeKey, key_eq, EventRef, relay_event, other_event,
  ack_event, ack_timeout_event, push_event, push_rate_event, LetterStatus, opened, replayed,
  dismissed, DeadLetter, Failure, missing, e_grid_asset_invalid, text,
}
use volt_hub_csms.Outbox.{Limits, has_key, has_id, is_pending}
use volt_hub_csms.Store.{Result, audit_log}

abbrev pub same_event : EventRef → EventRef → Bool
same_event (relay_event j) (relay_event k) = j == k
same_event (other_event a) (other_event b) = same_text a b
same_event (ack_event a) (ack_event b) = same_text a b
same_event (ack_timeout_event a) (ack_timeout_event b) = same_text a b
same_event (push_event a x) (push_event b y) = a == b && x == y
same_event (push_rate_event a x) (push_rate_event b y) = a == b && x == y
same_event _ _ = false

abbrev pub is_opened : LetterStatus → Bool
is_opened opened = true
is_opened _ = false

-- The order `byAge`: those that are not OPEN first, then by their ids.
abbrev pub goes_before : DeadLetter → DeadLetter → Bool
goes_before a b =
    if is_opened a.status && not (is_opened b.status)
    then false
    else if not (is_opened a.status) && is_opened b.status
    then true
    else leb a.letter_id b.letter_id

abbrev pub insert_by_age : DeadLetter → List DeadLetter → List DeadLetter
insert_by_age d [] = d ∷ []
insert_by_age d (x ∷ xs) =
    let rest = insert_by_age d xs in if goes_before d x then d ∷ x ∷ xs else x ∷ rest

unfoldable pub by_age : List DeadLetter → List DeadLetter
by_age [] = []
by_age (d ∷ ds) = insert_by_age d (by_age ds)

abbrev pub delete_letters : List DeadLetter → Dict ℕ DeadLetter → Dict ℕ DeadLetter
delete_letters [] m = m
delete_letters (d ∷ ds) m = delete_letters ds (erase d.letter_id m)

-- `if (s.deadLetters.size > DEAD_LETTER_CAP) …`; nothing is over the cap otherwise.
unfoldable pub shed_letters : ℕ → Dict ℕ DeadLetter → Dict ℕ DeadLetter
shed_letters cap_count m =
    let rows = values m in delete_letters (take (length rows - cap_count) (by_age rows)) m

module _ (cap_count now : ℕ) where
  abbrev pub new_letter : EventRef → String → Option Payload → Control → DeadLetter
  new_letter ref reason payload c = record {
    letter_id = suc c.letter_seq;
    event_ref = ref;
    reason_code = reason;
    payload = payload;
    first_seen_at = now;
    last_seen_at = now;
    status = opened;
  }

  -- `s.deadLetter`
  unfoldable pub dead_letter : EventRef → String → Option Payload → Control → DeadLetter × Control
  dead_letter ref reason payload c =
      let d = new_letter ref reason payload c in
      let id = d.letter_id in
      elim (find (λ x. same_event x.event_ref ref) (values c.letters)) [
        | some x ↦
            let seen = record x { last_seen_at = now } in
            (seen, record c { letters = insert x.letter_id seen c.letters })
        | none ↦ (
          d,
          record c { letter_seq = id; letters = shed_letters cap_count (insert id d c.letters) },
        )
      ]

  -- `want.has(e.event_id) || wantKeys.has(e.dedupe_key)` on an event that waits.
  abbrev pub is_wanted : List ℕ → List DedupeKey → Event → Bool
  is_wanted ids keys e = is_pending e && (has_id e.event_id ids || has_key e.dedupe_key keys)

  abbrev pub marked : String → Event → Event
  marked reason e = record e { processed_at = some now; quarantine_reason = some reason }

  -- The loop of `quarantineOutbox`: the events, the letters so far, and the tables.
  unfoldable pub quarantine :
      List ℕ
      → List DedupeKey
      → String
      → List Event
      → List DeadLetter
      → Control
      → List Event × List DeadLetter × Control
  quarantine ids keys reason [] letters c = ([], letters, c)
  quarantine ids keys reason (e ∷ es) letters c =
      let d = dead_letter (relay_event e.dedupe_key) reason (some e.payload) c in
      let named = is_wanted ids keys e in
      let rest =
        quarantine ids keys reason es (if named then push d.0 letters else letters)
          (if named then d.1 else c) in
      ((if named then marked reason e else e) ∷ rest.0, rest.1, rest.2)

  -- `s.quarantineOutbox`, with the letters.
  unfoldable pub quarantine_outbox :
      List ℕ → List DedupeKey → String → Store → List DeadLetter × Store
  quarantine_outbox ids keys reason s =
      let done = quarantine ids keys reason s.outbox.events [] s.control in
      (
        done.1,
        record s {
          control = done.2;
          outbox = record s.outbox {
            events = done.0;
            quarantined = s.outbox.quarantined + length done.1;
          };
        },
      )

-- What `outboxLag` reports of the queue.
pub record Lag : Type 0 where
  pub pending : ℕ
  pub depth : ℕ
  pub oldest_age_s : ℕ
  pub dead_letters_open : ℕ
  pub emitted : ℕ
  pub pruned : ℕ
  pub quarantined : ℕ

abbrev pub earlier : Option ℕ → ℕ → Option ℕ
earlier none t = some t
earlier (some u) t = if ltb t u then some t else some u

abbrev pub oldest : Option ℕ → List Event → Option ℕ
oldest t [] = t
oldest t (e ∷ es) = oldest (if is_pending e then earlier t e.created_at else t) es

-- `Math.max(0, Math.round((Date.now() - oldest) / 1000))`
abbrev pub age_s : ℕ → Option ℕ → ℕ
age_s now none = 0
age_s now (some t) = (now - t + 500) / 1000

-- `s.outboxLag`
abbrev pub outbox_lag : ℕ → Store → Lag
outbox_lag now s = record {
  pending = count is_pending s.outbox.events;
  depth = length s.outbox.events;
  oldest_age_s = age_s now (oldest none s.outbox.events);
  dead_letters_open = count (λ d. is_opened d.status) (values s.control.letters);
  emitted = s.outbox.emitted;
  pruned = s.outbox.pruned;
  quarantined = s.outbox.quarantined;
}

-- `action` is REPLAYED or DISMISSED; any other text is `none`.
unfoldable pub check_resolve :
    ℕ → Option LetterStatus → Control → Outcome Failure (DeadLetter × LetterStatus)
check_resolve id action c = do
  d ← or_throw (lookup id c.letters) missing
  to ← or_throw action e_grid_asset_invalid
  throw_if (is_opened to) e_grid_asset_invalid
  ok (d, to)

abbrev pub status_name : LetterStatus → String
status_name opened = "OPEN"
status_name replayed = "REPLAYED"
status_name dismissed = "DISMISSED"

-- `s.resolveDeadLetter`
unfoldable pub resolve_dead_letter :
    ℕ → ℕ → Option LetterStatus → Option ℕ → Store → Result DeadLetter
resolve_dead_letter now id action actor s =
    commit (check_resolve id action s.control)
      (λ w.
        let d = record w.0 { status = w.1; last_seen_at = now } in
        let name = status_name w.1 in
        (
          ok d,
          record s {
            control = record s.control { letters = insert d.letter_id d s.control.letters };
            trail =
                audit_log now actor "DEAD_LETTER" d.letter_id name (some (text "OPEN"))
                  (some (text name)) s.trail;
          },
        ))
      s
