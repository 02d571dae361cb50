-- ===== src/Metering/Replay.antt =====
-- About the index of sequence numbers: `recordTick` of apps/api/src/db/store.js.
use volt_hub_csms.Prelude.{
  ℕ, ◌≡◌, refl, sym, ap, ◌∙◌, Bool, true, ◌&&◌, ◌||◌, List, [], ◌∷◌, map, none, some, arith, ◌==◌,
  nat_eq, Bool-cases, Option-cases, inl, inr, if◌then◌else◌,
}
use volt_hub_csms.Prelude.Lists.{push, any, filter, any-append}
use volt_hub_csms.Prelude.Int.{ltb_ℤ, ◌-ℤ◌}
use volt_hub_csms.Prelude.Decimal.{Decimal, thousandths}
use volt_hub_csms.Prelude.Dict.{lookup, insert, lookup-insert, lookup-insert_self}
use volt_hub_csms.Prelude.Table.{IsTable, lookup-id}
use volt_hub_csms.Prelude.Outcome.{ok, commit, Outcome-cases}
use volt_hub_csms.State.{Store, Charging, Session, Reading, SessionState, is_active}
use volt_hub_csms.Outbox.{Limits}
use volt_hub_csms.Metering.{
  seen_of, last_of, recorded, deduped, TickRequest, or_now, after_tick, add_reading, check_tick,
  cache_seen, record_tick,
}

abbrev pub is_seen : ℕ → ℕ → Charging → Bool
is_seen sid n ch = any (λ m. m == n) (seen_of sid ch)

abbrev pub is_reading : ℕ → ℕ → Reading → Bool
is_reading sid n r = r.session_id == sid && r.seq_no == n

-- The index says that a number was seen exactly if there is a reading of the session with this number.
abbrev pub IsMetered : Charging → Type 0
IsMetered ch = (sid n : ℕ) → is_seen sid n ch ≡ any (is_reading sid n) ch.readings

cache_seen-IsMetered : (sid : ℕ) (ch : Charging) → IsMetered ch → IsMetered (cache_seen sid ch)
cache_seen-IsMetered sid ch v i n = elim (Bool-cases (sid == i)) [
  | inl same ↦
      let e : sid ≡ i = (nat_eq.same_iff sid i).0 same in
      rw (lookup-insert sid i (seen_of sid ch) ch.seq_seen, same, seen_of)
        (ap (λ j. is_seen j n ch) e ∙ v i n)
  | inr other ↦ rw (lookup-insert sid i (seen_of sid ch) ch.seq_seen, other, seen_of) (v i n)
]

any-readings :
    (sid n : ℕ) (rs : List Reading)
    → any (λ m. m == n) (map (λ r. r.seq_no) (filter (λ r. r.session_id == sid) rs))
      ≡ any (is_reading sid n) rs
any-readings sid n [] = refl
any-readings sid n (r ∷ rs) = ground (arith, any-readings sid n rs)

unindexed_lem :
    (sid n : ℕ) (ch : Charging)
    → lookup sid ch.seq_seen ≡ none
    → is_seen sid n ch ≡ any (is_reading sid n) ch.readings
unindexed_lem sid n ch gone = rw (gone, seen_of) (any-readings sid n ch.readings)

indexed_lem :
    (sid n : ℕ) (ch : Charging) (seen : List ℕ)
    → lookup sid ch.seq_seen ≡ some seen
    → is_seen sid n ch ≡ any (λ m. m == n) seen
indexed_lem sid n ch seen there = rw (there, seen_of) refl

abbrev reading_of : ℕ → TickRequest → Decimal → Reading
reading_of now q register = record {
  session_id = q.sid;
  seq_no = q.seq;
  taken_at = or_now q.at now;
  meter_kwh = register;
  power_kw = q.kw;
  voltage_v = q.v;
  current_a = q.a;
}

add_reading-readings :
    (now : ℕ) (q : TickRequest) (register : Decimal) (x : Session) (ch : Charging)
    → (add_reading now q register x ch).readings ≡ push (reading_of now q register) ch.readings
unfolding add_reading
add_reading-readings now q register x ch = refl

add_reading-seq_seen :
    (now : ℕ) (q : TickRequest) (register : Decimal) (x : Session) (ch : Charging)
    → (add_reading now q register x ch).seq_seen
      ≡ insert q.sid (push q.seq (seen_of q.sid ch)) ch.seq_seen
unfolding add_reading
add_reading-seq_seen now q register x ch = refl

any-readings_push :
    (sid n now : ℕ) (q : TickRequest) (register : Decimal) (rs : List Reading)
    → any (is_reading sid n) (push (reading_of now q register) rs)
      ≡ (any (is_reading sid n) rs || (q.sid == sid && q.seq == n))
any-readings_push sid n now q register [] = ground arith
any-readings_push sid n now q register (r ∷ rs) =
    ground (arith, any-readings_push sid n now q register rs)

add_reading-IsMetered :
    (now : ℕ) (q : TickRequest) (register : Decimal) (x : Session) (ch : Charging)
    → IsMetered ch
    → IsMetered (add_reading now q register x ch)
add_reading-IsMetered now q register x ch v i n =
    let after = add_reading now q register x ch in
    let seen = push q.seq (seen_of q.sid ch) in
    let index : lookup i after.seq_seen ≡ (if q.sid == i then some seen else lookup i ch.seq_seen) =
      ap (lookup i) (add_reading-seq_seen now q register x ch)
      ∙ lookup-insert q.sid i seen ch.seq_seen in
    let rows : any (is_reading i n) after.readings
        ≡ (any (is_reading i n) ch.readings || (q.sid == i && q.seq == n)) =
      ap (any (is_reading i n)) (add_reading-readings now q register x ch)
      ∙ any-readings_push i n now q register ch.readings in
    elim (Bool-cases (q.sid == i)) [
      | inl same ↦
          let e : q.sid ≡ i = (nat_eq.same_iff q.sid i).0 same in
          let old : any (λ m. m == n) (seen_of q.sid ch) ≡ any (is_reading i n) ch.readings =
            v q.sid n ∙ ap (λ j. any (is_reading j n) ch.readings) e in
          indexed_lem i n after seen (ground (arith, index, same))
          ∙ any-append (λ m. m == n) (seen_of q.sid ch) (q.seq ∷ [])
          ∙ ground (arith, old, rows, same)
      | inr other ↦ elim (Option-cases (lookup i ch.seq_seen)) [
        | inl gone ↦ unindexed_lem i n after (ground (arith, index, other, gone))
        | inr (old, there) ↦
            indexed_lem i n after old (ground (arith, index, other, there))
            ∙ sym (indexed_lem i n ch old there)
            ∙ v i n
            ∙ ground (arith, rows, other)
      ]
    ]

-- A tick is recorded, answered as known, or refused, and in each case the index of sequence numbers keeps
-- saying exactly which readings there are, whether or not it was filled before.
pub record_tick-IsMetered :
    (l : Limits) (now : ℕ) (q : TickRequest) (s : Store)
    → IsMetered s.charging
    → IsMetered (record_tick l now q s).1.charging
unfolding record_tick
record_tick-IsMetered l now q s v = elim (Outcome-cases (check_tick q s.charging)) [
  | inr (f, e) ↦ rw (e, commit) v
  | inl (w, e) ↦
      let cached = cache_seen-IsMetered q.sid s.charging v in
      elim (Bool-cases (is_seen q.sid q.seq s.charging)) [
        | inl known ↦ rw (e, commit, known) cached
        | inr new ↦ elim (Bool-cases (ltb_ℤ w.1 (last_of q.sid s.charging -ℤ thousandths 1))) [
          | inl back ↦ rw (e, commit, new, back) cached
          | inr up ↦ rw (e, commit, new, up) (add_reading-IsMetered now q w.1 w.0 s.charging v)
        ]
      ]
]

record_tick_taken :
    (l : Limits) (now : ℕ) (q : TickRequest) (s : Store)
    → (record_tick l now q s).0 ≡ ok recorded
    → (x : Session) × (register : Decimal) × (lookup q.sid s.charging.sessions ≡ some x)
      × (is_active x.state ≡ true)
      × ((record_tick l now q s).1.charging ≡ add_reading now q register x s.charging)
unfolding record_tick check_tick
record_tick_taken l now q s e = elim (Option-cases (lookup q.sid s.charging.sessions)) [
  | inl gone ↦ absurd (ground (arith, gone, e))
  | inr (x, there) ↦ elim (Option-cases q.kwh) [
    | inl bad ↦ absurd (ground (arith, there, bad, e))
    | inr (register, given) ↦
        let (live, same) = live_lem x register there given in (x, register, there, live, same)
  ]
]
  where
    live_lem :
        (x : Session) (register : Decimal)
        → lookup q.sid s.charging.sessions ≡ some x
        → q.kwh ≡ some register
        → (is_active x.state ≡ true)
          × ((record_tick l now q s).1.charging ≡ add_reading now q register x s.charging)
    live_lem x register there given = ground (arith, there, given, e)

known_tick :
    (l : Limits) (now : ℕ) (q : TickRequest) (s : Store) (x : Session) (register : Decimal)
    → lookup q.sid s.charging.sessions ≡ some x
    → is_active x.state ≡ true
    → q.kwh ≡ some register
    → is_seen q.sid q.seq s.charging ≡ true
    → record_tick l now q s ≡ (ok deduped, record s { charging = cache_seen q.sid s.charging })
unfolding record_tick check_tick
known_tick l now q s x register there live given seen =
    rw (there, live, given, commit, seen, record_tick) refl

after_tick-is_active :
    (st : SessionState) (n : ℕ) → is_active st ≡ true → is_active (after_tick st n) ≡ true
after_tick-is_active st n h = ground (arith, h)

added_session :
    (now : ℕ) (q : TickRequest) (register : Decimal) (x : Session) (ch : Charging)
    → x.session_id ≡ q.sid
    → lookup q.sid (add_reading now q register x ch).sessions
      ≡ some (record x { state = after_tick x.state q.seq })
unfolding add_reading
added_session now q register x ch named =
    let y : Session = record x { state = after_tick x.state q.seq } in
    ap (λ n. lookup n (insert x.session_id y ch.sessions)) (sym named)
    ∙ lookup-insert_self x.session_id y ch.sessions

added_seen :
    (now : ℕ) (q : TickRequest) (register : Decimal) (x : Session) (ch : Charging)
    → is_seen q.sid q.seq (add_reading now q register x ch) ≡ true
added_seen now q register x ch =
    let seen = push q.seq (seen_of q.sid ch) in
    let after = add_reading now q register x ch in
    indexed_lem q.sid q.seq after seen (
      ap (lookup q.sid) (add_reading-seq_seen now q register x ch)
      ∙ lookup-insert_self q.sid seen ch.seq_seen)
    ∙ ground (
      arith,
      any-append (λ m. m == q.seq) (seen_of q.sid ch) (q.seq ∷ []),
      nat_eq.same_iff q.seq q.seq,
    )

-- A tick that was recorded is answered as known when it comes again, at any later time and with any finite
-- register, and neither a reading, a telemetry row nor an outbox event is added; sessions stand under
-- their ids.
pub record_tick_twice :
    (l : Limits) (now later : ℕ) (q r : TickRequest) (register : Decimal) (s : Store)
    → IsTable (λ (x : Session). x.session_id) s.charging.sessions
    → (record_tick l now q s).0 ≡ ok recorded
    → r.sid ≡ q.sid
    → r.seq ≡ q.seq
    → r.kwh ≡ some register
    → let after = (record_tick l now q s).1 in
      let second = record_tick l later r after in
      (second.0 ≡ ok deduped)
      × (second.1.charging.readings ≡ after.charging.readings)
      × (second.1.charging.ticks ≡ after.charging.ticks)
      × (second.1.outbox ≡ after.outbox)
record_tick_twice l now later q r register s t e same_sid same_seq given =
    let (x, taken, there, live, charged) = record_tick_taken l now q s e in
    let after = (record_tick l now q s).1 in
    let named = lookup-id (λ (y : Session). y.session_id) q.sid x s.charging.sessions t there in
    let y = record x { state = after_tick x.state q.seq } in
    let row : lookup r.sid after.charging.sessions ≡ some y =
      rw (same_sid, charged) (added_session now q taken x s.charging named) in
    let seen : is_seen r.sid r.seq after.charging ≡ true =
      rw (same_sid, same_seq, charged) (added_seen now q taken x s.charging) in
    let again =
      known_tick l later r after y register row (after_tick-is_active x.state q.seq live) given
        seen in
    rw again (refl, refl, refl, refl)
