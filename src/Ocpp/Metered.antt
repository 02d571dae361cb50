-- ===== src/Ocpp/Metered.antt =====
-- About the sequence numbers of meter frames, in apps/api/src/ocpp/gateway.js and the store's
-- `recordTick`.
use volt_hub_csms.Prelude.{
  ℕ, suc, ◌<◌, ◌≤◌, ◌≡◌, refl, ◌∙◌, true, false, List, [], ◌∷◌, Option, none, some, arith, ltb,
  ◌==◌, ◌&&◌, nat_eq, if◌then◌else◌, inl, inr, Option-cases,
}
use volt_hub_csms.Prelude.Int.{ltb_ℤ, ◌-ℤ◌}
use volt_hub_csms.Prelude.Decimal.{Decimal, thousandths}
use volt_hub_csms.Prelude.Lists.{any, push}
use volt_hub_csms.Prelude.Dict.{lookup}
use volt_hub_csms.Prelude.Outcome.{ok, commit}
use volt_hub_csms.State.{Store, Session, Reading, is_active}
use volt_hub_csms.Outbox.{Limits}
use volt_hub_csms.Metering.{
  TickRequest, record_tick, check_tick, add_reading, last_of, seen_of, recorded,
}
use volt_hub_csms.Metering.Replay.{is_reading, IsMetered}
use volt_hub_csms.Control.{record_enforcement_tick}
use volt_hub_csms.Ocpp.Calls.{enforcement_sample}
use volt_hub_csms.Ocpp.Reports.{done}
use volt_hub_csms.Ocpp.Meters.{
  World, energy_sample, cursor_of, max_seq, meter, meter_values, sampled,
}

max_seq-le : (from sid : ℕ) (rs : List Reading) → from ≤ max_seq from sid rs
unfolding max_seq
max_seq-le from sid [] = omega arith
max_seq-le from sid (r ∷ rs) =
    ground (
      arith,
      max_seq-le (if r.session_id == sid && ltb from r.seq_no then r.seq_no else from) sid rs,
    )

-- Above the largest number of a session there is no reading of it.
max_seq_free :
    (from sid n : ℕ) (rs : List Reading)
    → max_seq from sid rs < n
    → any (is_reading sid n) rs ≡ false
unfolding max_seq
max_seq_free from sid n [] h = refl
max_seq_free from sid n (r ∷ rs) h =
    let next = if r.session_id == sid && ltb from r.seq_no then r.seq_no else from in
    ground (arith, max_seq_free next sid n rs, max_seq-le next sid rs)

-- The number that the gateway holds for a session is not below that of any of its readings.
abbrev pub IsAhead : World → Type 0
IsAhead w =
    (sid n m : ℕ)
    → lookup sid w.cursors ≡ some n
    → n < m
    → any (is_reading sid m) w.store.charging.readings ≡ false

cursor_of_free :
    (sid : ℕ) (w : World)
    → IsAhead w
    → any (is_reading sid (suc (cursor_of sid w))) w.store.charging.readings ≡ false
cursor_of_free sid w ahead = elim (Option-cases (lookup sid w.cursors)) [
  | inl gone ↦
      rw (gone, cursor_of)
        (max_seq_free 0 sid (suc (max_seq 0 sid w.store.charging.readings))
          w.store.charging.readings (omega arith))
  | inr (n, there) ↦ rw (there, cursor_of) (ahead sid n (suc n) there (omega arith))
]

module _ (l : Limits) (now : ℕ) where
  pub sampled-charging :
      (cp sid : ℕ) (power : Option Decimal) (s : Store)
      → (sampled l now cp sid power s).charging ≡ s.charging
  unfolding enforcement_sample record_enforcement_tick
  sampled-charging cp sid power s = ground arith

  -- A tick that is active, not seen and whose register does not fall back is taken.
  record_tick_taken :
      (q : TickRequest) (register : Decimal) (s : Store) (x : Session)
      → check_tick q s.charging ≡ ok (x, register)
      → any (λ n. n == q.seq) (seen_of q.sid s.charging) ≡ false
      → ltb_ℤ register (last_of q.sid s.charging -ℤ thousandths 1) ≡ false
      → ((record_tick l now q s).0 ≡ ok recorded)
        × ((record_tick l now q s).1.charging ≡ add_reading now q register x s.charging)
  unfolding record_tick
  record_tick_taken q register s x c n r = rw (c, commit) (rw n (rw r (refl, refl)))

  -- Where the index of sequence numbers is right and the gateway's numbers are ahead of the readings, or
  -- unknown after a restart, a frame with a register from the charge point of an active session, not
  -- below the last one by more than 0.001 kWh, is recorded as one more reading.
  pub meter_values_recorded :
      (cp sid : ℕ) (register : Decimal) (power : Option Decimal) (w : World) (x : Session)
      → IsMetered w.store.charging
      → IsAhead w
      → lookup sid w.store.charging.sessions ≡ some x
      → x.connector_ref.cp_id ≡ cp
      → is_active x.state ≡ true
      → ltb_ℤ register (last_of sid w.store.charging -ℤ thousandths 1) ≡ false
      → ((meter_values l now cp (some sid) (energy_sample (some register) power) w).0 ≡ done)
        × ((meter_values l now cp
              (some sid)
              (energy_sample (some register) power)
              w).1.store.charging.readings
            ≡ push
                (record {
                  session_id = sid;
                  seq_no = suc (cursor_of sid w);
                  taken_at = now;
                  meter_kwh = register;
                  power_kw = power;
                  voltage_v = none;
                  current_a = none;
                })
                w.store.charging.readings)
  unfolding meter_values meter check_tick add_reading
  meter_values_recorded cp sid register power w x v a there own active high =
      let q : TickRequest = record {
        sid = sid;
        seq = suc (cursor_of sid w);
        at = some now;
        kwh = some register;
        kw = power;
        v = none;
        a = none;
      } in
      let taken =
        record_tick_taken q register w.store x (ground (arith, there, active))
          (v sid (suc (cursor_of sid w)) ∙ cursor_of_free sid w a) high in
      ground (
        arith,
        there,
        own,
        taken.0,
        taken.1,
        sampled-charging cp sid power (record_tick l now q w.store).1,
      )
