-- ===== src/Ocpp/Correlated.antt =====
-- About the answers to the calls of the CSMS: `handleCsmsResult` of apps/api/src/ocpp/gateway.js.
use volt_hub_csms.Prelude.{
  ℕ, ◌≡◌, refl, subst, ap, ◌∙◌, true, false, String, List, [], ◌∷◌, Option, none, some, arith,
  nat_eq, text_comparable, if◌then◌else◌,
}
use volt_hub_csms.Prelude.Dict.{Dict, lookup, erase}
use volt_hub_csms.Prelude.Table.{IsMap, lookup-erase, erase-IsMap}
use volt_hub_csms.State.{Store, Ack}
use volt_hub_csms.Ocpp.Calls.{
  Pending, Calls, Answer, Peer, Handled, unknown, handled, settle_call, settlement_of, correlate,
  answer_call, handle_csms_result, is_foreign, Settlement,
}

pub settle_call_pending :
    (uid : String) (x : Option Settlement) (c : Calls) → (settle_call uid x c).pending ≡ c.pending
settle_call_pending uid none c = refl
settle_call_pending uid (some x) c = refl

module _ (upper : String → String) (cap_count now : ℕ) where
  correlate_pending :
      (key : String) (p : Pending) (a : Answer) (w : Calls × Store)
      → (correlate upper cap_count now key p a w).1.pending ≡ erase key w.0.pending
  unfolding correlate
  correlate_pending key p a (c, s) = settle_call_pending key (settlement_of p a) _

  -- The pending calls after an answer: as before, or without the call that was answered.
  abbrev left_pending : String → Peer → Option Pending → Dict String Pending → Dict String Pending
  left_pending key from none m = m
  left_pending key from (some p) m = if is_foreign p from then m else erase key m

  answer_call_pending :
      (key : String) (a : Answer) (from : Peer) (o : Option Pending) (w : Calls × Store)
      → (answer_call upper cap_count now key a from o w).1.pending
        ≡ left_pending key from o w.0.pending
  unfolding answer_call
  answer_call_pending key a from none (c, s) = refl
  answer_call_pending key a from (some p) (c, s) = ground (arith, correlate_pending key p a (c, s))

  handle_pending :
      (key : String) (a : Answer) (from : Peer) (w : Calls × Store)
      → (handle_csms_result upper cap_count now key a from w).1.pending
        ≡ left_pending key from (lookup key w.0.pending) w.0.pending
  unfolding handle_csms_result
  handle_pending key a from w = answer_call_pending key a from (lookup key w.0.pending) w

  left_pending-IsMap :
      (key : String) (from : Peer) (o : Option Pending) (m : Dict String Pending)
      → IsMap m
      → IsMap (left_pending key from o m)
  left_pending-IsMap key from none m h = h
  left_pending-IsMap key from (some p) m h =
      elim (is_foreign p from) as (λ b. IsMap (if b then m else erase key m)) [
        | true ↦ h
        | false ↦ erase-IsMap key m h
      ]

  pub handle-IsMap :
      (key : String) (a : Answer) (from : Peer) (w : Calls × Store)
      → IsMap w.0.pending
      → IsMap (handle_csms_result upper cap_count now key a from w).1.pending
  handle-IsMap key a from w h =
      rw (handle_pending key a from w)
        (left_pending-IsMap key from (lookup key w.0.pending) w.0.pending h)

  -- An answer to another call, or from another charge point, leaves a call pending.
  left_pending_keeps :
      (uid key : String) (from : Peer) (o : Option Pending) (p : Pending) (m : Dict String Pending)
      → IsMap m
      → lookup key m ≡ o
      → lookup uid m ≡ some p
      → is_foreign p from ≡ true
      → lookup uid (left_pending key from o m) ≡ some p
  left_pending_keeps uid key from none p m h e k f = k
  left_pending_keeps uid key from (some r) p m h e k f =
      ground (arith, lookup-erase key uid m h, text_comparable.same_iff key uid)

-- A sequence of answers, each with its time, its uid and the socket that it came from.
abbrev pub Answers : Type 0
Answers = List (ℕ × String × Answer × Peer)

module _ (upper : String → String) (cap_count : ℕ) where
  abbrev pub take_answers : Answers → Calls × Store → Calls × Store
  take_answers [] w = w
  take_answers ((t, key, a, from) ∷ rest) w =
      let done = handle_csms_result upper cap_count t key a from w in
      take_answers rest (done.1, done.2)

  abbrev pub AllForeign : Pending → Answers → Type 0
  AllForeign p [] = Unit
  AllForeign p ((t, key, a, from) ∷ rest) = (is_foreign p from ≡ true) × AllForeign p rest

  -- Where no uid is pending twice: however many answers come in, under whatever uids, while all of them
  -- come from sockets of other charge points than the one that a pending call was sent to, the call
  -- stays pending, unchanged.
  pub forged_answers :
      (uid : String) (p : Pending) (forged : Answers) (w : Calls × Store)
      → IsMap w.0.pending
      → AllForeign p forged
      → lookup uid w.0.pending ≡ some p
      → lookup uid (take_answers forged w).0.pending ≡ some p
  forged_answers uid p [] w m f h = h
  forged_answers uid p ((t, key, a, from) ∷ rest) w m f h =
      let done = handle_csms_result upper cap_count t key a from w in
      forged_answers uid p rest (done.1, done.2) (handle-IsMap upper cap_count t key a from w m) f.1
        (rw (handle_pending upper cap_count t key a from w) (
          left_pending_keeps upper cap_count t uid key from (lookup key w.0.pending) p w.0.pending m
            refl h f.0))

  left_pending-none :
      (uid key : String) (from : Peer) (o : Option Pending) (m : Dict String Pending)
      → IsMap m
      → lookup uid m ≡ none
      → lookup uid (left_pending upper cap_count 0 key from o m) ≡ none
  left_pending-none uid key from none m h k = k
  left_pending-none uid key from (some r) m h k = ground (arith, lookup-erase key uid m h)

  settled_stays :
      (uid : String) (later : Answers) (w : Calls × Store)
      → IsMap w.0.pending
      → lookup uid w.0.pending ≡ none
      → lookup uid (take_answers later w).0.pending ≡ none
  settled_stays uid [] w m h = h
  settled_stays uid ((t, key, a, from) ∷ rest) w m h =
      let done = handle_csms_result upper cap_count t key a from w in
      settled_stays uid rest (done.1, done.2) (handle-IsMap upper cap_count t key a from w m)
        (rw (handle_pending upper cap_count t key a from w)
          (left_pending-none uid key from (lookup key w.0.pending) w.0.pending m h))

  answer_call_handled :
      (now : ℕ) (uid : String) (a : Answer) (from : Peer) (ack : Ack) (o : Option Pending)
      (w : Calls × Store)
      → IsMap w.0.pending
      → (answer_call upper cap_count now uid a from o w).0 ≡ handled ack
      → lookup uid (answer_call upper cap_count now uid a from o w).1.pending ≡ none
  unfolding answer_call
  answer_call_handled now uid a from ack none (c, s) m h = cc
  answer_call_handled now uid a from ack (some p) (c, s) m h = ground (
    arith,
    correlate_pending upper cap_count now uid p a (c, s),
    lookup-erase uid uid c.pending m,
    text_comparable.same_iff uid uid,
  )

  answer_call_unknown :
      (now : ℕ) (uid : String) (a : Answer) (from : Peer) (w : Calls × Store)
      → lookup uid w.0.pending ≡ none
      → ((handle_csms_result upper cap_count now uid a from w).0 ≡ unknown)
        × ((handle_csms_result upper cap_count now uid a from w).2 ≡ w.1)
        × ((handle_csms_result upper cap_count now uid a from w).1.settled ≡ w.0.settled)
  unfolding handle_csms_result answer_call
  answer_call_unknown now uid a from (c, s) h = rw (h, answer_call) (refl, refl, refl)

  -- Where no uid is pending twice: once an answer to a call was taken, every later answer under the same uid is unknown and changes neither
  -- the store nor what the sender was told, whatever answers came between.
  pub answered_once :
      (now later : ℕ) (uid : String) (a b : Answer) (from other : Peer) (ack : Ack)
      (between : Answers) (w w' : Calls × Store) (r : Handled × Calls × Store)
      → IsMap w.0.pending
      → handle_csms_result upper cap_count now uid a from w ≡ r
      → r.0 ≡ handled ack
      → w' ≡ take_answers between (r.1, r.2)
      → ((handle_csms_result upper cap_count later uid b other w').0 ≡ unknown)
        × ((handle_csms_result upper cap_count later uid b other w').2 ≡ w'.1)
        × ((handle_csms_result upper cap_count later uid b other w').1.settled ≡ w'.0.settled)
  unfolding handle_csms_result
  answered_once now later uid a b from other ack between w w' r m e h k =
      answer_call_unknown later uid b other w' (
        rw k (
          settled_stays uid between (r.1, r.2)
            (subst (λ x. IsMap x.1.pending) e (handle-IsMap upper cap_count now uid a from w m))
            (subst (λ x. lookup uid x.1.pending ≡ none) e
              (answer_call_handled now uid a from ack (lookup uid w.0.pending) w m
                (ap (λ x. x.0) e ∙ h)))))
