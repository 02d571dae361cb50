-- ===== src/Ocpp/Messages.antt =====
-- The frames of packages/ocpp-messages/src/index.js: `call`, `result`, `callError` and `parse`. What `JSON.stringify`
-- writes and `JSON.parse` reads is given by two functions; `parse_json` is `none` where the latter throws.
use volt_hub_csms.Prelude.{
  ℕ, ◌≡◌, refl, Bool, false, ◌&&◌, String, Option, none, some, arith, if◌then◌else◌, ◌==◌, nat_eq,
  text_comparable,
}
use volt_hub_csms.Prelude.Int.{pos, pos_part, neg_part}
use volt_hub_csms.Prelude.Decimal.{Decimal, whole}
use volt_hub_csms.Prelude.Outcome.{Outcome, ok, err, ◌>>=◌, or_throw}

-- JSON values.
mutual
  pub data Json : Type 0 where
    null : Json
    bool : Bool → Json
    num : Decimal → Json
    str : String → Json
    arr : Items → Json
    obj : Fields → Json

  pub data Items : Type 0 where
    nil : Items
    cons : Json → Items → Items

  pub data Fields : Type 0 where
    end : Fields
    field : String → Json → Fields → Fields

abbrev pub same_number : Decimal → Decimal → Bool
same_number a b = pos_part a == pos_part b && neg_part a == neg_part b

-- `j || {}`
abbrev pub or_object : Json → Json
or_object null = obj end
or_object (bool b) = if b then bool b else obj end
or_object (num n) = if same_number n (pos 0) then obj end else num n
or_object (str s) = if s == "" then obj end else str s
or_object (arr xs) = arr xs
or_object (obj fs) = obj fs

-- What `parse` returns. An element that is missing is `undefined`, `none`.
pub data Message : Type 0 where
  call_message : Json → Json → Json → Message
  result_message : Json → Json → Message
  error_message : Json → Json → Option Json → Message

pub data FrameError : Type 0 where
  not_json malformed bad_type : FrameError

-- The array that a frame is, `m`, with at least three elements.
pub record Frame : Type 0 where
  pub kind : Json
  pub uid : Json
  pub third : Json
  pub fourth : Option Json

abbrev pub first_item : Items → Option Json
first_item nil = none
first_item (cons j _) = some j

abbrev pub frame_of : Json → Option Frame
frame_of (arr (cons t (cons u (cons a rest)))) =
    some (record { kind = t; uid = u; third = a; fourth = first_item rest })
frame_of _ = none

abbrev pub is_number : ℕ → Json → Bool
is_number n (num m) = same_number m (whole n)
is_number n _ = false

abbrev pub or_empty : Option Json → Json
or_empty none = obj end
or_empty (some j) = or_object j

unfoldable pub read_frame : Frame → Outcome FrameError Message
read_frame m =
    if is_number 2 m.kind
    then ok (call_message m.uid m.third (or_empty m.fourth))
    else if is_number 3 m.kind
    then ok (result_message m.uid (or_object m.third))
    else if is_number 4 m.kind
    then ok (error_message m.uid m.third m.fourth)
    else err bad_type

-- `call`, `result`, `callError`, with the array that they write; a missing description is the empty text.
abbrev pub call_frame : Json → Json → Json → Json
call_frame id action payload =
    arr (cons (num (whole 2)) (cons id (cons action (cons (or_object payload) nil))))

abbrev pub result_frame : Json → Json → Json
result_frame id payload = arr (cons (num (whole 3)) (cons id (cons (or_object payload) nil)))

abbrev pub error_frame : Json → Json → Option Json → Json
error_frame id code desc =
    let text : Json = elim desc [ none ↦ str "" | some d ↦ d ] in
    arr (cons (num (whole 4)) (cons id (cons code (cons text (cons (obj end) nil)))))

abbrev pub frame_for : Message → Json
frame_for (call_message id action payload) = call_frame id action payload
frame_for (result_message id payload) = result_frame id payload
frame_for (error_message id code desc) = error_frame id code desc

-- What a message becomes on the wire: a payload that is nothing is an empty object, and a missing
-- description is the empty text.
abbrev pub as_sent : Message → Message
as_sent (call_message id action payload) = call_message id action (or_object payload)
as_sent (result_message id payload) = result_message id (or_object payload)
as_sent (error_message id code none) = error_message id code (some (str ""))
as_sent (error_message id code (some d)) = error_message id code (some d)

or_object_twice : (j : Json) → or_object (or_object j) ≡ or_object j
or_object_twice null = refl
or_object_twice (bool b) = ground arith
or_object_twice (num n) = ground arith
or_object_twice (str s) = ground arith
or_object_twice (arr xs) = refl
or_object_twice (obj fs) = refl

module _ (stringify : Json → String) (parse_json : String → Option Json) where
  unfoldable pub encode : Message → String
  encode m = stringify (frame_for m)

  unfoldable pub parse : String → Outcome FrameError Message
  parse raw = do
    j ← or_throw (parse_json raw) not_json
    m ← or_throw (frame_of j) malformed
    read_frame m

  -- A call, a result or an error that is written and read again is the same message, but that an
  -- empty payload has become an empty object and a missing description the empty text, where
  -- `JSON.parse` reads back the value that `JSON.stringify` wrote.
  pub parse-encode :
      (m : Message)
      → parse_json (stringify (frame_for m)) ≡ some (frame_for m)
      → parse (encode m) ≡ ok (as_sent m)
  unfolding parse encode read_frame
  parse-encode (call_message id action payload) h = rw h (ground (arith, or_object_twice payload))
  parse-encode (result_message id payload) h = rw h (ground (arith, or_object_twice payload))
  parse-encode (error_message id code none) h = rw h refl
  parse-encode (error_message id code (some d)) h = rw h refl
