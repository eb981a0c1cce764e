-- ===== src/Transport.antt =====
-- crates/princess-debug/src/transport.rs: the debug adapter's `Transport`, without the process and
-- the thread behind it. What `recv_timeout` gives until the deadline is a list of turns, and what
-- `try_recv` gives after it a list of messages: both are arguments of the loop that waits, and the
-- deadline has passed when the turns are used up. A wait returns what it left of them. A sequence
-- number, an `i64`, is its bit pattern. `early` is a partial function. A JSON `Value` and the parser
-- are parameters.
mod Responses
mod Answered
mod Events
mod Named
mod Closed
mod Tests
use Prim.Native.String.{String}
use princess_ide.Prelude.{
  ℕ, ◌+◌, ◌%◌, ◌^◌, Bool, true, false, Option, none, some, List, [], ◌∷◌, ◌++◌, ◌==◌, if◌then◌else◌,
  Result, ok, err,
}
use princess_ide.ErrorCode.{ErrorCode, qemu_failed, internal, timeout}

pub data Incoming (Value : Type 0) : Type 0 where
  response : (request_seq : ℕ) (message : Value) → Incoming Value
  event : Value → Incoming Value
  closed : (reason : String) → Incoming Value

pub data Received (Value : Type 0) : Type 0 where
  message : Incoming Value → Received Value
  timed_out disconnected : Received Value

-- What the reader thread finds on the adapter's stdout: a body, its end, or a frame error, described.
pub data NextBody (Body : Type 0) : Type 0 where
  body : Body → NextBody Body
  end_of_stream : NextBody Body
  frame_error : (description : String) → NextBody Body

-- The reader thread's loop, as what it sends. `parse` is the JSON parser, whose failure has a text;
-- `is_event` tells whether `type` is "event", and `request_seq` is that field where it is an `i64`.
module _ {Body Value : Type 0} (parse : Body → Result String Value) (is_event : Value → Bool)
    (request_seq : Value → Option ℕ) where
  unfoldable pub classify : Value → Option (Incoming Value)
  classify value =
      if is_event value
      then some (event value)
      else elim (request_seq value) [ some seq ↦ some (response seq value) | none ↦ none ]

  unfoldable pub reader : List (NextBody Body) → List (Incoming Value)
  unfolding classify
  reader [] = []
  reader (end_of_stream ∷ rest) = closed "adapter stdout closed" ∷ []
  reader (frame_error description ∷ rest) = closed description ∷ []
  reader (body b ∷ rest) = elim (parse b) [
    | err text ↦ closed text ∷ []
    | ok value ↦ elim (classify value) [
      | none ↦ reader rest
      | some incoming ↦ incoming ∷ reader rest
    ]
  ]

pub record Transport (Value : Type 0) : Type 0 where
  pub early : ℕ → Option Value
  pub events : List Value
  pub next_seq : ℕ
  pub closed : Option String

-- What a wait leaves, what it returns, and the turns that it did not use.
pub record Waited (Value A : Type 0) : Type 0 where
  pub after : Transport Value
  pub result : Result ErrorCode A
  pub left : List (Received Value)

module _ {Value : Type 0} where
  abbrev pub spawned : Transport Value
  spawned = record { early = λ s. none; events = []; next_seq = 1; closed = none }

  -- `insert` and `remove` of the map of early responses.
  abbrev pub stash : ℕ → Value → Transport Value → Transport Value
  stash seq m t = record t { early = λ s. if s == seq then some m else t.early s }

  abbrev pub unstash : ℕ → Transport Value → Transport Value
  unstash seq t = record t { early = λ s. if s == seq then none else t.early s }

  abbrev pub push_event : Value → Transport Value → Transport Value
  push_event e t = record t { events = t.events ++ e ∷ [] }

  abbrev pub close : String → Transport Value → Transport Value
  close reason t = record t { closed = some reason }

  -- `send`; `written` says whether the adapter's stdin took the frame.
  unfoldable pub send : Transport Value → Bool → Transport Value × Result ErrorCode ℕ
  send t written = elim t.closed [
    | some reason ↦ (t, err qemu_failed)
    | none ↦ (
      record t { next_seq = (t.next_seq + 1) % 2 ^ 64 },
      if written then ok t.next_seq else err internal,
    )
  ]

  -- The loop of `wait_response`, which looks for an early response before each turn.
  unfoldable pub wait_response : ℕ → Transport Value → List (Received Value) → Waited Value Value
  wait_response seq t [] = elim (t.early seq) [
    | some m ↦ record { after = unstash seq t; result = ok m; left = [] }
    | none ↦ record { after = t; result = err timeout; left = [] }
  ]
  wait_response seq t (turn ∷ turns) = elim (t.early seq) [
    | some m ↦ record { after = unstash seq t; result = ok m; left = turn ∷ turns }
    | none ↦ elim turn [
      | message i ↦ elim i [
        | response s m ↦ elim (s == seq) [
          | true ↦ record { after = t; result = ok m; left = turns }
          | false ↦ wait_response seq (stash s m t) turns
        ]
        | event e ↦ wait_response seq (push_event e t) turns
        | closed reason ↦ record { after = close reason t; result = err qemu_failed; left = turns }
      ]
      | timed_out ↦ wait_response seq t turns
      | disconnected ↦ record {
        after = close "debug adapter reader thread stopped" t;
        result = err qemu_failed;
        left = turns;
      }
    ]
  ]

  unfoldable pub request_within :
      Transport Value → Bool → List (Received Value) → Waited Value Value
  unfolding send wait_response
  request_within t written turns =
      let (t', sent) = send t written in
      elim sent [
        | ok seq ↦ wait_response seq t' turns
        | err e ↦ record { after = t'; result = err e; left = turns }
      ]

  unfoldable pub take_events : Transport Value → Transport Value × List Value
  take_events t = (record t { events = [] }, t.events)

  -- `position` of the first event of a name, and `remove` there: the event, and the others.
  unfoldable pub remove_named : (Value → Bool) → List Value → Option (Value × List Value)
  remove_named named [] = none
  remove_named named (e ∷ es) = elim (named e) [
    | true ↦ some (e, es)
    | false ↦ elim (remove_named named es) [
      | none ↦ none
      | some (found, rest) ↦ some (found, e ∷ rest)
    ]
  ]

  -- The last sweep of `wait_event`, after the deadline; the loop ends when nothing can be received.
  unfoldable pub sweep :
      (Value → Bool) → Transport Value → List (Incoming Value) → Transport Value × Option Value
  sweep named t [] = (t, none)
  sweep named t (event e ∷ rest) = elim (named e) [
    | true ↦ (t, some e)
    | false ↦ sweep named (push_event e t) rest
  ]
  sweep named t (response s m ∷ rest) = sweep named (stash s m t) rest
  sweep named t (closed reason ∷ rest) = (t, none)

  -- The loop of `wait_event`.
  unfoldable pub await_event :
      (Value → Bool)
      → Transport Value
      → List (Received Value)
      → List (Incoming Value)
      → Transport Value × Result ErrorCode (Option Value)
  unfolding sweep
  await_event named t [] late = let (t', found) = sweep named t late in (t', ok found)
  await_event named t (timed_out ∷ turns) late = await_event named t turns late
  await_event named t (disconnected ∷ turns) late = (t, ok none)
  await_event named t (message (event e) ∷ turns) late = elim (named e) [
    | true ↦ (t, ok (some e))
    | false ↦ await_event named (push_event e t) turns late
  ]
  await_event named t (message (response s m) ∷ turns) late =
      await_event named (stash s m t) turns late
  await_event named t (message (closed reason) ∷ turns) late = (close reason t, err qemu_failed)

  unfoldable pub wait_event :
      (Value → Bool)
      → Transport Value
      → List (Received Value)
      → List (Incoming Value)
      → Transport Value × Result ErrorCode (Option Value)
  wait_event named t turns late = elim (remove_named named t.events) [
    | some (e, rest) ↦ (record t { events = rest }, ok (some e))
    | none ↦ await_event named t turns late
  ]
