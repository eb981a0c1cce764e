-- ===== src/Transport/Named.antt =====
-- The loop that waits for an event of a name, and its last sweep.
use mathlib.Core.Path.{subst}
use mathlib.Core.List.{append-nil}
use princess_ide.Prelude.{
  refl, sym, inl, inr, Bool, none, List, [], ◌∷◌, ◌++◌, map, Option-cases, Bool-cases, ok, err,
}
use princess_ide.ErrorCode.{qemu_failed}
use princess_ide.Transport.{
  Incoming, response, event, closed, Received, message, timed_out, disconnected, Transport, stash,
  push_event, close, remove_named, sweep, await_event, wait_event,
}
use princess_ide.Transport.Events.{
  IsOther, First, IsOther-snoc, Removed, remove_named-Removed, Told, Told-turn, Told-event,
  Told-nothing,
}

module _ {Value : Type 0} (named : Value → Bool) where
  sweep-Told :
      (t : Transport Value) (late : List (Incoming Value))
      → IsOther named t.events
      → let (t', found) = sweep named t late in Told named t (map message late) (t', ok found)
  unfolding sweep
  sweep-Told t [] others = Told-nothing named t t [] [] (ok none) refl (λ s. refl) (refl, others)
  sweep-Told t (closed reason ∷ rest) others =
      Told-nothing named t t (message (closed reason) ∷ []) (map message rest) (ok none) refl
        (λ s. refl) (refl, others)
  sweep-Told t (response s m ∷ rest) others =
      let t' = stash s m t in
      let (after, found) = sweep named t' rest in
      Told-turn named t t' (message (response s m)) (map message rest) (after, ok found)
        (sym (append-nil t.events)) (λ r. refl) (sweep-Told t' rest others)
  sweep-Told t (event e ∷ rest) others = elim (Bool-cases (named e)) [
    | inl hit ↦ rw (sweep, hit) (Told-event named t e (map message rest) hit others)
    | inr other ↦
        let t' = push_event e t in
        let (after, found) = sweep named t' rest in
        rw (sweep, other)
          (Told-turn named t t' (message (event e)) (map message rest) (after, ok found) refl
            (λ r. refl) (sweep-Told t' rest (IsOther-snoc named t.events e others other)))
  ]

  await_event-Told :
      (t : Transport Value) (turns : List (Received Value)) (late : List (Incoming Value))
      → IsOther named t.events
      → Told named t (turns ++ map message late) (await_event named t turns late)
  unfolding await_event
  await_event-Told t [] late others = sweep-Told t late others
  await_event-Told t (timed_out ∷ turns) late others =
      Told-turn named t t timed_out (turns ++ map message late) (await_event named t turns late)
        (sym (append-nil t.events)) (λ r. refl) (await_event-Told t turns late others)
  await_event-Told t (disconnected ∷ turns) late others =
      Told-nothing named t t (disconnected ∷ []) (turns ++ map message late) (ok none) refl
        (λ s. refl) (refl, others)
  await_event-Told t (message (closed reason) ∷ turns) late others =
      Told-nothing named t (close reason t) (message (closed reason) ∷ [])
        (turns ++ map message late) (err qemu_failed) refl (λ s. refl) (refl, others)
  await_event-Told t (message (response s m) ∷ turns) late others =
      let t' = stash s m t in
      Told-turn named t t' (message (response s m)) (turns ++ map message late)
        (await_event named t' turns late) (sym (append-nil t.events)) (λ r. refl)
        (await_event-Told t' turns late others)
  await_event-Told t (message (event e) ∷ turns) late others = elim (Bool-cases (named e)) [
    | inl hit ↦ rw (await_event, hit) (Told-event named t e (turns ++ map message late) hit others)
    | inr other ↦
        let t' = push_event e t in
        rw (await_event, other)
          (Told-turn named t t' (message (event e)) (turns ++ map message late)
            (await_event named t' turns late) refl (λ r. refl)
            (await_event-Told t' turns late (IsOther-snoc named t.events e others other)))
  ]

  -- A wait for an event of a name uses what arrives from the front only. With `es` the buffered events
  -- followed by the ones it heard: an event it returns is the first of `es` with the name and the
  -- others stay buffered in order; when it returns none or an error, no event of `es` has the name and
  -- all of them stay buffered. For every request the last response that came is there.
  pub wait_event-Told :
      (t : Transport Value) (turns : List (Received Value)) (late : List (Incoming Value))
      → Told named t (turns ++ map message late) (wait_event named t turns late)
  unfolding wait_event
  wait_event-Told t turns late =
      let removed = remove_named-Removed named t.events in
      elim (Option-cases (remove_named named t.events)) [
        | inl nothing ↦
            rw (wait_event, nothing)
              (await_event-Told t turns late (subst (Removed named t.events) nothing removed))
        | inr ((e, others), there) ↦
            rw (wait_event, there)
              (record {
                used = [];
                left = turns ++ map message late;
                split = refl;
                fair =
                    subst (λ l. First named l e others) (sym (append-nil t.events))
                      (subst (Removed named t.events) there removed);
                early = λ s. refl;
              })
      ]
