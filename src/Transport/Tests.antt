-- ===== src/Transport/Tests.antt =====
-- A debug adapter that answers `configurationDone` (3) before `attach` (2), as GDB does. A message is a
-- number here, and an event's name is the event.
use princess_ide.Prelude.{ℕ, ◌≡◌, refl, none, some, List, [], ◌∷◌, ◌++◌, ◌==◌, map, ok, err}
use princess_ide.ErrorCode.{timeout}
use princess_ide.Transport.{
  response, event, closed, Received, message, timed_out, disconnected, Transport, spawned,
  wait_response, wait_event, body, end_of_stream, reader, sweep, await_event, remove_named,
  classify,
}
use princess_ide.Transport.Responses.{Kept, wait_response-Kept}
use princess_ide.Transport.Answered.{Answered, wait_response-Answered}
use princess_ide.Transport.Named.{wait_event-Told}
use princess_ide.Transport.Events.{Told}

abbrev adapter : Transport ℕ
adapter = record spawned { next_seq = 4 }

abbrev launch : List (Received ℕ)
launch = message (event 100) ∷ timed_out ∷ []

abbrev between : List (Received ℕ)
between = message (event 101) ∷ []

abbrev arrivals : List (Received ℕ)
arrivals =
    launch
    ++ (message (response 3 30) ∷ (between ++ (message (response 2 20) ∷ (disconnected ∷ []))))

-- Without a response in time the wait fails and the events are there.
late_response :
    ((wait_response 7 adapter launch).result ≡ err timeout)
    × ((wait_response 7 adapter launch).after.events ≡ 100 ∷ [])
unfolding wait_response
late_response = (refl, refl)

-- What stands behind the end of the stream is not sent.
reader_end :
    reader
      (λ (b : ℕ). ok b)
      (λ v. v == 100)
      (λ v. some v)
      (body 100 ∷ body 3 ∷ end_of_stream ∷ body 4 ∷ [])
    ≡ event 100 ∷ response 3 3 ∷ closed "adapter stdout closed" ∷ []
unfolding reader classify
reader_end = refl

wait_response-Kept_example : Kept 2 adapter arrivals (wait_response 2 adapter arrivals)
wait_response-Kept_example = wait_response-Kept 2 adapter arrivals

wait_response-Answered_example :
    Answered 3 adapter launch 30 between
      (wait_response 3 adapter (launch ++ (message (response 3 30) ∷ between)))
wait_response-Answered_example =
    wait_response-Answered 3 adapter launch 30 between refl (refl, (refl, tt))

wait_event-Told_example :
    Told
      (λ e. e == 101)
      adapter
      (arrivals ++ map message (closed "exit" ∷ []))
      (wait_event (λ e. e == 101) adapter arrivals (closed "exit" ∷ []))
wait_event-Told_example = wait_event-Told (λ e. e == 101) adapter arrivals (closed "exit" ∷ [])

-- A message of the end that comes in the last sweep is used up, and the transport does not say so.
swept_close : (wait_event (λ e. e == 101) adapter [] (closed "exit" ∷ [])).0.closed ≡ none
unfolding wait_event remove_named await_event sweep
swept_close = refl
