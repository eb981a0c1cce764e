-- ===== src/Sse/Chunks.antt =====
-- `SseDecoder::push` does not depend on how the stream is cut into chunks.
use mathlib.Core.List.{append_assoc}
use princess_ide.Prelude.{
  ℕ, zero, suc, ◌<◌, ◌≤◌, ◌≡◌, refl, sym, ap, ◌∙◌, arith, true, false, Option, none, some, List, [],
  ◌∷◌, ◌++◌, length, take, drop, Option-cases, Bool-cases, inl, inr,
}
use princess_ide.Sse.{
  Text, SseEvent, data_event, done_event, SseDecoder, find_frame_end, decode_frame, emit, drain,
  push,
}
use princess_ide.Sse.Frames.{
  find_frame_end-append, find_from_bounds, take-append, drop-append, length-drop,
}

drain_waits :
    (t : Text) (f : ℕ) (x : List ℕ)
    → find_frame_end x ≡ none
    → drain t f x ≡ ([], record { buffer = x; done = false })
unfolding drain
drain_waits t zero x h = refl
drain_waits t (suc f) x h = rw (drain, h) refl

drain_frame :
    (t : Text) (f e n : ℕ) (x : List ℕ)
    → find_frame_end x ≡ some (e, n)
    → drain t (suc f) x ≡ emit (decode_frame t (take e x)) (drain t f (drop n x))
unfolding drain
drain_frame t f e n x h = rw (drain, h) refl

-- A frame ends inside the buffer, so that less is left.
frame_bounds :
    (x : List ℕ) (e n : ℕ)
    → find_frame_end x ≡ some (e, n)
    → (e < n) × (n ≤ length x) × (length (drop n x) < length x)
unfolding find_frame_end
frame_bounds x e n h =
    let (lt, le) = find_from_bounds x 0 e n h in
    (lt, omega arith, omega (arith, length-drop n x (omega arith)))

-- The length of the buffer is fuel enough.
pub drain_enough :
    (t : Text) (f g : ℕ) (x : List ℕ) → length x ≤ f → length x ≤ g → drain t f x ≡ drain t g x
drain_enough t zero g x hf hg = elim (Option-cases (find_frame_end x)) [
  | inl waits ↦ drain_waits t zero x waits ∙ sym (drain_waits t g x waits)
  | inr ((e, n), found) ↦ absurd (omega (arith, frame_bounds x e n found))
]
drain_enough t (suc f) zero x hf hg = elim (Option-cases (find_frame_end x)) [
  | inl waits ↦ drain_waits t (suc f) x waits ∙ sym (drain_waits t zero x waits)
  | inr ((e, n), found) ↦ absurd (omega (arith, frame_bounds x e n found))
]
drain_enough t (suc f) (suc g) x hf hg = elim (Option-cases (find_frame_end x)) [
  | inl waits ↦ drain_waits t (suc f) x waits ∙ sym (drain_waits t (suc g) x waits)
  | inr ((e, n), found) ↦
      let b = frame_bounds x e n found in
      drain_frame t f e n x found
      ∙ ap (emit (decode_frame t (take e x)))
          (drain_enough t f g (drop n x) (omega (arith, b)) (omega (arith, b)))
      ∙ sym (drain_frame t g e n x found)
]

-- A second chunk after the outcome of a first one.
abbrev pub and_push : Text → List SseEvent × SseDecoder → List ℕ → List SseEvent × SseDecoder
and_push t (events, d) bytes = let (more, d') = push t d bytes in (events ++ more, d')

emit-and_push :
    (t : Text) (e : Option SseEvent) (r : List SseEvent × SseDecoder) (b : List ℕ)
    → and_push t (emit e r) b ≡ emit e (and_push t r b)
unfolding push
emit-and_push t none r b = refl
emit-and_push t (some done_event) r b = refl
emit-and_push t (some (data_event p)) (events, d) b = refl

drain-append :
    (t : Text) (f : ℕ) (x b : List ℕ)
    → length x ≤ f
    → and_push t (drain t f x) b ≡ drain t (length (x ++ b)) (x ++ b)
unfolding push
drain-append t zero x b h = elim (Option-cases (find_frame_end x)) [
  | inl waits ↦ ap (λ r. and_push t r b) (drain_waits t zero x waits)
  | inr ((e, n), found) ↦ absurd (omega (arith, frame_bounds x e n found))
]
drain-append t (suc f) x b h = elim (Option-cases (find_frame_end x)) [
  | inl waits ↦ ap (λ r. and_push t r b) (drain_waits t (suc f) x waits)
  | inr ((e, n), found) ↦
      let (lt, fits, less) = frame_bounds x e n found in
      let whole : find_frame_end (x ++ b) ≡ some (e, n) = find_frame_end-append x b (e, n) found in
      let event = decode_frame t (take e x) in
      ap (λ r. and_push t r b) (drain_frame t f e n x found)
      ∙ emit-and_push t event (drain t f (drop n x)) b
      ∙ ap (emit event) (
          drain-append t f (drop n x) b (omega arith)
          ∙ ap (λ y. drain t (length y) y) (sym (drop-append n x b fits))
          ∙ drain_enough t (length (drop n (x ++ b))) (length (x ++ b)) (drop n (x ++ b))
              (omega arith) (omega (arith, frame_bounds (x ++ b) e n whole)))
      ∙ ap (λ y. emit (decode_frame t y) (drain t (length (x ++ b)) (drop n (x ++ b))))
          (sym (take-append e x b (omega arith)))
      ∙ sym (drain_frame t (length (x ++ b)) e n (x ++ b) whole)
      ∙ drain_enough t (suc (length (x ++ b))) (length (x ++ b)) (x ++ b) (omega arith)
          (omega arith)
]

push_open :
    (t : Text) (d : SseDecoder) (x : List ℕ)
    → d.done ≡ false
    → push t d x ≡ drain t (length (d.buffer ++ x)) (d.buffer ++ x)
unfolding push
push_open t d x h = rw h refl

push_closed : (t : Text) (d : SseDecoder) (x : List ℕ) → d.done ≡ true → push t d x ≡ ([], d)
unfolding push
push_closed t d x h = rw h refl

-- Feeding two chunks one after the other gives the events, and leaves the decoder, that feeding them
-- as one chunk does, wherever the stream was cut.
pub push-append :
    (t : Text) (d : SseDecoder) (a b : List ℕ) → push t d (a ++ b) ≡ and_push t (push t d a) b
push-append t d a b = elim (Bool-cases d.done) [
  | inl closed ↦
      push_closed t d (a ++ b) closed
      ∙ sym (ap (λ r. and_push t r b) (push_closed t d a closed) ∙ push_closed t d b closed)
  | inr going ↦
      push_open t d (a ++ b) going
      ∙ ap (λ y. drain t (length y) y) (sym (append_assoc d.buffer a b))
      ∙ sym (drain-append t (length (d.buffer ++ a)) (d.buffer ++ a) b (omega arith))
      ∙ ap (λ r. and_push t r b) (sym (push_open t d a going))
]

-- What a push leaves: the events are payloads, with `Done` at most once, at the end, and then the
-- decoder is closed and empty; otherwise it is open and its buffer holds no whole frame.
abbrev pub Settled : List SseEvent → SseDecoder → Type 0
Settled [] d = (d.done ≡ false) × (find_frame_end d.buffer ≡ none)
Settled (done_event ∷ es) d = (es ≡ []) × (d.done ≡ true) × (d.buffer ≡ [])
Settled (data_event p ∷ es) d = Settled es d

emit-Settled :
    (e : Option SseEvent) (r : List SseEvent × SseDecoder)
    → Settled r.0 r.1
    → Settled (emit e r).0 (emit e r).1
emit-Settled none r s = s
emit-Settled (some done_event) r s = (refl, refl, refl)
emit-Settled (some (data_event p)) (events, d) s = s

drain-Settled :
    (t : Text) (f : ℕ) (x : List ℕ) → length x ≤ f → Settled (drain t f x).0 (drain t f x).1
drain-Settled t zero x h = elim (Option-cases (find_frame_end x)) [
  | inl waits ↦ rw (drain_waits t zero x waits) (refl, waits)
  | inr ((e, n), found) ↦ absurd (omega (arith, frame_bounds x e n found))
]
drain-Settled t (suc f) x h = elim (Option-cases (find_frame_end x)) [
  | inl waits ↦ rw (drain_waits t (suc f) x waits) (refl, waits)
  | inr ((e, n), found) ↦ rw (drain_frame t f e n x found) (
      emit-Settled (decode_frame t (take e x)) (drain t f (drop n x))
        (drain-Settled t f (drop n x) (omega (arith, frame_bounds x e n found))))
]

-- A push into an open decoder takes every whole frame out of the buffer: its events are payloads,
-- with `Done` at most once and last. After `Done` the decoder is closed and holds nothing; else it
-- is open and no frame ends in what it holds.
pub push-Settled :
    (t : Text) (d : SseDecoder) (x : List ℕ)
    → d.done ≡ false
    → Settled (push t d x).0 (push t d x).1
push-Settled t d x h =
    rw (push_open t d x h) (drain-Settled t (length (d.buffer ++ x)) (d.buffer ++ x) (omega arith))
