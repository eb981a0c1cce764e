-- ===== src/Framing/Reader.antt =====
-- crates/princess-debug/src/framing.rs: `FrameReader`, which keeps what a read gave beyond a frame. What
-- the blocking reader gives is a list of reads; when they are used up the stream is at its end.
use mathlib.Core.Path.{subst}
use mathlib.Core.List.{append_assoc}
use princess_ide.Prelude.{
  take-drop, take-append, drop-append, ℕ, zero, suc, ◌+◌, ◌<◌, ◌≤◌, ◌≡◌, refl, sym, ap, ◌∙◌, inl,
  inr, arith, Bool, true, false, Option, none, some, List, [], ◌∷◌, ◌++◌, length, take, drop,
  Bool-cases, if◌then◌else◌, ltb, All, length-append, Result, ok, err,
}
use princess_ide.Utf8.{is_utf8}
use princess_ide.Framing.{
  FrameError, unexpected_eof, read_failed, max_content_length, encode_frame, decode_frame,
}
use princess_ide.Framing.RoundTrip.{decode_frame-encode_frame}
use princess_ide.Framing.Partial.{decode_frame-take}

pub record FrameReader : Type 0 where
  pub buffer : List ℕ
  pub eof : Bool

-- What one `read` gives: bytes, none of them at the end of the stream; an interruption; or a failure.
pub data ReadResult : Type 0 where
  received : List ℕ → ReadResult
  interrupted failed : ReadResult

abbrev pub add_bytes : FrameReader → List ℕ → FrameReader
add_bytes r [] = record r { eof = true }
add_bytes r (b ∷ bytes) = record r { buffer = r.buffer ++ (b ∷ bytes) }

-- The result at the end of the stream, by what is left in the buffer.
abbrev pub ended : List ℕ → Result FrameError (Option (List ℕ))
ended [] = ok none
ended (b ∷ bytes) = err (unexpected_eof (length (b ∷ bytes) + 1) (length (b ∷ bytes)))

-- The reader that is left, the result, and the reads that were not used.
abbrev pub Next : Type 0
Next = FrameReader × (Result FrameError (Option (List ℕ)) × List ReadResult)

-- A round of the loop on what `decode_frame` found; `onward` is the rest of the round where it found
-- no frame.
abbrev pub on_frame :
    FrameReader → List ReadResult → Result FrameError (Option (List ℕ × ℕ)) → Next → Next
on_frame r reads (err e) onward = (r, (err e, reads))
on_frame r reads (ok (some (body, used))) onward =
    (record r { buffer = drop used r.buffer }, (ok (some body), reads))
on_frame r reads (ok none) onward = onward

-- The loop of `next_body`.
unfoldable pub next_body : FrameReader → List ReadResult → Next
next_body r [] =
    on_frame r [] (decode_frame r.buffer) (record r { eof = true }, (ended r.buffer, []))
next_body r (received bytes ∷ reads) =
    let onward = next_body (add_bytes r bytes) reads in
    on_frame r (received bytes ∷ reads) (decode_frame r.buffer)
      (if r.eof then (r, (ended r.buffer, received bytes ∷ reads)) else onward)
next_body r (interrupted ∷ reads) =
    let onward = next_body r reads in
    on_frame r (interrupted ∷ reads) (decode_frame r.buffer)
      (if r.eof then (r, (ended r.buffer, interrupted ∷ reads)) else onward)
next_body r (failed ∷ reads) =
    on_frame r (failed ∷ reads) (decode_frame r.buffer)
      (if r.eof then (r, (ended r.buffer, failed ∷ reads)) else (r, (err read_failed, reads)))

-- The bytes of some reads.
abbrev pub contents : List ReadResult → List ℕ
contents [] = []
contents (received bytes ∷ reads) = bytes ++ contents reads
contents (interrupted ∷ reads) = contents reads
contents (failed ∷ reads) = contents reads

-- A read that neither fails nor ends the stream.
abbrev pub flows : ReadResult → Bool
flows (received []) = false
flows (received (b ∷ bytes)) = true
flows interrupted = true
flows failed = false

abbrev pub IsFlowing : List ReadResult → Type 0
IsFlowing reads = All (λ read. flows read ≡ true) reads

-- A body was read, and the reader and the reads that are left hold what comes after it.
pub record Received (body rest : List ℕ) (out : Next) : Type 0 where
  pub result : out.1.0 ≡ ok (some body)
  pub after : out.0.buffer ++ contents out.1.1 ≡ rest
  pub live : out.0.eof ≡ false
  pub flowing : IsFlowing out.1.1

take_within : (n : ℕ) (xs ys : List ℕ) → n ≤ length xs → take n (xs ++ ys) ≡ take n xs
take_within zero xs ys h = refl
take_within (suc n) [] ys h = absurd (omega arith)
take_within (suc n) (x ∷ xs) ys h = ap (λ l. x ∷ l) (take_within n xs ys (omega (arith, h)))

drop_within : (n : ℕ) (xs ys : List ℕ) → n ≤ length xs → drop n (xs ++ ys) ≡ drop n xs ++ ys
drop_within zero xs ys h = refl
drop_within (suc n) [] ys h = absurd (omega arith)
drop_within (suc n) (x ∷ xs) ys h = drop_within n xs ys (omega (arith, h))

-- A buffer that has a whole frame.
buffer_whole :
    (r : FrameReader) (reads : List ReadResult) (body rest : List ℕ) (onward : Next)
    → length body ≤ max_content_length
    → is_utf8 body ≡ true
    → r.eof ≡ false
    → IsFlowing reads
    → r.buffer ++ contents reads ≡ encode_frame body ++ rest
    → length (encode_frame body) ≤ length r.buffer
    → Received body rest (on_frame r reads (decode_frame r.buffer) onward)
buffer_whole r reads body rest onward small valid running flowing e long =
    let frame = encode_frame body in
    let n = length frame in
    let front : take n r.buffer ≡ frame =
      sym (take_within n r.buffer (contents reads) long) ∙ ap (take n) e ∙ take-append frame rest in
    let back : drop n r.buffer ++ contents reads ≡ rest =
      sym (drop_within n r.buffer (contents reads) long) ∙ ap (drop n) e ∙ drop-append frame rest in
    let buffer : r.buffer ≡ frame ++ drop n r.buffer =
      sym (take-drop n r.buffer) ∙ ap (λ l. l ++ drop n r.buffer) front in
    let decoded : decode_frame r.buffer ≡ ok (some (body, n)) =
      ap decode_frame buffer ∙ decode_frame-encode_frame body (drop n r.buffer) small valid in
    let out : Received body rest (record r { buffer = drop n r.buffer }, (ok (some body), reads)) =
      record { result = refl; after = back; live = running; flowing = flowing } in
    subst (λ d. Received body rest (on_frame r reads d onward)) (sym decoded) out

-- A buffer that has a part of a frame.
buffer_part :
    (r : FrameReader) (reads : List ReadResult) (body rest : List ℕ)
    → length body ≤ max_content_length
    → r.buffer ++ contents reads ≡ encode_frame body ++ rest
    → length r.buffer < length (encode_frame body)
    → decode_frame r.buffer ≡ ok none
buffer_part r reads body rest small e short =
    let n = length r.buffer in
    let part : r.buffer ≡ take n (encode_frame body) =
      sym (take-append r.buffer (contents reads))
      ∙ ap (take n) e
      ∙ take_within n (encode_frame body) rest (omega (arith, short)) in
    ap decode_frame part ∙ decode_frame-take body n small short

-- A round that goes on.
on_frame_part :
    (r : FrameReader) (reads : List ReadResult) (stop onward : Next)
    → decode_frame r.buffer ≡ ok none
    → r.eof ≡ false
    → on_frame r reads (decode_frame r.buffer) (if r.eof then stop else onward) ≡ onward
on_frame_part r reads stop onward part running =
    ap (λ d. on_frame r reads d (if r.eof then stop else onward)) part
    ∙ ap (λ b. if b then stop else onward) running

-- The first frame of what the buffer and the reads hold together is read, whatever the pieces are that
-- it comes in, and what comes after it is kept: a frame written for a body of UTF-8 that is no longer
-- than the limit, when no read fails or ends the stream.
pub next_body-Received :
    (r : FrameReader) (reads : List ReadResult) (body rest : List ℕ)
    → length body ≤ max_content_length
    → is_utf8 body ≡ true
    → r.eof ≡ false
    → IsFlowing reads
    → r.buffer ++ contents reads ≡ encode_frame body ++ rest
    → Received body rest (next_body r reads)
unfolding next_body
next_body-Received r [] body rest small valid running flowing e =
    let size = ap length e in
    let left = length-append r.buffer [] in
    let right = length-append (encode_frame body) rest in
    buffer_whole r [] body rest (record r { eof = true }, (ended r.buffer, [])) small valid running
      flowing e (omega (arith, size, left, right))
next_body-Received r (failed ∷ reads) body rest small valid running (f, flowing) e =
    absurd (ground arith)
next_body-Received r (interrupted ∷ reads) body rest small valid running (f, flowing) e =
    elim (Bool-cases (ltb (length r.buffer) (length (encode_frame body)))) [
      | inr long ↦
          buffer_whole r (interrupted ∷ reads) body rest
            (if r.eof then (r, (ended r.buffer, interrupted ∷ reads)) else next_body r reads) small
            valid running (f, flowing) e (ground (arith, long))
      | inl short ↦
          let part =
            buffer_part r (interrupted ∷ reads) body rest small e (ground (arith, short)) in
          let stop : Next = (r, (ended r.buffer, interrupted ∷ reads)) in
          subst (Received body rest)
            (sym (on_frame_part r (interrupted ∷ reads) stop (next_body r reads) part running))
            (next_body-Received r reads body rest small valid running flowing e)
    ]
next_body-Received r (received [] ∷ reads) body rest small valid running (f, flowing) e =
    absurd (ground arith)
next_body-Received r (received (b ∷ bytes) ∷ reads) body rest small valid running (f, flowing) e =
    let grown = add_bytes r (b ∷ bytes) in
    elim (Bool-cases (ltb (length r.buffer) (length (encode_frame body)))) [
      | inr long ↦
          buffer_whole r (received (b ∷ bytes) ∷ reads) body rest
            (if r.eof
              then (r, (ended r.buffer, received (b ∷ bytes) ∷ reads))
              else next_body grown reads)
            small valid running (f, flowing) e (ground (arith, long))
      | inl short ↦
          let part =
            buffer_part r (received (b ∷ bytes) ∷ reads) body rest small e
              (ground (arith, short)) in
          let moved = append_assoc r.buffer (b ∷ bytes) (contents reads) ∙ e in
          let stop : Next = (r, (ended r.buffer, received (b ∷ bytes) ∷ reads)) in
          subst (Received body rest)
            (sym (
              on_frame_part r (received (b ∷ bytes) ∷ reads) stop (next_body grown reads) part
                running))
            (next_body-Received grown reads body rest small valid running flowing moved)
    ]
