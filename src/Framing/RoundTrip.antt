-- ===== src/Framing/RoundTrip.antt =====
-- A frame that `encode_frame` writes is read back by `decode_frame`, whatever follows it.
use mathlib.Core.List.{append_assoc}
use princess_ide.Prelude.{
  ℕ, ◌+◌, ◌≤◌, ◌≡◌, refl, sym, ap, ◌∙◌, arith, true, false, none, some, List, [], ◌∷◌, ◌++◌, length,
  take, drop, ltb, length-append, drop-drop, take-append, drop-append, ok, ◌>>=◌,
}
use princess_ide.Utf8.{is_utf8, from_utf8_lossy}
use princess_ide.Framing.{
  max_content_length, decimal, encode_frame, find_header_terminator, headers, header_lines,
  take_body, decode_frame, with_text, measured,
}
use princess_ide.Framing.Header.{
  prefix, first_line, first_line-IsPlain, terminator_from-append, headers-first_line,
}

-- Digits in the middle of a frame.
frame_split :
    (digits body rest : List ℕ)
    → (prefix ++ (digits ++ (13 ∷ 10 ∷ 13 ∷ 10 ∷ body))) ++ rest
      ≡ (prefix ++ (digits ++ (13 ∷ []))) ++ (10 ∷ 13 ∷ 10 ∷ (body ++ rest))
frame_split digits body rest =
    ap (λ l. prefix ++ l)
      (append_assoc digits (13 ∷ 10 ∷ 13 ∷ 10 ∷ body) rest
        ∙ sym (append_assoc digits (13 ∷ []) (10 ∷ 13 ∷ 10 ∷ (body ++ rest))))

pub encode_frame-first_line :
    (body rest : List ℕ)
    → encode_frame body ++ rest ≡ first_line (length body) ++ (10 ∷ 13 ∷ 10 ∷ (body ++ rest))
unfolding encode_frame
encode_frame-first_line body rest = frame_split (decimal 20 (length body)) body rest

pub length-encode_frame :
    (body : List ℕ)
    → length (encode_frame body) ≡ length (first_line (length body)) + 3 + length body
length-encode_frame body =
    let line = first_line (length body) in
    let e = ap length (encode_frame-first_line body []) in
    let whole = length-append (encode_frame body) [] in
    let parts = length-append line (10 ∷ 13 ∷ 10 ∷ (body ++ [])) in
    let tail = length-append body [] in omega (arith, e, whole, parts, tail)

-- The end of `decode_frame`, where the header is known.
take_body-append :
    (line body rest : List ℕ)
    → length body ≤ max_content_length
    → is_utf8 body ≡ true
    → take_body (line ++ (10 ∷ 13 ∷ 10 ∷ (body ++ rest))) (length line + 3) (length body)
      ≡ ok (some (body, length line + 3 + length body))
unfolding take_body
take_body-append line body rest small valid =
    let input = line ++ (10 ∷ 13 ∷ 10 ∷ (body ++ rest)) in
    let ahead : drop (length line + 3) input ≡ body ++ rest =
      sym (drop-drop 3 (length line) input)
      ∙ ap (drop 3) (drop-append line (10 ∷ 13 ∷ 10 ∷ (body ++ rest))) in
    let bytes : take (length body) (drop (length line + 3) input) ≡ body =
      ap (take (length body)) ahead ∙ take-append body rest in
    let size = length-append line (10 ∷ 13 ∷ 10 ∷ (body ++ rest)) in
    let tail = length-append body rest in
    let fits : ltb max_content_length (length body) ≡ false = ground (arith, small) in
    let there : ltb (length input) (length line + 3 + length body) ≡ false =
      ground (arith, size, tail) in
    rw (take_body, fits, there, bytes, valid) refl

-- What `decode_frame` does when it has found the end of a header line that it can read.
pub decode_frame-found :
    (line tail : List ℕ) (n : ℕ)
    → find_header_terminator (line ++ (10 ∷ 13 ∷ 10 ∷ tail)) ≡ some (length line, length line + 3)
    → headers none (header_lines (from_utf8_lossy line)) ≡ ok (some n)
    → decode_frame (line ++ (10 ∷ 13 ∷ 10 ∷ tail))
      ≡ take_body (line ++ (10 ∷ 13 ∷ 10 ∷ tail)) (length line + 3) n
unfolding decode_frame
decode_frame-found line tail n found read =
    let input = line ++ (10 ∷ 13 ∷ 10 ∷ tail) in
    rw (decode_frame, found)
      (ap (λ t. with_text input (length line + 3) (from_utf8_lossy t))
          (take-append line (10 ∷ 13 ∷ 10 ∷ tail))
        ∙ ap (λ r. r >>= measured input (length line + 3) (from_utf8_lossy line)) read)

pub zero_left : (n : ℕ) → 0 + n ≡ n
zero_left n = omega arith

-- A frame that is written for a body of UTF-8 that is no longer than the limit is read back as this
-- body, with the frame's length as the bytes used, whatever follows it.
pub decode_frame-encode_frame :
    (body rest : List ℕ)
    → length body ≤ max_content_length
    → is_utf8 body ≡ true
    → decode_frame (encode_frame body ++ rest) ≡ ok (some (body, length (encode_frame body)))
unfolding find_header_terminator
decode_frame-encode_frame body rest small valid =
    let line = first_line (length body) in
    let found = terminator_from-append 0 line (body ++ rest) (first_line-IsPlain (length body)) in
    let read = headers-first_line (length body) (omega (arith, small)) in
    let at = found ∙ ap (λ k. some (k, k + 3)) (zero_left (length line)) in
    ap decode_frame (encode_frame-first_line body rest)
    ∙ decode_frame-found line (body ++ rest) (length body) at read
    ∙ take_body-append line body rest small valid
    ∙ ap (λ k. ok (some (body, k))) (sym (length-encode_frame body))
