-- ===== src/Framing/Tests.antt =====
-- The frames of a short request, with a character of two bytes, and of an answer behind it.
use princess_ide.Prelude.{
  ℕ, ◌≡◌, refl, arith, some, List, [], ◌∷◌, ◌++◌, length, take, drop, false, ok, err,
}
use princess_ide.Str.{codes, trim, split_once}
use princess_ide.Utf8.{is_utf8, from_utf8_lossy}
use princess_ide.Framing.{
  decimal, encode_frame, decode_frame, find_header_terminator, headers, add_header, header_lines,
  take_body, parse_usize, missing_content_length, not_utf8,
}
use princess_ide.Framing.RoundTrip.{decode_frame-encode_frame}
use princess_ide.Framing.Reader.{
  ReadResult, received, interrupted, Received, next_body, next_body-Received,
}

abbrev body : List ℕ
body = 123 ∷ 195 ∷ 169 ∷ 125 ∷ []

encoded : encode_frame body ≡ codes "Content-Length: 4\r\n\r\n" ++ body
unfolding encode_frame decimal
encoded = refl

decode_frame-encode_frame_example :
    decode_frame (encode_frame body ++ encode_frame (123 ∷ 125 ∷ []))
    ≡ ok (some (body, length (encode_frame body)))
unfolding is_utf8
decode_frame-encode_frame_example =
    decode_frame-encode_frame body (encode_frame (123 ∷ 125 ∷ [])) (omega arith) refl

-- Bare line feeds and other headers are taken; a header without a length, and a body that is not UTF-8,
-- are errors.
bare_line_feeds :
    (decode_frame (codes "Content-Type: x\ncontent-length: 2\n\n{}") ≡ ok (some (codes "{}", 37)))
    × (decode_frame (codes "Content-Type: x\n\n{}")
        ≡ err (missing_content_length (codes "Content-Type: x")))
    × (decode_frame (codes "Content-Length: 1\n\n" ++ (255 ∷ [])) ≡ err (not_utf8 (65533 ∷ [])))
unfolding decode_frame find_header_terminator headers add_header header_lines take_body parse_usize
    trim split_once is_utf8 from_utf8_lossy
bare_line_feeds = (refl, refl, refl)

-- The request in two pieces, the second with the answer behind it.
abbrev pieces : List ReadResult
pieces =
    received (take 9 (encode_frame body))
    ∷ interrupted
    ∷ received (drop 9 (encode_frame body) ++ (7 ∷ 7 ∷ []))
    ∷ []

next_body-Received_example :
    Received body (7 ∷ 7 ∷ []) (next_body (record { buffer = []; eof = false }) pieces)
unfolding encode_frame decimal is_utf8
next_body-Received_example =
    next_body-Received (record { buffer = []; eof = false }) pieces body (7 ∷ 7 ∷ []) (omega arith)
      refl refl (refl, (refl, (refl, tt))) refl
