-- ===== src/Sse/Tests.antt =====
-- A stream of two events and the sentinel, cut inside a blank line, on ASCII text.
use princess_ide.Prelude.{ℕ, true, false, ◌||◌, ◌==◌, List, [], ◌∷◌, ◌++◌, ◌≡◌, refl}
use princess_ide.Sse.{
  Text, data_event, done_event, new_decoder, find_frame_end, find_from, blank_line, decode_frame,
  drain, push, finish,
}
use princess_ide.Sse.Chunks.{and_push, push-append}

abbrev ascii : Text
ascii = record {
  from_utf8_lossy = λ s. s;
  is_whitespace = λ c. (c == 32) || (c == 10) || (c == 13);
}

-- A field `data: A` and an open blank line; the rest of it, the sentinel, and one byte more.
abbrev first : List ℕ
first = 100 ∷ 97 ∷ 116 ∷ 97 ∷ 58 ∷ 32 ∷ 65 ∷ 13 ∷ 10 ∷ 13 ∷ []

abbrev second : List ℕ
second = 10 ∷ 100 ∷ 97 ∷ 116 ∷ 97 ∷ 58 ∷ 32 ∷ 91 ∷ 68 ∷ 79 ∷ 78 ∷ 69 ∷ 93 ∷ 10 ∷ 10 ∷ 88 ∷ []

whole_stream :
    push ascii new_decoder (first ++ second)
    ≡ (data_event (65 ∷ []) ∷ done_event ∷ [], record { buffer = []; done = true })
unfolding push drain find_frame_end find_from blank_line decode_frame
whole_stream = refl

-- A stream that ends without a blank line still gives its last event.
cut_stream :
    finish ascii (push ascii new_decoder first).1
    ≡ (data_event (65 ∷ []) ∷ [], record { buffer = []; done = false })
unfolding push drain find_frame_end find_from blank_line decode_frame finish
cut_stream = refl

push-append_example :
    push ascii new_decoder (first ++ second) ≡ and_push ascii (push ascii new_decoder first) second
push-append_example = push-append ascii new_decoder first second
