-- ===== src/Framing/Partial.antt =====
-- A part of a frame is not taken for a frame.
use mathlib.Core.List.{append-nil}
use princess_ide.Prelude.{
  take-append, drop-append, ℕ, zero, suc, ◌+◌, ◌-◌, ◌*◌, ◌/◌, ◌%◌, min, ◌<◌, ◌≤◌, ◌≡◌, refl, sym,
  ap, ◌∙◌, inl, inr, arith, true, false, none, some, List, [], ◌∷◌, ◌++◌, length, take, drop,
  Bool-cases, ltb, leb, leb_iff, All, length-append, length-take-min, take_plus, ok,
}
use princess_ide.Framing.{
  max_content_length, decimal, encode_frame, terminator_from, find_header_terminator, take_body,
  decode_frame,
}
use princess_ide.Framing.Header.{
  first_line, first_line-IsPlain, IsPlain, terminator_from-skip, terminator_from-append,
  headers-first_line,
}
use princess_ide.Framing.RoundTrip.{
  encode_frame-first_line, length-encode_frame, decode_frame-found, zero_left,
}

terminator_from-take :
    (i k : ℕ) (line rest : List ℕ)
    → All IsPlain line
    → k ≤ length line + 2
    → terminator_from i (take k (line ++ (10 ∷ 13 ∷ 10 ∷ rest))) ≡ none
unfolding terminator_from
terminator_from-take i zero line rest all h = refl
terminator_from-take i (suc zero) [] rest all h = refl
terminator_from-take i (suc (suc zero)) [] rest all h = refl
terminator_from-take i (suc (suc (suc k))) [] rest all h = absurd (omega arith)
terminator_from-take i (suc k) (b ∷ line) rest ((low, plain), all) h =
    terminator_from-skip i b (take k (line ++ (10 ∷ 13 ∷ 10 ∷ rest))) plain
    ∙ terminator_from-take (i + 1) k line rest all (omega (arith, h))

length-decimal : (places n : ℕ) → length (decimal places n) ≤ places
unfolding decimal
length-decimal zero n = omega arith
length-decimal (suc places) n = elim (Bool-cases (ltb n 10)) [
  | inl one ↦ rw (decimal, one) (omega arith)
  | inr more ↦
      let size = length-append (decimal places (n / 10)) ((n % 10 + 48) ∷ []) in
      let go = length-decimal places (n / 10) in rw (decimal, more) (omega (arith, size, go))
]

length-first_line : (n : ℕ) → length (first_line n) ≤ 37
length-first_line n =
    let size = length-append (decimal 20 n) (13 ∷ []) in
    let digits = length-decimal 20 n in omega (arith, size, digits)

-- Nothing but a part of the header is there.
partial_header :
    (k : ℕ) (line rest : List ℕ)
    → All IsPlain line
    → length line ≤ 37
    → k ≤ length line + 2
    → decode_frame (take k (line ++ (10 ∷ 13 ∷ 10 ∷ rest))) ≡ ok none
unfolding decode_frame find_header_terminator
partial_header k line rest all short h =
    let part = take k (line ++ (10 ∷ 13 ∷ 10 ∷ rest)) in
    let nowhere : find_header_terminator part ≡ none = terminator_from-take 0 k line rest all h in
    let size = length-take-min k (line ++ (10 ∷ 13 ∷ 10 ∷ rest)) in
    let room : ltb (min max_content_length (64 * 1024)) (length part) ≡ false =
      ground (arith, size) in
    rw (decode_frame, nowhere, room) refl

take_past :
    (j : ℕ) (line rest : List ℕ)
    → take (length line + (3 + j)) (line ++ (10 ∷ 13 ∷ 10 ∷ rest))
      ≡ line ++ (10 ∷ 13 ∷ 10 ∷ take j rest)
take_past j line rest =
    let tail = 10 ∷ 13 ∷ 10 ∷ rest in
    let three : 3 + j ≡ suc (suc (suc j)) = omega arith in
    take_plus (length line) (3 + j) (line ++ tail)
    ∙ ap (λ l. l ++ take (3 + j) (drop (length line) (line ++ tail))) (take-append line tail)
    ∙ ap (λ l. line ++ take (3 + j) l) (drop-append line tail)
    ∙ ap (λ n. line ++ take n tail) three

-- The header is there, and a part of the body.
partial_body :
    (j : ℕ) (body : List ℕ)
    → length body ≤ max_content_length
    → j < length body
    → decode_frame (first_line (length body) ++ (10 ∷ 13 ∷ 10 ∷ take j body)) ≡ ok none
unfolding find_header_terminator take_body
partial_body j body small h =
    let line = first_line (length body) in
    let input = line ++ (10 ∷ 13 ∷ 10 ∷ take j body) in
    let found =
      terminator_from-append 0 line (take j body) (first_line-IsPlain (length body))
      ∙ ap (λ k. some (k, k + 3)) (zero_left (length line)) in
    let read = headers-first_line (length body) (omega (arith, small)) in
    let size = length-append line (10 ∷ 13 ∷ 10 ∷ take j body) in
    let part = length-take-min j body in
    let fits : ltb max_content_length (length body) ≡ false = ground (arith, small) in
    let missing : ltb (length input) (length line + 3 + length body) ≡ true =
      ground (arith, size, part) in
    decode_frame-found line (take j body) (length body) found read
    ∙ rw (take_body, fits, missing) refl

-- Every proper prefix of a frame that is written for a body no longer than the limit is found to be
-- incomplete: it is neither an error nor a body.
pub decode_frame-take :
    (body : List ℕ) (k : ℕ)
    → length body ≤ max_content_length
    → k < length (encode_frame body)
    → decode_frame (take k (encode_frame body)) ≡ ok none
decode_frame-take body k small h =
    let line = first_line (length body) in
    let frame : encode_frame body ≡ line ++ (10 ∷ 13 ∷ 10 ∷ body) =
      sym (append-nil (encode_frame body))
      ∙ encode_frame-first_line body []
      ∙ ap (λ l. line ++ (10 ∷ 13 ∷ 10 ∷ l)) (append-nil body) in
    let size = length-encode_frame body in
    ap (λ f. decode_frame (take k f)) frame ∙ elim (Bool-cases (leb k (length line + 2))) [
      | inl header ↦
          partial_header k line body (first_line-IsPlain (length body))
            (length-first_line (length body)) ((leb_iff k (length line + 2)).0 header)
      | inr past ↦
          let j = k - (length line + 3) in
          let whole : k ≡ length line + (3 + j) = ground (arith, past) in
          ap (λ n. decode_frame (take n (line ++ (10 ∷ 13 ∷ 10 ∷ body)))) whole
          ∙ ap decode_frame (take_past j line body)
          ∙ partial_body j body small (omega (arith, size, h, whole))
    ]
