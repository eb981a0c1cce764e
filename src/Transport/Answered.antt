-- ===== src/Transport/Answered.antt =====
-- A response that comes is returned, whether it comes before or after the response to another request.
use mathlib.Core.List.{append_assoc}
use princess_ide.Prelude.{
  ℕ, ◌≡◌, refl, sym, ◌∙◌, inl, inr, arith, Bool, true, false, not, Option, none, some, List, [],
  ◌∷◌, ◌++◌, ◌==◌, All, Bool-cases, ==_iff, ok,
}
use princess_ide.Transport.{
  response, event, closed, Received, message, timed_out, disconnected, Transport, stash, push_event,
  Waited, wait_response,
}
use princess_ide.Transport.Responses.{latest, latest-append}

self : (n : ℕ) → (n == n) ≡ true
self n = (==_iff n n).1 refl

apart : (m n : ℕ) → (m == n) ≡ false → (n == m) ≡ false
apart m n h = elim (Bool-cases (n == m)) [
  | inr e ↦ e
  | inl e ↦ let back = (==_iff m n).1 (sym ((==_iff n m).0 e)) in absurd (ground arith)
]

module _ {Value : Type 0} where
  -- A turn that a wait for `seq` goes on after.
  abbrev pub passes : ℕ → Received Value → Bool
  passes seq timed_out = true
  passes seq disconnected = false
  passes seq (message (event e)) = true
  passes seq (message (closed reason)) = false
  passes seq (message (response s m)) = not (s == seq)

  abbrev pub IsQuiet : ℕ → List (Received Value) → Type 0
  IsQuiet seq turns = All (λ turn. passes seq turn ≡ true) turns

  -- A wait for `seq` that ended with the response `m`, after the turns `xs`.
  pub record Answered (seq : ℕ) (t : Transport Value) (xs : List (Received Value)) (m : Value)
      (rest : List (Received Value)) (w : Waited Value Value) : Type 0 where
    pub result : w.result ≡ ok m
    pub left : w.left ≡ rest
    pub early : (s : ℕ) → w.after.early s ≡ latest s xs (t.early s)

  -- A wait for a response that is not there yet returns it when it comes: what may come before it are
  -- events, responses to other requests and turns with nothing.
  pub wait_response-Answered :
      (seq : ℕ) (t : Transport Value) (xs : List (Received Value)) (m : Value)
      (rest : List (Received Value))
      → t.early seq ≡ none
      → IsQuiet seq xs
      → Answered seq t xs m rest (wait_response seq t (xs ++ message (response seq m) ∷ rest))
  unfolding wait_response
  wait_response-Answered seq t [] m rest nothing quiet =
      rw (wait_response, nothing, self seq)
        (record { result = refl; left = refl; early = λ s. refl })
  wait_response-Answered seq t (timed_out ∷ xs) m rest nothing (_, quiet) =
      let go = wait_response-Answered seq t xs m rest nothing quiet in
      rw (wait_response, nothing) (record { result = go.result; left = go.left; early = go.early })
  wait_response-Answered seq t (disconnected ∷ xs) m rest nothing (q, quiet) = absurd (ground arith)
  wait_response-Answered seq t (message (event e) ∷ xs) m rest nothing (_, quiet) =
      let go = wait_response-Answered seq (push_event e t) xs m rest nothing quiet in
      rw (wait_response, nothing) (record { result = go.result; left = go.left; early = go.early })
  wait_response-Answered seq t (message (closed reason) ∷ xs) m rest nothing (q, quiet) =
      absurd (ground arith)
  wait_response-Answered seq t (message (response s n) ∷ xs) m rest nothing (q, quiet) =
      elim (Bool-cases (s == seq)) [
        | inl own ↦ absurd (ground arith)
        | inr other ↦
            let miss : (seq == s) ≡ false = apart s seq other in
            let go = wait_response-Answered seq (stash s n t) xs m rest (rw miss nothing) quiet in
            rw (wait_response, nothing, other)
              (record { result = go.result; left = go.left; early = go.early })
      ]

  latest-IsQuiet :
      (seq : ℕ) (xs : List (Received Value)) (before : Option Value)
      → IsQuiet seq xs
      → latest seq xs before ≡ before
  latest-IsQuiet seq [] before quiet = refl
  latest-IsQuiet seq (timed_out ∷ xs) before (_, quiet) = latest-IsQuiet seq xs before quiet
  latest-IsQuiet seq (disconnected ∷ xs) before (_, quiet) = latest-IsQuiet seq xs before quiet
  latest-IsQuiet seq (message (event e) ∷ xs) before (_, quiet) = latest-IsQuiet seq xs before quiet
  latest-IsQuiet seq (message (closed reason) ∷ xs) before (_, quiet) =
      latest-IsQuiet seq xs before quiet
  latest-IsQuiet seq (message (response s m) ∷ xs) before (q, quiet) =
      elim (Bool-cases (s == seq)) [
        | inl own ↦ absurd (ground arith)
        | inr other ↦ rw (apart s seq other) (latest-IsQuiet seq xs before quiet)
      ]

  IsQuiet-append :
      (seq : ℕ) (xs ys : List (Received Value))
      → IsQuiet seq xs
      → IsQuiet seq ys
      → IsQuiet seq (xs ++ ys)
  IsQuiet-append seq [] ys p q = q
  IsQuiet-append seq (x ∷ xs) ys (h, p) q = (h, IsQuiet-append seq xs ys p q)

  early_response :
      (seq : ℕ) (t : Transport Value) (turns : List (Received Value)) (m : Value)
      → t.early seq ≡ some m
      → ((wait_response seq t turns).result ≡ ok m) × ((wait_response seq t turns).left ≡ turns)
  unfolding wait_response
  early_response seq t [] m there = rw (wait_response, there) (refl, refl)
  early_response seq t (turn ∷ turns) m there = rw (wait_response, there) (refl, refl)

  -- Two requests are under way and the response to the one comes before the response to the other: the
  -- waits for both get their own responses in whichever order the caller waits.
  pub responses_in_either_order :
      (a b : ℕ) (t : Transport Value) (xs ys : List (Received Value)) (m n : Value)
      (rest : List (Received Value))
      → (b == a) ≡ false
      → t.early a ≡ none
      → t.early b ≡ none
      → IsQuiet a xs
      → IsQuiet b xs
      → IsQuiet a ys
      → IsQuiet b ys
      → let turns = xs ++ (message (response b n) ∷ (ys ++ (message (response a m) ∷ rest))) in
        let first_a = wait_response a t turns in
        let then_b = wait_response b first_a.after first_a.left in
        let first_b = wait_response b t turns in
        let then_a = wait_response a first_b.after first_b.left in
        (first_a.result ≡ ok m)
        × (then_b.result ≡ ok n)
        × (then_b.left ≡ rest)
        × (first_b.result ≡ ok n)
        × (then_a.result ≡ ok m)
        × (then_a.left ≡ rest)
  unfolding wait_response
  responses_in_either_order a b t xs ys m n rest differ none_a none_b qa qb ra rb =
      let ahead = xs ++ (message (response b n) ∷ ys) in
      let turns = xs ++ (message (response b n) ∷ (ys ++ (message (response a m) ∷ rest))) in
      let quiet : IsQuiet a ahead =
        IsQuiet-append a xs (message (response b n) ∷ ys) qa (rw differ refl, ra) in
      let first_a : Answered a t ahead m rest (wait_response a t turns) =
        rw (sym (append_assoc xs (message (response b n) ∷ ys) (message (response a m) ∷ rest)))
          (wait_response-Answered a t ahead m rest none_a quiet) in
      let kept : (wait_response a t turns).after.early b ≡ some n =
        first_a.early b
        ∙ latest-append b xs (message (response b n) ∷ ys) (t.early b)
        ∙ rw (self b) (latest-IsQuiet b ys (some n) rb) in
      let then_b =
        early_response b (wait_response a t turns).after (wait_response a t turns).left n kept in
      let first_b =
        wait_response-Answered b t xs n (ys ++ message (response a m) ∷ rest) none_b qb in
      let still = first_b.early a ∙ latest-IsQuiet a xs (t.early a) qa ∙ none_a in
      let then_a = wait_response-Answered a (wait_response b t turns).after ys m rest still ra in
      (
        first_a.result,
        then_b.0,
        then_b.1 ∙ first_a.left,
        first_b.result,
        rw (first_b.left) then_a.result,
        rw (first_b.left) then_a.left,
      )
