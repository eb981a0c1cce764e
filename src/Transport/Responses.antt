-- ===== src/Transport/Responses.antt =====
-- What a wait for a response returns, and what it keeps for the waits that come later.
use mathlib.Core.List.{append-nil, append_assoc}
use princess_ide.Prelude.{
  ℕ, ◌≡◌, refl, sym, ap, ◌∙◌, inl, inr, arith, true, false, Option, none, some, List, [], ◌∷◌, ◌++◌,
  ◌==◌, if◌then◌else◌, Option-cases, Bool-cases, ==_iff, Result, ok, err,
}
use princess_ide.Transport.{
  response, event, closed, Received, message, timed_out, disconnected, Transport, stash, unstash,
  push_event, close, Waited, wait_response,
}
use princess_ide.ErrorCode.{ErrorCode, qemu_failed}

module _ {Value : Type 0} where
  -- The events among some turns, in order.
  abbrev pub events_in : List (Received Value) → List Value
  events_in [] = []
  events_in (message (event e) ∷ turns) = e ∷ events_in turns
  events_in (message (response s m) ∷ turns) = events_in turns
  events_in (message (closed reason) ∷ turns) = events_in turns
  events_in (timed_out ∷ turns) = events_in turns
  events_in (disconnected ∷ turns) = events_in turns

  -- The last response to a request among some turns, or what there was before them.
  abbrev pub latest : ℕ → List (Received Value) → Option Value → Option Value
  latest seq [] before = before
  latest seq (message (event e) ∷ turns) before = latest seq turns before
  latest seq (message (response s m) ∷ turns) before =
      latest seq turns (if seq == s then some m else before)
  latest seq (message (closed reason) ∷ turns) before = latest seq turns before
  latest seq (timed_out ∷ turns) before = latest seq turns before
  latest seq (disconnected ∷ turns) before = latest seq turns before

  pub events_in-append :
      (xs ys : List (Received Value)) → events_in (xs ++ ys) ≡ events_in xs ++ events_in ys
  events_in-append [] ys = refl
  events_in-append (message (event e) ∷ xs) ys = ap (λ l. e ∷ l) (events_in-append xs ys)
  events_in-append (message (response s m) ∷ xs) ys = events_in-append xs ys
  events_in-append (message (closed reason) ∷ xs) ys = events_in-append xs ys
  events_in-append (timed_out ∷ xs) ys = events_in-append xs ys
  events_in-append (disconnected ∷ xs) ys = events_in-append xs ys

  pub latest-append :
      (seq : ℕ) (xs ys : List (Received Value)) (before : Option Value)
      → latest seq (xs ++ ys) before ≡ latest seq ys (latest seq xs before)
  latest-append seq [] ys before = refl
  latest-append seq (message (event e) ∷ xs) ys before = latest-append seq xs ys before
  latest-append seq (message (response s m) ∷ xs) ys before =
      latest-append seq xs ys (if seq == s then some m else before)
  latest-append seq (message (closed reason) ∷ xs) ys before = latest-append seq xs ys before
  latest-append seq (timed_out ∷ xs) ys before = latest-append seq xs ys before
  latest-append seq (disconnected ∷ xs) ys before = latest-append seq xs ys before

  -- A wait for `seq` on these turns, with its outcome.
  pub record Kept (seq : ℕ) (t : Transport Value) (turns : List (Received Value))
      (w : Waited Value Value) : Type 0 where
    pub used : List (Received Value)
    pub split : turns ≡ used ++ w.left
    pub events : w.after.events ≡ t.events ++ events_in used
    pub others : (s : ℕ) → (s == seq) ≡ false → w.after.early s ≡ latest s used (t.early s)
    pub own : (m : Value) → w.result ≡ ok m → some m ≡ latest seq used (t.early seq)
    pub numbers : w.after.next_seq ≡ t.next_seq

  wait_response-Kept-early :
      (seq : ℕ) (t : Transport Value) (turns : List (Received Value)) (m : Value)
      → t.early seq ≡ some m
      → Kept seq t turns (record { after = unstash seq t; result = ok m; left = turns })
  wait_response-Kept-early seq t turns m h = record {
    used = [];
    split = refl;
    events = sym (append-nil t.events);
    others = λ s apart. rw (apart) refl;
    own = λ m' e. ground arith;
    numbers = refl;
  }

  -- One turn that the wait goes on after, in front of a wait.
  Kept-turn :
      (seq : ℕ) (t t' : Transport Value) (turn : Received Value) (turns : List (Received Value))
      (w : Waited Value Value)
      → t'.events ≡ t.events ++ events_in (turn ∷ [])
      → ((s : ℕ) → t'.early s ≡ latest s (turn ∷ []) (t.early s))
      → t'.next_seq ≡ t.next_seq
      → Kept seq t' turns w
      → Kept seq t (turn ∷ turns) w
  Kept-turn seq t t' turn turns w events early numbers rest = record {
    used = turn ∷ rest.used;
    split = ap (λ l. turn ∷ l) rest.split;
    events =
        rest.events
        ∙ ap (λ l. l ++ events_in rest.used) events
        ∙ append_assoc t.events (events_in (turn ∷ [])) (events_in rest.used)
        ∙ ap (λ l. t.events ++ l) (sym (events_in-append (turn ∷ []) rest.used));
    others = λ s apart.
        rest.others s apart
        ∙ ap (latest s rest.used) (early s)
        ∙ sym (latest-append s (turn ∷ []) rest.used (t.early s));
    own = λ m e.
        rest.own m e
        ∙ ap (latest seq rest.used) (early seq)
        ∙ sym (latest-append seq (turn ∷ []) rest.used (t.early seq));
    numbers = rest.numbers ∙ numbers;
  }

  -- The last turn, which ends the wait.
  Kept-end :
      (seq : ℕ) (t t' : Transport Value) (turn : Received Value) (turns : List (Received Value))
      (result : Result ErrorCode Value)
      → t'.events ≡ t.events ++ events_in (turn ∷ [])
      → ((s : ℕ) → (s == seq) ≡ false → t'.early s ≡ latest s (turn ∷ []) (t.early s))
      → t'.next_seq ≡ t.next_seq
      → ((m : Value) → result ≡ ok m → some m ≡ latest seq (turn ∷ []) (t.early seq))
      → Kept seq t (turn ∷ turns) (record { after = t'; result = result; left = turns })
  Kept-end seq t t' turn turns result events others numbers own = record {
    used = turn ∷ [];
    split = refl;
    events = events;
    others = others;
    own = own;
    numbers = numbers;
  }

  -- The look for an early response, which comes first.
  early_first :
      (seq : ℕ) (t : Transport Value) (turns : List (Received Value))
      → (t.early seq ≡ none → Kept seq t turns (wait_response seq t turns))
      → Kept seq t turns (wait_response seq t turns)
  unfolding wait_response
  early_first seq t [] rest = elim (Option-cases (t.early seq)) [
    | inl nothing ↦ rest nothing
    | inr (m, there) ↦ rw (wait_response, there) (wait_response-Kept-early seq t [] m there)
  ]
  early_first seq t (turn ∷ turns) rest = elim (Option-cases (t.early seq)) [
    | inl nothing ↦ rest nothing
    | inr (m, there) ↦
        rw (wait_response, there) (wait_response-Kept-early seq t (turn ∷ turns) m there)
  ]

  -- A wait for a response returns no response but the last one to its own request, uses turns from the
  -- front only, and keeps the rest for later: the events of the used turns stand behind the ones from
  -- before, in order, and for every other request the last response that came is there.
  pub wait_response-Kept :
      (seq : ℕ) (t : Transport Value) (turns : List (Received Value))
      → Kept seq t turns (wait_response seq t turns)
  unfolding wait_response
  wait_response-Kept seq t [] = early_first seq t [] (λ nothing.
      rw (wait_response, nothing)
        (record {
          used = [];
          split = refl;
          events = sym (append-nil t.events);
          others = λ s apart. refl;
          own = λ m e. ground arith;
          numbers = refl;
        }))
  wait_response-Kept seq t (timed_out ∷ turns) = early_first seq t (timed_out ∷ turns) (λ nothing.
      rw (wait_response, nothing)
        (Kept-turn seq t t timed_out turns (wait_response seq t turns) (sym (append-nil t.events))
          (λ s. refl) refl (wait_response-Kept seq t turns)))
  wait_response-Kept seq t (disconnected ∷ turns) =
      early_first seq t (disconnected ∷ turns) (λ nothing.
        rw (wait_response, nothing)
          (Kept-end seq t (close "debug adapter reader thread stopped" t) disconnected turns
            (err qemu_failed) (sym (append-nil t.events)) (λ s apart. refl) refl
            (λ m e. ground arith)))
  wait_response-Kept seq t (message (event e) ∷ turns) =
      early_first seq t (message (event e) ∷ turns) (λ nothing.
        rw (wait_response, nothing)
          (Kept-turn seq t (push_event e t) (message (event e)) turns
            (wait_response seq (push_event e t) turns) refl (λ s. refl) refl
            (wait_response-Kept seq (push_event e t) turns)))
  wait_response-Kept seq t (message (closed reason) ∷ turns) =
      early_first seq t (message (closed reason) ∷ turns) (λ nothing.
        rw (wait_response, nothing)
          (Kept-end seq t (close reason t) (message (closed reason)) turns (err qemu_failed)
            (sym (append-nil t.events)) (λ s apart. refl) refl (λ m e. ground arith)))
  wait_response-Kept seq t (message (response s m) ∷ turns) =
      early_first seq t (message (response s m) ∷ turns) (λ nothing. elim (Bool-cases (s == seq)) [
        | inl own ↦
            let same = (==_iff s seq).0 own in
            let hit : (seq == s) ≡ true = (==_iff seq s).1 (sym same) in
            rw (wait_response, nothing, own)
              (Kept-end seq t t (message (response s m)) turns (ok m) (sym (append-nil t.events))
                (λ r apart. let miss : (r == s) ≡ false = rw same apart in rw miss refl) refl
                (λ m' e. rw hit (ground arith)))
        | inr other ↦
            rw (wait_response, nothing, other)
              (Kept-turn seq t (stash s m t) (message (response s m)) turns
                (wait_response seq (stash s m t) turns) (sym (append-nil t.events)) (λ r. refl) refl
                (wait_response-Kept seq (stash s m t) turns))
      ])
