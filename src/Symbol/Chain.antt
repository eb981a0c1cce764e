-- ===== src/Symbol/Chain.antt =====
-- The frames that the walk along the saved frame pointers finds.
use mathlib.Core.Path.{subst}
use princess_ide.Prelude.{
  ℕ, zero, suc, ◌+◌, ◌%◌, ◌^◌, ◌≤◌, ◌<◌, ◌≡◌, ◌≢◌, ◌⊎◌, refl, ap, ◌∙◌, inl, inr, arith, false,
  Option, none, some, List, [], ◌∷◌, length, ◌==◌, leb, leb_iff, ==_iff, Option-cases, Bool-cases,
  Result, ok, err, ◌>>=◌, Result-cases,
}
use princess_ide.ErrorCode.{ErrorCode}
use princess_ide.Symbol.{StackFrameFacts, stuck, walk_frames, push_frame, walk_frame_pointer_chain}

module _ {SourceLine : Type 0} (source_line : ℕ → Result ErrorCode (Option SourceLine))
    (read_word : ℕ → Option ℕ) where
  abbrev above : ℕ → ℕ
  above frame_pointer = (frame_pointer + 8) % 2 ^ 64

  -- Nothing is to be read for a frame here.
  abbrev pub IsEnd : ℕ → Type 0
  IsEnd frame_pointer =
      (frame_pointer ≡ 0)
      ⊎ ((read_word frame_pointer ≡ none) ⊎ (read_word (above frame_pointer) ≡ none))

  abbrev pub frame_of : ℕ → ℕ → Option SourceLine → StackFrameFacts SourceLine
  frame_of frame_pointer return_address location = record {
    frame_pointer = frame_pointer;
    return_address = return_address;
    location = location;
  }

  -- The frames of a chain from a frame pointer, as memory has them, up to a number of them.
  pub data Chain : ℕ → ℕ → List (StackFrameFacts SourceLine) → Type 0 where
    full : (fp : ℕ) → Chain 0 fp []
    end : (room fp : ℕ) → IsEnd fp → Chain (suc room) fp []
    outermost :
        (room fp next : ℕ)
        → fp ≢ 0
        → read_word fp ≡ some next
        → read_word (above fp) ≡ some 0
        → Chain (suc room) fp (frame_of fp 0 none ∷ [])
    astray :
        (room fp next ret : ℕ) (location : Option SourceLine)
        → fp ≢ 0
        → read_word fp ≡ some next
        → read_word (above fp) ≡ some ret
        → ret ≢ 0
        → source_line ret ≡ ok location
        → next ≤ fp
        → Chain (suc room) fp (frame_of fp ret location ∷ [])
    called :
        (room fp next ret : ℕ) (location : Option SourceLine)
        (frames : List (StackFrameFacts SourceLine))
        → fp ≢ 0
        → read_word fp ≡ some next
        → read_word (above fp) ≡ some ret
        → ret ≢ 0
        → source_line ret ≡ ok location
        → fp < next
        → Chain room next frames
        → Chain (suc room) fp (frame_of fp ret location ∷ frames)

  -- The walk by its result.
  abbrev pub Walk : ℕ → ℕ → Result ErrorCode (List (StackFrameFacts SourceLine)) → Type 0
  Walk room fp (ok frames) = Chain room fp frames
  Walk room fp (err e) = (ret : ℕ) × (source_line ret ≡ err e)

  extend :
      (room fp next ret : ℕ) (location : Option SourceLine)
      (rest : Result ErrorCode (List (StackFrameFacts SourceLine)))
      → fp ≢ 0
      → read_word fp ≡ some next
      → read_word (above fp) ≡ some ret
      → ret ≢ 0
      → source_line ret ≡ ok location
      → fp < next
      → Walk room next rest
      → Walk (suc room) fp (rest >>= λ frames. ok (frame_of fp ret location ∷ frames))
  extend room fp next ret location (ok frames) real saved pushed caller found further chain =
      called room fp next ret location frames real saved pushed caller found further chain
  extend room fp next ret location (err e) real saved pushed caller found further failed = failed

  push_frame-Walk :
      (room fp next ret : ℕ) (rest : Result ErrorCode (List (StackFrameFacts SourceLine)))
      → fp ≢ 0
      → read_word fp ≡ some next
      → read_word (above fp) ≡ some ret
      → (fp < next → Walk room next rest)
      → Walk (suc room) fp (push_frame source_line fp next ret rest)
  push_frame-Walk room fp next ret rest real saved pushed go = elim (Bool-cases (ret == 0)) [
    | inl sentinel ↦
        let at : ret ≡ 0 = (==_iff ret 0).0 sentinel in
        rw at (outermost room fp next real saved (pushed ∙ ap (λ r. some r) at))
    | inr caller ↦
        let not_null : ret ≢ 0 = ground (arith, caller) in
        elim (Result-cases (source_line ret)) [
          | inr (e, failed) ↦ rw (caller, failed) (ret, failed)
          | inl (location, found) ↦ elim (Bool-cases (leb next fp)) [
            | inl back ↦
                rw (caller, found, back)
                  (astray room fp next ret location real saved pushed not_null found
                    ((leb_iff next fp).0 back))
            | inr on ↦
                let further : fp < next = ground (arith, on) in
                rw (caller, found, on)
                  (extend room fp next ret location rest real saved pushed not_null found further
                    (go further))
          ]
        ]
  ]

  abbrev Advances : Option ℕ → ℕ → Type 0
  Advances last fp = stuck last fp ≡ false

  walk_frames-Walk :
      (room : ℕ) (last : Option ℕ) (fp : ℕ)
      → Advances last fp
      → Walk room fp (walk_frames source_line read_word room last fp)
  unfolding walk_frames
  walk_frames-Walk zero last fp forward = full fp
  walk_frames-Walk (suc room) last fp forward = elim (Bool-cases (fp == 0)) [
    | inl null ↦ rw (walk_frames, null) (end room fp (inl ((==_iff fp 0).0 null)))
    | inr there ↦
        let real : fp ≢ 0 = ground (arith, there) in
        elim (Option-cases (read_word fp)) [
          | inl unread ↦ rw (walk_frames, there, forward, unread) (end room fp (inr (inl unread)))
          | inr (next, saved) ↦ elim (Option-cases (read_word (above fp))) [
            | inl unread ↦
                rw (walk_frames, there, forward, saved, unread) (end room fp (inr (inr unread)))
            | inr (ret, pushed) ↦
                rw (walk_frames, there, forward, saved, pushed)
                  (push_frame-Walk room fp next ret
                    (walk_frames source_line read_word room (some fp) next) real saved pushed
                    (λ more. walk_frames-Walk room (some fp) next (ground (arith, more))))
          ]
        ]
  ]

  -- The walk returns the frames of the chain from the given frame pointer as memory has them, as many as
  -- fit into the limit and as there are up to the outermost frame, the first that cannot be read, or
  -- the first saved pointer that does not advance. It fails only when the line lookup fails.
  pub walk_frame_pointer_chain-Walk :
      (rbp max_frames : ℕ)
      → Walk max_frames rbp (walk_frame_pointer_chain source_line read_word rbp max_frames)
  unfolding walk_frame_pointer_chain
  walk_frame_pointer_chain-Walk rbp max_frames = walk_frames-Walk max_frames none rbp refl

  -- The frame pointers rise strictly.
  abbrev pub IsRising : List (StackFrameFacts SourceLine) → Type 0
  IsRising [] = Unit
  IsRising (f ∷ []) = Unit
  IsRising (f ∷ g ∷ frames) = (f.frame_pointer < g.frame_pointer) × IsRising (g ∷ frames)

  Chain-length :
      {room fp : ℕ} {frames : List (StackFrameFacts SourceLine)}
      → Chain room fp frames
      → length frames ≤ room
  Chain-length (full fp) = omega arith
  Chain-length (end room fp e) = omega arith
  Chain-length (outermost room fp next a b c) = omega arith
  Chain-length (astray room fp next ret location a b c d e f) = omega arith
  Chain-length (called room fp next ret location frames a b c d e f chain) =
      omega (arith, Chain-length chain)

  -- A frame below the start of a chain.
  IsRising-cons :
      {room next : ℕ} {rest : List (StackFrameFacts SourceLine)} (f : StackFrameFacts SourceLine)
      → f.frame_pointer < next
      → Chain room next rest
      → IsRising rest
      → IsRising (f ∷ rest)
  IsRising-cons f below (full fp) rising = tt
  IsRising-cons f below (end room fp e) rising = tt
  IsRising-cons f below (outermost room fp next a b c) rising = (below, rising)
  IsRising-cons f below (astray room fp next ret location a b c d e g) rising = (below, rising)
  IsRising-cons f below (called room fp next ret location frames a b c d e g chain) rising =
      (below, rising)

  Chain-IsRising :
      {room fp : ℕ} {frames : List (StackFrameFacts SourceLine)}
      → Chain room fp frames
      → IsRising frames
  Chain-IsRising (full fp) = tt
  Chain-IsRising (end room fp e) = tt
  Chain-IsRising (outermost room fp next a b c) = tt
  Chain-IsRising (astray room fp next ret location a b c d e f) = tt
  Chain-IsRising (called room fp next ret location frames a b c d e f chain) =
      IsRising-cons (frame_of fp ret location) f chain (Chain-IsRising chain)

  -- The walk returns no more frames than the limit, and their frame pointers rise strictly, whatever
  -- the guest's memory holds.
  pub walk_frame_pointer_chain-bound :
      (rbp max_frames : ℕ) (frames : List (StackFrameFacts SourceLine))
      → walk_frame_pointer_chain source_line read_word rbp max_frames ≡ ok frames
      → (length frames ≤ max_frames) × IsRising frames
  walk_frame_pointer_chain-bound rbp max_frames frames h =
      let chain = subst (Walk max_frames rbp) h (walk_frame_pointer_chain-Walk rbp max_frames) in
      (Chain-length chain, Chain-IsRising chain)
