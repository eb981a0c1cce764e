-- ===== src/Symbol.antt =====
-- crates/princess-symbol/src/symbol.rs: the function-level answer for an address, and the walk along the
-- saved frame pointers. The DWARF lookup, the demangler and the guest's memory are parameters, and the
-- symbols are what `read_symbols` gives.
use Prim.Native.String.{String}
use princess_ide.Prelude.{
  ℕ, zero, suc, ◌+◌, ◌%◌, ◌^◌, ◌≤◌, Bool, true, false, not, ◌&&◌, ◌||◌, Option, none, some, List,
  [], ◌∷◌, ◌==◌, leb, ltb, if◌then◌else◌, Result, ok, err, ◌>>=◌,
}
use princess_ide.ErrorCode.{ErrorCode}
use princess_ide.GuestMem.{saturating_add}
mod Coarse
mod Chain
mod Tests

pub record SymbolInfo : Type 0 where
  pub name : String
  pub address : ℕ
  pub size : ℕ
  pub kind : String

pub record CoarseLocation : Type 0 where
  pub symbol : String
  pub raw_symbol : String
  pub address_start : ℕ
  pub address_end : ℕ
  pub exact : Bool

-- `size.max(1)`.
abbrev pub extent : SymbolInfo → ℕ
extent s = if ltb s.size 1 then 1 else s.size

unfoldable pub covers : SymbolInfo → ℕ → Bool
covers s address =
    if s.size == 0
    then address == s.address
    else leb s.address address && ltb address (saturating_add s.address s.size)

abbrev pub narrower : Option SymbolInfo → SymbolInfo → SymbolInfo
narrower none s = s
narrower (some prev) s = if leb (extent s) (extent prev) then s else prev

-- The loop of `coarse_location`.
unfoldable pub best_symbol : ℕ → Option SymbolInfo → List SymbolInfo → Option SymbolInfo
unfolding covers
best_symbol address best [] = best
best_symbol address best (s ∷ symbols) =
    best_symbol address (if not (covers s address) then best else some (narrower best s)) symbols

abbrev pub located : (String → String) → SymbolInfo → CoarseLocation
located demangle s = record {
  symbol = demangle s.name;
  raw_symbol = s.name;
  address_start = s.address;
  address_end = saturating_add s.address (extent s);
  exact = false;
}

unfoldable pub coarse_location :
    (demangle : String → String)
    → Result ErrorCode (List SymbolInfo)
    → ℕ
    → Result ErrorCode (Option CoarseLocation)
unfolding best_symbol
coarse_location demangle read address = read >>= λ symbols.
    ok
      (elim (best_symbol address none symbols) [ none ↦ none | some s ↦ some (located demangle s) ])

pub record StackFrameFacts (SourceLine : Type 0) : Type 0 where
  pub frame_pointer : ℕ
  pub return_address : ℕ
  pub location : Option SourceLine

-- Whether the chain fails to advance past the last frame, if there is one.
abbrev pub stuck : Option ℕ → ℕ → Bool
stuck none frame_pointer = false
stuck (some last) frame_pointer = leb frame_pointer last

module _ {SourceLine : Type 0} (source_line : ℕ → Result ErrorCode (Option SourceLine)) where
  -- The location of a frame: the outermost one has none.
  abbrev pub locate : ℕ → Result ErrorCode (Option SourceLine)
  locate return_address = if return_address == 0 then ok none else source_line return_address

  -- The end of a round of the loop, where a frame has been read; `rest` is the next round.
  abbrev pub push_frame :
      (frame_pointer next return_address : ℕ)
      (rest : Result ErrorCode (List (StackFrameFacts SourceLine)))
      → Result ErrorCode (List (StackFrameFacts SourceLine))
  push_frame frame_pointer next return_address rest = locate return_address >>= λ location.
      let frame : StackFrameFacts SourceLine = record {
        frame_pointer = frame_pointer;
        return_address = return_address;
        location = location;
      } in
      if (return_address == 0) || leb next frame_pointer
      then ok (frame ∷ [])
      else rest >>= λ frames. ok (frame ∷ frames)

  module _ (read_word : ℕ → Option ℕ) where
    -- The loop of `walk_frame_pointer_chain`, with the number of frames that may still be pushed and the
    -- frame pointer of the last one pushed: the frames that it pushes from here on.
    unfoldable pub walk_frames :
        ℕ → Option ℕ → ℕ → Result ErrorCode (List (StackFrameFacts SourceLine))
    walk_frames zero last frame_pointer = ok []
    walk_frames (suc room) last frame_pointer =
        if frame_pointer == 0
        then ok []
        else if stuck last frame_pointer
        then ok []
        else elim (read_word frame_pointer) [
          | none ↦ ok []
          | some next ↦ elim (read_word ((frame_pointer + 8) % 2 ^ 64)) [
            | none ↦ ok []
            | some return_address ↦
                push_frame frame_pointer next return_address
                  (walk_frames room (some frame_pointer) next)
          ]
        ]

    unfoldable pub walk_frame_pointer_chain :
        (rbp : ℕ) (max_frames : ℕ) → Result ErrorCode (List (StackFrameFacts SourceLine))
    unfolding walk_frames
    walk_frame_pointer_chain rbp max_frames = walk_frames max_frames none rbp
