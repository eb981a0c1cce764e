-- ===== src/Symbol/Tests.antt =====
-- A kernel with a function inside a section, and a stack with three frames of which the last but one
-- points at itself.
use princess_ide.Prelude.{
  false, ℕ, ◌≡◌, refl, Option, none, some, List, [], ◌∷◌, ◌==◌, if◌then◌else◌, Result, ok,
}
use princess_ide.ErrorCode.{ErrorCode}
use princess_ide.Symbol.{
  SymbolInfo, CoarseLocation, StackFrameFacts, coarse_location, walk_frame_pointer_chain,
}
use princess_ide.Symbol.Coarse.{Answer, coarse_location-narrowest}
use princess_ide.Symbol.Chain.{Walk, walk_frame_pointer_chain-Walk}

abbrev section : SymbolInfo
section = record { name = ".text"; address = 4096; size = 4096; kind = "SECTION" }

abbrev function : SymbolInfo
function = record { name = "kmain"; address = 4112; size = 32; kind = "FUNC" }

abbrev symbols : List SymbolInfo
symbols = function ∷ section ∷ []

in_function :
    coarse_location (λ s. s) (ok symbols) 4120
    ≡ ok (
        some (record {
          symbol = "kmain";
          raw_symbol = "kmain";
          address_start = 4112;
          address_end = 4144;
          exact = false;
        }))
unfolding coarse_location
in_function = refl

coarse_location-narrowest_example :
    (answer : Option CoarseLocation) × (coarse_location (λ s. s) (ok symbols) 4120 ≡ ok answer)
    × Answer 4120 symbols answer
coarse_location-narrowest_example = coarse_location-narrowest (λ s. s) symbols 4120

abbrev stack : ℕ → Option ℕ
stack a =
    if a == 100
    then some 200
    else if a == 108
    then some 7
    else if a == 200
    then some 200
    else if a == 208
    then some 9
    else none

abbrev no_line : ℕ → Result ErrorCode (Option ℕ)
no_line a = ok none

abbrev walked : List (StackFrameFacts ℕ)
walked =
    record { frame_pointer = 100; return_address = 7; location = none }
    ∷ record { frame_pointer = 200; return_address = 9; location = none }
    ∷ []

walk_frame_pointer_chain-Walk_example :
    Walk no_line stack 64 100 (walk_frame_pointer_chain no_line stack 100 64)
walk_frame_pointer_chain-Walk_example = walk_frame_pointer_chain-Walk no_line stack 100 64
