-- ===== src/View/Tests.antt =====
-- Twenty bytes.
use princess_ide.Prelude.{ℕ, ◌≡◌, List, [], ◌∷◌, ◌++◌, length}
use princess_ide.View.{HexBuilder, build_hex}
use princess_ide.View.HexRows.{all_bytes, AreRows, build_hex-AreRows}

abbrev sixteen : List ℕ
sixteen = 80 ∷ 81 ∷ 82 ∷ 83 ∷ 84 ∷ 85 ∷ 86 ∷ 87 ∷ 0 ∷ 1 ∷ 2 ∷ 3 ∷ 4 ∷ 5 ∷ 6 ∷ 7 ∷ []

abbrev twenty : HexBuilder
twenty = record { bytes_given = sixteen ++ (65 ∷ 66 ∷ 127 ∷ 255 ∷ []); base = 4096 }

build_hex-AreRows_example :
    (all_bytes (build_hex twenty).rows ≡ twenty.bytes_given)
    × AreRows twenty.base (build_hex twenty).rows
    × ((build_hex twenty).total_size ≡ length (all_bytes (build_hex twenty).rows))
build_hex-AreRows_example = build_hex-AreRows twenty
