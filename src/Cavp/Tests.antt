-- ===== src/Cavp/Tests.antt =====
-- The NIST generators on one vector.
use etheorem.Common.{ℕ, ◌*◌, ◌≡◌, refl, none, some, List, [], ◌∷◌, ◌++◌, codes, length}
use etheorem.Common.Outcome.{exits}
use etheorem.Common.Strings.Digits.{hex}
use etheorem.Common.Unicode.{ascii_only}
use etheorem.Cavp.{parse_rsp, lean_bytearray_literal, lean_md_literal, main}
use etheorem.Cavp.Laws.{literal, lean_literals-hex}

parsed :
    parse_rsp ascii_only (
      codes "#  CAVS\n"
      ∷ codes "[L = 32]\n"
      ∷ codes "Len = 8\r\n"
      ∷ codes "Msg = d3\n"
      ∷ codes "MD = 28\n"
      ∷ [])
    ≡ some (record { len_bits = 8; msg_hex = codes "d3"; md_hex = codes "28" } ∷ [])
unfolding parse_rsp
parsed = refl

literals :
    (lean_bytearray_literal (codes "d3a1") 8 ≡ codes "ByteArray.mk #[0xd3]")
    × (lean_md_literal (codes "28") ≡ none)
unfolding lean_bytearray_literal lean_md_literal
literals = (refl, refl)

missing :
    main ascii_only (codes "hash") (codes "h") (codes "f") (codes "s", codes "l") none none
    ≡ exits (codes "missing: cavp/SHA256ShortMsg.rsp")
unfolding main
missing = refl

abbrev md_bytes : List ℕ
md_bytes =
    0 ∷ 1 ∷ 2 ∷ 3 ∷ 4 ∷ 5 ∷ 6 ∷ 7 ∷ 8 ∷ 9 ∷ 10 ∷ 11 ∷ 12 ∷ 13 ∷ 14 ∷ 15 ∷ 16 ∷ 17 ∷ 18 ∷ 19 ∷ 20
    ∷ 21 ∷ 22 ∷ 23 ∷ 24 ∷ 25 ∷ 26 ∷ 27 ∷ 28 ∷ 29 ∷ 30 ∷ 255 ∷ []

abbrev message : List ℕ
message = 211 ∷ 10 ∷ []

lean_literals-hex_example :
    (lean_bytearray_literal (hex message ++ codes "00") (8 * length message) ≡ literal message)
    × (lean_bytearray_literal (codes "00") 0 ≡ codes "ByteArray.empty")
    × (lean_md_literal (hex md_bytes) ≡ some (literal md_bytes))
lean_literals-hex_example = lean_literals-hex 211 (10 ∷ []) (codes "00") md_bytes refl
