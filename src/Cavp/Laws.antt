-- ===== src/Cavp/Laws.antt =====
-- The literals that the NIST generators write.
use etheorem.Common.{
  ℕ, ◌*◌, ◌/◌, ◌≡◌, refl, ap, true, false, some, List, [], ◌∷◌, ◌++◌, map, Text, codes, join,
  length, ◌==◌, arith,
}
use etheorem.Common.Strings.Digits.{hex, hex_byte, length-hex}
use etheorem.Common.Strings.Scan.Laws.{take-append}
use etheorem.Cavp.{by_two, byte_elems, lean_bytearray_literal, lean_md_literal}

by_two-hex : (bs : List ℕ) → by_two (hex bs) ≡ map hex_byte bs
unfolding by_two hex hex_byte
by_two-hex [] = refl
by_two-hex (b ∷ bs) = ap (λ r. hex_byte b ∷ r) (by_two-hex bs)

-- The literal of a list of bytes.
abbrev pub literal : List ℕ → Text
literal bs =
    codes "ByteArray.mk #["
    ++ (join (codes ", ") (map (λ p. codes "0x" ++ p) (map hex_byte bs)) ++ codes "]")

byte_elems-hex :
    (bs : List ℕ)
    → byte_elems (hex bs) ≡ join (codes ", ") (map (λ p. codes "0x" ++ p) (map hex_byte bs))
unfolding byte_elems
byte_elems-hex bs = rw (by_two-hex bs) refl

-- For a message of whole bytes whose hexadecimal text stands at the start of the `Msg` field, with
-- anything behind it, the literal has one element for each byte, in order, or is the empty array if
-- the length is 0; the literal of a digest of 32 bytes has its bytes in order.
pub lean_literals-hex :
    (b : ℕ) (bs : List ℕ) (pad : Text) (md : List ℕ)
    → length md ≡ 32
    → (lean_bytearray_literal (hex (b ∷ bs) ++ pad) (8 * length (b ∷ bs)) ≡ literal (b ∷ bs))
      × (lean_bytearray_literal pad 0 ≡ codes "ByteArray.empty")
      × (lean_md_literal (hex md) ≡ some (literal md))
unfolding lean_bytearray_literal lean_md_literal
lean_literals-hex b bs pad md h =
    let n : 8 * length (b ∷ bs) / 8 * 2 ≡ length (hex (b ∷ bs)) =
      omega (arith, length-hex (b ∷ bs)) in
    let some_bits : (8 * length (b ∷ bs) == 0) ≡ false = ground arith in
    let whole : (length (hex md) == 64) ≡ true = ground (arith, length-hex md) in
    (
      rw (some_bits, n, take-append (hex (b ∷ bs)) pad, byte_elems-hex (b ∷ bs)) refl,
      refl,
      rw (whole, byte_elems-hex md) refl,
    )
