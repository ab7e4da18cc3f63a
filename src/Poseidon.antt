-- ===== src/Poseidon.antt =====
-- packages/LeanPoseidon/scripts/gen_poseidon_params.py: the parameters of an instance from its data
-- file, and the Lean text. The JSON data is a record; an assertion that fails, an index out of range
-- and a spelling that `int` refuses are `none`.
pub mod Laws
pub mod Main
pub mod Tests
use mathlib.Core.Option
use etheorem.Common.{
  ℕ, zero, suc, ◌+◌, ◌-◌, ◌*◌, ◌/◌, ◌^◌, Bool, true, false, not, ◌&&◌, Option, none, some, List, [],
  ◌∷◌, ◌++◌, map, Text, codes, join, is_empty, length, get_elem?, take, ltb, ◌==◌, if◌then◌else◌,
}
use mathlib.Core.List.{flatten}
use etheorem.Common.Monad.{◌>>=◌}
use etheorem.Common.Strings.Digits.{decimal, read_hex, hex_fixed}
use etheorem.Common.Strings.Scan.{behind}

pub record PoseidonData : Type 0 where
  pub modulus : ℕ
  pub t : ℕ
  pub rounds_f : ℕ
  pub rounds_p : ℕ
  pub sbox_degree : ℕ
  pub rc : List (List Text)
  pub diag_m1 : List Text

-- The rounds `start, …, start + n - 1` with all their entries, up to `t` of each.
unfoldable pub full_rounds : List (List Text) → ℕ → ℕ → ℕ → Option (List Text)
full_rounds rc start zero t = some []
full_rounds rc start (suc n) t = do
  row ← get_elem? rc start
  rest ← full_rounds rc (suc start) n t
  some (take t row ++ rest)

-- The first entries of the rounds.
unfoldable pub partial_rounds : List (List Text) → ℕ → ℕ → Option (List Text)
partial_rounds rc start zero = some []
partial_rounds rc start (suc n) = do
  row ← get_elem? rc start
  entry ← get_elem? row 0
  rest ← partial_rounds rc (suc start) n
  some (entry ∷ rest)

unfoldable pub flatten_round_constants : List (List Text) → ℕ → ℕ → ℕ → Option (List Text)
unfolding full_rounds partial_rounds
flatten_round_constants rc half_full partial t = do
  a ← full_rounds rc 0 half_full t
  b ← partial_rounds rc half_full partial
  c ← full_rounds rc (half_full + partial) half_full t
  some (a ++ (b ++ c))

-- `int(h, 16)` of hexadecimal digits, with the prefix or without.
unfoldable pub int16 : Text → Option ℕ
unfolding behind read_hex
int16 h =
    let digits : Text = elim (behind (codes "0x") h) [ none ↦ h | some rest ↦ rest ] in
    if is_empty digits then none else read_hex 0 digits

unfoldable pub canonical_hex : ℕ → Text → Option Text
unfolding int16 hex_fixed
canonical_hex modulus h = do
  n ← int16 h
  if ltb n modulus then some (codes "0x" ++ hex_fixed 64 n) else none

-- The entries `0, …, t - 1` of a row, each of which has to be there.
unfoldable pub cells : ℕ → List Text → Option (List Text)
cells zero row = some []
cells (suc t) [] = none
cells (suc t) (h ∷ row) = do rest ← cells t row; some (h ∷ rest)

-- The constants of the full rounds as the emitting loops visit them.
unfoldable pub visit_full : List (List Text) → ℕ → ℕ → ℕ → Option (List Text)
unfolding cells
visit_full rc start zero t = some []
visit_full rc start (suc n) t = do
  row ← get_elem? rc start
  here ← cells t row
  rest ← visit_full rc (suc start) n t
  some (here ++ rest)

-- One line of a constant, with what stands behind it.
abbrev pub constant_line : Text → Text → Text → Text
constant_line field sep hex =
    codes "    " ++ (field ++ (codes ".ofNat " ++ (hex ++ (sep ++ codes "\n"))))

unfoldable pub constant_lines : ℕ → Text → List Text → Option (List Text)
unfolding canonical_hex
constant_lines modulus field [] = some []
constant_lines modulus field (h ∷ hs) = do
  hex ← canonical_hex modulus h
  rest ← constant_lines modulus field hs
  some (constant_line field (codes ",") hex ∷ rest)

-- The end rounds' lines: the very last one has no comma.
unfoldable pub end_lines : ℕ → Text → List Text → Option (List Text)
unfolding canonical_hex
end_lines modulus field [] = some []
end_lines modulus field (h ∷ hs) = do
  hex ← canonical_hex modulus h
  rest ← end_lines modulus field hs
  some (constant_line field (if is_empty hs then [] else codes ",") hex ∷ rest)

-- The three loops over the rounds: the constants that are emitted, in order.
unfoldable pub visited : PoseidonData → Option (List Text × List Text × List Text)
unfolding visit_full partial_rounds
visited data_ = do
  a ← visit_full data_.rc 0 (data_.rounds_f / 2) data_.t
  b ← partial_rounds data_.rc (data_.rounds_f / 2) data_.rounds_p
  c ← visit_full data_.rc (data_.rounds_f / 2 + data_.rounds_p) (data_.rounds_f / 2) data_.t
  some (a, b, c)

unfoldable pub diagonal : Text → List Text → Option (List Text)
unfolding int16 decimal
diagonal field [] = some []
diagonal field (d ∷ ds) = do
  n ← int16 d
  rest ← diagonal field ds
  some ((field ++ (codes ".ofNat " ++ decimal (n + 1))) ∷ rest)

-- The assertions on the shape.
unfoldable pub shape_holds : PoseidonData → List Text → Bool
shape_holds data_ flat =
    (length data_.rc == data_.rounds_f + data_.rounds_p)
    && ((length data_.diag_m1 == data_.t)
        && (length flat == data_.rounds_f * data_.t + data_.rounds_p))

unfoldable pub guard_line : Text → Text → ℕ → Text
unfolding decimal
guard_line name field n =
    codes "#guard "
    ++ (name ++ (codes "." ++ (field ++ (codes " = " ++ (decimal n ++ codes "\n")))))

unfoldable pub field_line : Text → ℕ → Text
unfolding decimal
field_line field n = codes "  " ++ (field ++ (codes " := " ++ (decimal n ++ codes "\n")))

unfoldable pub shape_check : PoseidonData → List Text → Option (Unit {0})
unfolding shape_holds
shape_check data_ flat = if shape_holds data_ flat then some tt else none

-- The doc comment in front of an instance.
abbrev pub doc_text : Text → Text → Text
doc_text name field =
    codes "/-- Pinned BN254/BLS-style Poseidon2 instance `"
    ++ (name
        ++ (codes "` over `"
            ++ (field
                ++ (codes "`,\ngenerated from `zkhash` v0.2.0 (see the generator header). `"
                    ++ (field
                        ++ codes
                            ".ofNat`\nreduces each literal mod the modulus; every constant is already canonical. -/\n")))))

-- `{half-1}`
unfoldable pub before_text : ℕ → Text
unfolding decimal
before_text zero = codes "-1"
before_text (suc n) = decimal n

-- The text of an instance: the definition, the constants, and the shape gates.
unfoldable pub emit_instance : Text → Text → PoseidonData → Option Text
unfolding flatten_round_constants shape_check visited before_text constant_lines end_lines diagonal
    join guard_line field_line flatten
emit_instance name field data_ = do
  flat ← flatten_round_constants data_.rc (data_.rounds_f / 2) data_.rounds_p data_.t
  checked ← shape_check data_ flat
  (a, b, c) ← visited data_
  first ← constant_lines data_.modulus field a
  middle ← constant_lines data_.modulus field b
  last ← end_lines data_.modulus field c
  diag ← diagonal field data_.diag_m1
  some (
      flatten (
        doc_text name field
        ∷ (codes "def " ++ (name ++ (codes " : Params " ++ (field ++ codes " where\n"))))
        ∷ field_line (codes "t") data_.t
        ∷ field_line (codes "fullRounds") data_.rounds_f
        ∷ field_line (codes "partialRounds") data_.rounds_p
        ∷ field_line (codes "sboxDegree") data_.sbox_degree
        ∷ codes "  roundConstants := #[\n"
        ∷ (codes "    -- beginning full rounds 0.."
            ++ (before_text (data_.rounds_f / 2)
                ++ (codes " (" ++ (decimal data_.t ++ codes " entries each)\n"))))
        ∷ flatten first
        ∷ codes "    -- partial rounds (entry 0 only)\n"
        ∷ flatten middle
        ∷ (codes "    -- end full rounds (" ++ (decimal data_.t ++ codes " entries each)\n"))
        ∷ flatten last
        ∷ codes "  ]\n"
        ∷ (codes "  intDiag := #[" ++ (join (codes ", ") diag ++ codes "]\n\n"))
        ∷ codes "/-! ## Shape gates -/\n"
        ∷ guard_line name (codes "t") data_.t
        ∷ guard_line name (codes "fullRounds") data_.rounds_f
        ∷ guard_line name (codes "partialRounds") data_.rounds_p
        ∷ guard_line name (codes "roundConstants.size") (data_.rounds_f * data_.t + data_.rounds_p)
        ∷ guard_line name (codes "intDiag.size") data_.t
        ∷ codes "\n"
        ∷ []))
