-- ===== src/Cavp.antt =====
-- packages/LeanSha256/scripts/gen_sha256_cavp.py and
-- packages/hazmat/LeanHazmatSha256/scripts/gen_cavp.py: NIST's vectors as Lean examples. The two
-- scripts differ in the headers, in the name of the hash, and in the dash of a suite's title; those
-- are parameters. `int` reads ASCII digits here; of the other spellings that it takes no vector has one.
pub mod Laws
pub mod Tests
use mathlib.Core.Option
use mathlib.Core.List.{flatten}
use etheorem.Common.{
  ℕ, zero, suc, ◌+◌, ◌-◌, ◌*◌, ◌/◌, Bool, true, false, not, ◌&&◌, ◌||◌, Option, none, some, List,
  [], ◌∷◌, ◌++◌, map, Text, codes, text_eq, starts_with, join, is_empty, length, get_or, take, ◌==◌,
  if◌then◌else◌,
}
use etheorem.Common.Monad.{◌>>=◌}
use etheorem.Common.Outcome.{Outcome, passed, exits, raised}
use etheorem.Common.Unicode.{Unicode, is_word}
use etheorem.Common.Assoc.{lookup, assign}
use etheorem.Common.Strings.Lines.{lstrip, strip}
use etheorem.Common.Strings.Digits.{read_digits}
use etheorem.Common.Strings.Scan.{take_while, drop_while, behind}

-- A vector: the length in bits, and the hexadecimal texts of the message and of the digest.
pub record Triple : Type 0 where
  pub len_bits : ℕ
  pub msg_hex : Text
  pub md_hex : Text

abbrev pub int_of : Text → Option ℕ
int_of s = if is_empty s then none else read_digits 0 s

-- `^(\w+)\s*=\s*(.*)$` on a stripped line.
unfoldable pub assignment : Unicode → Text → Option (Text × Text)
unfolding take_while drop_while lstrip behind is_word
assignment u line = do
  let key = take_while (is_word u) line
  rest ← behind (codes "=") (lstrip (drop_while (is_word u) line))
  if is_empty key then none else some (key, lstrip rest)

-- `int(cur["Len"]), cur["Msg"], cur["MD"]`
unfoldable pub triple_of : List (Text × Text) → Option Triple
unfolding lookup read_digits
triple_of cur = do
  len ← lookup (codes "Len") cur
  bits ← int_of len
  msg ← lookup (codes "Msg") cur
  md ← lookup (codes "MD") cur
  some (record { len_bits = bits; msg_hex = msg; md_hex = md })

-- A line that carries nothing: it is empty, a comment, or a section's head.
unfoldable pub is_blank : Text → Bool
unfolding starts_with
is_blank line = is_empty line || (starts_with line (codes "#") || starts_with line (codes "["))

-- The triples of the lines, with the dict that is being filled; nothing where a triple lacks a
-- field or its length is no number.
unfoldable pub parse_from : Unicode → List (Text × Text) → List Text → Option (List Triple)
unfolding strip is_blank assignment assign text_eq triple_of
parse_from u cur [] = some []
parse_from u cur (raw ∷ lines) =
    let line = strip raw in
    let same = parse_from u cur lines in
    let fresh = parse_from u [] lines in
    if is_blank line then same else elim (assignment u line) [
      | none ↦ same
      | some (key, val) ↦
          if text_eq key (codes "MD")
          then (do t ← triple_of (assign key val cur); rest ← fresh; some (t ∷ rest))
          else parse_from u (assign key val cur) lines
    ]

unfoldable pub parse_rsp : Unicode → List Text → Option (List Triple)
unfolding parse_from
parse_rsp u lines = parse_from u [] lines

-- `[s[i:i+2] for i in range(0, len(s), 2)]`
unfoldable pub by_two : Text → List Text
by_two [] = []
by_two (a ∷ []) = (a ∷ []) ∷ []
by_two (a ∷ b ∷ s) = (a ∷ b ∷ []) ∷ by_two s

unfoldable pub byte_elems : Text → Text
unfolding join by_two
byte_elems s = join (codes ", ") (map (λ p. codes "0x" ++ p) (by_two s))

unfoldable pub lean_bytearray_literal : Text → ℕ → Text
unfolding byte_elems
lean_bytearray_literal hex_msg len_bits =
    if len_bits == 0
    then codes "ByteArray.empty"
    else codes "ByteArray.mk #[" ++ (byte_elems (take (len_bits / 8 * 2) hex_msg) ++ codes "]")

-- The assertion on the length, and the literal.
unfoldable pub lean_md_literal : Text → Option Text
unfolding byte_elems
lean_md_literal md_hex =
    if length md_hex == 64
    then some (codes "ByteArray.mk #[" ++ (byte_elems md_hex ++ codes "]"))
    else none

module _ (u : Unicode) (hash_call : Text) where
  unfoldable pub example_text : Triple → Option Text
  unfolding lean_bytearray_literal lean_md_literal
  example_text t = do
    md ← lean_md_literal t.md_hex
    some (
        codes "\nexample :\n  let msg := "
        ++ (lean_bytearray_literal t.msg_hex t.len_bits
            ++ (codes "\n  let md  := "
                ++ (md
                    ++ (codes "\n  " ++ (hash_call ++ codes " msg = md := by native_decide\n"))))))

  unfoldable pub example_texts : List Triple → Option (List Text)
  unfolding example_text
  example_texts [] = some []
  example_texts (t ∷ ts) = do text ← example_text t; rest ← example_texts ts; some (text ∷ rest)

  -- A suite: its title and its examples.
  unfoldable pub emit_examples : Text → List Text → Option (List Text)
  unfolding parse_rsp example_texts
  emit_examples title lines = do
    triples ← parse_rsp u lines
    texts ← example_texts triples
    some (title ∷ texts)

  -- `main`: the lines of the two files, of which one may be missing; then the script exits. The
  -- result is the text that is written.
  unfoldable pub main :
      Text → Text → (Text × Text) → Option (List Text) → Option (List Text) → Outcome Text
  unfolding emit_examples flatten
  main header footer titles none long = exits (codes "missing: cavp/SHA256ShortMsg.rsp")
  main header footer titles (some short) none = exits (codes "missing: cavp/SHA256LongMsg.rsp")
  main header footer titles (some short) (some long) = elim (emit_examples titles.0 short) [
    | none ↦ raised
    | some a ↦ elim (emit_examples titles.1 long) [
      | none ↦ raised
      | some b ↦ passed (header ++ (flatten a ++ (flatten b ++ footer)))
    ]
  ]
