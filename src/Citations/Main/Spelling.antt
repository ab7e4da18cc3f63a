-- ===== src/Citations/Main/Spelling.antt =====
-- The new text of a citation, which `--fix` of scripts/check_citations.py writes, is itself a
-- citation of the same path and the new lines.
use etheorem.Common.{
  ℕ, zero, suc, ◌+◌, ◌-◌, ◌*◌, ◌/◌, ◌%◌, ◌≡◌, inl, inr, refl, true, false, Option, none, some, [],
  ◌∷◌, ◌++◌, append_assoc, Text, codes, length, length-append, take, All, is_empty, ltb, arith,
  Option-cases,
}
use etheorem.Common.Unicode.{Unicode, digit_value, is_digit_ascii}
use etheorem.Common.Strings.Digits.{
  is_digit, decimal_loop, decimal, read_digits, read_digits-decimal, IsDigit, decimal-IsDigit,
}
use etheorem.Common.Strings.Scan.{take_while, drop_while, behind}
use etheorem.Common.Strings.Scan.Laws.{IsRun, take_while-run, take-append, behind-append}
use etheorem.Citations.Collect.{Citation}
use etheorem.Citations.Main.{replacement}
use etheorem.Citations.Main.Fix.{moved}
use etheorem.Citations.Patterns
use etheorem.Citations.Patterns.{Found, digits_run, is_path_char, citation_at}

decimal_loop-full : (f n : ℕ) (c : ℕ) (out : Text) → is_empty (decimal_loop f n (c ∷ out)) ≡ false
unfolding decimal_loop
decimal_loop-full zero n c out = refl
decimal_loop-full (suc f) n c out =
    ground (arith, decimal_loop-full f (n / 10) (b'0' + n % 10) (c ∷ out))

decimal-full : (n : ℕ) → is_empty (decimal n) ≡ false
unfolding decimal decimal_loop
decimal-full zero = refl
decimal-full (suc n) = ground (arith, decimal_loop-full n (suc n / 10) (b'0' + suc n % 10) [])

module _ (u : Unicode) where
  digit_value-IsDigit : (c : ℕ) → IsDigit c → digit_value u c ≡ some (c - b'0')
  unfolding digit_value
  digit_value-IsDigit c h = ground arith

  not_digit : (c : ℕ) → ltb c 128 ≡ true → is_digit_ascii c ≡ false → digit_value u c ≡ none
  unfolding digit_value
  not_digit c h k = rw (h, k) refl

  -- Digits are read to their end, where a character stands that is no digit.
  digits_run-read :
      (n v : ℕ) (ds : Text) (c : ℕ) (rest : Text)
      → All IsDigit ds
      → digit_value u c ≡ none
      → read_digits n ds ≡ some v
      → digits_run u (some n) (ds ++ c ∷ rest) ≡ some (v, c ∷ rest)
  unfolding digits_run read_digits is_digit
  digits_run-read n v [] c rest h k e = rw (digits_run, k) (ground arith)
  digits_run-read n v (d ∷ ds) c rest (p, h) k e =
      rw (digits_run, digit_value-IsDigit d p)
        (digits_run-read (n * 10 + (d - b'0')) v ds c rest h k (ground arith))

  digits_run-full :
      (v : ℕ) (ds : Text) (c : ℕ) (rest : Text)
      → All IsDigit ds
      → digit_value u c ≡ none
      → is_empty ds ≡ false
      → read_digits 0 ds ≡ some v
      → digits_run u none (ds ++ c ∷ rest) ≡ some (v, c ∷ rest)
  unfolding digits_run read_digits is_digit
  digits_run-full v [] c rest h k q e = cc
  digits_run-full v (d ∷ ds) c rest (p, h) k q e =
      rw (digits_run, digit_value-IsDigit d p)
        (digits_run-read (d - b'0') v ds c rest h k (ground arith))

  digits_run-decimal :
      (n c : ℕ) (rest : Text)
      → digit_value u c ≡ none
      → digits_run u none (decimal n ++ c ∷ rest) ≡ some (n, c ∷ rest)
  digits_run-decimal n c rest k =
      digits_run-full n (decimal n) c rest (decimal-IsDigit n) k (decimal-full n)
        (read_digits-decimal n)

-- What the pattern makes of a citation of one line, and of a range.
abbrev pub IsStem : Text → Type 0
IsStem stem = IsRun is_path_char stem × (is_empty stem ≡ false)

-- A citation whose line numbers and closing backtick are the text behind the colon.
abbrev spelled : Text → Text → Text
spelled stem span = codes "`" ++ ((stem ++ codes ".lean") ++ (codes ":" ++ span))

spelled-append :
    (stem ds t rest : Text)
    → spelled stem (ds ++ t) ++ rest ≡ b'`' ∷ stem ++ (codes ".lean:" ++ (ds ++ (t ++ rest)))
spelled-append stem ds t rest = simp append_assoc

sizes : (T rest W : Text) → T ++ rest ≡ W → length W - length rest ≡ length T
sizes T rest W e = rw (← e, length-append T rest) (omega arith)

-- The pattern's steps, one after the other.
citation_at-steps :
    (u : Unicode) (W inner stem tail more rest T : Text) (s n : ℕ) (finish : Option ℕ)
    → behind (codes "`") W ≡ some inner
    → take_while is_path_char inner ≡ stem
    → behind (codes ".lean:") (drop_while is_path_char inner) ≡ some tail
    → digits_run u none tail ≡ some (s, more)
    → Patterns.span_end u more ≡ some (finish, rest)
    → is_empty stem ≡ false
    → length W - length rest ≡ n
    → take n W ≡ T
    → citation_at u W
      ≡ some (record { path = stem ++ codes ".lean"; start = s; finish = finish; text = T }, n)
unfolding citation_at
citation_at-steps u W inner stem tail more rest T s n finish a b c d e f g h =
    rw (a, b, c, d, e, f, g, h) refl

module _ (u : Unicode) (stem : Text) (good : IsStem stem) where
  citation_at-spelled :
      (s : ℕ) (c : ℕ) (t rest : Text) (finish : Option ℕ)
      → digit_value u c ≡ none
      → Patterns.span_end u (c ∷ (t ++ rest)) ≡ some (finish, rest)
      → citation_at u (spelled stem (decimal s ++ c ∷ t) ++ rest)
        ≡ some (
          record {
            path = stem ++ codes ".lean";
            start = s;
            finish = finish;
            text = spelled stem (decimal s ++ c ∷ t);
          },
          length (spelled stem (decimal s ++ c ∷ t)),
        )
  citation_at-spelled s c t rest finish k e =
      let T = spelled stem (decimal s ++ c ∷ t) in
      let tail = decimal s ++ c ∷ (t ++ rest) in
      let inner = stem ++ (codes ".lean:" ++ tail) in
      let shape = spelled-append stem (decimal s) (c ∷ t) rest in
      let (run, left) = take_while-run is_path_char stem b'.' (codes "lean:" ++ tail) good.0 refl in
      citation_at-steps u (T ++ rest) inner stem tail (c ∷ (t ++ rest)) rest T s (length T) finish
        (rw shape (behind-append (codes "`") inner)) run
        (rw left (behind-append (codes ".lean:") tail)) (digits_run-decimal u s c (t ++ rest) k) e
        good.1 (sizes T rest (T ++ rest) refl) (take-append T rest)

  -- The pattern's end: nothing but the backtick, or a dash and the last line.
  span_end-one : (rest : Text) → Patterns.span_end u (b'`' ∷ rest) ≡ some (none, rest)
  unfolding Patterns.span_end
  span_end-one rest = refl

  span_end-range :
      (e : ℕ) (rest : Text)
      → Patterns.span_end u (b'-' ∷ (decimal e ++ b'`' ∷ rest)) ≡ some (some e, rest)
  unfolding Patterns.span_end
  span_end-range e rest = rw (digits_run-decimal u e b'`' rest (not_digit u b'`' refl refl)) refl

  -- The text that replaces a stale citation is read by the pattern, in front of any text, as a
  -- citation of the same path with the new first line, and with the new last line exactly when the
  -- old citation had one.
  pub citation_at-replacement :
      (c : Citation) (s e : ℕ) (rest : Text)
      → c.path ≡ stem ++ codes ".lean"
      → citation_at u (replacement c s e ++ rest)
        ≡ some (
          record {
            path = c.path;
            start = s;
            finish = (moved c s e).finish;
            text = replacement c s e;
          },
          length (replacement c s e),
        )
  unfolding replacement
  citation_at-replacement c s e rest p = elim (Option-cases c.finish) [
    | inl missing ↦
        rw (p, missing)
          (citation_at-spelled s b'`' [] rest none (not_digit u b'`' refl refl) (span_end-one rest))
    | inr (d, there) ↦
        let range : Patterns.span_end u (b'-' ∷ ((decimal e ++ codes "`") ++ rest))
            ≡ some (some e, rest) =
          rw (append_assoc (decimal e) (codes "`") rest) (span_end-range e rest) in
        rw (p, there, append_assoc (decimal s) (codes "-" ++ decimal e) (codes "`"))
          (citation_at-spelled s b'-' (decimal e ++ codes "`") rest (some e)
            (not_digit u b'-' refl refl) range)
  ]
