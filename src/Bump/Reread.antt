-- ===== src/Bump/Reread.antt =====
-- The line that bump_patch.py writes, matched again.
use etheorem.Common.{
  ℕ, ◌+◌, ◌-◌, ◌*◌, ◌≡◌, ◌≢◌, refl, ap, sym, ◌∙◌, inl, inr, Bool, true, false, Option, none, some,
  [], ◌∷◌, ◌++◌, append_assoc, Text, codes, All, Bool-cases, ◌==◌, arith,
}
use mathlib.Core.Path.{subst}
use etheorem.Common.Monad.{◌>>=◌}
use etheorem.Common.Unicode.{Unicode, digit_value}
use etheorem.Common.Strings.Digits.{
  decimal, read_digits, read_digits-decimal, IsDigit, decimal-IsDigit, is_digit,
}
use etheorem.Common.Strings.Lines.{is_space}
use etheorem.Common.Strings.Scan.{take_while, drop_while, behind}
use etheorem.Common.Strings.Scan.Laws.{IsRun, take_while-run, behind-append}
use etheorem.Bump.Version.{Found, digits, numeral, ends_line, at_place, version_text, bump_text}

take_while-IsRun : (p : ℕ → Bool) (s : Text) → IsRun p (take_while p s)
unfolding take_while
take_while-IsRun p [] = tt
take_while-IsRun p (c ∷ s) = elim (Bool-cases (p c)) [
  | inl e ↦ rw e (e, take_while-IsRun p s)
  | inr e ↦ rw e tt
]

some-inj : {A : Type 0} (a b : A) → some a ≡ some b → a ≡ b
some-inj a b h = cc

module _ (u : Unicode) where
  digit_value-IsDigit : (c : ℕ) → IsDigit c → digit_value u c ≡ some (c - b'0')
  unfolding digit_value
  digit_value-IsDigit c h = ground arith

  is_digit-IsDigit : (c : ℕ) → IsDigit c → is_digit c ≡ true
  unfolding is_digit
  is_digit-IsDigit c h = ground arith

  -- Decimal digits in front of a character that is none.
  digits-run :
      (n m : ℕ) (ds : Text) (c : ℕ) (s : Text)
      → All IsDigit ds
      → digit_value u c ≡ none
      → read_digits n ds ≡ some m
      → digits u n (ds ++ c ∷ s) ≡ (m, c ∷ s)
  unfolding digits read_digits
  digits-run n m [] c s h k e = rw (k, digits) (ap (λ (i : ℕ). (i, c ∷ s)) (some-inj n m e))
  digits-run n m (d ∷ ds) c s h k e =
      let more = rw (is_digit-IsDigit d h.0) at e in
      rw (digit_value-IsDigit d h.0, digits) (digits-run (n * 10 + (d - b'0')) m ds c s h.1 k more)

  numeral-run :
      (n c : ℕ) (ds s : Text)
      → All IsDigit ds
      → digit_value u c ≡ none
      → ds ≢ []
      → read_digits 0 ds ≡ some n
      → numeral u (ds ++ c ∷ s) ≡ some (n, c ∷ s)
  unfolding numeral read_digits
  numeral-run n c [] s h k d e = absurd (d refl)
  numeral-run n c (x ∷ ds) s h k d e =
      let more = rw (is_digit-IsDigit x h.0) at e in
      let first : 0 * 10 + (x - b'0') ≡ x - b'0' = omega arith in
      rw (digit_value-IsDigit x h.0, numeral)
        (ap (λ (p : ℕ × Text). some p) (digits-run (x - b'0') n ds c s h.1 k (rw first at more)))

  zero_digits : decimal 0 ≢ []
  unfolding decimal
  zero_digits h = cc

  decimal_nonempty : (n : ℕ) → decimal n ≢ []
  unfolding read_digits
  decimal_nonempty n h =
      let read = read_digits-decimal n in
      let e : some 0 ≡ some n = rw h at read in
      zero_digits (subst (λ m. decimal m ≡ []) (sym (some-inj 0 n e)) h)

  numeral-decimal :
      (n c : ℕ) (s : Text)
      → digit_value u c ≡ none
      → numeral u (decimal n ++ c ∷ s) ≡ some (n, c ∷ s)
  numeral-decimal n c s k =
      numeral-run n c (decimal n) s (decimal-IsDigit n) k (decimal_nonempty n)
        (read_digits-decimal n)

  space_eq : is_space b'=' ≡ false
  unfolding is_space
  space_eq = refl

  space_quote : is_space b'"' ≡ false
  unfolding is_space
  space_quote = refl

  dot_value : digit_value u b'.' ≡ none
  unfolding digit_value
  dot_value = refl

  quote_value : digit_value u b'"' ≡ none
  unfolding digit_value
  quote_value = refl

  -- A text in the form of a version line is matched, with its numbers.
  at_place-line :
      (w1 w2 : Text) (major minor patch : ℕ) (rest : Text)
      → IsRun is_space w1
      → IsRun is_space w2
      → ends_line rest ≡ some rest
      → at_place u (
          codes "version"
          ++ (w1
              ++ b'='
                ∷ (w2
                    ++ b'"'
                      ∷ (decimal major
                          ++ b'.' ∷ (decimal minor ++ b'.' ∷ (decimal patch ++ b'"' ∷ rest))))))
        ≡ some (record {
          opening = codes "version" ++ (w1 ++ (codes "=" ++ (w2 ++ codes "\"")));
          major = major;
          minor = minor;
          patch = patch;
          rest = rest;
        })
  unfolding at_place
  at_place-line w1 w2 major minor patch rest h1 h2 e =
      let after_patch = b'"' ∷ rest in
      let after_minor = b'.' ∷ (decimal patch ++ after_patch) in
      let after_major = b'.' ∷ (decimal minor ++ after_minor) in
      let after_eq = w2 ++ b'"' ∷ (decimal major ++ after_major) in
      let (t1, d1) = take_while-run is_space w1 b'=' after_eq h1 space_eq in
      let (t2, d2) =
        take_while-run is_space w2 b'"' (decimal major ++ after_major) h2 space_quote in
      rw
        (
          behind-append (codes "version") (w1 ++ b'=' ∷ after_eq),
          t1,
          d1,
          behind-append (codes "=") after_eq,
          t2,
          d2,
          behind-append (codes "\"") (decimal major ++ after_major),
          numeral-decimal major b'.' (decimal minor ++ after_minor) dot_value,
          behind-append (codes ".") (decimal minor ++ after_minor),
          numeral-decimal minor b'.' (decimal patch ++ after_patch) dot_value,
          behind-append (codes ".") (decimal patch ++ after_patch),
          numeral-decimal patch b'"' rest quote_value,
          behind-append (codes "\"") rest,
          e,
        )
        refl

-- What holds of a computation's result, where it has one.
abbrev Yields : {A : Type 0} → (A → Type 0) → Option A → Type 0
Yields P m = (a : _) → m ≡ some a → P a

Yields->>= :
    {A B : Type 0} (P : B → Type 0) (m : Option A) (f : A → Option B)
    → ((a : A) → m ≡ some a → Yields P (f a))
    → Yields P (m >>= f)
Yields->>= P none f h b e = cc
Yields->>= P (some a) f h b e = h a refl b e

-- A match's opening and the end of its line.
data IsMatch : Found → Type 0 where
  matched :
      (w1 w2 : Text) (major minor patch : ℕ) (rest : Text)
      → IsRun is_space w1
      → IsRun is_space w2
      → ends_line rest ≡ some rest
      → IsMatch (record {
        opening = codes "version" ++ (w1 ++ (codes "=" ++ (w2 ++ codes "\"")));
        major = major;
        minor = minor;
        patch = patch;
        rest = rest;
      })

ends_line-same : (s rest : Text) → ends_line s ≡ some rest → ends_line rest ≡ some rest
unfolding ends_line
ends_line-same [] rest e = subst (λ r. ends_line r ≡ some r) (some-inj [] rest e) refl
ends_line-same (c ∷ s) rest e = elim (Bool-cases (c == 10)) [
  | inl ten ↦
      let kept : ends_line (c ∷ s) ≡ some (c ∷ s) = rw ten refl in
      let same = some-inj (c ∷ s) rest (rw kept at e) in subst (λ r. ends_line r ≡ some r) same kept
  | inr other ↦ cc
]

at_place-IsMatch : (u : Unicode) (s : Text) → Yields IsMatch (at_place u s)
unfolding at_place
at_place-IsMatch u s = Yields->>= IsMatch (behind (codes "version") s) _ (λ a _.
    Yields->>= IsMatch (behind (codes "=") (drop_while is_space a)) _ (λ b _.
      Yields->>= IsMatch (behind (codes "\"") (drop_while is_space b)) _ (λ c _.
        Yields->>= IsMatch (numeral u c) _ (λ n1 _.
          Yields->>= IsMatch (behind (codes ".") n1.1) _ (λ d _.
            Yields->>= IsMatch (numeral u d) _ (λ n2 _.
              Yields->>= IsMatch (behind (codes ".") n2.1) _ (λ f _.
                Yields->>= IsMatch (numeral u f) _ (λ n3 _.
                  Yields->>= IsMatch (behind (codes "\"") n3.1) _ (λ j _.
                    Yields->>= IsMatch (ends_line j) _ (λ rest e found same.
                      subst IsMatch (some-inj _ found same) (
                        matched (take_while is_space a) (take_while is_space b) n1.0 n2.0 n3.0 rest
                          (take_while-IsRun is_space a) (take_while-IsRun is_space b)
                          (ends_line-same j rest e))))))))))))

-- `found` with the next patch number.
abbrev pub next : Found → Found
next found = record {
  opening = found.opening;
  major = found.major;
  minor = found.minor;
  patch = found.patch + 1;
  rest = found.rest;
}

bump_text_line :
    (w1 w2 : Text) (a b c rest : Text)
    → (codes "version" ++ (w1 ++ (codes "=" ++ (w2 ++ codes "\""))))
        ++ ((a ++ (codes "." ++ (b ++ (codes "." ++ c)))) ++ (codes "\"" ++ rest))
      ≡ codes "version"
        ++ (w1 ++ b'=' ∷ (w2 ++ b'"' ∷ (a ++ b'.' ∷ (b ++ b'.' ∷ (c ++ b'"' ∷ rest)))))
bump_text_line w1 w2 a b c rest = simp append_assoc

next-IsMatch :
    (u : Unicode) (found : Found)
    → IsMatch found
    → at_place u (bump_text [] found) ≡ some (next found)
unfolding bump_text version_text
next-IsMatch u _ (matched w1 w2 major minor patch rest h1 h2 e) =
    ap (at_place u)
      (bump_text_line w1 w2 (decimal major) (decimal minor) (decimal (patch + 1)) rest)
    ∙ at_place-line u w1 w2 major minor (patch + 1) rest h1 h2 e

-- If the version pattern matches at a place, it matches the line that a bump writes there, with the
-- next patch number and the opening, the other numbers and the text behind as before.
pub at_place-bump_text :
    (u : Unicode) (s : Text) (found : Found)
    → at_place u s ≡ some found
    → at_place u (bump_text [] found) ≡ some (next found)
at_place-bump_text u s found e = next-IsMatch u found (at_place-IsMatch u s found e)
