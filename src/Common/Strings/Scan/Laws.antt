-- ===== src/Common/Strings/Scan/Laws.antt =====
-- Runs of characters, literals and printed numbers in front of a text, read back.
use etheorem.Common.{
  ℕ, ◌≡◌, refl, Bool, true, false, some, [], ◌∷◌, ◌++◌, Text, length, drop, take, All, starts_with,
  ==_self, arith,
}
use etheorem.Common.Strings.Scan.{take_while, drop_while, behind}

abbrev pub IsRun : (ℕ → Bool) → Text → Type 0
IsRun p s = All (λ c. p c ≡ true) s

pub take_while-run :
    (p : ℕ → Bool) (s : Text) (c : ℕ) (rest : Text)
    → IsRun p s
    → p c ≡ false
    → (take_while p (s ++ c ∷ rest) ≡ s) × (drop_while p (s ++ c ∷ rest) ≡ c ∷ rest)
unfolding take_while drop_while
take_while-run p [] c rest h k = (rw k refl, rw k refl)
take_while-run p (d ∷ s) c rest (e, h) k =
    let (a, b) = take_while-run p s c rest h k in (rw (e, a) refl, rw (e, b) refl)

starts_with-append : (a b : Text) → starts_with (a ++ b) a ≡ true
unfolding starts_with
starts_with-append [] b = refl
starts_with-append (c ∷ a) b = ground (arith, starts_with-append a b, ==_self c)

drop-append : (a b : Text) → drop (length a) (a ++ b) ≡ b
drop-append [] b = refl
drop-append (c ∷ a) b = drop-append a b

pub take-append : (a b : Text) → take (length a) (a ++ b) ≡ a
take-append [] b = refl
take-append (c ∷ a) b = rw (take-append a b) refl

pub behind-append : (a b : Text) → behind a (a ++ b) ≡ some b
unfolding behind
behind-append a b = rw (starts_with-append a b, drop-append a b) refl
