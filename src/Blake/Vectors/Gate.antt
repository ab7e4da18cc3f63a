-- ===== src/Blake/Vectors/Gate.antt =====
-- What it means that the gate of gen_vectors.py passes.
use etheorem.Common.{
  ℕ, suc, ◌+◌, ◌≡◌, ◌⊎◌, ◌↔◌, inl, inr, refl, Bool, true, false, not, Option, none, some, List, [],
  ◌∷◌, Text, text_eq_sound, text_eq_refl, All, keep, length, Option-cases, arith,
}
use etheorem.Common.Outcome.{Outcome, passed, exits, raised, of_option, ◌>>=◌, >>=-eq-passed}
use etheorem.Blake.{f}
use etheorem.Blake.Words.{IsWord}
use etheorem.Blake.Bounds.{f_bounds}
use etheorem.Blake.Encoding.{h_words, m_words, hex_le_words}
use etheorem.Blake.Encoding.Layout.{hex_le_words_total, h_words-Words}
use etheorem.Blake.Vectors.{
  Vector, digest, skipped, check_published, check_committed, main, emitted, report, t0_nonzero,
  t1_nonzero,
}

-- A vector that a run leaves out, or whose expected digest it computes.
abbrev pub Reproduced : Bool → Vector → Type 0
Reproduced full v = (skipped full v ≡ true) ⊎ (digest v ≡ some v.want)

check_published_sound :
    (full : Bool) (i n k : ℕ) (vs : List Vector)
    → check_published full i n vs ≡ passed k
    → All (Reproduced full) vs × (k ≡ n + length (keep (λ v. not (skipped full v)) vs))
unfolding check_published
check_published_sound full i n k [] h = ground arith
check_published_sound full i n k (v ∷ vs) h = elim (Option-cases (digest v)) [
  | inl e ↦ ground (arith, check_published_sound full (suc i) n k vs)
  | inr (got, e) ↦ ground (
    arith,
    text_eq_sound got v.want,
    check_published_sound full (suc i) n k vs,
    check_published_sound full (suc i) (suc n) k vs,
  )
]

check_published_complete :
    (full : Bool) (i n : ℕ) (vs : List Vector)
    → All (Reproduced full) vs
    → check_published full i n vs ≡ passed (n + length (keep (λ v. not (skipped full v)) vs))
unfolding check_published
check_published_complete full i n [] h = ground arith
check_published_complete full i n (v ∷ vs) h = ground (
  arith,
  text_eq_refl v.want,
  check_published_complete full (suc i) n vs h.1,
  check_published_complete full (suc i) (suc n) vs h.1,
)

-- Step 1 of the gate passes exactly when every vector that is not skipped is reproduced, and then
-- it counts the vectors that it did not skip.
pub check_published_iff :
    (full : Bool) (i n k : ℕ) (vs : List Vector)
    → (check_published full i n vs ≡ passed k)
      ↔ (All (Reproduced full) vs × (k ≡ n + length (keep (λ v. not (skipped full v)) vs)))
check_published_iff full i n k vs =
    (check_published_sound full i n k vs, λ h. rw h.1 (check_published_complete full i n vs h.0))

-- The pairs that `zip` makes are equal.
abbrev ZipEqual : List Text → List Text → Type 0
ZipEqual [] ts = Unit
ZipEqual (s ∷ ss) [] = Unit
ZipEqual (s ∷ ss) (t ∷ ts) = (s ≡ t) × ZipEqual ss ts

check_committed_sound :
    (gots wants : List Text) → check_committed gots wants ≡ passed tt → ZipEqual gots wants
unfolding check_committed
check_committed_sound [] wants h = tt
check_committed_sound (got ∷ gots) [] h = tt
check_committed_sound (got ∷ gots) (want ∷ wants) h =
    ground (arith, text_eq_sound got want, check_committed_sound gots wants)

-- The parts of a chain of three steps that passes.
chain_inversion {ℓ κ μ} :
    {A : Type ℓ} {B : Type κ} {C : Type μ} (m : Outcome A) (n : Outcome B)
    (check : B → Outcome (Unit {0})) (report : A → B → C) {c : C}
    → (m >>= λ a. n >>= λ b. check b >>= λ _. passed (report a b)) ≡ passed c
    → (a : A) × (b : B) × (m ≡ passed a) × (n ≡ passed b) × (check b ≡ passed tt)
chain_inversion (passed a) (passed b) check report h =
    (a, b, refl, refl, (>>=-eq-passed (check b) (λ _. passed (report a b)) h).1)
chain_inversion (passed a) (exits message) check report h = cc
chain_inversion (passed a) raised check report h = cc
chain_inversion (exits message) n check report h = cc
chain_inversion raised n check report h = cc

-- Two values one after the other, each of which may be missing.
both_there :
    (m n : Option Text) (outs : List Text)
    → (of_option m >>= λ a. of_option n >>= λ b. passed (a ∷ b ∷ [])) ≡ passed outs
    → (a : Text) × (b : Text) × (m ≡ some a) × (n ≡ some b) × (a ∷ b ∷ [] ≡ outs)
both_there none n outs h = cc
both_there (some a) none outs h = cc
both_there (some a) (some b) outs h = (a, b, refl, refl, cc)

-- The two cases with nonzero counters.
abbrev nonzero : ℕ → Bool → Vector
nonzero rounds last = record {
  rounds = rounds;
  t0 = t0_nonzero;
  t1 = t1_nonzero;
  last = last;
  want = [];
}

emitted-passed :
    (outs : List Text)
    → emitted ≡ passed outs
    → (a : Text) × (b : Text) × (digest (nonzero 12 true) ≡ some a)
      × (digest (nonzero 1 false) ≡ some b)
      × (a ∷ b ∷ [] ≡ outs)
unfolding emitted
emitted-passed outs h = both_there (digest (nonzero 12 true)) (digest (nonzero 1 false)) outs h

-- When `main` passes with two committed digests, every published vector that is not skipped was
-- reproduced, the first committed digest is the one of the compression with the nonzero counters, the
-- final flag and 12 rounds, and the second the one without the flag and with 1 round.
pub main_sound :
    (full : Bool) (vs : List Vector) (first second : Text) (lines : List Text)
    → main full vs (first ∷ second ∷ []) ≡ passed lines
    → All (Reproduced full) vs
      × (hex_le_words (f h_words m_words t0_nonzero t1_nonzero true 12) ≡ some first)
      × (hex_le_words (f h_words m_words t0_nonzero t1_nonzero false 1) ≡ some second)
unfolding main digest
main_sound full vs first second lines h =
    let wants = first ∷ second ∷ [] in
    let (checked, outs, one, two, three) =
      chain_inversion (check_published full 0 0 vs) emitted (λ outs. check_committed outs wants)
        (report full) h in
    let (a, b, d, d', same) = emitted-passed outs two in
    let (e, (e', _)) = check_committed_sound (a ∷ b ∷ []) wants (rw same three) in
    ((check_published_sound full 0 0 checked vs one).0, rw (← e) d, rw (← e') d')

-- The digest of any vector with counters below 2 ^ 64 is produced, with 128 characters.
pub digest_total :
    (v : Vector)
    → IsWord v.t0
    → IsWord v.t1
    → (text : Text) × (digest v ≡ some text) × (length text ≡ 128)
unfolding digest
digest_total v w0 w1 =
    let bound =
      f_bounds h_words m_words v.t0 v.t1 v.last v.rounds h_words-Words.0 h_words-Words.1 w0 w1 in
    let (text, e, size) =
      hex_le_words_total (f h_words m_words v.t0 v.t1 v.last v.rounds) bound.1 in
    (text, e, omega (arith, bound.0))
