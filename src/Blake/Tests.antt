-- ===== src/Blake/Tests.antt =====
-- The published vectors computed, and the theorems about the compression at concrete inputs.
use etheorem.Common.{ℕ, ◌≡◌, refl, true, false, some, List, [], ◌∷◌, length, get_or, All, arith}
use etheorem.Common.Outcome.{passed}
use etheorem.Blake.{g, f, iv}
use etheorem.Blake.Bounds.{Words, f_bounds}
use etheorem.Blake.Mixing.{ung, ung-g, rounds_loop_injective}
use etheorem.Blake.Encoding.{h_words, m_words, hex_le_words, eip152_input}
use etheorem.Blake.Encoding.Layout.{Reads, eip152_input-Reads, h_words-Words}
use etheorem.Blake.Vectors.{
  published, committed, emitted, check_published, check_committed, main, report, t0_nonzero,
  t1_nonzero,
}
use etheorem.Blake.Vectors.Gate.{Reproduced, main_sound}

-- Four of the five published vectors are reproduced; the fifth is skipped without `--full`.
published_run : check_published false 0 0 published ≡ passed 4
unfolding check_published
published_run = refl

-- The digests with two nonzero counter words are the committed ones.
emitted_run : emitted ≡ passed committed
unfolding emitted
emitted_run = refl

-- `main` passes without `--full`.
main_run : main false published committed ≡ passed (report false 4 committed)
unfolding main check_published emitted check_committed
main_run = refl

abbrev state : List ℕ
state = 1 ∷ 2 ∷ 3 ∷ 4 ∷ 5 ∷ 6 ∷ 7 ∷ 8 ∷ iv

ung-g_example : ung (g state 0 4 8 12 77 78) 0 4 8 12 77 78 ≡ state
ung-g_example = ung-g state 0 4 8 12 77 78 (omega arith) (omega arith) (omega arith) (omega arith)

abbrev block : List ℕ
block = 9 ∷ 8 ∷ 7 ∷ 6 ∷ 5 ∷ 4 ∷ 3 ∷ 2 ∷ 1 ∷ 0 ∷ 1 ∷ 2 ∷ 3 ∷ 4 ∷ 5 ∷ 6 ∷ []

rounds_loop_injective_example : state ≡ state
rounds_loop_injective_example =
    rounds_loop_injective block 2 0 state state (omega arith) (omega arith) (omega arith) refl

f_bounds_example : (length (f h_words block 3 0 true 12) ≡ 8) × Words (f h_words block 3 0 true 12)
f_bounds_example =
    f_bounds h_words block 3 0 true 12 h_words-Words.0 h_words-Words.1 (omega arith) (omega arith)

eip152_input-Reads_example :
    (bs : List ℕ) × (eip152_input 12 3 0 true ≡ some bs) × Reads bs 12 3 0 true
eip152_input-Reads_example =
    eip152_input-Reads 12 3 0 true (omega arith) (omega arith) (omega arith)

main_sound_example :
    All (Reproduced false) published
    × (hex_le_words (f h_words m_words t0_nonzero t1_nonzero true 12)
        ≡ some (get_or committed 0 []))
    × (hex_le_words (f h_words m_words t0_nonzero t1_nonzero false 1)
        ≡ some (get_or committed 1 []))
main_sound_example =
    main_sound false published (get_or committed 0 []) (get_or committed 1 [])
      (report false 4 committed) main_run
