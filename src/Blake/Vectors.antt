-- ===== src/Blake/Vectors.antt =====
-- The vectors of packages/hazmat/LeanHazmatBlake2f/scripts/gen_vectors.py and its gate: the
-- published and the committed cases, and `main`, which exits at the first mismatch.
pub mod Gate
use etheorem.Common.{
  ℕ, suc, ◌+◌, Bool, true, false, not, ◌&&◌, Option, none, some, List, [], ◌∷◌, ◌++◌, map, Text,
  codes, text_eq, take, drop, ◌==◌, if◌then◌else◌,
}
use etheorem.Common.Outcome.{Outcome, passed, exits, raised, of_option, ◌>>=◌, ◌>>◌}
use etheorem.Common.Strings.Digits.{decimal}
use etheorem.Blake.{f}
use etheorem.Blake.Encoding.{h_words, m_words, hex_le_words}

pub record Vector : Type 0 where
  pub rounds : ℕ
  pub t0 : ℕ
  pub t1 : ℕ
  pub last : Bool
  pub want : Text

-- The five published EIP-152 vectors.
abbrev pub published : List Vector
published =
    record {
      rounds = 0;
      t0 = 3;
      t1 = 0;
      last = true;
      want =
          codes "08c9bcf367e6096a3ba7ca8485ae67bb2bf894fe72f36e3cf1361d5f3af54fa5"
          ++ codes "d282e6ad7f520e511f6c3e2b8c68059b9442be0454267ce079217e1319cde05b";
    }
    ∷ record {
      rounds = 0xc;
      t0 = 3;
      t1 = 0;
      last = true;
      want =
          codes "ba80a53f981c4d0d6a2797b69f12f6e94c212f14685ac4b74b12bb6fdbffa2d1"
          ++ codes "7d87c5392aab792dc252d5de4533cc9518d38aa8dbf1925ab92386edd4009923";
    }
    ∷ record {
      rounds = 0xc;
      t0 = 3;
      t1 = 0;
      last = false;
      want =
          codes "75ab69d3190a562c51aef8d88f1c2775876944407270c42c9844252c26d28752"
          ++ codes "98743e7f6d5ea2f2d3e8d226039cd31b4e426ac4f2d3d666a610c2116fde4735";
    }
    ∷ record {
      rounds = 1;
      t0 = 3;
      t1 = 0;
      last = true;
      want =
          codes "b63a380cb2897d521994a85234ee2c181b5f844d2c624c002677e9703449d2fb"
          ++ codes "a551b3a8333bcdf5f2f7e08993d53923de3d64fcc68c034e717b9293fed7a421";
    }
    ∷ record {
      rounds = 0xffffffff;
      t0 = 3;
      t1 = 0;
      last = true;
      want =
          codes "fc59093aafa9ab43daae0e914c57635c5402d8e3d2130eb9b3cc181de7f0ecf9"
          ++ codes "b22bf99a7815ce16419e200e01846e6b5df8cc7703041bbceb571de6631d2615";
    }
    ∷ []

abbrev pub t0_nonzero : ℕ
t0_nonzero = 0x1122334455667788

abbrev pub t1_nonzero : ℕ
t1_nonzero = 0x99AABBCCDDEEFF00

-- The two nonzero-counter digests committed in the tests of the package.
abbrev pub committed : List Text
committed =
    (codes "a4485332b3bed911dc3120d5173d3960e8cf0bd633a1966db0ae508f3635e2e7"
      ++ codes "9441d136c83f0d15dde62f7f3b57e2d6d41dc9e20d04e85fc004bd93a71ca29e")
    ∷ (codes "76df1abdd8ee76fca0705e6216b426f7aaedfef4459e2984151adf57bc634043"
        ++ codes "541e54c922a65f0e2cb629e49d6ec62fdf38d339eb7bc70c4c37d5d4dbc4f0d7")
    ∷ []

unfoldable pub digest : Vector → Option Text
unfolding hex_le_words h_words m_words f
digest v = hex_le_words (f h_words m_words v.t0 v.t1 v.last v.rounds)

-- `rounds == 0xFFFFFFFF and not FULL`
abbrev pub skipped : Bool → Vector → Bool
skipped full v = (v.rounds == 0xffffffff) && not full

-- The loop of step 1: the index of the vector, the number checked so far, the vectors left.
unfoldable pub check_published : Bool → ℕ → ℕ → List Vector → Outcome ℕ
unfolding digest text_eq decimal
check_published full i checked [] = passed checked
check_published full i checked (v ∷ vs) =
    let next = check_published full (suc i) checked vs in
    let counted = check_published full (suc i) (suc checked) vs in
    let compared : Outcome ℕ = elim (digest v) [
      | none ↦ raised
      | some got ↦
          if text_eq got v.want
          then counted
          else exits (
              codes "published EIP-152 vector "
              ++ (decimal (4 + i) ++ (codes ": got " ++ (got ++ (codes ", want " ++ v.want)))))
    ] in
    if skipped full v then next else compared

-- The loop of step 2, over `zip(emitted, COMMITTED)`.
unfoldable pub check_committed : List Text → List Text → Outcome (Unit {0})
unfolding text_eq
check_committed [] wants = passed tt
check_committed (got ∷ gots) [] = passed tt
check_committed (got ∷ gots) (want ∷ wants) =
    let rest = check_committed gots wants in
    if text_eq got want
    then rest
    else exits (codes "committed vector mismatch: got " ++ (got ++ (codes ", want " ++ want)))

unfoldable pub emitted : Outcome (List Text)
unfolding digest
emitted = do
  a ←
      of_option
        (digest (record { rounds = 12; t0 = t0_nonzero; t1 = t1_nonzero; last = true; want = [] }))
  b ←
      of_option
        (digest (record { rounds = 1; t0 = t0_nonzero; t1 = t1_nonzero; last = false; want = [] }))
  passed (a ∷ b ∷ [])

-- One of the last lines that `main` prints.
abbrev hex_line : Text → Text
hex_line out =
    codes "  hex \"" ++ (take 64 out ++ (codes "\" ++\n    \"" ++ (drop 64 out ++ codes "\"")))

-- What `main` prints when no check fails.
unfoldable pub report : Bool → ℕ → List Text → List Text
unfolding decimal
report full checked outs =
    (codes "self-check ok: "
      ++ (decimal checked
          ++ (codes " published EIP-152 vectors reproduced"
              ++ (if full then [] else codes " (the 0xffffffff-rounds vector needs --full)"))))
    ∷ codes "regenerated nonzero-counter vectors match the committed values"
    ∷ map hex_line outs

-- `main`, which returns the lines that it prints.
unfoldable pub main : Bool → List Vector → List Text → Outcome (List Text)
main full vectors wants = do
  checked ← check_published full 0 0 vectors
  outs ← emitted
  check_committed outs wants
  passed (report full checked outs)
