-- ===== src/Pyspec/Client/Lines.antt =====
-- The line of a result, as the pyspec servers print it, is read back.
use etheorem.Common.{
  ℕ, ◌<◌, ◌≡◌, ◌≢◌, refl, sym, Bool, true, false, some, List, [], ◌∷◌, ◌++◌, Text, codes,
  All-append, split_on, if◌then◌else◌, arith,
}
use etheorem.Common.Strings.{join, Lacks, split_on-join}
use etheorem.Pyspec.Client.{Result, rstrip_newlines, parse_line}

rstrip_newlines-line : (s : Text) → Lacks 10 s → rstrip_newlines (s ++ 10 ∷ []) ≡ s
unfolding rstrip_newlines
rstrip_newlines-line [] h = refl
rstrip_newlines-line (c ∷ s) (p, h) = ground (arith, rstrip_newlines-line s h)

-- The line that a server prints for a result: three fields with tabs between them.
abbrev pub fields : Result → List Text
fields r = (if r.passed then codes "pass" else codes "fail") ∷ r.bucket ∷ r.detail ∷ []

word-Lacks : (b : Bool) (c : ℕ) → c < 20 → Lacks c (if b then codes "pass" else codes "fail")
word-Lacks true c h =
    ((λ e. omega arith), ((λ e. omega arith), ((λ e. omega arith), ((λ e. omega arith), tt))))
word-Lacks false c h =
    ((λ e. omega arith), ((λ e. omega arith), ((λ e. omega arith), ((λ e. omega arith), tt))))

fields_read :
    (b : Bool) (bucket detail line : Text)
    → split_on 9 (rstrip_newlines line)
      ≡ (if b then codes "pass" else codes "fail") ∷ bucket ∷ detail ∷ []
    → parse_line line ≡ some (record { passed = b; bucket = bucket; detail = detail })
unfolding parse_line
fields_read true bucket detail line h = rw h refl
fields_read false bucket detail line h = rw h refl

join-Lacks :
    (c : ℕ) (u v w : Text)
    → c ≢ 9
    → Lacks c u
    → Lacks c v
    → Lacks c w
    → Lacks c (join (9 ∷ []) (u ∷ v ∷ w ∷ []))
unfolding join
join-Lacks c u v w n hu hv hw =
    let P : ℕ → Type 0 = λ x. x ≢ c in
    let tab : P 9 = λ e. n (sym e) in
    All-append P u (9 ∷ (v ++ 9 ∷ w)) hu (tab, All-append P v (9 ∷ w) hv (tab, hw))

-- A result that is printed as a line of three fields is read back from it, if neither its bucket
-- nor its detail has a tab or a line feed.
pub parse_line-fields :
    (r : Result)
    → Lacks 9 r.bucket × Lacks 10 r.bucket
    → Lacks 9 r.detail × Lacks 10 r.detail
    → parse_line (join (9 ∷ []) (fields r) ++ 10 ∷ []) ≡ some r
parse_line-fields r (b9, b10) (d9, d10) =
    let word = if r.passed then codes "pass" else codes "fail" in
    let line = join (9 ∷ []) (fields r) in
    let whole =
      join-Lacks 10 word r.bucket r.detail (λ e. omega arith) (word-Lacks r.passed 10 (omega arith))
        b10 d10 in
    let parts =
      split_on-join 9 word (r.bucket ∷ r.detail ∷ [])
        (word-Lacks r.passed 9 (omega arith), (b9, (d9, tt))) in
    fields_read r.passed r.bucket r.detail (line ++ 10 ∷ [])
      (rw (rstrip_newlines-line line whole) parts)
