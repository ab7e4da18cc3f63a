-- ===== src/Citations/Span/Laws.antt =====
-- `actual_span` finds the last non-blank line before the next top-level construct.
use etheorem.Common.{
  ℕ, zero, suc, ◌+◌, ◌-◌, ◌≤◌, ◌<◌, ◌≡◌, ◌⊎◌, inl, inr, sym, true, false, Option, none, some, List,
  Text, length, ltb, Bool-cases, arith, ltb→lt,
}
use etheorem.Common.Unicode.{Unicode}
use etheorem.Citations.Patterns.{is_boundary, decl_line, decl_matches}
use etheorem.Citations.Span.{line_at, blank, boundary_loop, trim_loop, span_end}

at_or_above : (i k : ℕ) → i ≤ k → (k ≡ i) ⊎ (i < k)
at_or_above i k h = omega arith

module _ (u : Unicode) (lines : List Text) where
  -- Line `e` is the last one of a declaration that opens at line `i0`: no later line of it opens a
  -- construct, it is not blank unless it is the opening line, and what follows it is blank up to
  -- the next construct or the end of the file.
  pub record IsEnd (i0 e : ℕ) : Type 0 where
    pub inside : (i0 ≤ e) × (e < length lines)
    pub no_boundary : (k : ℕ) → i0 < k → k ≤ e → is_boundary u (line_at lines k) ≡ false
    pub not_blank : (e ≡ i0) ⊎ (blank (line_at lines e) ≡ false)
    pub blank_behind :
        (j : ℕ)
        → e < j
        → j < length lines
        → ((k : ℕ) → e < k → k ≤ j → is_boundary u (line_at lines k) ≡ false)
        → blank (line_at lines j) ≡ true

  -- What the first loop returns.
  record Stops (i e : ℕ) : Type 0 where
    low : i ≤ suc e
    high : e < length lines
    clear : (k : ℕ) → i ≤ k → k ≤ e → is_boundary u (line_at lines k) ≡ false
    next : (suc e ≡ length lines) ⊎ (is_boundary u (line_at lines (suc e)) ≡ true)

  boundary_loop-Stops :
      (i left : ℕ) → 0 < i → i + left ≡ length lines → Stops i (boundary_loop u lines i left)
  unfolding boundary_loop
  boundary_loop-Stops i zero h e = record {
    low = omega arith;
    high = omega arith;
    clear = λ k p q. absurd (omega arith);
    next = inl (omega arith);
  }
  boundary_loop-Stops i (suc left) h e = elim (Bool-cases (is_boundary u (line_at lines i))) [
    | inl b ↦ rw b (record {
      low = omega arith;
      high = omega arith;
      clear = λ k p q. absurd (omega arith);
      next = inr (let s : suc (i - 1) ≡ i = omega arith in rw s b);
    })
    | inr b ↦
        let ih = boundary_loop-Stops (suc i) left (omega arith) (omega arith) in
        rw b (record {
          low = omega (arith, ih.low);
          high = ih.high;
          clear = λ k p q. elim (at_or_above i k p) [
            | inl same ↦ rw same b
            | inr above ↦ ih.clear k above q
          ];
          next = ih.next;
        })
  ]

  -- What the second loop returns.
  record Trims (i0 e t : ℕ) : Type 0 where
    low : i0 ≤ t
    high : t ≤ e
    kept : (t ≡ i0) ⊎ (blank (line_at lines t) ≡ false)
    dropped : (j : ℕ) → t < j → j ≤ e → blank (line_at lines j) ≡ true

  trim_loop-Trims : (i0 e : ℕ) → i0 ≤ e → Trims i0 e (trim_loop lines i0 e)
  unfolding trim_loop
  trim_loop-Trims i0 zero h = record {
    low = h;
    high = omega arith;
    kept = inl (omega arith);
    dropped = λ j p q. absurd (omega arith);
  }
  trim_loop-Trims i0 (suc e) h = elim (Bool-cases (ltb i0 (suc e))) [
    | inr low ↦
        let same : i0 ≡ suc e = ground arith in
        rw low (record {
          low = omega arith;
          high = omega arith;
          kept = inl (sym same);
          dropped = λ j p q. absurd (omega arith);
        })
    | inl above ↦ elim (Bool-cases (blank (line_at lines (suc e)))) [
      | inr full ↦
          rw (above, full)
            (record {
              low = omega arith;
              high = omega arith;
              kept = inr full;
              dropped = λ j p q. absurd (omega arith);
            })
      | inl empty ↦
          let ih = trim_loop-Trims i0 e (omega (arith, ltb→lt i0 (suc e) above)) in
          rw (above, empty)
            (record {
              low = ih.low;
              high = omega (arith, ih.high);
              kept = ih.kept;
              dropped = λ j p q. elim (at_or_above j (suc e) q) [
                | inl same ↦ rw (sym same) empty
                | inr below ↦ ih.dropped j p (omega arith)
              ];
            })
    ]
  ]

  -- The computed end has the property of an end.
  pub span_end-IsEnd : (i0 : ℕ) → i0 < length lines → IsEnd i0 (span_end u lines i0)
  unfolding span_end
  span_end-IsEnd i0 h =
      let e = boundary_loop u lines (suc i0) (length lines - suc i0) in
      let stop = boundary_loop-Stops (suc i0) (length lines - suc i0) (omega arith) (omega arith) in
      let trim = trim_loop-Trims i0 e (omega (arith, stop.low)) in
      record {
        inside = (trim.low, omega (arith, trim.high, stop.high));
        no_boundary = λ k p q. stop.clear k p (omega (arith, trim.high));
        not_blank = trim.kept;
        blank_behind = λ j p q clear. elim (at_most j e) [
          | inl low ↦ trim.dropped j p low
          | inr high ↦
              absurd (stuck j e stop.next high q (clear (suc e) (omega (arith, trim.high))))
        ];
      }
    where
      at_most : (j e : ℕ) → (j ≤ e) ⊎ (e < j)
      at_most j e = omega arith

      stuck :
          (j e : ℕ)
          → (suc e ≡ length lines) ⊎ (is_boundary u (line_at lines (suc e)) ≡ true)
          → e < j
          → j < length lines
          → (suc e ≤ j → is_boundary u (line_at lines (suc e)) ≡ false)
          → ⊥
      stuck j e (inl last) p q f = omega arith
      stuck j e (inr b) p q f = let g = f p in cc

  IsEnd-le : (i0 d e : ℕ) → IsEnd i0 d → IsEnd i0 e → d < e → ⊥
  IsEnd-le i0 d e p q less =
      let empty =
        p.blank_behind e less q.inside.1 (λ k a b. q.no_boundary k (omega (arith, p.inside.0)) b) in
      elim q.not_blank [ inl same ↦ omega (arith, p.inside.0) | inr full ↦ cc ]

  -- There is one end.
  pub IsEnd-unique : (i0 d e : ℕ) → IsEnd i0 d → IsEnd i0 e → d ≡ e
  IsEnd-unique i0 d e p q = omega (arith, IsEnd-le i0 d e p q, IsEnd-le i0 e d q p)

  -- Line `i` matches what is looked up: `DECL_LINE`, or the pattern of a name. The latter also takes a
  -- declaration line that only has the name behind a dot.
  abbrev pub Opens : Option Text → ℕ → Type 0
  Opens none i = decl_line u (line_at lines i) ≡ true
  Opens (some name) i = decl_matches u name (line_at lines i) ≡ true
