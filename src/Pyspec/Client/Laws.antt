-- ===== src/Pyspec/Client/Laws.antt =====
-- What the clients of the pyspec servers return.
use mathlib.Core.Path.{subst}
use etheorem.Common.{
  ℕ, zero, suc, ◌<◌, ◌≡◌, ◌⊎◌, inl, inr, refl, ap, sym, ◌∙◌, Bool, true, false, none, some, [], ◌∷◌,
  ◌++◌, Text, Option-cases, Bool-cases, if◌then◌else◌, arith,
}
use etheorem.Pyspec.Client.{
  Result, parse_line, bug, Machine, Client, Attempt, answered, failed, reads_on, returned, spawn,
  drain, ask, needs_spawn, ask_client, attempt, tries, submit,
}

module _ {P : Type 0} (m : Machine P) where
  -- The process sends some lines of noise and then an answer; `after` is what is left of it.
  pub data Answers : ℕ → P → Result → P → Type 0 where
    at_once :
        {p after : P} {line : Text} {r : Result}
        → m.read p ≡ some (line, after)
        → parse_line line ≡ some r
        → Answers 0 p r after
    noise :
        {n : ℕ} {p q after : P} {line : Text} {r : Result}
        → m.read p ≡ some (line, q)
        → parse_line line ≡ none
        → Answers n q r after
        → Answers (suc n) p r after

  drain-Answers :
      (n fuel spawned : ℕ) (p : P) (r : Result) (after : P)
      → n < fuel
      → Answers n p r after
      → drain m fuel spawned p ≡ answered r (record { proc = some after; spawned = spawned })
  unfolding drain
  drain-Answers n zero k p r after h a = absurd (omega arith)
  drain-Answers zero (suc fuel) k p r after h (at_once e f) = rw (drain, e, f) refl
  drain-Answers (suc n) (suc fuel) k p r after h (noise {q = q} e f a) =
      rw (drain, e, f) (drain-Answers n fuel k q r after (omega arith) a)

  -- A process of the client takes the request and answers behind `n` lines of noise, leaving `after`.
  abbrev pub Replies : ℕ → Text → Client P → Result → P → Type 0
  Replies n request c r after =
      (p : P) × (q : P) × (c.proc ≡ some p)
      × (m.exited p ≡ false)
      × (m.write p (request ++ 10 ∷ []) ≡ some q)
      × Answers n q r after

  attempt-Replies :
      (n fuel : ℕ) (request : Text) (c : Client P) (r : Result) (after : P)
      → n < fuel
      → Replies n request c r after
      → attempt m fuel request c ≡ answered r (record { proc = some after; spawned = c.spawned })
  unfolding attempt ask_client ask
  attempt-Replies n fuel request c r after h (p, q, here, runs, takes, a) =
      rw (here, runs, ask, takes) (drain-Answers n fuel c.spawned q r after h a)

  tries_failed :
      (left fuel : ℕ) (request : Text) (c d e : Client P)
      → attempt m fuel request c ≡ failed d
      → spawn m d ≡ (true, e)
      → tries m (suc left) fuel request c ≡ tries m left fuel request e
  unfolding tries
  tries_failed left fuel request c d e f s =
      let ok = ap (λ x. x.0) s in rw (tries, f, ok) (ap (λ x. tries m left fuel request x.1) s)

  -- With fuel above the lines of noise: if the client's process runs, takes the request and
  -- answers behind the noise, the answer is the result and the process stays; if the first
  -- attempt fails instead, and the process that is started then answers so, its answer is the
  -- result.
  pub submit-Replies :
      (n fuel : ℕ) (request : Text) (c : Client P) (r : Result) (after : P)
      → n < fuel
      → (Replies n request c r after
          → submit m fuel request c
            ≡ returned r (record { proc = some after; spawned = c.spawned }))
        × ((d e : Client P)
            → attempt m fuel request c ≡ failed d
            → spawn m d ≡ (true, e)
            → Replies n request e r after
            → submit m fuel request c
              ≡ returned r (record { proc = some after; spawned = e.spawned }))
  unfolding submit
  submit-Replies n fuel request c r after h = (
    λ a. rw (tries, attempt-Replies n fuel request c r after h a) refl,
    λ d e f s a.
        tries_failed 1 fuel request c d e f s
        ∙ rw (tries, attempt-Replies n fuel request e r after h a) refl,
  )

  -- The process ends its output, or fails in some other way that is caught, behind fewer than `n` lines,
  -- none of which is an answer.
  pub data Quits : ℕ → P → Type 0 where
    quits : {n : ℕ} {p : P} → m.read p ≡ none → Quits (suc n) p
    goes_on :
        {n : ℕ} {p q : P} {line : Text}
        → m.read p ≡ some (line, q)
        → parse_line line ≡ none
        → Quits n q
        → Quits (suc n) p

  -- The process does not take the request, or quits once it has.
  abbrev pub Dies : ℕ → Text → P → Type 0
  Dies n request p =
      (m.write p (request ++ 10 ∷ []) ≡ none)
      ⊎ ((q : P) × (m.write p (request ++ 10 ∷ []) ≡ some q) × Quits n q)

  -- The attempt failed, with so many processes started.
  abbrev Fails : ℕ → Attempt P → Type 0
  Fails k a = (d : Client P) × (a ≡ failed d) × (d.spawned ≡ k)

  drain-Quits : (fuel k : ℕ) (p : P) → Quits fuel p → Fails k (drain m fuel k p)
  unfolding drain
  drain-Quits zero k p h = elim h [ ]
  drain-Quits (suc fuel) k p (quits e) = rw (drain, e) (_, refl, refl)
  drain-Quits (suc fuel) k p (goes_on {q = q} e f h) = rw (drain, e, f) (drain-Quits fuel k q h)

  ask-Dies :
      (fuel k : ℕ) (request : Text) (p : P) → Dies fuel request p → Fails k (ask m fuel request k p)
  unfolding ask
  ask-Dies fuel k request p (inl e) = rw (ask, e) (_, refl, refl)
  ask-Dies fuel k request p (inr (q, e, h)) = rw (ask, e) (drain-Quits fuel k q h)

  -- Every process that is started runs until it is asked, and dies then.
  abbrev pub AllDie : ℕ → Text → Type 0
  AllDie n request =
      (k : ℕ) → (p : P) × (m.popen k ≡ some p) × (m.exited p ≡ false) × Dies n request p

  spawn-some :
      (c : Client P) (p : P)
      → m.popen c.spawned ≡ some p
      → spawn m c ≡ (true, record { proc = some p; spawned = suc c.spawned })
  unfolding spawn
  spawn-some c p e = rw (spawn, e) refl

  -- An attempt of a client without a running process, and of one whose process dies.
  attempt_started :
      (fuel : ℕ) (request : Text) (c : Client P)
      → needs_spawn m c.proc ≡ true
      → AllDie fuel request
      → Fails (suc c.spawned) (attempt m fuel request c)
  unfolding attempt ask_client
  attempt_started fuel request c needs all =
      let (p, e, runs, dies) = all c.spawned in
      rw (needs, spawn-some c p e) (ask-Dies fuel (suc c.spawned) request p dies)

  attempt_kept :
      (fuel : ℕ) (request : Text) (c : Client P) (p : P)
      → c.proc ≡ some p
      → m.exited p ≡ false
      → Dies fuel request p
      → Fails c.spawned (attempt m fuel request c)
  unfolding attempt ask_client
  attempt_kept fuel request c p here runs dies =
      rw (here, runs) (ask-Dies fuel c.spawned request p dies)

  after_failure :
      (fuel k : ℕ) (request : Text) (c : Client P)
      → AllDie fuel request
      → Fails k (attempt m fuel request c)
      → submit m fuel request c
        ≡ returned bug (record { proc = m.popen (suc k); spawned = suc (suc k) })
  unfolding submit tries
  after_failure fuel k request c all (d, failing, count) =
      let (p, e, runs, dies) = all k in
      let fresh : Client P = record { proc = some p; spawned = suc k } in
      let started : spawn m d ≡ (true, fresh) =
        subst
          (λ n. m.popen n ≡ some p → spawn m d ≡ (true, record { proc = some p; spawned = suc n }))
          count (spawn-some d p) e in
      let (f, failing', count') = attempt_kept fuel request fresh p refl runs dies in
      let (q, e', _, _) = all (suc k) in
      let last : Client P = record { proc = some q; spawned = suc (suc k) } in
      let started' : spawn m f ≡ (true, last) =
        subst
          (λ n. m.popen n ≡ some q → spawn m f ≡ (true, record { proc = some q; spawned = suc n }))
          count' (spawn-some f q) e' in
      tries_failed 1 fuel request c d fresh failing started
      ∙ (tries_failed 0 fuel request fresh f last failing' started' ∙ rw e' refl)

  -- If the client's process has exited or dies of the request, within the reads that the fuel allows, and
  -- so does every process that is started, the result is the report of a bug after two attempts: two
  -- processes were started, and one more where the client had none that ran, the last of which the client
  -- is left with.
  pub submit-bug :
      (fuel : ℕ) (request : Text) (c : Client P)
      → ((p : P) → c.proc ≡ some p → (m.exited p ≡ true) ⊎ Dies fuel request p)
      → AllDie fuel request
      → submit m fuel request c
        ≡ returned bug (
            let last = if needs_spawn m c.proc then suc (suc c.spawned) else suc c.spawned in
            record { proc = m.popen last; spawned = suc last })
  submit-bug fuel request c own all = elim (Bool-cases (needs_spawn m c.proc)) [
    | inl needs ↦ rw needs (
        after_failure fuel (suc c.spawned) request c all (attempt_started fuel request c needs all))
    | inr kept ↦ elim (Option-cases c.proc) [
      | inl e ↦ let g = rw e at kept in cc
      | inr (p, e) ↦
          let runs : m.exited p ≡ false = rw e at kept in
          elim (own p e) [
            | inl gone ↦ cc
            | inr dies ↦ rw kept (
                after_failure fuel c.spawned request c all
                  (attempt_kept fuel request c p e runs dies))
          ]
    ]
  ]

  drain_sound :
      (fuel n : ℕ) (p : P) (r : Result) (d : Client P)
      → drain m fuel n p ≡ answered r d
      → (k : ℕ) × (after : P) × (d.proc ≡ some after) × Answers k p r after
  unfolding drain
  drain_sound zero n p r d h = cc
  drain_sound (suc fuel) n p r d h = elim (Option-cases (m.read p)) [
    | inl e ↦ absurd (let g = rw (drain, e) at h in cc)
    | inr ((line, q), e) ↦ elim (Option-cases (parse_line line)) [
      | inl f ↦
          let (k, after, left, a) = drain_sound fuel n q r d (rw (drain, e, f) at h) in
          (suc k, after, left, noise e f a)
      | inr (s, f) ↦
          let g = rw (drain, e, f) at h in
          let same : s ≡ r = cc in
          let there : record { proc = some q; spawned = n } ≡ d = cc in
          (0, q, sym (ap (λ c. c.proc) there), at_once e (rw f (ap some same)))
    ]
  ]

  -- Some process took this request and then, behind noise, gave this answer; the client is left with
  -- what remains of it.
  abbrev pub Said : Text → Result → Client P → Type 0
  Said request r d =
      (p : P) × (q : P) × (k : ℕ) × (after : P) × (m.write p (request ++ 10 ∷ []) ≡ some q)
      × (d.proc ≡ some after)
      × Answers k q r after

  attempt-Said :
      (fuel : ℕ) (request : Text) (c : Client P) (r : Result) (d : Client P)
      → attempt m fuel request c ≡ answered r d
      → Said request r d
  unfolding attempt ask_client ask
  attempt-Said fuel request c r d h =
      by_start (if needs_spawn m c.proc then spawn m c else (true, c)) h
    where
      by_start :
          (s : Bool × Client P) → ask_client m fuel request s ≡ answered r d → Said request r d
      by_start (false, e) h = cc
      by_start (true, e) h = elim (Option-cases e.proc) [
        | inl f ↦ absurd (let g = rw f at h in cc)
        | inr (p, f) ↦
            let g = rw f at h in
            elim (Option-cases (m.write p (request ++ 10 ∷ []))) [
              | inl w ↦ absurd (let g' = rw (ask, w) at g in cc)
              | inr (q, w) ↦
                  let (k, after, left, a) = drain_sound fuel e.spawned q r d (rw (ask, w) at g) in
                  (p, q, k, after, w, left, a)
            ]
      ]

  tries-Said :
      (left fuel : ℕ) (request : Text) (c : Client P) (r : Result) (d : Client P)
      → tries m left fuel request c ≡ returned r d
      → (r ≡ bug) ⊎ Said request r d
  unfolding tries
  tries-Said zero fuel request c r d h = inl (ground arith)
  tries-Said (suc left) fuel request c r d h =
      by_attempt (attempt m fuel request c) refl h (λ e g. tries-Said left fuel request e r d g)
    where
      by_attempt :
          (t : Attempt P)
          → attempt m fuel request c ≡ t
          → tries m (suc left) fuel request c ≡ returned r d
          → ((e : Client P)
              → tries m left fuel request e ≡ returned r d
              → (r ≡ bug) ⊎ Said request r d)
          → (r ≡ bug) ⊎ Said request r d
      by_attempt (answered s e) f h rest =
          let g = rw (tries, f) at h in
          let same : s ≡ r = cc in
          let there : e ≡ d = cc in
          inr (attempt-Said fuel request c r d (rw f (rw (same, there) refl)))
      by_attempt reads_on f h rest = absurd (let g = rw (tries, f) at h in cc)
      by_attempt (failed e) f h rest = elim (Bool-cases (spawn m e).0) [
        | inl g ↦ rest (spawn m e).1 (rw (tries, f, g) at h)
        | inr g ↦ absurd (let g' = rw (tries, f, g) at h in cc)
      ]

  -- Whatever is returned, but the report of a bug, is the answer of a process that took the request,
  -- behind lines of noise, and the client is left with that process.
  pub submit-Said :
      (fuel : ℕ) (request : Text) (c : Client P) (r : Result) (d : Client P)
      → submit m fuel request c ≡ returned r d
      → (r ≡ bug) ⊎ Said request r d
  unfolding submit
  submit-Said fuel request c r d h = tries-Said 2 fuel request c r d h
