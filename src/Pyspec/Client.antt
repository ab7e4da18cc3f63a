-- ===== src/Pyspec/Client.antt =====
-- `ServerClient` of both harnesses. The server's process is a parameter: whether it has exited, what
-- becomes of it when a line is written to it or read from it, and the process that the n-th
-- `Popen` starts. A step that raises one of the exceptions caught returns nothing; an end of file
-- counts as one of them, as in the source. The reading loop has fuel, and says so when that is used
-- up: a server that sends lines for ever that are no answer keeps the source's loop for ever.
pub mod Laws
pub mod Lines
use mathlib.Core.Option
use etheorem.Common.{
  ℕ, zero, suc, ◌+◌, Bool, true, false, not, ◌&&◌, ◌||◌, Option, none, some, List, [], ◌∷◌, ◌++◌,
  Text, codes, text_eq, split_on, is_empty, get_or, ◌==◌, if◌then◌else◌,
}

pub record Result : Type 0 where
  pub passed : Bool
  pub bucket : Text
  pub detail : Text

-- `line.rstrip("\n")`
unfoldable pub rstrip_newlines : Text → Text
rstrip_newlines [] = []
rstrip_newlines (c ∷ s) =
    let rest = rstrip_newlines s in if is_empty rest && (c == 10) then [] else c ∷ rest

-- The result on a line that begins with `pass` or `fail`; any other line is noise.
unfoldable pub parse_line : Text → Option Result
unfolding rstrip_newlines split_on text_eq
parse_line line =
    let parts = split_on 9 (rstrip_newlines line) in
    let head = get_or parts 0 [] in
    if text_eq head (codes "pass") || text_eq head (codes "fail")
    then some (record {
      passed = text_eq head (codes "pass");
      bucket = get_or parts 1 (codes "?");
      detail = get_or parts 2 [];
    })
    else none

abbrev pub bug : Result
bug = record {
  passed = false;
  bucket = codes "bug";
  detail = codes "server died; re-spawned and retried, case still failed";
}

pub record Machine (P : Type 0) : Type 0 where
  pub exited : P → Bool
  pub write : P → Text → Option P
  pub read : P → Option (Text × P)
  pub popen : ℕ → Option P

-- The client: its process, and how many were started.
pub record Client (P : Type 0) : Type 0 where
  pub proc : Option P
  pub spawned : ℕ

-- The end of one pass through the loop's body.
pub data Attempt (P : Type 0) : Type 0 where
  answered : Result → Client P → Attempt P
  failed : Client P → Attempt P
  reads_on : Attempt P

-- The end of `submit`: a result, an exception of `_spawn` that nothing catches, or no fuel left.
pub data Ending (P : Type 0) : Type 0 where
  returned : Result → Client P → Ending P
  uncaught : Ending P
  no_end : Ending P

module _ {P : Type 0} (m : Machine P) where
  -- `_spawn`; a `Popen` that raises leaves the old process in place.
  unfoldable pub spawn : Client P → Bool × Client P
  spawn c = elim (m.popen c.spawned) [
    | none ↦ (false, record { proc = c.proc; spawned = suc c.spawned })
    | some p ↦ (true, record { proc = some p; spawned = suc c.spawned })
  ]

  -- `while True: line = readline()`
  unfoldable pub drain : ℕ → ℕ → P → Attempt P
  unfolding parse_line
  drain zero n p = reads_on
  drain (suc fuel) n p = elim (m.read p) [
    | none ↦ failed (record { proc = some p; spawned = n })
    | some (line, q) ↦ elim (parse_line line) [
      | some r ↦ answered r (record { proc = some q; spawned = n })
      | none ↦ drain fuel n q
    ]
  ]

  -- The request is written to a process, and the answer is read.
  unfoldable pub ask : ℕ → Text → ℕ → P → Attempt P
  unfolding drain
  ask fuel request n p = elim (m.write p (request ++ 10 ∷ [])) [
    | none ↦ failed (record { proc = some p; spawned = n })
    | some q ↦ drain fuel n q
  ]

  -- `if self.proc is None or self.proc.poll() is not None`
  abbrev pub needs_spawn : Option P → Bool
  needs_spawn none = true
  needs_spawn (some p) = m.exited p

  -- What follows the first `_spawn` of an attempt, which may have raised.
  unfoldable pub ask_client : ℕ → Text → Bool × Client P → Attempt P
  unfolding ask
  ask_client fuel request (false, c) = failed c
  ask_client fuel request (true, c) = elim c.proc [
    | none ↦ failed c
    | some p ↦ ask fuel request c.spawned p
  ]

  -- The body of the `try`.
  unfoldable pub attempt : ℕ → Text → Client P → Attempt P
  unfolding spawn ask_client
  attempt fuel request c =
      ask_client fuel request (if needs_spawn c.proc then spawn c else (true, c))

  -- `for _ in range(2)`, with the tries that are left.
  unfoldable pub tries : ℕ → ℕ → Text → Client P → Ending P
  unfolding attempt spawn
  tries zero fuel request c = returned bug c
  tries (suc left) fuel request c = elim (attempt fuel request c) [
    | answered r d ↦ returned r d
    | reads_on ↦ no_end
    | failed d ↦ elim (spawn d).0 [ false ↦ uncaught | true ↦ tries left fuel request (spawn d).1 ]
  ]

  unfoldable pub submit : ℕ → Text → Client P → Ending P
  unfolding tries
  submit fuel request c = tries 2 fuel request c

-- What `close` asks of the process: whether it has an input, closing that, waiting for at most thirty
-- seconds, and `kill`. A step that raises returns nothing.
pub record Closer (P : Type 0) : Type 0 where
  pub has_stdin : P → Bool
  pub close_stdin : P → Option P
  pub wait : P → Option P
  pub kill : P → P

module _ {P : Type 0} (k : Closer P) where
  -- The process is killed if it cannot be waited for.
  unfoldable pub wait_or_kill : P → P
  wait_or_kill p = elim (k.close_stdin p) [
    | none ↦ k.kill p
    | some q ↦ elim (k.wait q) [ none ↦ k.kill q | some r ↦ r ]
  ]

  unfoldable pub close : Client P → Client P
  unfolding wait_or_kill
  close c = elim c.proc [
    | none ↦ c
    | some p ↦
        if k.has_stdin p then record { proc = some (wait_or_kill p); spawned = c.spawned } else c
  ]
