-- ===== src/Common/Strings/Lines.antt =====
-- White space, `strip`, and `splitlines` with and without the line ends.
use Prim.Native.Nat.{ℕ}
use mathlib.Core.Path.{◌≡◌, refl}
use mathlib.Core.Bool.{Bool, false, ◌&&◌, ◌||◌}
use mathlib.Core.List.{List, [], ◌∷◌, reverse, flatten}
use native.Mathlib.Omega.{arith}
use etheorem.Common.Tests.{◌==◌, leb, if◌then◌else◌}
use etheorem.Common.Strings.{Text, attach}

-- `str.isspace`, which is also `\s` of a pattern.
unfoldable pub is_space : ℕ → Bool
is_space c =
    (leb 9 c && leb c 13)
    || ((leb 28 c && leb c 32)
        || ((c == 0x85)
            || ((c == 0xa0)
                || ((c == 0x1680)
                    || ((leb 0x2000 c && leb c 0x200a)
                        || ((c == 0x2028)
                            || ((c == 0x2029)
                                || ((c == 0x202f) || ((c == 0x205f) || (c == 0x3000))))))))))

-- The line boundaries of `str.splitlines`.
unfoldable pub is_break : ℕ → Bool
is_break c =
    (leb 10 c && leb c 13)
    || ((leb 28 c && leb c 30) || ((c == 0x85) || ((c == 0x2028) || (c == 0x2029))))

unfoldable pub lstrip : Text → Text
unfolding is_space
lstrip [] = []
lstrip (c ∷ s) = let rest = lstrip s in if is_space c then rest else c ∷ s

unfoldable pub rstrip : Text → Text
unfolding lstrip
rstrip s = reverse (lstrip (reverse s))

unfoldable pub strip : Text → Text
unfolding lstrip rstrip
strip s = rstrip (lstrip s)

-- `"\r\n"` is one boundary: the first of the two is no boundary of its own.
abbrev pub before_newline : ℕ → Text → Bool
before_newline c [] = false
before_newline c (d ∷ s) = (c == 13) && (d == 10)

unfoldable pub splitlines : Text → List Text
unfolding is_break
splitlines [] = []
splitlines (c ∷ s) =
    let rest = splitlines s in
    if is_break c then if before_newline c s then rest else [] ∷ rest else attach c rest

-- `splitlines(keepends=True)`
unfoldable pub splitlines_keepends : Text → List Text
unfolding is_break
splitlines_keepends [] = []
splitlines_keepends (c ∷ s) =
    let rest = splitlines_keepends s in
    if is_break c
    then if before_newline c s then attach c rest else (c ∷ []) ∷ rest
    else attach c rest

flatten-attach : (c : ℕ) (ws : List Text) → flatten (attach c ws) ≡ c ∷ flatten ws
unfolding flatten
flatten-attach c [] = refl
flatten-attach c (w ∷ ws) = refl

-- Joining the kept lines gives the text back.
pub flatten-splitlines_keepends : (s : Text) → flatten (splitlines_keepends s) ≡ s
unfolding splitlines_keepends flatten
flatten-splitlines_keepends [] = refl
flatten-splitlines_keepends (c ∷ s) =
    ground (arith, flatten-attach c (splitlines_keepends s), flatten-splitlines_keepends s)
