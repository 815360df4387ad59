-- ===== src/Base/Text.antt =====
-- The C strings of the sources: lists of bytes without the terminating zero, and the functions of
-- string.h that the sources call on them.
use Prim.Native.Nat.{ℕ, compare, Ordering}
use Prim.Native.Char.{code}
use Prim.Native.String.{String}
use mathlib.Core.Bool.{Bool, true, false, ◌&&◌, ◌||◌}
use mathlib.Core.List.{List, [], ◌∷◌}
use flash_stack.Base.Tests.{◌==◌, leb, if◌then◌else◌}

abbrev pub Bytes : Type 0
Bytes = List ℕ

-- The code points of a text: its bytes, if it is ASCII.
abbrev pub codes : String → Bytes
codes String.[] = []
codes (String.◌∷◌ c s) = code c ∷ codes s

-- `!strncmp(line, p, strlen(p))`.
unfoldable pub starts_with : Bytes → Bytes → Bool
starts_with s [] = true
starts_with [] (p ∷ ps) = false
starts_with (c ∷ s) (p ∷ ps) = c == p && starts_with s ps

-- `strstr(line, p) != NULL`.
unfoldable pub contains : Bytes → Bytes → Bool
unfolding starts_with
contains [] p = starts_with [] p
contains (c ∷ s) p = starts_with (c ∷ s) p || contains s p

-- `c = strstr(line, p); if (c) *c = 0;`
unfoldable pub cut_at : Bytes → Bytes → Bytes
unfolding starts_with
cut_at p [] = []
cut_at p (c ∷ s) = if starts_with (c ∷ s) p then [] else c ∷ cut_at p s

-- `c = strstr(line, p); if (c) strcpy(c, q);`
unfoldable pub overwrite_at : Bytes → Bytes → Bytes → Bytes
unfolding starts_with
overwrite_at p q [] = []
overwrite_at p q (c ∷ s) = if starts_with (c ∷ s) p then q else c ∷ overwrite_at p q s

-- `line[strlen(line) - 1] = 0`.
unfoldable pub chop : Bytes → Bytes
chop [] = []
chop (c ∷ []) = []
chop (c ∷ d ∷ s) = c ∷ chop (d ∷ s)

-- `line[i]`, the terminating zero included.
abbrev pub char_at : Bytes → ℕ → ℕ
char_at [] i = 0
char_at (c ∷ s) ℕ.zero = c
char_at (c ∷ s) (ℕ.suc i) = char_at s i

unfoldable pub is_digit : ℕ → Bool
is_digit c = leb b'0' c && leb c b'9'

unfoldable pub is_alpha : ℕ → Bool
is_alpha c = (leb b'a' c && leb c b'z') || (leb b'A' c && leb c b'Z')

-- `strcmp`: the sign of the difference of the first bytes that differ.
unfoldable pub strcmp : Bytes → Bytes → Ordering
strcmp [] [] = Ordering.eq
strcmp [] (c ∷ t) = Ordering.lt
strcmp (c ∷ s) [] = Ordering.gt
strcmp (c ∷ s) (d ∷ t) =
    let rest = strcmp s t in
    elim (compare c d) [
      | Ordering.lt ↦ Ordering.lt
      | Ordering.eq ↦ rest
      | Ordering.gt ↦ Ordering.gt
    ]
