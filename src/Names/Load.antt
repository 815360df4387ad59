-- ===== src/Names/Load.antt =====
-- The files that spa_open_protected_funcs_list of FlashStack/afl-as.c reads.
use flash_stack.Base.{
  ℕ, suc, ◌+◌, ◌*◌, ◌-◌, ◌≤◌, ◌<◌, ◌≡◌, ◌≢◌, refl, sym, false, none, some, ltb, ltb-eq-false, List,
  [], ◌∷◌, ◌++◌, arith, length, length-append, Bytes, chop, ap, ◌∙◌,
}
use mathlib.Core.Path.{subst}
use mathlib.Core.List.{append_assoc, append-nil}
use flash_stack.Names.{
  max_line, max_protected_funcs, fgets_lines, add_name, add_names, open_protected_funcs_list,
}

-- A name that one call of fgets reads together with its newline.
abbrev pub NoNewline : Bytes → Type 0
NoNewline [] = Unit
NoNewline (c ∷ s) = (c ≢ b'\n') × NoNewline s

abbrev pub AreNames : List Bytes → Type 0
AreNames [] = Unit
AreNames (n ∷ ns) = (0 < length n) × (length n < max_line) × NoNewline n × AreNames ns

-- The file with a name on each line.
abbrev pub written : List Bytes → Bytes → Bytes
written [] rest = rest
written (n ∷ ns) rest = n ++ (b'\n' ∷ written ns rest)

chop-concat : (s : Bytes) (c : ℕ) → chop (s ++ c ∷ []) ≡ s
unfolding chop
chop-concat [] c = refl
chop-concat (d ∷ []) c = refl
chop-concat (d ∷ x ∷ s) c = ap (◌∷◌ d) (chop-concat (x ∷ s) c)

fgets_lines-step :
    (c room : ℕ) (buf s : Bytes)
    → c ≢ b'\n'
    → 1 < room
    → fgets_lines room buf (c ∷ s) ≡ fgets_lines (room - 1) (buf ++ c ∷ []) s
unfolding fgets_lines
fgets_lines-step c room buf s h k = ground arith

fgets_lines-newline :
    (room : ℕ) (buf rest : Bytes)
    → fgets_lines room buf (b'\n' ∷ rest) ≡ (buf ++ b'\n' ∷ []) ∷ fgets_lines max_line [] rest
unfolding fgets_lines
fgets_lines-newline room buf rest = refl

fgets_lines-name :
    (n : Bytes) (room : ℕ) (buf rest : Bytes)
    → NoNewline n
    → length n < room
    → fgets_lines room buf (n ++ (b'\n' ∷ rest))
      ≡ (buf ++ (n ++ (b'\n' ∷ []))) ∷ fgets_lines max_line [] rest
fgets_lines-name [] room buf rest h k = fgets_lines-newline room buf rest
fgets_lines-name (c ∷ n) room buf rest h k =
    fgets_lines-step c room buf (n ++ (b'\n' ∷ rest)) h.0 (omega arith)
    ∙ fgets_lines-name n (room - 1) (buf ++ c ∷ []) rest h.1 (omega arith)
    ∙ rw append_assoc

fgets_lines-end :
    (buf : Bytes) (c room : ℕ) → fgets_lines room (buf ++ c ∷ []) [] ≡ (buf ++ c ∷ []) ∷ []
unfolding fgets_lines
fgets_lines-end [] c room = refl
fgets_lines-end (d ∷ buf) c room = refl

fgets_lines-last :
    (n : Bytes) (c room : ℕ) (buf : Bytes)
    → NoNewline (c ∷ n)
    → suc (length n) < room
    → fgets_lines room buf (c ∷ n) ≡ (buf ++ c ∷ n) ∷ []
fgets_lines-last [] c room buf h k =
    fgets_lines-step c room buf [] h.0 (omega arith) ∙ fgets_lines-end buf c (room - 1)
fgets_lines-last (d ∷ n) c room buf h k =
    fgets_lines-step c room buf (d ∷ n) h.0 (omega arith)
    ∙ fgets_lines-last n d (room - 1) (buf ++ c ∷ []) h.1 (omega arith)
    ∙ rw append_assoc

add_name-name :
    (n : Bytes) (names : List Bytes) → 0 < length n → add_name (n ++ b'\n' ∷ []) names ≡ n ∷ names
unfolding add_name
add_name-name n names h = ground (arith, length-append n (b'\n' ∷ []), chop-concat n b'\n')

-- The names of a file, however many.
abbrev names_of : Bytes → List Bytes
names_of file = add_names (fgets_lines max_line [] file)

add_names-written :
    (ns : List Bytes) (rest : Bytes)
    → AreNames ns
    → names_of (written ns rest) ≡ ns ++ names_of rest
unfolding add_names add_name
add_names-written [] rest h = refl
add_names-written (n ∷ ns) rest h =
    ap add_names (fgets_lines-name n max_line [] (written ns rest) h.2 (omega arith))
    ∙ add_name-name n _ h.0
    ∙ ap (◌∷◌ n) (add_names-written ns rest h.3)

names_of-last :
    (last : Bytes)
    → NoNewline last
    → 1 < length last
    → length last < max_line
    → names_of last ≡ chop last ∷ []
unfolding add_names add_name
names_of-last [] nl lo hi = absurd (omega arith)
names_of-last (c ∷ []) nl lo hi = absurd (omega arith)
names_of-last (c ∷ d ∷ n) nl lo hi =
    ap add_names (fgets_lines-last (d ∷ n) c max_line [] nl hi) ∙ ground arith

reads :
    (file : Bytes) (names : List Bytes)
    → names_of file ≡ names
    → length names ≤ max_protected_funcs
    → open_protected_funcs_list file ≡ some names
unfolding open_protected_funcs_list
reads file names e l =
    let within : ltb max_protected_funcs (length (names_of file)) ≡ false =
      ltb-eq-false _ _ (subst (λ x. length x ≤ max_protected_funcs) (sym e) l) in
    rw within (ap some e)

-- With room in the table for one name more: a file with a name on each line, every line ended by
-- a newline, is read back as the list of the names. If the last line has no newline, its name
-- loses its last byte. A file with more names than the table holds is written past its end.
pub open_protected_funcs_list-written :
    (ns : List Bytes) (last : Bytes)
    → AreNames ns
    → NoNewline last
    → 1 < length last
    → length last < max_line
    → (length ns < max_protected_funcs
        → (open_protected_funcs_list (written ns []) ≡ some ns)
          × (open_protected_funcs_list (written ns last) ≡ some (ns ++ chop last ∷ [])))
      × (max_protected_funcs < length ns → open_protected_funcs_list (written ns []) ≡ none)
unfolding open_protected_funcs_list
open_protected_funcs_list-written ns last h nl lo hi =
    let all = add_names-written ns [] h ∙ append-nil ns in
    let all' = add_names-written ns last h ∙ ap (◌++◌ ns) (names_of-last last nl lo hi) in
    (
      λ l. (
        reads (written ns []) ns all (omega (arith, l)),
        reads (written ns last) (ns ++ chop last ∷ []) all'
            (omega (arith, l, length-append ns (chop last ∷ []))),
      ),
      λ l. rw all (ground (arith, l)),
    )

abbrev total : List Bytes → ℕ
total [] = 0
total (line ∷ lines) = length line + total lines

total-fgets_lines :
    (room : ℕ) (buf s : Bytes) → total (fgets_lines room buf s) ≡ length buf + length s
unfolding fgets_lines
total-fgets_lines room [] [] = omega arith
total-fgets_lines room (d ∷ buf) [] = omega arith
total-fgets_lines room buf (c ∷ s) = ground (
  arith,
  length-append buf (c ∷ []),
  total-fgets_lines max_line [] s,
  total-fgets_lines (room - 1) (buf ++ c ∷ []) s,
)

length-add_names : (lines : List Bytes) → 2 * length (add_names lines) ≤ total lines
unfolding add_names
length-add_names [] = omega arith
length-add_names (line ∷ lines) = ground (arith, length-add_names lines)

-- A file of n bytes gives at most n / 2 names, so the table of 0x400000 pointers holds the names of
-- every file of at most 0x800000 bytes.
open_protected_funcs_list_bound :
    (file : Bytes) → length file ≤ 0x800000 → open_protected_funcs_list file ≡ some (names_of file)
open_protected_funcs_list_bound file h = reads file (names_of file) refl (
    omega (
      arith,
      h,
      length-add_names (fgets_lines max_line [] file),
      total-fgets_lines max_line [] file,
    ))
