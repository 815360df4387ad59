-- ===== src/Command/Params.antt =====
-- The decisions of edit_params in FlashStack/afl-as.c.
use flash_stack.Base.{
  ℕ, ◌+◌, ◌<◌, ◌≡◌, ◌≢◌, ◌↔◌, ◌∙◌, refl, Bool, true, false, not, ◌&&◌, none, some, List, [], ◌∷◌,
  ◌++◌, arith, Bytes, codes, starts_with, char_at, strcmp, Bool-cases, inl, inr,
}
use flash_stack.Instrument.{cfi_startproc, cfi_endproc}
use flash_stack.Instrument.Region.{one_directive, tick}
use flash_stack.Command.{
  Surroundings, Invocation, edited, unreadable_input, same_text, rustc_counts, is_rustc_pass_thru,
  tmp_dir, mode_64bit, dotted, modified_name, is_foreign, edit_params, invocation,
}

-- The number of lines that carry the directive.
abbrev pub lines_with : Bytes → List Bytes → ℕ
lines_with directive [] = 0
lines_with directive (line ∷ lines) = tick line directive + lines_with directive lines

counts-lines_with :
    (lines : List Bytes) (a b : ℕ)
    → rustc_counts lines a b
      ≡ (a + lines_with cfi_startproc lines, b + lines_with cfi_endproc lines)
unfolding rustc_counts
counts-lines_with [] a b = ground arith
counts-lines_with (line ∷ lines) a b = elim (Bool-cases (starts_with line cfi_startproc)) [
  | inl s ↦
      let n = one_directive line s in rw s (counts-lines_with lines (a + 1) b ∙ rw n (ground arith))
  | inr s ↦ elim (Bool-cases (starts_with line cfi_endproc)) [
    | inl t ↦ rw (s, t) (counts-lines_with lines a (b + 1) ∙ ground arith)
    | inr t ↦ rw (s, t) (counts-lines_with lines a b ∙ ground arith)
  ]
]

is_rustc_pass_thru_iff :
    (lines : List Bytes)
    → (is_rustc_pass_thru lines ≡ true) ↔ (
        (0 < lines_with cfi_startproc lines)
        × (lines_with cfi_startproc lines ≡ lines_with cfi_endproc lines))
unfolding is_rustc_pass_thru
is_rustc_pass_thru_iff lines = rw (counts-lines_with lines 0 0) (ground arith)

-- The input lies in none of the three directories for temporary files.
abbrev pub LiesElsewhere : Surroundings → Bytes → Type 0
LiesElsewhere e input =
    (starts_with input (tmp_dir e) ≡ false)
    × (starts_with input (codes "/var/tmp/") ≡ false)
    × (starts_with input (codes "/tmp/") ≡ false)

is_foreign_iff :
    (e : Surroundings) (input : Bytes) → (is_foreign e input ≡ true) ↔ LiesElsewhere e input
unfolding is_foreign
is_foreign_iff e input = ground arith

-- For an input file whose name does not begin with `-`, edit_params ends in PFATAL exactly if the
-- file cannot be read. Otherwise it gives a command line, and the file is passed through exactly if
-- its name begins neither with the directory for temporary files nor with `/var/tmp/` or `/tmp/`
-- and, besides, it has no function, or not as many `.cfi_startproc` as `.cfi_endproc`.
pub edit_params-pass_thru_iff :
    (e : Surroundings) (args : List Bytes) (input : Bytes)
    → char_at input 0 ≢ b'-'
    → (e.file_lines input ≡ none → edit_params e args input ≡ unreadable_input)
      × ((lines : List Bytes)
          → e.file_lines input ≡ some lines
          → (c : Invocation) × (edit_params e args input ≡ edited c)
            × ((c.pass_thru ≡ true) ↔ (
                LiesElsewhere e input
                × ¬ (
                    (0 < lines_with cfi_startproc lines)
                    × (lines_with cfi_startproc lines ≡ lines_with cfi_endproc lines)))))
unfolding edit_params
edit_params-pass_thru_iff e args input h = (
  λ n. ground (arith, h, n),
  λ lines f.
      let r = is_rustc_pass_thru_iff lines in
      let g = is_foreign_iff e input in
      (
        invocation e args input (is_foreign e input && not (is_rustc_pass_thru lines)) false
            (modified_name e input),
        ground (arith, h, f),
        ground (arith, r, g),
      ),
)

abbrev pub NoSlash : Bytes → Type 0
NoSlash [] = Unit
NoSlash (c ∷ s) = (c ≢ b'/') × NoSlash s

append-NoSlash : (a b : Bytes) → NoSlash a → NoSlash b → NoSlash (a ++ b)
append-NoSlash [] b p q = q
append-NoSlash (c ∷ a) b (n, p) q = (n, append-NoSlash a b p q)

dotted-NoSlash : (s : Bytes) → NoSlash (dotted s)
unfolding dotted
dotted-NoSlash [] = tt
dotted-NoSlash (c ∷ s) = (ground arith, dotted-NoSlash s)

-- The modified file is written directly to the directory for temporary files, wherever the input
-- file lies: behind that directory and a slash its name has no slash.
pub modified_name-NoSlash :
    (e : Surroundings) (input : Bytes)
    → NoSlash e.stamp
    → (name : Bytes) × (modified_name e input ≡ tmp_dir e ++ (b'/' ∷ name)) × NoSlash name
unfolding modified_name
modified_name-NoSlash e input h = (
  codes "SPA-" ++ (e.stamp ++ (codes "-###" ++ (dotted input ++ codes "###.s"))),
  refl,
  append-NoSlash (codes "SPA-") _ (ground arith) (
      append-NoSlash e.stamp _ h (
        append-NoSlash (codes "-###") _ (ground arith)
          (append-NoSlash (dotted input) _ (dotted-NoSlash input) (ground arith)))),
)

-- None of these is --64 or --32.
abbrev pub NoMode : List Bytes → Type 0
NoMode [] = Unit
NoMode (arg ∷ args) =
    (same_text arg (codes "--64") ≡ false) × (same_text arg (codes "--32") ≡ false) × NoMode args

mode_64bit-NoMode : (b : Bool) (args : List Bytes) → NoMode args → mode_64bit b args ≡ b
unfolding mode_64bit
mode_64bit-NoMode b [] h = refl
mode_64bit-NoMode b (arg ∷ args) (p, q, h) = rw (p, q) (mode_64bit-NoMode b args h)

-- The last of --64 and --32 decides the mode, whatever stands before it.
mode_64bit-last :
    (before after : List Bytes) (b : Bool)
    → NoMode after
    → (mode_64bit b (before ++ (codes "--64" ∷ after)) ≡ true)
      × (mode_64bit b (before ++ (codes "--32" ∷ after)) ≡ false)
unfolding mode_64bit strcmp
mode_64bit-last [] after b h = (mode_64bit-NoMode true after h, mode_64bit-NoMode false after h)
mode_64bit-last (arg ∷ before) after b h = mode_64bit-last before after _ h
