-- ===== src/Driver/Fatal.antt =====
-- When FlashStack/afl-gcc.c ends with a message, and how many parameters it and
-- FlashStack/afl-rustc.c write into their arrays.
use mathlib.Core.Option.{none-ne-some}
use flash_stack.Base.{
  ◌≡◌, ◌⊎◌, ◌↔◌, inl, inr, sym, ◌∙◌, Bool, true, false, ◌||◌, List, [], ◌∷◌, none, ◌==◌, arith,
  Bytes, codes, starts_with, char_at, Bool-cases, Option-cases,
}
use flash_stack.Scheme.{Scheme}
use flash_stack.Command.{same_text}
use flash_stack.Driver.{Setting, find_as}
use flash_stack.Driver.Arguments.{Flags, no_flags, note_so, note_checks, keep_arguments}
use flash_stack.Driver.Compile.{sanitizer_params, edit_cc_params, fatal, cc_main}

-- Some argument that is passed on asks for a sanitizer.
abbrev pub asks_sanitizer : List Bytes → Bool
asks_sanitizer [] = false
asks_sanitizer (arg ∷ args) =
    same_text arg (codes "-fsanitize=address")
    || same_text arg (codes "-fsanitize=memory")
    || asks_sanitizer args

asan_set-asks_sanitizer :
    (skip : Bool) (args : List Bytes) (f : Flags)
    → (keep_arguments skip args f).1.asan_set
      ≡ (f.asan_set || asks_sanitizer (keep_arguments skip args f).0)
unfolding keep_arguments note_so note_checks
asan_set-asks_sanitizer skip [] f = ground arith
asan_set-asks_sanitizer true (cur ∷ args) f = asan_set-asks_sanitizer false args f
asan_set-asks_sanitizer false (cur ∷ args) f =
    let so = note_so cur args f in
    elim (Bool-cases (starts_with cur (codes "-B"))) [
      | inl b ↦ rw b (asan_set-asks_sanitizer (char_at cur 2 == 0) args f)
      | inr b ↦
          elim (Bool-cases
            (same_text cur (codes "-integrated-as") || same_text cur (codes "-pipe"))) [
              | inl o ↦ rw (b, o) (asan_set-asks_sanitizer false args so)
              | inr o ↦
                  let rest = asan_set-asks_sanitizer false args (note_checks cur so) in
                  rw (b, o) (rest ∙ ground arith)
            ]
    ]

sanitizer_params-none_iff :
    (e : Setting) (asan_set : Bool)
    → (sanitizer_params e asan_set ≡ none) ↔ (
        (asan_set ≡ false)
        × (((e.afl_use_asan ≡ true) × (e.afl_use_msan ≡ true))
            ⊎ ((e.afl_harden ≡ true) × ((e.afl_use_asan ≡ true) ⊎ (e.afl_use_msan ≡ true)))))
unfolding sanitizer_params
sanitizer_params-none_iff e true = ground arith
sanitizer_params-none_iff e false = ground arith

edit_cc_params-none_iff :
    (e : Setting) (s : Scheme) (as_path argv0 : Bytes) (args : List Bytes)
    → (edit_cc_params e s as_path argv0 args ≡ none)
      ↔ (sanitizer_params e (keep_arguments false args no_flags).1.asan_set ≡ none)
unfolding edit_cc_params
edit_cc_params-none_iff e s as_path argv0 args = ground arith

-- The arguments that are passed on.
abbrev pub kept_of : List Bytes → List Bytes
kept_of args = (keep_arguments false args no_flags).0

abbrev pub Excludes : Setting → Type 0
Excludes e =
    ((e.afl_use_asan ≡ true) × (e.afl_use_msan ≡ true))
    ⊎ ((e.afl_harden ≡ true) × ((e.afl_use_asan ≡ true) ⊎ (e.afl_use_msan ≡ true)))

-- Called with some argument, main of afl-gcc.c ends with a message before it starts a compiler
-- exactly if find_as finds no directory, or no argument that is passed on asks for a sanitizer and
-- the variables AFL_USE_ASAN, AFL_USE_MSAN and AFL_HARDEN exclude each other: two are set, at least
-- one of them AFL_USE_ASAN or AFL_USE_MSAN.
pub cc_main-fatal_iff :
    (e : Setting) (s : Scheme) (argv0 arg : Bytes) (args : List Bytes)
    → (cc_main e s argv0 (arg ∷ args) ≡ fatal)
      ↔ ((find_as e argv0 ≡ none) ⊎ ((asks_sanitizer (kept_of (arg ∷ args)) ≡ false) × Excludes e))
unfolding cc_main
cc_main-fatal_iff e s argv0 arg args =
    let flag = asan_set-asks_sanitizer false (arg ∷ args) no_flags in
    let k = (keep_arguments false (arg ∷ args) no_flags).1.asan_set in
    let none_iff = sanitizer_params-none_iff e k in
    let edit_iff = λ (p : Bytes). edit_cc_params-none_iff e s p argv0 (arg ∷ args) in
    elim (Option-cases (find_as e argv0)) [
      | inl n ↦ (λ _. inl n, λ _. rw (cc_main, n))
      | inr (path, n) ↦ elim (Option-cases (edit_cc_params e s path argv0 (arg ∷ args))) [
        | inl m ↦
            let (out, x) = none_iff.0 ((edit_iff path).0 m) in
            (λ _. inr (sym flag ∙ out, x), λ _. rw (cc_main, n, m))
        | inr (params, m) ↦ (
          λ h. absurd (ground (arith, rw (cc_main, n, m) at h)),
          λ why. elim why [
            | inl n' ↦ absurd (ground (arith, n, n'))
            | inr (a, x) ↦
                absurd
                  (none-ne-some params (sym ((edit_iff path).1 (none_iff.1 (flag ∙ a, x))) ∙ m))
          ],
        )
      ]
    ]
