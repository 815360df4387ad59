-- ===== src/Driver/Kept.antt =====
-- The command line that FlashStack/afl-gcc.c starts the compiler with.
use mathlib.Core.Path.{subst}
use mathlib.Core.Option.{some-injective, none-ne-some}
use flash_stack.Base.{
  Option-cases, sym, ◌≡◌, ◌⊎◌, inl, inr, refl, Bool, true, false, ◌||◌, List, [], ◌∷◌, ◌++◌, some,
  ◌==◌, if◌then◌else◌, arith, Bytes, codes, starts_with, char_at, Bool-cases,
}
use flash_stack.Scheme.{
  Scheme, shadow_stack, shadow_stack_via_reg, buddy_stack_tls, gs_rsp, shadesmar_gs, fs_gs_tls,
  buddy_tls_stk_size, global_randvar,
}
use flash_stack.Command.{same_text}
use flash_stack.Driver.{Setting, program_name, compiler_of, is_clang}
use flash_stack.Driver.Arguments.{Flags, no_flags, note_so, note_checks, keep_arguments}
use flash_stack.Driver.Compile.{
  scheme_params, harden_params, builtin_params, sanitizer_params, last_params, edit_cc_params,
}

-- What may become of the arguments: `-B` with its path, and the two options that would keep the
-- compiler from calling an assembler, are dropped, and the others stay, in their order.
pub data Edits : List Bytes → List Bytes → Type 0 where
  none_left : Edits [] []
  keeps :
      {cur : Bytes} {args kept : List Bytes}
      → starts_with cur (codes "-B") ≡ false
      → same_text cur (codes "-integrated-as") ≡ false
      → same_text cur (codes "-pipe") ≡ false
      → Edits args kept
      → Edits (cur ∷ args) (cur ∷ kept)
  drops_option :
      {cur : Bytes} {args kept : List Bytes}
      → (same_text cur (codes "-integrated-as") || same_text cur (codes "-pipe")) ≡ true
      → Edits args kept
      → Edits (cur ∷ args) kept
  drops_path :
      {cur : Bytes} {args kept : List Bytes}
      → starts_with cur (codes "-B") ≡ true
      → (char_at cur 2 == 0) ≡ false
      → Edits args kept
      → Edits (cur ∷ args) kept
  drops_both :
      {cur next : Bytes} {args kept : List Bytes}
      → starts_with cur (codes "-B") ≡ true
      → (char_at cur 2 == 0) ≡ true
      → Edits args kept
      → Edits (cur ∷ next ∷ args) kept
  drops_last :
      {cur : Bytes}
      → starts_with cur (codes "-B") ≡ true
      → (char_at cur 2 == 0) ≡ true
      → Edits (cur ∷ []) []

first_argument :
    (cur : Bytes) (args : List Bytes) (f : Flags)
    → ((g : Flags) → Edits args (keep_arguments false args g).0)
    → (starts_with cur (codes "-B") ≡ true
        → (char_at cur 2 == 0) ≡ true
        → Edits (cur ∷ args) (keep_arguments true args f).0)
    → Edits (cur ∷ args) (keep_arguments false (cur ∷ args) f).0
unfolding keep_arguments
first_argument cur args f rest skipping = elim (Bool-cases (starts_with cur (codes "-B"))) [
  | inl b ↦ elim (Bool-cases (char_at cur 2 == 0)) [
    | inl z ↦ rw (b, z) (skipping b z)
    | inr z ↦ rw (b, z) (drops_path b z (rest f))
  ]
  | inr b ↦
      elim (Bool-cases (same_text cur (codes "-integrated-as") || same_text cur (codes "-pipe"))) [
        | inl o ↦ rw (b, o) (drops_option o (rest (note_so cur args f)))
        | inr o ↦
            rw (b, o)
              (keeps b (ground (arith, o)) (ground (arith, o))
                (rest (note_checks cur (note_so cur args f))))
      ]
]

pub keep_arguments-Edits :
    (args : List Bytes) (f : Flags) → Edits args (keep_arguments false args f).0
unfolding keep_arguments
keep_arguments-Edits [] f = none_left
keep_arguments-Edits (cur ∷ []) f =
    first_argument cur [] f (λ g. keep_arguments-Edits [] g) (λ b z. drops_last b z)
keep_arguments-Edits (cur ∷ next ∷ rest) f =
    first_argument cur (next ∷ rest) f (λ g. keep_arguments-Edits (next ∷ rest) g)
      (λ b z. drops_both b z (keep_arguments-Edits rest f))

-- None of these names a directory for the assembler.
abbrev pub NoPath : List Bytes → Type 0
NoPath [] = Unit
NoPath (arg ∷ args) = (starts_with arg (codes "-B") ≡ false) × NoPath args

append-NoPath : (xs ys : List Bytes) → NoPath xs → NoPath ys → NoPath (xs ++ ys)
append-NoPath [] ys h h' = h'
append-NoPath (x ∷ xs) ys (n, h) h' = (n, append-NoPath xs ys h h')

Edits-NoPath : {args kept : List Bytes} → Edits args kept → NoPath kept
Edits-NoPath none_left = tt
Edits-NoPath (keeps b i p h) = (b, Edits-NoPath h)
Edits-NoPath (drops_option o h) = Edits-NoPath h
Edits-NoPath (drops_path b z h) = Edits-NoPath h
Edits-NoPath (drops_both b z h) = Edits-NoPath h
Edits-NoPath (drops_last b z) = tt

scheme_params-NoPath : (e : Setting) (s : Scheme) → NoPath (scheme_params e s)
unfolding starts_with
scheme_params-NoPath e (buddy_tls_stk_size non_pie) = ground arith
scheme_params-NoPath e (fs_gs_tls msr) = ground arith
scheme_params-NoPath e gs_rsp = ground arith
scheme_params-NoPath e shadow_stack = tt
scheme_params-NoPath e shadow_stack_via_reg = tt
scheme_params-NoPath e buddy_stack_tls = tt
scheme_params-NoPath e shadesmar_gs = tt
scheme_params-NoPath e global_randvar = tt

if-NoPath : (b : Bool) (xs : List Bytes) → NoPath xs → NoPath (if b then xs else [])
if-NoPath true xs h = h
if-NoPath false xs h = tt

unless-NoPath : (b : Bool) (xs : List Bytes) → NoPath xs → NoPath (if b then [] else xs)
unless-NoPath true xs h = tt
unless-NoPath false xs h = h

-- The outcomes that are possible.
pub sanitizer_cases :
    (e : Setting) (asan_set : Bool) (params : List Bytes)
    → sanitizer_params e asan_set ≡ some params
    → (params ≡ [])
      ⊎ (params ≡ codes "-U_FORTIFY_SOURCE" ∷ codes "-fsanitize=address" ∷ [])
      ⊎ (params ≡ codes "-U_FORTIFY_SOURCE" ∷ codes "-fsanitize=memory" ∷ [])
unfolding sanitizer_params
sanitizer_cases e true params h = inl (sym (some-injective [] params h))
sanitizer_cases e false params h = ground (arith, h)

sanitizer-NoPath :
    (params : List Bytes)
    → (params ≡ [])
      ⊎ (params ≡ codes "-U_FORTIFY_SOURCE" ∷ codes "-fsanitize=address" ∷ [])
      ⊎ (params ≡ codes "-U_FORTIFY_SOURCE" ∷ codes "-fsanitize=memory" ∷ [])
    → NoPath params
unfolding starts_with
sanitizer-NoPath params (inl h) = subst NoPath (sym h) tt
sanitizer-NoPath params (inr (inl h)) = subst NoPath (sym h) (ground arith)
sanitizer-NoPath params (inr (inr h)) = subst NoPath (sym h) (ground arith)

last_params-NoPath :
    (e : Setting) (s : Scheme) (name : Bytes) (f : Flags) (sanitizer : List Bytes)
    → sanitizer_params e f.asan_set ≡ some sanitizer
    → NoPath (last_params e s name f sanitizer)
unfolding starts_with
last_params-NoPath e s name f sanitizer h =
    append-NoPath (if is_clang name then codes "-no-integrated-as" ∷ [] else []) _
      (if-NoPath (is_clang name) (codes "-no-integrated-as" ∷ []) (refl, tt))
      (append-NoPath (harden_params e f.fortify_set) _
        (if-NoPath e.afl_harden _
          (refl, unless-NoPath f.fortify_set (codes "-D_FORTIFY_SOURCE=2" ∷ []) (refl, tt)))
        (append-NoPath sanitizer _
          (sanitizer-NoPath sanitizer (sanitizer_cases e f.asan_set sanitizer h))
          (append-NoPath (if e.afl_no_builtin then builtin_params else []) (scheme_params e s)
            (if-NoPath e.afl_no_builtin builtin_params (ground arith)) (scheme_params-NoPath e s))))

-- The parts of the command line.
pub edit_cc_params_parts :
    (e : Setting) (s : Scheme) (as_path argv0 : Bytes) (args params : List Bytes)
    → edit_cc_params e s as_path argv0 args ≡ some params
    → (sanitizer : List Bytes) × (sanitizer_params e (keep_arguments false args no_flags).1.asan_set
        ≡ some sanitizer)
      × (params
          ≡ compiler_of e (program_name argv0)
            ∷ ((keep_arguments false args no_flags).0
                ++ (codes "-B"
                    ∷ as_path
                    ∷ last_params e s
                        (program_name argv0)
                        (keep_arguments false args no_flags).1
                        sanitizer)))
unfolding edit_cc_params
edit_cc_params_parts e s as_path argv0 args params h =
    elim (Option-cases (sanitizer_params e (keep_arguments false args no_flags).1.asan_set)) [
      | inl n ↦ absurd (none-ne-some params (rw (edit_cc_params, n) at h))
      | inr (sanitizer, n) ↦ (sanitizer, n, sym (some-injective _ _ (rw (edit_cc_params, n) at h)))
    ]

-- If edit_params of afl-gcc.c does not end with its message, the compiler's command line begins
-- with the compiler. Then come exactly the arguments that the rules of Edits leave, in their
-- order, and then `-B` with the path that find_as gave. Neither they nor what follows names
-- another directory for the assembler.
pub edit_cc_params-Edits :
    (e : Setting) (s : Scheme) (as_path argv0 : Bytes) (args params : List Bytes)
    → edit_cc_params e s as_path argv0 args ≡ some params
    → (kept : List Bytes) × (rest : List Bytes) × (params
        ≡ compiler_of e (program_name argv0) ∷ (kept ++ (codes "-B" ∷ as_path ∷ rest)))
      × Edits args kept
      × NoPath kept
      × NoPath rest
edit_cc_params-Edits e s as_path argv0 args params h =
    let kept = keep_arguments-Edits args no_flags in
    let f = (keep_arguments false args no_flags).1 in
    let (sanitizer, n, parts) = edit_cc_params_parts e s as_path argv0 args params h in
    (
      (keep_arguments false args no_flags).0,
      last_params e s (program_name argv0) f sanitizer,
      parts,
      kept,
      Edits-NoPath kept,
      last_params-NoPath e s (program_name argv0) f sanitizer n,
    )
