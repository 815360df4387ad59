-- ===== src/Driver/Bounds.antt =====
-- How many parameters it and
-- FlashStack/afl-rustc.c write into their arrays.
use flash_stack.Base.{
  ℕ, ◌+◌, ◌≤◌, ◌≡◌, inl, inr, Bool, true, false, List, [], ◌∷◌, ◌++◌, some, if◌then◌else◌, length,
  length-append, arith, Bytes, codes,
}
use flash_stack.Scheme.{
  Scheme, shadow_stack, shadow_stack_via_reg, buddy_stack_tls, gs_rsp, shadesmar_gs, fs_gs_tls,
  buddy_tls_stk_size, global_randvar,
}
use flash_stack.Driver.{Setting, program_name, is_clang}
use flash_stack.Driver.Arguments.{Flags, no_flags, keep_arguments}
use flash_stack.Driver.Compile.{
  scheme_params, sanitizer_params, harden_params, builtin_params, last_params, edit_cc_params,
  edit_rustc_params, rustc_library,
}
use flash_stack.Driver.Kept.{
  Edits, none_left, keeps, drops_option, drops_path, drops_both, drops_last, sanitizer_cases,
  keep_arguments-Edits, edit_cc_params_parts,
}

-- Parameters counted.
if-length : (b : Bool) (xs : List Bytes) (n : ℕ) → length xs ≤ n → length (if b then xs else []) ≤ n
if-length true xs n h = h
if-length false xs n h = omega arith

Edits-length : {args kept : List Bytes} → Edits args kept → length kept ≤ length args
Edits-length none_left = omega arith
Edits-length (keeps b i p h) = omega (arith, Edits-length h)
Edits-length (drops_option o h) = omega (arith, Edits-length h)
Edits-length (drops_path b z h) = omega (arith, Edits-length h)
Edits-length (drops_both b z h) = omega (arith, Edits-length h)
Edits-length (drops_last b z) = omega arith

scheme_params-length : (e : Setting) (s : Scheme) → length (scheme_params e s) ≤ 4
scheme_params-length e (buddy_tls_stk_size non_pie) = omega arith
scheme_params-length e (fs_gs_tls msr) = omega arith
scheme_params-length e gs_rsp = omega arith
scheme_params-length e shadow_stack = omega arith
scheme_params-length e shadow_stack_via_reg = omega arith
scheme_params-length e buddy_stack_tls = omega arith
scheme_params-length e shadesmar_gs = omega arith
scheme_params-length e global_randvar = omega arith

sanitizer-length :
    (e : Setting) (asan_set : Bool) (params : List Bytes)
    → sanitizer_params e asan_set ≡ some params
    → length params ≤ 2
sanitizer-length e asan_set params h = elim (sanitizer_cases e asan_set params h) [
  | inl n ↦ rw n (omega arith)
  | inr (inl n) ↦ rw n (omega arith)
  | inr (inr n) ↦ rw n (omega arith)
]

harden-length : (e : Setting) (fortify_set : Bool) → length (harden_params e fortify_set) ≤ 2
harden-length e true = if-length e.afl_harden _ 2 (omega arith)
harden-length e false = if-length e.afl_harden _ 2 (omega arith)

last_params-length :
    (e : Setting) (s : Scheme) (name : Bytes) (f : Flags) (sanitizer : List Bytes)
    → sanitizer_params e f.asan_set ≡ some sanitizer
    → length (last_params e s name f sanitizer) ≤ 16
last_params-length e s name f sanitizer h =
    let clang = if is_clang name then codes "-no-integrated-as" ∷ [] else [] in
    let builtin = if e.afl_no_builtin then builtin_params else [] in
    let harden = harden_params e f.fortify_set in
    let scheme = scheme_params e s in
    omega (
      arith,
      length-append clang (harden ++ (sanitizer ++ (builtin ++ scheme))),
      length-append harden (sanitizer ++ (builtin ++ scheme)),
      length-append sanitizer (builtin ++ scheme),
      length-append builtin scheme,
      if-length (is_clang name) (codes "-no-integrated-as" ∷ []) 1 (omega arith),
      harden-length e f.fortify_set,
      sanitizer-length e f.asan_set sanitizer h,
      if-length e.afl_no_builtin builtin_params 7 (omega arith),
      scheme_params-length e s,
    )

rustc_library-length : (e : Setting) (s : Scheme) → length (rustc_library e s) ≤ 4
rustc_library-length e (buddy_tls_stk_size non_pie) = omega arith
rustc_library-length e (fs_gs_tls msr) = omega arith
rustc_library-length e gs_rsp = omega arith
rustc_library-length e shadow_stack = omega arith
rustc_library-length e shadow_stack_via_reg = omega arith
rustc_library-length e buddy_stack_tls = omega arith
rustc_library-length e shadesmar_gs = omega arith
rustc_library-length e global_randvar = omega arith

-- The arrays have room for 128 pointers more than the driver has arguments, its own name
-- included. What edit_params of afl-gcc.c writes, if it does not end with a message, fits with the
-- null pointer at its end, and so does what edit_params of afl-rustc.c writes.
pub edit_cc_params-fits :
    (e : Setting) (s : Scheme) (as_path argv0 : Bytes) (args params : List Bytes)
    → edit_cc_params e s as_path argv0 args ≡ some params
    → (length params + 1 ≤ length (argv0 ∷ args) + 128)
      × (length (edit_rustc_params e s args) + 1 ≤ length (argv0 ∷ args) + 128)
unfolding edit_rustc_params
edit_cc_params-fits e s as_path argv0 args params h =
    let (sanitizer, n, parts) = edit_cc_params_parts e s as_path argv0 args params h in
    let kept = (keep_arguments false args no_flags).0 in
    let f = (keep_arguments false args no_flags).1 in
    let last = last_params e s (program_name argv0) f sanitizer in
    let bound = last_params-length e s (program_name argv0) f sanitizer n in
    (
      rw parts (
          omega (
            arith,
            length-append kept (codes "-B" ∷ as_path ∷ last),
            Edits-length (keep_arguments-Edits args no_flags),
            bound,
          )),
      omega (
        arith,
        length-append args (codes "-C" ∷ codes "no-integrated-as" ∷ rustc_library e s),
        rustc_library-length e s,
      ),
    )
