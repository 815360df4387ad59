-- ===== src/Tests/Drivers.antt =====
-- A call of the compiler's driver.
use flash_stack.Base.{
  ◌+◌, ◌≤◌, ◌≡◌, ◌⊎◌, ◌↔◌, refl, true, false, List, [], ◌∷◌, ◌++◌, none, some, Bytes, codes,
  starts_with, strcmp, contains, length,
}
use flash_stack.Scheme.{gs_rsp, buddy_tls_stk_size}
use flash_stack.Driver.{Setting, program_name, find_as, compiler_of, strrchr}
use flash_stack.Driver.Arguments.{keep_arguments, note_so, note_checks, is_shared_output, names_so}
use flash_stack.Driver.Compile.{edit_cc_params, sanitizer_params, cc_main, fatal, edit_rustc_params}
use flash_stack.Driver.Kept.{Edits, NoPath, edit_cc_params-Edits}
use flash_stack.Driver.Fatal.{asks_sanitizer, kept_of, Excludes, cc_main-fatal_iff}
use flash_stack.Driver.Bounds.{edit_cc_params-fits}

abbrev setting : Setting
setting = record {
  afl_path = none;
  afl_cc = none;
  afl_cxx = none;
  afl_gcj = none;
  afl_rustc = none;
  afl_harden = true;
  afl_use_asan = false;
  afl_use_msan = false;
  afl_no_builtin = false;
  is_executable = λ name. true;
  built_path = codes "/usr/lib/spa";
  lib_path = codes "/spa";
}

abbrev argv0 : Bytes
argv0 = codes "/opt/spa-clang"

abbrev arguments : List Bytes
arguments = codes "-B" ∷ codes "/usr" ∷ codes "-pipe" ∷ codes "-c" ∷ codes "a.c" ∷ []

abbrev command_line : List Bytes
command_line =
    codes "clang"
    ∷ codes "-c"
    ∷ codes "a.c"
    ∷ codes "-B"
    ∷ codes "/opt"
    ∷ codes "-no-integrated-as"
    ∷ codes "-fstack-protector-all"
    ∷ codes "-D_FORTIFY_SOURCE=2"
    ∷ []

edited_run :
    edit_cc_params setting (buddy_tls_stk_size true) (codes "/opt") argv0 arguments
    ≡ some
        (command_line ++ (codes "-Wl,-L=/spa" ∷ codes "-Wl,-lbustk" ∷ codes "-Wl,-rpath=/spa" ∷ []))
unfolding edit_cc_params sanitizer_params keep_arguments starts_with strcmp contains note_so
    note_checks is_shared_output names_so strrchr program_name compiler_of
edited_run = refl

edit_cc_params-Edits_example :
    (kept : List Bytes) × (rest : List Bytes) × (command_line
        ++ (codes "-Wl,-L=/spa" ∷ codes "-Wl,-lbustk" ∷ codes "-Wl,-rpath=/spa" ∷ [])
      ≡ compiler_of setting (program_name argv0) ∷ (kept ++ (codes "-B" ∷ codes "/opt" ∷ rest)))
    × Edits arguments kept
    × NoPath kept
    × NoPath rest
edit_cc_params-Edits_example =
    edit_cc_params-Edits setting (buddy_tls_stk_size true) (codes "/opt") argv0 arguments
      (command_line ++ (codes "-Wl,-L=/spa" ∷ codes "-Wl,-lbustk" ∷ codes "-Wl,-rpath=/spa" ∷ []))
      edited_run

cc_main-fatal_iff_example : (cc_main setting gs_rsp argv0 arguments ≡ fatal) ↔ (
    (find_as setting argv0 ≡ none)
    ⊎ ((asks_sanitizer (kept_of arguments) ≡ false) × Excludes setting))
cc_main-fatal_iff_example =
    cc_main-fatal_iff setting gs_rsp argv0 (codes "-B")
      (codes "/usr" ∷ codes "-pipe" ∷ codes "-c" ∷ codes "a.c" ∷ [])

edit_cc_params-fits_example :
    (12 ≤ length (argv0 ∷ arguments) + 128)
    × (length (edit_rustc_params setting (buddy_tls_stk_size true) arguments) + 1
        ≤ length (argv0 ∷ arguments) + 128)
edit_cc_params-fits_example =
    edit_cc_params-fits setting (buddy_tls_stk_size true) (codes "/opt") argv0 arguments
      (command_line ++ (codes "-Wl,-L=/spa" ∷ codes "-Wl,-lbustk" ∷ codes "-Wl,-rpath=/spa" ∷ []))
      edited_run
