-- ===== src/Tests/Assembling.antt =====
-- The assembler driver as a whole, with a child process that exits with 3.
use flash_stack.Base.{◌<◌, ◌≡◌, refl, true, false, [], ◌∷◌, none, some, arith, codes, if◌then◌else◌}
use flash_stack.Scheme.{gs_rsp}
use flash_stack.Instrument.Pass.{add_instrumentation}
use flash_stack.Command.{Invocation, edited, edit_params}
use flash_stack.Instrument.{cfi_startproc, cfi_endproc}
use flash_stack.Main.{
  Session, protected_of, loaded, exits, nothing, options_of, lines_of, exit_status, ratio_of,
  as_main,
}
use flash_stack.Main.Assembled.{stops, as_main_lem}
use flash_stack.Tests.Commands.{compiler, source_file}

abbrev session : Session
session = record {
  surroundings = compiler;
  scheme = gs_rsp;
  calls_instrumented = false;
  is_loud = true;
  clang_mode = false;
  inst_ratio_str = none;
  scan_unsigned = λ text. none;
  as_loop = false;
  uses_sanitizer = true;
  protected_funcs_file = none;
  libc_names = [];
  libcxx_names = [];
  opens_input = true;
  creates_output = true;
  draw = λ n. n;
  forks = true;
  waits = some 768;
  keep_assembly = false;
}

session-ratio : ratio_of session ≡ some 33
unfolding ratio_of
session-ratio = refl

session-table : protected_of session.protected_funcs_file ≡ loaded []
unfolding protected_of
session-table = refl

as_main_lem_example :
    (c : Invocation) × (edit_params compiler (codes "--64" ∷ []) source_file ≡ edited c)
    × (as_main session (codes "--64" ∷ source_file ∷ []) ≡ (
        if stops session c
        then exits 1 (record nothing {
          written = some (
            c.modified_file,
            (add_instrumentation
                (options_of session (codes "--64") c 33 [])
                (lines_of session c)).0,
          );
        })
        else exits (exit_status 768) (record {
          written = some (
            c.modified_file,
            (add_instrumentation
                (options_of session (codes "--64") c 33 [])
                (lines_of session c)).0,
          );
          executed = some c.as_params;
          unlinked = some c.modified_file;
        })))
    × ((768 < 256) → exit_status 768 ≡ 0)
    × (as_main
          (record session { protected_funcs_file = some none })
          (codes "--64" ∷ source_file ∷ [])
        ≡ exits 1 nothing)
as_main_lem_example =
    as_main_lem session (codes "--64") (source_file ∷ []) (cfi_startproc ∷ cfi_endproc ∷ []) [] 33
      768 (λ e. ground (arith, e)) refl session-ratio refl session-table refl refl refl refl
