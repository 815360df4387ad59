-- ===== src/Tests/Passes.antt =====
-- A file of one function through the pass, and small tables.
use flash_stack.Base.{
  ◌<◌, none, ℕ, zero, suc, ◌≡◌, ◌≢◌, ◌↔◌, refl, Bool, true, false, List, [], ◌∷◌, ◌++◌, some, arith,
  codes, Bytes, chop, strcmp,
}
use flash_stack.Scheme.{gs_rsp}
use flash_stack.Names.{
  is_protected_function, symbol_of, max_protected_funcs, open_protected_funcs_list,
}
use flash_stack.Names.Search.{IsSorted, Answers, is_protected_function_lem}
use flash_stack.Names.Load.{open_protected_funcs_list-written}
use flash_stack.Instrument.{Options, initial, cfi_startproc, cfi_endproc}
use flash_stack.Instrument.Pass.{pass, fatal, add_instrumentation}
use flash_stack.Instrument.PassThru.{copied, pass-copied}
use flash_stack.Instrument.Counts.{occurrences, add_instrumentation-fatal_iff}

abbrev names : List Bytes
names = codes "f" ∷ codes "g" ∷ codes "main" ∷ []

abbrev options : Options
options = record {
  scheme = gs_rsp;
  calls_instrumented = true;
  pass_thru = false;
  use_64bit = true;
  clang_mode = true;
  with_64_bit_cmd_option = true;
  be_quiet = false;
  inst_ratio = 100;
  tables = record { libc_names = []; libcxx_names = []; protected_funcs = names };
}

abbrev copying : Options
copying = record options { pass_thru = true }

abbrev body : List (Bytes × ℕ)
body =
    (codes "# %bb.0:\n", 0)
    ∷ (codes "\tpushq\t%rbp\n", 0)
    ∷ (codes "\tmovq\t%fs:40, %rax\n", 0)
    ∷ (codes ".LBB0_1:\n", 0)
    ∷ (codes "\tcallq\tg\n", 0)
    ∷ []

abbrev ret_line : Bytes
ret_line = codes "\tretq\n"

pass-copied_example : (pass copying body initial).0 ≡ copied body
pass-copied_example = pass-copied copying refl body initial

-- A whole function.
abbrev function : List (Bytes × ℕ)
function = (cfi_startproc, 0) ∷ body ++ (ret_line, 0) ∷ []

add_instrumentation-fatal_iff_example :
    ((add_instrumentation options body).1 ≡ fatal)
    ↔ ((false ≡ false) × (occurrences cfi_startproc body ≢ occurrences cfi_endproc body))
add_instrumentation-fatal_iff_example = add_instrumentation-fatal_iff options body refl

names-IsSorted : IsSorted names
unfolding strcmp
names-IsSorted zero zero le lt = λ e. ground (arith, e)
names-IsSorted zero (suc zero) le lt = λ e. ground (arith, e)
names-IsSorted zero (suc (suc zero)) le lt = λ e. ground (arith, e)
names-IsSorted zero (suc (suc (suc j))) le lt = absurd (omega arith)
names-IsSorted (suc i) zero le lt = absurd (omega arith)
names-IsSorted (suc zero) (suc zero) le lt = λ e. ground (arith, e)
names-IsSorted (suc zero) (suc (suc zero)) le lt = λ e. ground (arith, e)
names-IsSorted (suc zero) (suc (suc (suc j))) le lt = absurd (omega arith)
names-IsSorted (suc (suc i)) (suc zero) le lt = absurd (omega arith)
names-IsSorted (suc (suc zero)) (suc (suc zero)) le lt = λ e. ground (arith, e)
names-IsSorted (suc (suc zero)) (suc (suc (suc j))) le lt = absurd (omega arith)
names-IsSorted (suc (suc (suc i))) (suc (suc j)) le lt = absurd (omega arith)

symbol_of_line : symbol_of (codes "g\n") ≡ some (codes "g")
unfolding symbol_of
symbol_of_line = refl

is_protected_function_lem_example :
    (r : Bool) × (is_protected_function names (codes "g\n") ≡ some r) × Answers names (codes "g") r
is_protected_function_lem_example =
    is_protected_function_lem names (codes "g\n") (codes "g") names-IsSorted symbol_of_line

open_protected_funcs_list-written_example :
    (3 < max_protected_funcs
      → (open_protected_funcs_list (codes "f\ng\nmain\n") ≡ some names)
        × (open_protected_funcs_list (codes "f\ng\nmain\nputs")
            ≡ some (codes "f" ∷ codes "g" ∷ codes "main" ∷ chop (codes "puts") ∷ [])))
    × (max_protected_funcs < 3 → open_protected_funcs_list (codes "f\ng\nmain\n") ≡ none)
open_protected_funcs_list-written_example =
    open_protected_funcs_list-written names (codes "puts") (ground arith) (ground arith)
      (omega arith) (omega arith)
