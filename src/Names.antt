-- ===== src/Names.antt =====
-- The tables of function names of FlashStack/afl-as.c and the searches in them: is_target_func and
-- its callers, is_protected_function, and spa_open_protected_funcs_list, which reads the table of
-- protected functions from a file.
pub mod Order
pub mod Search
pub mod Load
use flash_stack.Base.{
  ℕ, zero, suc, ◌+◌, ◌-◌, ◌/◌, Bool, true, false, ◌&&◌, ◌||◌, List, [], ◌∷◌, ◌++◌, map, Option,
  none, some, Ordering, ◌==◌, ltb, if◌then◌else◌, length, get_or, Bytes, codes, starts_with, strcmp,
  chop,
}

-- MAX_LINE - 1: what fgets reads at most.
abbrev pub max_line : ℕ
max_line = 8191

-- Some entry of the table is a prefix of the line.
unfoldable pub is_target_func : Bytes → List Bytes → Bool
unfolding starts_with
is_target_func line [] = false
is_target_func line (f ∷ fs) = starts_with line f || is_target_func line fs

abbrev pub one_arg_funcs : List Bytes
one_arg_funcs =
    codes "malloc:"
    ∷ codes "free:"
    ∷ codes "malloc_usable_size:"
    ∷ codes "pvalloc:"
    ∷ codes "valloc:"
    ∷ []

abbrev pub two_args_funcs : List Bytes
two_args_funcs =
    codes "calloc:" ∷ codes "realloc:" ∷ codes "aligned_alloc:" ∷ codes "memalign:" ∷ []

abbrev pub three_args_funcs : List Bytes
three_args_funcs = codes "posix_memalign:" ∷ []

abbrev pub customized_libc_funcs : List Bytes
customized_libc_funcs =
    codes "malloc:"
    ∷ codes "free:"
    ∷ codes "malloc_usable_size:"
    ∷ codes "pvalloc:"
    ∷ codes "valloc:"
    ∷ codes "calloc:"
    ∷ codes "realloc:"
    ∷ codes "aligned_alloc:"
    ∷ codes "memalign:"
    ∷ codes "posix_memalign:"
    ∷ []

abbrev pub no_instr_funcs : List Bytes
no_instr_funcs = codes "flash.stack.no_instr_funcs.place.holder:" ∷ []

abbrev pub on_stack_handlers : List Bytes
on_stack_handlers =
    codes "_ZL15WasmTrapHandleriP9siginfo_tPv:"
    ∷ codes "_Z15WasmTrapHandleriP9siginfo_tPv:"
    ∷ codes "spa_demo_blackbox_handler:"
    ∷ []

abbrev pub is_one_arg_func : Bytes → Bool
is_one_arg_func line = is_target_func line one_arg_funcs

abbrev pub is_two_args_func : Bytes → Bool
is_two_args_func line = is_target_func line two_args_funcs

abbrev pub is_three_args_func : Bytes → Bool
is_three_args_func line = is_target_func line three_args_funcs

abbrev pub is_customized_libc_func : Bytes → Bool
is_customized_libc_func line = is_target_func line customized_libc_funcs

abbrev pub is_no_instr_func : Bytes → Bool
is_no_instr_func line = is_target_func line no_instr_funcs

abbrev pub is_on_stack_handler : Bytes → Bool
is_on_stack_handler line = is_target_func line on_stack_handlers

-- The two long tables, libc_names and libcxx_names, and the table that is read from a file.
pub record Tables : Type 0 where
  pub libc_names : List Bytes
  pub libcxx_names : List Bytes
  pub protected_funcs : List Bytes

-- Each of the two looks in the table of the other's name.
abbrev pub is_libc_func_called : Tables → Bytes → Bool
is_libc_func_called t line = is_target_func line t.libcxx_names

abbrev pub is_libcxx_func_called : Tables → Bytes → Bool
is_libcxx_func_called t line = is_target_func line t.libc_names

-- The name up to the first newline, space or tab; `none` where the loop runs past the end.
unfoldable pub symbol_of : Bytes → Option Bytes
symbol_of [] = none
symbol_of (c ∷ s) =
    let rest = symbol_of s in
    if c == b'\n' || c == b' ' || c == b'\t'
    then some []
    else elim rest [ none ↦ none | some name ↦ some (c ∷ name) ]

-- The loop of is_protected_function. `end` is `high + 1`, since `high` may be -1; `none` means that
-- the fuel ran out.
unfoldable pub bisect : ℕ → List Bytes → Bytes → ℕ → ℕ → Option Bool
bisect zero funcs name low end = none
bisect (suc fuel) funcs name low end =
    let mid = (low + (end - 1)) / 2 in
    let above = bisect fuel funcs name (mid + 1) end in
    let below = bisect fuel funcs name low mid in
    let here : Option Bool = elim (strcmp name (get_or funcs mid [])) [
      | Ordering.eq ↦ some true
      | Ordering.gt ↦ above
      | Ordering.lt ↦ below
    ] in
    if ltb low end then here else some false

unfoldable pub is_protected_function : List Bytes → Bytes → Option Bool
unfolding symbol_of bisect strcmp
is_protected_function funcs line = elim (symbol_of line) [
  | none ↦ none
  | some name ↦ bisect (length funcs + 1) funcs name 0 (length funcs)
]

-- The successive buffers of `fgets(line, MAX_LINE, f)`: up to a newline, or to `room` bytes.
unfoldable pub fgets_lines : ℕ → Bytes → Bytes → List Bytes
fgets_lines room [] [] = []
fgets_lines room (d ∷ buf) [] = (d ∷ buf) ∷ []
fgets_lines room buf (c ∷ s) = elim (c == b'\n' || room == 1) [
  | true ↦ (buf ++ c ∷ []) ∷ fgets_lines max_line [] s
  | false ↦ fgets_lines (room - 1) (buf ++ c ∷ []) s
]

-- A buffer of more than one byte is entered into the table without its last byte.
unfoldable pub add_name : Bytes → List Bytes → List Bytes
add_name line names = if ltb 1 (length line) then chop line ∷ names else names

unfoldable pub add_names : List Bytes → List Bytes
unfolding add_name chop
add_names [] = []
add_names (line ∷ lines) = add_name line (add_names lines)

-- MAX_NUM_OF_SPA_PROTECTED_FUNCS
abbrev pub max_protected_funcs : ℕ
max_protected_funcs = 0x400000

-- `none` if the loop, which does not check, writes past the end of the table.
unfoldable pub open_protected_funcs_list : Bytes → Option (List Bytes)
unfolding add_names fgets_lines
open_protected_funcs_list file =
    let names = add_names (fgets_lines max_line [] file) in
    if ltb max_protected_funcs (length names) then none else some names
