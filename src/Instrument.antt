-- ===== src/Instrument.antt =====
-- add_instrumentation of FlashStack/afl-as.c: one pass over the lines of an assembly file. The
-- options are what edit_params and main of that file set, and the macros of FlashStack/spa.h.
pub mod Track
pub mod Pass
pub mod PassThru
pub mod Region
pub mod Counts
pub mod Bodies
pub mod Segments
pub mod Quiet
pub mod Kept
use flash_stack.Base.{
  ℕ, ◌+◌, ◌%◌, Bool, true, false, not, ◌&&◌, ◌||◌, List, [], ◌∷◌, ◌++◌, map, ◌==◌, ltb,
  if◌then◌else◌, some, none, drop, Bytes, codes, starts_with, contains, cut_at, overwrite_at, chop,
  char_at, is_digit, is_alpha,
}
use flash_stack.Asm.{Out, copy, mark, ins, counts}
use flash_stack.Scheme.{
  Scheme, gs_rsp, fs_gs_tls, global_randvar, Class, function_entry, function_exit,
}
use flash_stack.Scheme.Calls.{direct_call, indirect_call}
use flash_stack.Names.{
  Tables, is_customized_libc_func, is_no_instr_func, is_on_stack_handler, is_libc_func_called,
  is_libcxx_func_called, is_protected_function,
}

pub record Options : Type 0 where
  pub scheme : Scheme
  -- ENABLE_GS_RSP_CALL_INSTRUMENTED
  pub calls_instrumented : Bool
  pub pass_thru : Bool
  pub use_64bit : Bool
  pub clang_mode : Bool
  pub with_64_bit_cmd_option : Bool
  pub be_quiet : Bool
  pub inst_ratio : ℕ
  pub tables : Tables

-- The local variables of the loop. ins_lines, n_start and n_end are of 32 bits in the source; they are
-- counted without a bound here, which differs from 2 ^ 32 lines on.
pub record State : Type 0 where
  pub ins_lines : ℕ
  pub n_start : ℕ
  pub n_end : ℕ
  pub instr_ok : Bool
  pub skip_csect : Bool
  pub skip_next_label : Bool
  pub in_main : Bool
  pub is_main_exe : Bool
  pub skip_intel : Bool
  pub skip_app : Bool
  pub instrument_next : Bool
  pub start2end : Bool
  -- in_customized_func, in_no_instr_func, on_stack_handler
  pub class : Class

abbrev pub initial : State
initial = record {
  ins_lines = 0;
  n_start = 0;
  n_end = 0;
  instr_ok = false;
  skip_csect = false;
  skip_next_label = false;
  in_main = false;
  is_main_exe = false;
  skip_intel = false;
  skip_app = false;
  instrument_next = false;
  start2end = false;
  class = record { customized = false; no_instr = false; on_stack_handler = false };
}

-- A part of the loop body: it prints and goes on to the next line, or falls through.
pub data Part : Type 0 where
  continue : List Out → State → Part
  fall : State → Part

infixl 5 ◌>>=◌
abbrev pub ◌>>=◌ : Part → (State → Part) → Part
continue os s >>= f = continue os s
fall s >>= f = f s

abbrev pub cfi_startproc : Bytes
cfi_startproc = codes "\t.cfi_startproc\n"

abbrev pub cfi_endproc : Bytes
cfi_endproc = codes "\t.cfi_endproc\n"

-- The write mask in the syntax of GNU as.
unfoldable pub fix_write_mask : Bytes → Bytes
unfolding overwrite_at
fix_write_mask line = overwrite_at (codes "} {z}\n") (codes "}{z}\n") line

abbrev pub trampoline_mark : Bool → Bytes → Out
trampoline_mark true prefix = mark (prefix ++ codes " trampoline_fmt_64\n")
trampoline_mark false prefix = mark (prefix ++ codes " trampoline_fmt_32\n")

-- The deferred trampoline.
unfoldable pub deferred : Options → State → Bytes → List Out
unfolding is_alpha
deferred o s line =
    if not o.pass_thru
      && not s.skip_intel
      && not s.skip_app
      && not s.skip_csect
      && s.instr_ok
      && s.instrument_next
      && char_at line 0 == b'\t'
      && is_alpha (char_at line 1)
    then trampoline_mark o.use_64bit (codes "###SPA##")
      ∷ (if s.in_main && not o.pass_thru && o.use_64bit
          then mark (codes "###SPA### the entry of main().\n") ∷ []
          else [])
    else []

abbrev pub after_deferred : List Out → State → State
after_deferred [] s = s
after_deferred (_ ∷ _) s = record s { instrument_next = false; ins_lines = s.ins_lines + 1 }

unfoldable pub at_startproc : Options → Bytes → State → Part
at_startproc o line s =
    let s' = record s { start2end = true; n_start = s.n_start + 1 } in
    if starts_with line cfi_startproc
    then if not o.pass_thru && o.use_64bit
      then continue (function_entry o.scheme s.class line) s'
      else fall s'
    else fall s

unfoldable pub at_endproc : Options → Bytes → State → Part
at_endproc o line s =
    let s' = record s { start2end = false; n_end = s.n_end + 1 } in
    if starts_with line cfi_endproc
    then if not o.pass_thru then continue (copy line ∷ []) s' else fall s'
    else fall s

-- The line without its newline and without its comment.
unfoldable pub strip_comment : Bytes → Bytes
unfolding cut_at chop
strip_comment line =
    cut_at (codes "\t# ")
      (cut_at (codes " #\t") (cut_at (codes "\t#\t") (cut_at (codes " # ") (chop line))))

abbrev pub on_gs : Scheme → Bool
on_gs gs_rsp = true
on_gs (fs_gs_tls _) = true
on_gs _ = false

unfoldable pub is_direct_call : Bytes → Bool
unfolding starts_with
is_direct_call line = starts_with line (codes "\tcallq") && not (char_at line 6 == b'*')

unfoldable pub is_indirect_call : Bytes → Bool
unfolding starts_with
is_indirect_call line = starts_with line (codes "\tcallq\t*")

-- Calls through the procedure linkage table, of thread-local storage and of library functions stay.
unfoldable pub stays_plain : Options → Bytes → Bool
unfolding contains
stays_plain o line =
    contains line (codes "@PLT")
    || contains line (codes "@plt")
    || contains line (codes "__tls_get_addr")
    || is_libcxx_func_called o.tables (drop 7 line)
    || is_libc_func_called o.tables (drop 7 line)

-- The answer of is_protected_function; a line with no delimiter, on which the C loop would leave
-- its array, counts as no.
abbrev pub answers_yes : Options → Bytes → Bool
answers_yes o line = elim (is_protected_function o.tables.protected_funcs line) [
  | some true ↦ true
  | _ ↦ false
]

unfoldable pub at_call : Options → Bytes → State → Part
at_call o line s =
    if o.calls_instrumented
      && on_gs o.scheme
      && not o.pass_thru
      && not s.skip_intel
      && not s.skip_app
      && not s.skip_csect
      && s.instr_ok
      && o.use_64bit
      && s.start2end
      && o.with_64_bit_cmd_option
    then if is_indirect_call line
      then continue (map ins (indirect_call o.scheme (drop 8 (strip_comment line)))) s
      else if is_direct_call line
      then if not (stays_plain o line) && answers_yes o (drop 7 line)
        then continue (map ins (direct_call o.scheme (strip_comment line))) s
        else continue (copy line ∷ []) s
      else fall s
    else fall s

unfoldable pub is_ret : Bytes → Bool
unfolding starts_with
is_ret line = starts_with line (codes "\tret\n") || starts_with line (codes "\tretq\n")

unfoldable pub at_ret : Options → Bytes → State → Part
at_ret o line s =
    if not o.pass_thru
      && not s.skip_intel
      && not s.skip_app
      && o.use_64bit
      && s.start2end
      && is_ret line
    then continue (function_exit o.scheme s.class line) s
    else fall s
