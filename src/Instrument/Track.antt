-- ===== src/Instrument/Track.antt =====
-- The part of the loop of add_instrumentation that follows the output of the line: it keeps track
-- of sections, of the syntax, of ad-hoc assembly and of labels. `draw` is what random() returns if
-- the line asks for it.
use flash_stack.Base.{
  ℕ, ◌+◌, ◌%◌, Bool, true, false, not, ◌&&◌, ◌||◌, [], ◌∷◌, ◌==◌, ltb, if◌then◌else◌, drop, Bytes,
  codes, starts_with, contains, char_at, is_digit,
}
use flash_stack.Scheme.{Class}
use flash_stack.Names.{is_customized_libc_func, is_no_instr_func, is_on_stack_handler}
use flash_stack.Instrument.{Options, State, Part, continue, fall, ◌>>=◌, trampoline_mark}

unfoldable pub opens_text : Bytes → Bool
unfolding starts_with
opens_text line =
    starts_with (drop 2 line) (codes "text\n")
    || starts_with (drop 2 line) (codes "section\t.text")
    || starts_with (drop 2 line) (codes "section\t__TEXT,__text")
    || starts_with (drop 2 line) (codes "section __TEXT,__text")

unfoldable pub opens_other : Bytes → Bool
unfolding starts_with
opens_other line =
    starts_with (drop 2 line) (codes "section\t")
    || starts_with (drop 2 line) (codes "section ")
    || starts_with (drop 2 line) (codes "bss\n")
    || starts_with (drop 2 line) (codes "data\n")

unfoldable pub is_p2align : Bytes → Bool
unfolding starts_with is_digit
is_p2align line =
    starts_with (drop 2 line) (codes "p2align ")
    && is_digit (char_at line 10)
    && char_at line 11 == b'\n'

unfoldable pub at_section : Options → Bytes → State → Part
at_section o line s =
    let s' = record s {
      skip_next_label = s.skip_next_label || (not o.clang_mode && s.instr_ok && is_p2align line);
    } in
    if char_at line 0 == b'\t' && char_at line 1 == b'.'
    then if opens_text line
      then continue [] (record s' { instr_ok = true })
      else if opens_other line
      then continue [] (record s' { instr_ok = false })
      else fall s'
    else fall s

-- `.code32` and `.code64`
unfoldable pub track_code : Options → Bytes → State → State
unfolding contains
track_code o line s =
    let s32 =
      if contains line (codes ".code32") then record s { skip_csect = o.use_64bit } else s in
    let s64 =
      if contains line (codes ".code64")
      then record s32 { skip_csect = not o.use_64bit }
      else s32 in
    if contains line (codes ".code") then s64 else s

unfoldable pub track_syntax : Bytes → State → State
unfolding contains
track_syntax line s =
    let s' = if contains line (codes ".intel_syntax") then record s { skip_intel = true } else s in
    if contains line (codes ".att_syntax") then record s' { skip_intel = false } else s'

unfoldable pub track_app : Bytes → State → State
unfolding contains
track_app line s =
    let s' = if contains line (codes "#APP") then record s { skip_app = true } else s in
    let s'' = if contains line (codes "#NO_APP") then record s' { skip_app = false } else s' in
    if char_at line 0 == b'#' || char_at line 1 == b'#' then s'' else s

unfoldable pub at_skip : Bytes → State → Part
at_skip line s =
    if s.skip_intel
      || s.skip_app
      || s.skip_csect
      || not s.instr_ok
      || char_at line 0 == b'#'
      || char_at line 0 == b' '
    then continue [] s
    else fall s

-- A conditional branch gets a trampoline behind it; other lines that start with a tab are done.
unfoldable pub at_branch : Options → ℕ → Bytes → State → Part
at_branch o draw line s =
    if char_at line 0 == b'\t'
    then if char_at line 1 == b'j' && not (char_at line 2 == b'm') && ltb (draw % 100) o.inst_ratio
      then continue (trampoline_mark o.use_64bit (codes "###SPA###") ∷ [])
          (record s { ins_lines = s.ins_lines + 1 })
      else continue [] s
    else fall s

unfoldable pub is_label : Bytes → Bool
unfolding contains
is_label line = contains line (codes ":")

-- `.L0:`, or `.LBB0_0:` in the mode for clang
unfoldable pub is_branch_label : Options → Bytes → Bool
unfolding is_digit starts_with
is_branch_label o line =
    is_digit (char_at line 2) || (o.clang_mode && starts_with (drop 1 line) (codes "LBB"))

unfoldable pub branch_label : Options → ℕ → Bytes → State → State
branch_label o draw line s =
    if is_branch_label o line && ltb (draw % 100) o.inst_ratio
    then if not s.skip_next_label
      then record s { instrument_next = true }
      else record s { skip_next_label = false }
    else s

unfoldable pub class_of : Bool → Bytes → Class
class_of start2end line = record {
  customized = is_customized_libc_func line && not start2end;
  no_instr = is_no_instr_func line && not start2end;
  on_stack_handler = is_on_stack_handler line && not start2end;
}

unfoldable pub function_label : Bytes → State → State
unfolding starts_with
function_label line s =
    let main = starts_with line (codes "main:") && not s.start2end in
    record s {
      instrument_next = true;
      in_main = main;
      is_main_exe = s.is_main_exe || main;
      class = class_of s.start2end line;
    }

unfoldable pub at_label : Options → ℕ → Bytes → State → Part
at_label o draw line s =
    if is_label line
    then if char_at line 0 == b'.'
      then continue [] (branch_label o draw line s)
      else continue [] (function_label line s)
    else fall s

-- All of it, once the line is written and the file is not passed through.
unfoldable pub track : Options → ℕ → Bytes → State → Part
track o draw line s = do
  s1 ← at_section o line s
  s2 ← at_skip line (track_app line (track_syntax line (track_code o line s1)))
  s3 ← at_branch o draw line s2
  at_label o draw line s3
