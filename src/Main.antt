-- ===== src/Main.antt =====
-- main of FlashStack/afl-as.c, from the arguments to the exit code. What the libraries and the
-- system answer is given.
pub mod Assembled
use flash_stack.Base.{
  ℕ, ◌+◌, ◌/◌, ◌%◌, Bool, true, false, not, ◌&&◌, ◌||◌, List, [], ◌∷◌, Option, none, some, ltb,
  if◌then◌else◌, Bytes, codes, contains,
}
use flash_stack.Asm.{Out}
use flash_stack.Scheme.{Scheme}
use flash_stack.Names.{open_protected_funcs_list}
use flash_stack.Instrument.{Options}
use flash_stack.Instrument.Pass.{Verdict, fatal, add_instrumentation}
use flash_stack.Command.{
  Surroundings, Invocation, Edited, edited, incorrect_use, unreadable_input, null_fault,
  edit_params,
}

pub record Session : Type 0 where
  pub surroundings : Surroundings
  pub scheme : Scheme
  pub calls_instrumented : Bool
  -- standard error is a terminal, and AFL_QUIET is not set
  pub is_loud : Bool
  pub clang_mode : Bool
  -- AFL_INST_RATIO, and what sscanf makes of a text with "%u"
  pub inst_ratio_str : Option Bytes
  pub scan_unsigned : Bytes → Option ℕ
  pub as_loop : Bool
  pub uses_sanitizer : Bool
  -- the file that SPA_PROTECTED_FUNCS_PATH_ENV names, if it is set, and if it can be read
  pub protected_funcs_file : Option (Option Bytes)
  pub libc_names : List Bytes
  pub libcxx_names : List Bytes
  pub opens_input : Bool
  pub creates_output : Bool
  -- the n-th random number
  pub draw : ℕ → ℕ
  pub forks : Bool
  -- the status that waitpid gives
  pub waits : Option ℕ
  pub keep_assembly : Bool

pub record Effects : Type 0 where
  pub written : Option (Bytes × List Out)
  pub executed : Option (List Bytes)
  pub unlinked : Option Bytes

pub data Finish : Type 0 where
  exits : ℕ → Effects → Finish
  faults : Finish

abbrev pub nothing : Effects
nothing = record { written = none; executed = none; unlinked = none }

abbrev pub split_last : Bytes → List Bytes → List Bytes × Bytes
split_last arg [] = ([], arg)
split_last arg (next ∷ args) = let (front, input) = split_last next args in (arg ∷ front, input)

abbrev pub drawn : (ℕ → ℕ) → ℕ → List Bytes → List (Bytes × ℕ)
drawn draw n [] = []
drawn draw n (line ∷ lines) = (line, draw n) ∷ drawn draw (n + 1) lines

-- A bad value ends in FATAL.
unfoldable pub ratio_of : Session → Option ℕ
ratio_of s =
    let divided = λ (n : ℕ). if s.uses_sanitizer then n / 3 else n in
    elim s.inst_ratio_str [
      | none ↦ some (divided 100)
      | some text ↦ elim (s.scan_unsigned text) [
        | none ↦ none
        | some n ↦ if ltb 100 n then none else some (divided n)
      ]
    ]

-- The table of protected functions, the end by PFATAL, or a write past the table.
pub data Loaded : Type 0 where
  loaded : List Bytes → Loaded
  unreadable : Loaded
  overrun : Loaded

abbrev pub loaded_from : Option (List Bytes) → Loaded
loaded_from none = overrun
loaded_from (some names) = loaded names

unfoldable pub protected_of : Option (Option Bytes) → Loaded
protected_of none = loaded []
protected_of (some none) = unreadable
protected_of (some (some file)) = loaded_from (open_protected_funcs_list file)

-- `arg` is argv[1].
abbrev pub options_of : Session → Bytes → Invocation → ℕ → List Bytes → Options
options_of s arg c ratio funcs = record {
  scheme = s.scheme;
  calls_instrumented = s.calls_instrumented;
  pass_thru = c.pass_thru;
  use_64bit = c.use_64bit;
  clang_mode = s.clang_mode;
  with_64_bit_cmd_option = contains arg (codes "--64");
  be_quiet = not s.is_loud;
  inst_ratio = ratio;
  tables = record {
    libc_names = s.libc_names;
    libcxx_names = s.libcxx_names;
    protected_funcs = funcs;
  };
}

-- A file that cannot be read has no lines; it is not opened for them then.
abbrev pub lines_or_none : Option (List Bytes) → List Bytes
lines_or_none none = []
lines_or_none (some lines) = lines

abbrev pub lines_of : Session → Invocation → List (Bytes × ℕ)
lines_of s c = drawn s.draw 0 (lines_or_none (s.surroundings.file_lines c.input_file))

-- The macro WEXITSTATUS.
abbrev pub exit_status : ℕ → ℕ
exit_status status = status / 256 % 256

-- From fork on.
unfoldable pub assemble : Session → Invocation → Option (Bytes × List Out) → Finish
assemble s c written =
    let ran = record nothing { written = written; executed = some c.as_params } in
    if s.forks
    then elim s.waits [
      | none ↦ exits 1 ran
      | some status ↦
          exits (exit_status status)
            (record ran { unlinked = if s.keep_assembly then none else some c.modified_file })
    ]
    else exits 1 (record nothing { written = written })

abbrev pub is_fatal : Verdict → Bool
is_fatal fatal = true
is_fatal _ = false

-- add_instrumentation, and what comes of its verdict.
unfoldable pub instrument : Session → Bytes → Invocation → ℕ → List Bytes → Finish
instrument s arg c ratio funcs =
    if c.just_version
    then assemble s c none
    else if s.opens_input && s.creates_output
    then (let (out, verdict) =
          add_instrumentation (options_of s arg c ratio funcs) (lines_of s c) in
        if is_fatal verdict
        then exits 1 (record nothing { written = some (c.modified_file, out) })
        else assemble s c (some (c.modified_file, out)))
    else exits 1 nothing

-- With what comes of the table of protected functions.
unfoldable pub with_table : Session → Bytes → Invocation → ℕ → Loaded → Finish
with_table s arg c ratio (loaded funcs) = instrument s arg c ratio funcs
with_table s arg c ratio unreadable = exits 1 nothing
with_table s arg c ratio overrun = faults

-- The tests behind edit_params.
unfoldable pub check_session : Session → Bytes → Invocation → Finish
check_session s arg c = elim (ratio_of s) [
  | none ↦ exits 1 nothing
  | some ratio ↦
      if s.as_loop
      then exits 1 nothing
      else with_table s arg c ratio (protected_of s.protected_funcs_file)
]

-- The arguments are those behind the name of the program.
unfoldable pub as_main : Session → List Bytes → Finish
as_main s [] = exits 1 nothing
as_main s (arg ∷ args) =
    let (front, input) = split_last arg args in
    elim (edit_params s.surroundings front input) [
      | edited c ↦ check_session s arg c
      | incorrect_use ↦ exits 1 nothing
      | unreadable_input ↦ exits 1 nothing
      | null_fault ↦ faults
    ]
