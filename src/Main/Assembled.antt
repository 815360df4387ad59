-- ===== src/Main/Assembled.antt =====
-- When main of FlashStack/afl-as.c comes to the assembler, and what it leaves.
use flash_stack.Base.{
  ℕ, ◌<◌, ◌≡◌, ◌≢◌, ◌∙◌, ap, refl, Bool, true, false, not, ◌&&◌, List, ◌∷◌, Option, none, some,
  arith, Bytes, ◌==◌, if◌then◌else◌, char_at,
}
use flash_stack.Asm.{Out}
use flash_stack.Instrument.{Options, cfi_startproc, cfi_endproc, initial}
use flash_stack.Instrument.Pass.{verdict, add_instrumentation}
use flash_stack.Instrument.Counts.{occurrences, pass-occurrences}
use flash_stack.Command.{
  Invocation, edited, edit_params, invocation, is_foreign, is_rustc_pass_thru, modified_name,
}
use flash_stack.Main.{
  Session, Finish, exits, nothing, split_last, options_of, lines_of, exit_status, is_fatal,
  ratio_of, loaded, unreadable, protected_of, with_table, assemble, instrument, check_session,
  as_main,
}

is_fatal-verdict :
    (o : Options) (lines : List (Bytes × ℕ))
    → is_fatal (add_instrumentation o lines).1 ≡ (
        not o.be_quiet
        && not o.pass_thru
        && not (occurrences cfi_startproc lines == occurrences cfi_endproc lines))
unfolding add_instrumentation verdict
is_fatal-verdict o lines = let h = pass-occurrences o lines initial in ground (arith, h.0, h.1)

-- The error for different numbers of the two directives: not if the program is quiet.
abbrev pub stops : Session → Invocation → Bool
stops s c =
    s.is_loud
    && not c.pass_thru
    && not (occurrences cfi_startproc (lines_of s c) == occurrences cfi_endproc (lines_of s c))

assemble_runs :
    (s : Session) (c : Invocation) (written : Option (Bytes × List Out)) (status : ℕ)
    → s.forks ≡ true
    → s.waits ≡ some status
    → assemble s c written
      ≡ exits (exit_status status) (record {
        written = written;
        executed = some c.as_params;
        unlinked = if s.keep_assembly then none else some c.modified_file;
      })
unfolding assemble
assemble_runs s c written status f w = rw (f, w)

reaches_instrument :
    (s : Session) (arg : Bytes) (c : Invocation) (ratio : ℕ) (funcs : List Bytes)
    → ratio_of s ≡ some ratio
    → s.as_loop ≡ false
    → protected_of s.protected_funcs_file ≡ loaded funcs
    → check_session s arg c ≡ instrument s arg c ratio funcs
unfolding check_session with_table
reaches_instrument s arg c ratio funcs e l p = simp (check_session, e, l, p, with_table)

check_session_runs :
    (s : Session) (arg : Bytes) (c : Invocation) (ratio : ℕ) (funcs : List Bytes)
    → ratio_of s ≡ some ratio
    → s.as_loop ≡ false
    → protected_of s.protected_funcs_file ≡ loaded funcs
    → c.just_version ≡ false
    → s.opens_input ≡ true
    → s.creates_output ≡ true
    → check_session s arg c ≡ (
        if is_fatal (add_instrumentation (options_of s arg c ratio funcs) (lines_of s c)).1
        then exits 1 (record nothing {
          written = some (
            c.modified_file,
            (add_instrumentation (options_of s arg c ratio funcs) (lines_of s c)).0,
          );
        })
        else assemble s c (
            some (
              c.modified_file,
              (add_instrumentation (options_of s arg c ratio funcs) (lines_of s c)).0,
            )))
unfolding instrument
check_session_runs s arg c ratio funcs e l p v i o =
    reaches_instrument s arg c ratio funcs e l p ∙ rw (instrument, v, i, o)

same_ratio :
    (s : Session) (file : Option (Option Bytes))
    → ratio_of (record s { protected_funcs_file = file }) ≡ ratio_of s
unfolding ratio_of
same_ratio s file = refl

unreadable_table : protected_of (some none) ≡ unreadable
unfolding protected_of
unreadable_table = refl

-- Without the file of names that the variable asks for.
check_session-unreadable :
    (s : Session) (arg : Bytes) (c : Invocation) (ratio : ℕ)
    → ratio_of s ≡ some ratio
    → s.as_loop ≡ false
    → protected_of s.protected_funcs_file ≡ unreadable
    → check_session s arg c ≡ exits 1 nothing
unfolding check_session with_table
check_session-unreadable s arg c ratio e l p = rw (check_session, e, l, p, with_table)

as_main_runs :
    (s : Session) (arg : Bytes) (args : List Bytes) (c : Invocation)
    → edit_params s.surroundings (split_last arg args).0 (split_last arg args).1 ≡ edited c
    → as_main s (arg ∷ args) ≡ check_session s arg c
unfolding as_main
as_main_runs s arg args c e = rw (as_main, e)

edits :
    (s : Session) (front : List Bytes) (input : Bytes) (lines : List Bytes)
    → char_at input 0 ≢ b'-'
    → s.surroundings.file_lines input ≡ some lines
    → (c : Invocation) × (edit_params s.surroundings front input ≡ edited c)
      × (c.just_version ≡ false)
unfolding edit_params
edits s front input lines h f = (
  invocation s.surroundings front input
      (is_foreign s.surroundings input && not (is_rustc_pass_thru lines)) false
      (modified_name s.surroundings input),
  ground (arith, h, f),
  refl,
)

if-same : (b b' : Bool) (x y : Finish) → b ≡ b' → (if b then x else y) ≡ (if b' then x else y)
if-same b b' x y e = ap (λ t. if t then x else y) e

-- The assembler driver, with at least one argument, the last one not beginning with `-` and naming a
-- file that can be read, with a good value of AFL_INST_RATIO or none, not called by itself, with a
-- table of protected functions that is read and fits, with files that can be opened, a child process
-- and a status of it: if the program is loud, the file is not passed through and its numbers of
-- `.cfi_startproc` and `.cfi_endproc` differ, it exits with 1 behind the output of
-- add_instrumentation, which stays, and no assembler is run. Otherwise the assembler gets the
-- parameters that edit_params made, the modified file with that output is removed unless it is to
-- be kept, and the exit code is the second byte of the status: it is 0 for every status below 256,
-- which is that of an assembler that a signal ended. In the same session, but with a table of
-- protected functions that cannot be read, it exits with 1, and nothing is written or run.
pub as_main_lem :
    (s : Session) (arg : Bytes) (args lines funcs : List Bytes) (ratio status : ℕ)
    → char_at (split_last arg args).1 0 ≢ b'-'
    → s.surroundings.file_lines (split_last arg args).1 ≡ some lines
    → ratio_of s ≡ some ratio
    → s.as_loop ≡ false
    → protected_of s.protected_funcs_file ≡ loaded funcs
    → s.opens_input ≡ true
    → s.creates_output ≡ true
    → s.forks ≡ true
    → s.waits ≡ some status
    → (c : Invocation) × (edit_params s.surroundings (split_last arg args).0 (split_last arg args).1
        ≡ edited c)
      × (as_main s (arg ∷ args) ≡ (
          if stops s c
          then exits 1 (record nothing {
            written = some (
              c.modified_file,
              (add_instrumentation (options_of s arg c ratio funcs) (lines_of s c)).0,
            );
          })
          else exits (exit_status status) (record {
            written = some (
              c.modified_file,
              (add_instrumentation (options_of s arg c ratio funcs) (lines_of s c)).0,
            );
            executed = some c.as_params;
            unlinked = if s.keep_assembly then none else some c.modified_file;
          })))
      × ((status < 256) → exit_status status ≡ 0)
      × (as_main (record s { protected_funcs_file = some none }) (arg ∷ args) ≡ exits 1 nothing)
as_main_lem s arg args lines funcs ratio status h f r l p i o fk w =
    let (c, e, v) = edits s (split_last arg args).0 (split_last arg args).1 lines h f in
    let out = (add_instrumentation (options_of s arg c ratio funcs) (lines_of s c)).0 in
    let fatal_is : is_fatal (add_instrumentation (options_of s arg c ratio funcs) (lines_of s c)).1
        ≡ stops s c =
      is_fatal-verdict (options_of s arg c ratio funcs) (lines_of s c) ∙ ground arith in
    (
      c,
      e,
      as_main_runs s arg args c e
          ∙ check_session_runs s arg c ratio funcs r l p v i o
          ∙ if-same _ (stops s c) _ _ fatal_is
          ∙ ap
              (λ x.
                if stops s c
                then exits 1 (record nothing { written = some (c.modified_file, out) })
                else x)
              (assemble_runs s c (some (c.modified_file, out)) status fk w),
      λ below. omega (arith, below),
      as_main_runs (record s { protected_funcs_file = some none }) arg args c e
          ∙ check_session-unreadable (record s { protected_funcs_file = some none }) arg c ratio
              (same_ratio s (some none) ∙ r) l unreadable_table,
    )
