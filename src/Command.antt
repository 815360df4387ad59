-- ===== src/Command.antt =====
-- edit_params and spa_is_rustc_pass_thru of FlashStack/afl-as.c, as built for Linux on x86-64.
pub mod Params
use flash_stack.Base.{
  ℕ, zero, suc, ◌+◌, Bool, true, false, not, ◌&&◌, ◌||◌, List, [], ◌∷◌, ◌++◌, map, Option, none,
  some, Ordering, ◌==◌, ltb, if◌then◌else◌, drop, Bytes, codes, starts_with, char_at, strcmp,
}
use flash_stack.Instrument.{cfi_startproc, cfi_endproc}

abbrev pub same_text : Bytes → Bytes → Bool
same_text a b = elim (strcmp a b) [ Ordering.eq ↦ true | _ ↦ false ]

-- The two counters over the lines of a file, of type int in the source, without a bound here.
unfoldable pub rustc_counts : List Bytes → ℕ → ℕ → ℕ × ℕ
unfolding starts_with
rustc_counts [] n_s n_e = (n_s, n_e)
rustc_counts (line ∷ lines) n_s n_e =
    let counts : ℕ × ℕ =
      if starts_with line cfi_startproc
      then (n_s + 1, n_e)
      else if starts_with line cfi_endproc
      then (n_s, n_e + 1)
      else (n_s, n_e) in
    rustc_counts lines counts.0 counts.1

unfoldable pub is_rustc_pass_thru : List Bytes → Bool
unfolding rustc_counts
is_rustc_pass_thru lines = let (n_s, n_e) = rustc_counts lines 0 0 in ltb 0 n_s && n_s == n_e

-- What edit_params finds: variables of the environment, the lines of the input file, and the
-- process number and the time as they are printed into a file name.
pub record Surroundings : Type 0 where
  pub tmpdir : Option Bytes
  pub temp : Option Bytes
  pub tmp : Option Bytes
  pub afl_as : Option Bytes
  -- none, if the file cannot be read
  pub file_lines : Bytes → Option (List Bytes)
  pub stamp : Bytes

pub record Invocation : Type 0 where
  pub as_params : List Bytes
  pub use_64bit : Bool
  pub pass_thru : Bool
  pub just_version : Bool
  pub input_file : Bytes
  pub modified_file : Bytes

-- The parameters for the assembler, an end by FATAL or PFATAL, or a fault on a null pointer.
pub data Edited : Type 0 where
  edited : Invocation → Edited
  incorrect_use : Edited
  unreadable_input : Edited
  null_fault : Edited

abbrev pub or_else : Option Bytes → Bytes → Bytes
or_else none d = d
or_else (some x) d = x

abbrev pub tmp_dir : Surroundings → Bytes
tmp_dir e = or_else e.tmpdir (or_else e.temp (or_else e.tmp (codes "/tmp")))

-- The last of --64 and --32 counts; without one, the mode in which the program was built.
unfoldable pub mode_64bit : Bool → List Bytes → Bool
unfolding strcmp
mode_64bit b [] = b
mode_64bit b (arg ∷ args) =
    mode_64bit
      (if same_text arg (codes "--64")
        then true
        else if same_text arg (codes "--32")
        then false
        else b)
      args

-- Slashes and backslashes become dots.
unfoldable pub dotted : Bytes → Bytes
dotted [] = []
dotted (c ∷ s) = (if c == b'\\' || c == b'/' then b'.' else c) ∷ dotted s

unfoldable pub modified_name : Surroundings → Bytes → Bytes
unfolding dotted
modified_name e input =
    tmp_dir e ++ (codes "/SPA-" ++ (e.stamp ++ (codes "-###" ++ (dotted input ++ codes "###.s"))))

-- Not one of the places where a compiler puts its temporary files.
unfoldable pub is_foreign : Surroundings → Bytes → Bool
unfolding starts_with
is_foreign e input =
    not (starts_with input (tmp_dir e))
    && not (starts_with input (codes "/var/tmp/"))
    && not (starts_with input (codes "/tmp/"))

abbrev pub invocation : Surroundings → List Bytes → Bytes → Bool → Bool → Bytes → Invocation
invocation e args input pass_thru just_version modified = record {
  as_params = or_else e.afl_as (codes "/usr/bin/as") ∷ (args ++ modified ∷ []);
  use_64bit = mode_64bit true args;
  pass_thru = pass_thru;
  just_version = just_version;
  input_file = input;
  modified_file = modified;
}

-- `args` are the arguments between the name of the program and the last one, `input`. With `-` the
-- pointer to its name is null when its length is asked for.
unfoldable pub edit_params : Surroundings → List Bytes → Bytes → Edited
unfolding modified_name is_foreign is_rustc_pass_thru mode_64bit
edit_params e args input =
    if char_at input 0 == b'-'
    then if same_text (drop 1 input) (codes "-version")
      then edited (invocation e args input false true input)
      else if not (char_at input 1 == 0)
      then incorrect_use
      else null_fault
    else elim (e.file_lines input) [
      | none ↦ unreadable_input
      | some lines ↦ edited (
          invocation e args input (is_foreign e input && not (is_rustc_pass_thru lines)) false
            (modified_name e input))
    ]
