-- ===== src/Driver.antt =====
-- FlashStack/afl-gcc.c and FlashStack/afl-rustc.c, called in place of a compiler, as built for
-- Linux: the command line of the compiler that they start.
pub mod Arguments
pub mod Compile
pub mod Kept
pub mod Fatal
pub mod Bounds
use flash_stack.Base.{
  ℕ, Bool, true, false, not, ◌&&◌, ◌||◌, List, [], ◌∷◌, ◌++◌, Option, none, some, ◌==◌,
  if◌then◌else◌, drop, Bytes, codes, starts_with, contains, char_at, strcmp,
}
use flash_stack.Scheme.{Scheme, gs_rsp, fs_gs_tls, buddy_tls_stk_size}
use flash_stack.Command.{same_text, or_else}

-- What the drivers find: variables of the environment, the files that can be executed, and the
-- constants of the build: AFL_PATH and DEFAULT_BUDDY_STACK_SIZE_LIB_PATH.
pub record Setting : Type 0 where
  pub afl_path : Option Bytes
  pub afl_cc : Option Bytes
  pub afl_cxx : Option Bytes
  pub afl_gcj : Option Bytes
  pub afl_rustc : Option Bytes
  pub afl_harden : Bool
  pub afl_use_asan : Bool
  pub afl_use_msan : Bool
  pub afl_no_builtin : Bool
  pub is_executable : Bytes → Bool
  pub built_path : Bytes
  pub lib_path : Bytes

-- `strrchr(s, c)`: what stands before the last `c`, and from it on.
unfoldable pub strrchr : ℕ → Bytes → Option (Bytes × Bytes)
strrchr c [] = none
strrchr c (d ∷ s) = elim (strrchr c s) [
  | some (before, from) ↦ some (d ∷ before, from)
  | none ↦ if d == c then some ([], d ∷ s) else none
]

-- The name of the program without its directory.
unfoldable pub program_name : Bytes → Bytes
unfolding strrchr
program_name argv0 = elim (strrchr b'/' argv0) [ none ↦ argv0 | some (dir, from) ↦ drop 1 from ]

-- The last two tries of find_as.
abbrev pub as_built : Setting → Option Bytes
as_built e = if e.is_executable (e.built_path ++ codes "/as") then some e.built_path else none

abbrev pub as_beside : Setting → Option (Bytes × Bytes) → Option Bytes
as_beside e none = as_built e
as_beside e (some (dir, from)) =
    if e.is_executable (dir ++ codes "/afl-as") then some dir else as_built e

-- `none` is FATAL.
unfoldable pub find_as : Setting → Bytes → Option Bytes
unfolding strrchr
find_as e argv0 = elim e.afl_path [
  | none ↦ as_beside e (strrchr b'/' argv0)
  | some path ↦
      if e.is_executable (path ++ codes "/as") then some path else as_beside e (strrchr b'/' argv0)
]

abbrev pub is_clang : Bytes → Bool
is_clang name = starts_with name (codes "afl-clang") || starts_with name (codes "spa-clang")

-- cc_params[0]
unfoldable pub compiler_of : Setting → Bytes → Bytes
unfolding starts_with strcmp
compiler_of e name =
    if is_clang name
    then if same_text name (codes "afl-clang++") || same_text name (codes "spa-clang++")
      then or_else e.afl_cxx (codes "clang++")
      else or_else e.afl_cc (codes "clang")
    else if same_text name (codes "afl-g++")
    then or_else e.afl_cxx (codes "g++")
    else if same_text name (codes "afl-gcj")
    then or_else e.afl_gcj (codes "gcj")
    else or_else e.afl_cc (codes "gcc")
