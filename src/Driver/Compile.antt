-- ===== src/Driver/Compile.antt =====
-- edit_params and main of FlashStack/afl-gcc.c and of FlashStack/afl-rustc.c.
use flash_stack.Base.{
  Bool, true, false, ◌||◌, List, [], ◌∷◌, ◌++◌, Option, none, some, if◌then◌else◌, Bytes, codes,
}
use flash_stack.Scheme.{Scheme, gs_rsp, fs_gs_tls, buddy_tls_stk_size}
use flash_stack.Command.{or_else}
use flash_stack.Driver.{Setting, program_name, find_as, is_clang, compiler_of}
use flash_stack.Driver.Arguments.{Flags, no_flags, keep_arguments}

abbrev pub builtin_params : List Bytes
builtin_params =
    codes "-fno-builtin-strcmp"
    ∷ codes "-fno-builtin-strncmp"
    ∷ codes "-fno-builtin-strcasecmp"
    ∷ codes "-fno-builtin-strncasecmp"
    ∷ codes "-fno-builtin-memcmp"
    ∷ codes "-fno-builtin-strstr"
    ∷ codes "-fno-builtin-strcasestr"
    ∷ []

abbrev pub library_params : Setting → Bytes → List Bytes → List Bytes
library_params e name rest =
    (codes "-Wl,-L=" ++ e.lib_path) ∷ name ∷ (codes "-Wl,-rpath=" ++ e.lib_path) ∷ rest

-- The library of the scheme.
abbrev pub scheme_params : Setting → Scheme → List Bytes
scheme_params e (buddy_tls_stk_size _) = library_params e (codes "-Wl,-lbustk") []
scheme_params e (fs_gs_tls _) =
    library_params e (codes "-Wl,-lfsgs") (codes "-Wno-unused-command-line-argument" ∷ [])
scheme_params e gs_rsp =
    library_params e (codes "-Wl,-lgsrsp") (codes "-Wno-unused-command-line-argument" ∷ [])
scheme_params e _ = []

-- `none` is FATAL.
unfoldable pub sanitizer_params : Setting → Bool → Option (List Bytes)
sanitizer_params e true = some []
sanitizer_params e false =
    if e.afl_use_asan
    then if e.afl_use_msan || e.afl_harden
      then none
      else some (codes "-U_FORTIFY_SOURCE" ∷ codes "-fsanitize=address" ∷ [])
    else if e.afl_use_msan
    then if e.afl_harden
      then none
      else some (codes "-U_FORTIFY_SOURCE" ∷ codes "-fsanitize=memory" ∷ [])
    else some []

abbrev pub harden_params : Setting → Bool → List Bytes
harden_params e fortify_set =
    if e.afl_harden
    then codes "-fstack-protector-all"
      ∷ (if fortify_set then [] else codes "-D_FORTIFY_SOURCE=2" ∷ [])
    else []

-- Behind `-B` and its path.
abbrev pub last_params : Setting → Scheme → Bytes → Flags → List Bytes → List Bytes
last_params e s name f sanitizer =
    (if is_clang name then codes "-no-integrated-as" ∷ [] else [])
    ++ (harden_params e f.fortify_set
        ++ (sanitizer ++ ((if e.afl_no_builtin then builtin_params else []) ++ scheme_params e s)))

-- edit_params of FlashStack/afl-gcc.c: cc_params, up to the null pointer at its end.
unfoldable pub edit_cc_params : Setting → Scheme → Bytes → Bytes → List Bytes → Option (List Bytes)
unfolding compiler_of program_name keep_arguments sanitizer_params
edit_cc_params e s as_path argv0 args =
    let (kept, f) = keep_arguments false args no_flags in
    let name = program_name argv0 in
    elim (sanitizer_params e f.asan_set) [
      | none ↦ none
      | some sanitizer ↦
          some (
            compiler_of e name
            ∷ (kept ++ (codes "-B" ∷ as_path ∷ last_params e s name f sanitizer)))
    ]

-- How main ends, if execvp is taken to be its end.
pub data Ending : Type 0 where
  usage : Ending
  fatal : Ending
  exec : List Bytes → Ending

-- main of FlashStack/afl-gcc.c, with argv[0] and the arguments behind it.
unfoldable pub cc_main : Setting → Scheme → Bytes → List Bytes → Ending
unfolding find_as edit_cc_params
cc_main e s argv0 [] = usage
cc_main e s argv0 (arg ∷ args) = elim (find_as e argv0) [
  | none ↦ fatal
  | some as_path ↦ elim (edit_cc_params e s as_path argv0 (arg ∷ args)) [
    | none ↦ fatal
    | some params ↦ exec params
  ]
]

abbrev pub rustc_library : Setting → Scheme → List Bytes
rustc_library e (buddy_tls_stk_size _) =
    (codes "-L=" ++ e.lib_path)
    ∷ codes "-lbustk"
    ∷ codes "-C"
    ∷ (codes "link-args=-Wl,-rpath=" ++ e.lib_path)
    ∷ []
rustc_library e _ = []

-- edit_params of FlashStack/afl-rustc.c.
unfoldable pub edit_rustc_params : Setting → Scheme → List Bytes → List Bytes
edit_rustc_params e s args =
    or_else e.afl_rustc (codes "/usr/bin/rustc")
    ∷ (args ++ (codes "-C" ∷ codes "no-integrated-as" ∷ rustc_library e s))

-- main of FlashStack/afl-rustc.c.
unfoldable pub rustc_main : Setting → Scheme → List Bytes → Ending
unfolding edit_rustc_params
rustc_main e s [] = usage
rustc_main e s (arg ∷ args) = exec (edit_rustc_params e s (arg ∷ args))
