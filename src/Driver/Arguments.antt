-- ===== src/Driver/Arguments.antt =====
-- The loop over the arguments in edit_params of FlashStack/afl-gcc.c.
use flash_stack.Base.{
  Bool, true, false, not, ◌&&◌, ◌||◌, List, [], ◌∷◌, none, some, ◌==◌, if◌then◌else◌, drop, Bytes,
  codes, starts_with, contains, char_at, strcmp,
}
use flash_stack.Command.{same_text}
use flash_stack.Driver.{strrchr}

-- The local variables of the loop over the arguments.
pub record Flags : Type 0 where
  pub is_so : Bool
  pub asan_set : Bool
  pub fortify_set : Bool

abbrev pub no_flags : Flags
no_flags = record { is_so = false; asan_set = false; fortify_set = false }

-- Whether the name's last suffix is `.so`.
unfoldable pub names_so : Bytes → Bool
unfolding strrchr
names_so name = elim (strrchr b'.' name) [
  | none ↦ false
  | some (before, from) ↦ same_text from (codes ".so")
]

-- With the arguments behind `cur`.
unfoldable pub is_shared_output : Bytes → List Bytes → Bool
unfolding starts_with names_so
is_shared_output cur [] =
    starts_with cur (codes "-o") && not (char_at cur 2 == 0) && names_so (drop 2 cur)
is_shared_output cur (next ∷ rest) =
    starts_with cur (codes "-o")
    && (if char_at cur 2 == 0 then names_so next else names_so (drop 2 cur))

unfoldable pub note_so : Bytes → List Bytes → Flags → Flags
unfolding is_shared_output
note_so cur rest f = record f {
  is_so = f.is_so || starts_with cur (codes "-shared") || is_shared_output cur rest;
}

unfoldable pub note_checks : Bytes → Flags → Flags
unfolding strcmp contains
note_checks cur f = record f {
  asan_set =
      f.asan_set
      || same_text cur (codes "-fsanitize=address")
      || same_text cur (codes "-fsanitize=memory");
  fortify_set = f.fortify_set || contains cur (codes "FORTIFY_SOURCE");
}

-- The arguments that are passed on, and the flags; `skip` says that the next one belongs to `-B`.
unfoldable pub keep_arguments : Bool → List Bytes → Flags → List Bytes × Flags
unfolding starts_with strcmp note_so note_checks
keep_arguments skip [] f = ([], f)
keep_arguments true (cur ∷ rest) f = keep_arguments false rest f
keep_arguments false (cur ∷ rest) f =
    let so = note_so cur rest f in
    elim (starts_with cur (codes "-B")) [
      | true ↦ keep_arguments (char_at cur 2 == 0) rest f
      | false ↦ elim (same_text cur (codes "-integrated-as") || same_text cur (codes "-pipe")) [
        | true ↦ keep_arguments false rest so
        | false ↦
            let (args, f') = keep_arguments false rest (note_checks cur so) in (cur ∷ args, f')
      ]
    ]
