-- ===== src/Threads.antt =====
-- pthread_create and do_start_routine of FlashStack/gs.rsp.c, FlashStack/fsgs.c, FlashStack/init.c and
-- FlashStack/fork.c, which put themselves between the program and the threads library. The threads
-- library and malloc are parameters.
pub mod Started
use flash_stack.Base.{
  ℕ, ◌*◌, ◌%◌, Bool, true, false, List, [], ◌∷◌, ◌++◌, Option, none, some, ◌==◌, if◌then◌else◌,
}
use flash_stack.Base.Steps.{Steps, pure, ◌>>=◌}
use flash_stack.Asm.{word_mod}

-- A pthread_attr_t, of which only the stack's size matters here.
pub record Attr : Type 0 where
  pub stacksize : ℕ
  pub other : ℕ

pub record ArgInfo : Type 0 where
  pub start_routine : ℕ
  pub arg : ℕ

-- The heap objects of that type, with their addresses.
abbrev pub Cells : Type 0
Cells = List (ℕ × ArgInfo)

abbrev pub find_cell : ℕ → Cells → Option ArgInfo
find_cell c [] = none
find_cell c ((b, info) ∷ cells) = if b == c then some info else find_cell c cells

abbrev pub free_cell : ℕ → Cells → Cells
free_cell c [] = []
free_cell c ((b, info) ∷ cells) =
    let rest = free_cell c cells in if b == c then rest else (b, info) ∷ rest

pub record Loader : Type 0 where
  -- whether dlsym has been asked for pthread_create
  pub resolved : Bool
  pub cells : Cells

-- What the threads library and malloc do: what pthread_attr_init leaves in its argument,
-- pthread_attr_setstacksize, and malloc, with `none` for a null pointer.
pub record Supplied : Type 0 where
  pub init_attr : Attr
  pub set_stacksize : ℕ → Attr → Attr
  pub malloc : Cells → Option ℕ

-- A call of the real pthread_create.
pub data Call : Type 0 where
  -- with release_memory_region
  cleaner : Call
  -- with do_start_routine and the object at an address
  start : Attr → ℕ → Call
  -- with the caller's routine and its argument
  direct : Attr → ℕ → ℕ → Call

-- BUDDY_STACK_SIZE, from BUDDY_CALL_STACK_SIZE
abbrev pub buddy_stack_size : ℕ → ℕ
buddy_stack_size size = (4 * size) % word_mod

module _ (p : Supplied) where
  -- The attributes that are passed on, which are the caller's own object if there is one.
  abbrev pub sized : ℕ → Option Attr → Attr
  sized size none = p.set_stacksize size p.init_attr
  sized size (some attr) = p.set_stacksize size attr

  -- malloc and the two assignments, which fault at a null pointer.
  unfoldable pub new_arg_info : ℕ → ℕ → Steps Loader ℕ
  new_arg_info routine arg l = elim (p.malloc l.cells) [
    | none ↦ none
    | some c ↦
        some (c, record l { cells = (c, record { start_routine = routine; arg = arg }) ∷ l.cells })
  ]

  -- dlsym, and the thread that sweeps the table.
  unfoldable pub resolve : Steps Loader (List Call)
  resolve l = some (if l.resolved then [] else cleaner ∷ [], record l { resolved = true })

  -- pthread_create of gs.rsp.c, with DEF_BUDDY_CALL_STACK_SIZE
  unfoldable pub shadow_create : ℕ → Option Attr → ℕ → ℕ → Steps Loader (List Call)
  shadow_create size attr routine arg = do
    first ← resolve
    c ← new_arg_info routine arg
    pure (first ++ start (sized size attr) c ∷ [])

  -- pthread_create of fsgs.c, which is the same
  abbrev pub fsgs_create : ℕ → Option Attr → ℕ → ℕ → Steps Loader (List Call)
  fsgs_create = shadow_create

  -- pthread_create of init.c, with BUDDY_CALL_STACK_SIZE
  unfoldable pub buddy_create : ℕ → Option Attr → ℕ → ℕ → Steps Loader (List Call)
  buddy_create size attr routine arg = do
    c ← new_arg_info routine arg
    pure (start (sized (buddy_stack_size size) attr) c ∷ [])

  -- pthread_create of fork.c
  unfoldable pub build_create : ℕ → Option Attr → ℕ → ℕ → Steps Loader (List Call)
  build_create size attr routine arg =
      pure (direct (sized (buddy_stack_size size) attr) routine arg ∷ [])

-- The call that the new thread ends up with, and the value of thread_cleanup_key.
pub record Routine : Type 0 where
  pub routine : ℕ
  pub argument : ℕ
  pub key : Option ℕ

-- The copy to local variables, and free. A null or dangling pointer faults.
abbrev pub take_arg_info : ℕ → Cells → Option (ArgInfo × Cells)
take_arg_info c cells = elim (find_cell c cells) [
  | none ↦ none
  | some info ↦ some (info, free_cell c cells)
]

module _ {S A : Type 0} (prepare : Steps S A) where
  -- do_start_routine of gs.rsp.c, with init_shadow_stack
  unfoldable pub shadow_start : ℕ → Cells → Steps S (Routine × Cells)
  shadow_start c cells = do
    done ← prepare
    elim (take_arg_info c cells) [
      | none ↦ λ s. none
      | some (info, rest) ↦
          pure (record { routine = info.start_routine; argument = info.arg; key = some 1 }, rest)
    ]

  -- do_start_routine of fsgs.c, which is the same
  abbrev pub fsgs_start : ℕ → Cells → Steps S (Routine × Cells)
  fsgs_start = shadow_start

  -- do_start_routine of init.c, with buddy_init_other_thread_tls
  unfoldable pub buddy_start : ℕ → Cells → Steps S (Routine × Cells)
  buddy_start c cells = elim (take_arg_info c cells) [
    | none ↦ λ s. none
    | some (info, rest) ↦ prepare >>= λ done.
        pure (record { routine = info.start_routine; argument = info.arg; key = none }, rest)
  ]
