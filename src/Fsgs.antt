-- ===== src/Fsgs.antt =====
-- FlashStack/fsgs.c, the runtime library of the scheme USE_SPA_FS_GS_TLS: for each thread a shadow
-- stack and a page of metadata, to which the gs register points. The operating system is a
-- parameter.
pub mod Promises
pub mod Ready
pub mod Touch
pub mod Move
pub mod Fresh
pub mod Moved
pub mod Fast
pub mod Whole
pub mod Survive
pub mod Call
pub mod Setup
pub mod Started
pub mod Values
pub mod Renewed
pub mod Decoded
pub mod During
pub mod Changing
pub mod Returned
pub mod Regions
pub mod Ended
use Prim.Native.Nat.{bit_and}
use flash_stack.Base.{
  ℕ, zero, suc, ◌+◌, ◌-◌, ◌*◌, ◌^◌, Bool, true, false, ◌||◌, Option, none, some, ◌==◌, ltb, leb,
  if◌then◌else◌,
}
use flash_stack.Base.Steps.{Steps, pure, ◌>>=◌, ◌>>◌, gets}
use flash_stack.Asm.{word_mod, add64, sub64}
use flash_stack.Asm.Machine.{update}
use flash_stack.Runtime.{call_stack_size, cycles_per_randomization, flash_stack_inited}
use flash_stack.Buddy.{Memory, Process, page_size, avx2_64_x_4_add}

-- REAL_SHADOW_STACK_SIZE of fsgs.c
abbrev pub stack_size : ℕ
stack_size = 0x900000

-- The fields of gs_metadata, as far as they are used.
abbrev pub self_addr_field : ℕ
self_addr_field = 0

abbrev pub gs_diff_field : ℕ
gs_diff_field = 8

abbrev pub r_field : ℕ
r_field = 16

abbrev pub busy_field : ℕ
busy_field = 24

abbrev pub stack_field : ℕ
stack_field = 32

abbrev pub clock_field : ℕ
clock_field = 40

abbrev pub inited_field : ℕ
inited_field = 48

abbrev pub shadow_stack_top_field : ℕ
shadow_stack_top_field = 56

abbrev pub call_stack_top_field : ℕ
call_stack_top_field = 64

abbrev pub ratio_factor_field : ℕ
ratio_factor_field = 72

-- DEFAULT_CHANGING_MOVING_RATIO
abbrev pub default_ratio : ℕ
default_ratio = 1

-- SPA_MAX_MMAP_ATTEMPTS of fsgs.c
abbrev pub max_attempts : ℕ
max_attempts = 5

-- What the system answers, and the memory that it leaves; `none` is a failure, which leaves memory
-- as it was. What is mapped can be read. The n-th reading of the time-stamp counter and the n-th
-- random number are given by n.
pub record Os : Type 0 where
  pub mmap : ℕ → ℕ → Memory → Option (ℕ × Memory)
  pub munmap : ℕ → ℕ → Memory → Memory
  pub mremap : ℕ → ℕ → ℕ → Memory → Option (ℕ × Memory)
  pub mprotect : ℕ → ℕ → Bool → Memory → Option Memory
  -- whether arch_prctl(ARCH_SET_GS) succeeds
  pub sets_gs : ℕ → Bool
  pub rdtsc : ℕ → ℕ
  pub rdrand : ℕ → ℕ

pub record Thread : Type 0 where
  pub memory : Memory
  pub gs : ℕ
  pub readings : ℕ
  pub draws : ℕ
  pub inited : Bool
  pub relaxing_sandbox : ℕ

abbrev pub F : Type 0 → Type 0
F = Steps Thread

abbrev pub load : ℕ → F ℕ
load a w = if w.memory.readable a then some (w.memory.word a, w) else none

abbrev pub set_word : ℕ → ℕ → Thread → Thread
set_word a v w = record w { memory = record w.memory { word = update w.memory.word a v } }

abbrev pub store : ℕ → ℕ → F (Unit {0})
store a v w = if w.memory.writable a then some (tt, set_word a v w) else none

-- Asked by the filter of system calls in the sandbox.
abbrev spa_is_relaxing_sandbox : F ℕ
spa_is_relaxing_sandbox = gets (λ w. w.relaxing_sandbox)

abbrev spa_set_relaxing_sandbox : ℕ → F (Unit {0})
spa_set_relaxing_sandbox v w = some (tt, record w { relaxing_sandbox = v })

-- A function on memory alone, of FlashStack/simd_rand.c, of which fsgs.c has a copy.
abbrev pub on_memory : Steps Process (Unit {0}) → F (Unit {0})
on_memory f w = elim (f (record { memory = w.memory; rand_cnt = 0 })) [
  | none ↦ none
  | some (_, p) ↦ some (tt, record w { memory = p.memory })
]

-- The words of a structure, from the last one down.
unfoldable pub copy_words : ℕ → ℕ → ℕ → F (Unit {0})
copy_words zero from to = pure tt
copy_words (suc n) from to = do v ← load (from + n * 8); store (to + n * 8) v; copy_words n from to

-- A `long` that is not above zero.
abbrev pub is_spent : ℕ → Bool
is_spent x = x == 0 || leb (2 ^ 63) x

module _ (k : Os) where
  abbrev pub rdtsc : F ℕ
  rdtsc w = some (k.rdtsc w.readings, record w { readings = w.readings + 1 })

  abbrev pub rdrand : F ℕ
  rdrand w = some (k.rdrand w.draws, record w { draws = w.draws + 1 })

  abbrev pub mmap : ℕ → ℕ → F (Option ℕ)
  mmap hint n w = elim (k.mmap hint n w.memory) [
    | none ↦ some (none, w)
    | some (a, m) ↦ some (some a, record w { memory = m })
  ]

  abbrev pub munmap : ℕ → ℕ → F (Unit {0})
  munmap a n w = some (tt, record w { memory = k.munmap a n w.memory })

  -- MAP_FAILED, if it fails
  abbrev pub mremap : ℕ → ℕ → ℕ → F ℕ
  mremap old n new w = elim (k.mremap old n new w.memory) [
    | none ↦ some (word_mod - 1, w)
    | some (a, m) ↦ some (a, record w { memory = m })
  ]

  abbrev pub mprotect : ℕ → ℕ → Bool → F (Unit {0})
  mprotect a n write w = elim (k.mprotect a n write w.memory) [
    | none ↦ some (tt, w)
    | some m ↦ some (tt, record w { memory = m })
  ]

  abbrev pub set_gs : ℕ → F (Unit {0})
  set_gs v w = some (tt, if k.sets_gs v then record w { gs = v } else w)

  -- The loop of get_memory_at_random, which goes on until memory is to be had; `none` without fuel.
  unfoldable pub get_memory_from : ℕ → ℕ → ℕ → F ℕ
  get_memory_from zero i size w = none
  get_memory_from (suc fuel) i size w =
      let x = k.rdrand w.draws in
      let hint = if ltb max_attempts i then 0 else bit_and x 0x7ffffffff000 in
      elim (k.mmap hint size w.memory) [
        | none ↦ get_memory_from fuel (i + 1) size (record w { draws = w.draws + 1 })
        | some (a, m) ↦ some (a, record w { draws = w.draws + 1; memory = m })
      ]

  -- With the answer of mremap.
  unfoldable pub switch_to : ℕ → ℕ → ℕ → F ℕ
  switch_to md new_md at = do
    store (new_md + stack_field) at
    store (new_md + shadow_stack_top_field) (add64 at call_stack_size)
    set_gs new_md
    munmap md page_size
    pure new_md

  -- With the field shadow_stack of the old metadata, and the new field diff.
  unfoldable pub bring_stack : ℕ → ℕ → ℕ → ℕ → ℕ → F ℕ
  bring_stack md new_md new_stack base diff = do
    store (new_md + gs_diff_field) diff
    store (new_md + self_addr_field) new_md
    at ← mremap base stack_size new_stack
    switch_to md new_md at

  -- Behind the two calls of get_memory_at_random in fsgs_runtime_rerandomize.
  unfoldable pub move_to : ℕ → ℕ → ℕ → F ℕ
  move_to md new_md new_stack = do
    copy_words 12 md new_md
    diff ← load (md + gs_diff_field)
    base ← load (md + stack_field)
    bring_stack md new_md new_stack base (add64 diff (sub64 new_stack base))

  -- Gives the new metadata.
  unfoldable pub fast_move : ℕ → ℕ → F ℕ
  fast_move fuel md = do
    store (md + ratio_factor_field) default_ratio
    new_md ← get_memory_from fuel 0 page_size
    new_stack ← get_memory_from fuel 0 stack_size
    move_to md new_md new_stack

  -- With SPA_ENABLE_GS_MSR.
  unfoldable pub change_values : ℕ → ℕ → F (Unit {0})
  change_values rsp md = do
    delta ← rdrand
    r ← load (md + r_field)
    store (md + r_field) (add64 r delta)
    top ← load (md + shadow_stack_top_field)
    call_top ← load (md + call_stack_top_field)
    on_memory (avx2_64_x_4_add (sub64 top (sub64 call_top rsp)) top delta)

  unfoldable pub close_page : ℕ → F (Unit {0})
  close_page md = do store (md + busy_field) 0; mprotect md page_size false

  -- With the new ratio_factor; gives the metadata to go on with.
  unfoldable pub move_if_due : ℕ → ℕ → ℕ → F ℕ
  move_if_due fuel md ratio = if is_spent ratio then fast_move fuel md else pure md

  -- Behind the test of the time. `msr` is SPA_ENABLE_GS_MSR.
  unfoldable pub change_and_move : ℕ → Bool → ℕ → ℕ → ℕ → F (Unit {0})
  change_and_move fuel msr rsp md cur = do
    store (md + clock_field) cur
    if msr then change_values rsp md else pure tt
    ratio ← load (md + ratio_factor_field)
    store (md + ratio_factor_field) (sub64 ratio 1)
    md' ← move_if_due fuel md (sub64 ratio 1)
    close_page md'

  -- With the time of the last move and the time now.
  unfoldable pub test_time : ℕ → Bool → ℕ → ℕ → ℕ → ℕ → F (Unit {0})
  test_time fuel msr rsp md last cur =
      if ltb (sub64 cur last) cycles_per_randomization
      then store (md + busy_field) 0
      else change_and_move fuel msr rsp md cur

  -- From the first mprotect on.
  unfoldable pub open_and_test : ℕ → Bool → ℕ → ℕ → F (Unit {0})
  open_and_test fuel msr rsp md = do
    mprotect md page_size true
    store (md + busy_field) 1
    last ← load (md + clock_field)
    cur ← rdtsc
    test_time fuel msr rsp md last cur

  -- The tests of the metadata.
  unfoldable pub enter : ℕ → Bool → ℕ → ℕ → F (Unit {0})
  enter fuel msr rsp md = do
    state ← load (md + inited_field)
    if state == flash_stack_inited
        then (do
          busy ← load (md + busy_field)
          if busy == 0 then open_and_test fuel msr rsp md else pure tt)
        else pure tt

  -- `rsp` is the stack pointer of the function.
  unfoldable pub fsgs_runtime_rerandomize : ℕ → Bool → ℕ → F (Unit {0})
  fsgs_runtime_rerandomize fuel msr rsp = do
    inited ← gets (λ w. w.inited)
    gs ← gets (λ w. w.gs)
    if inited then load (gs + self_addr_field) >>= enter fuel msr rsp else pure tt
