-- ===== src/Runtime/Rerandomize.antt =====
-- gs_rsp_runtime_rerandomize of FlashStack/gs.rsp.c, with SAVE_TOTAL_RAND_CNT defined.
use flash_stack.Base.{
  ℕ, ◌+◌, ◌^◌, Bool, false, ◌||◌, Option, none, some, ◌==◌, ltb, leb, if◌then◌else◌,
}
use flash_stack.Asm.{add64, sub64}
use flash_stack.Runtime.{
  System, World, M, pure, ◌>>=◌, ◌>>◌, modify, gets, load, store, metadata_of, metadata_by_rsp,
  rdtsc, munmap, mremap, set_gs, real_shadow_stack_size, max_gs_base_addr, cycles_per_randomization,
  flash_stack_inited, shadow_stack_field, is_randomizing_field, cpu_cycles_field, state_field,
  diff_field,
}
use flash_stack.Runtime.Obtain.{get_memory_at_random}

-- A `long` that is below zero.
abbrev pub is_negative : ℕ → Bool
is_negative x = leb (2 ^ 63) x

abbrev pub count_failure : World → World
count_failure w = record w { total_fail_rand_cnt = w.total_fail_rand_cnt + 1 }

module _ (k : System) where
  -- After mremap or arch_prctl has failed.
  unfoldable pub undo : ℕ → ℕ → ℕ → ℕ → M ℕ
  undo md old delta new = do
    modify count_failure
    store (md + shadow_stack_field) old
    diff ← load (md + diff_field)
    store (md + diff_field) (sub64 diff delta)
    munmap k new real_shadow_stack_size
    pure md

  -- With the answer of mremap.
  unfoldable pub after_mremap : ℕ → ℕ → ℕ → ℕ → ℕ → Option ℕ → M ℕ
  unfolding undo
  after_mremap md old delta diff new none = undo md old delta new
  after_mremap md old delta diff new (some at) = do
    done ← set_gs k diff
    if done then pure (metadata_of at) else undo md old delta new

  -- Moves the shadow stack from `old` to `new`, and gives the metadata to go on with.
  unfoldable pub move_from : ℕ → ℕ → ℕ → ℕ → ℕ → M ℕ
  unfolding after_mremap
  move_from md old new delta diff = do
    store (md + shadow_stack_field) new
    store (md + diff_field) diff
    moved ← mremap k old real_shadow_stack_size new
    after_mremap md old delta diff new moved

  unfoldable pub move : ℕ → ℕ → ℕ → ℕ → M ℕ
  unfolding move_from
  move md new delta diff = do old ← load (md + shadow_stack_field); move_from md old new delta diff

  -- With the fields shadow_stack and diff of the metadata.
  unfoldable pub place : ℕ → ℕ → ℕ → ℕ → M ℕ
  unfolding move
  place md new base gs =
      let delta = sub64 new base in
      let diff = add64 gs delta in
      if is_negative diff || ltb max_gs_base_addr diff
      then munmap k new real_shadow_stack_size >> pure md
      else move md new delta diff

  -- With memory at `new`, or none.
  unfoldable pub use_memory : ℕ → Option ℕ → M ℕ
  unfolding place
  use_memory md none = modify count_failure >> pure md
  use_memory md (some new) = do
    base ← load (md + shadow_stack_field)
    gs ← load (md + diff_field)
    place md new base gs

  -- From the label rand_exit on; the counter of cycles is a `long`.
  unfoldable pub rand_exit : ℕ → ℕ → M (Unit {0})
  rand_exit from md = do
    store (md + is_randomizing_field) 0
    modify (λ w. record w { total_rand_cnt = w.total_rand_cnt + 1 })
    to ← rdtsc k
    modify (λ w. record w { total_cpu_cycles = add64 w.total_cpu_cycles (sub64 to from) })

  -- From `is_randomizing = 1` on. `inner` is the stack pointer in get_memory_at_random.
  unfoldable pub randomize : ℕ → ℕ → ℕ → M (Unit {0})
  unfolding rand_exit use_memory get_memory_at_random
  randomize inner from md = do
    store (md + is_randomizing_field) 1
    last ← load (md + cpu_cycles_field)
    cur ← rdtsc k
    if ltb (sub64 cur last) cycles_per_randomization
        then store (md + is_randomizing_field) 0
        else (do
          store (md + cpu_cycles_field) cur
          new ← get_memory_at_random k inner false
          md' ← use_memory md new
          rand_exit from md')

  -- The tests of the metadata.
  unfoldable pub test_busy : ℕ → ℕ → ℕ → M (Unit {0})
  unfolding randomize
  test_busy inner from md = do
    busy ← load (md + is_randomizing_field)
    if busy == 0 then randomize inner from md else pure tt

  unfoldable pub visit : ℕ → ℕ → ℕ → M (Unit {0})
  unfolding test_busy
  visit inner from md = do
    state ← load (md + state_field)
    if state == flash_stack_inited then test_busy inner from md else pure tt

  unfoldable pub rerandomize : ℕ → ℕ → M (Unit {0})
  unfolding visit metadata_by_rsp
  rerandomize rsp inner = do
    from ← rdtsc k
    inited ← gets (λ w. w.inited)
    found ← gets (metadata_by_rsp k rsp)
    if inited then elim found [ none ↦ pure tt | some md ↦ visit inner from md ] else pure tt
