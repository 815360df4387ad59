-- ===== src/Runtime/Prepare.antt =====
-- init_metadata_on_shadow_stack, do_init_shadow_stack, init_shadow_stack and
-- gs_rsp_allow_system_call_during_shuffling of FlashStack/gs.rsp.c.
use flash_stack.Base.{ℕ, zero, suc, ◌+◌, Bool, true, false, Option, none, some, if◌then◌else◌}
use flash_stack.Asm.{add64, sub64}
use flash_stack.Scheme.{user_space_size}
use flash_stack.Runtime.{
  System, M, pure, ◌>>=◌, ◌>>◌, gets, load, store, metadata_of, metadata_by_rsp, set_gs,
  call_stack_size, shadow_stack_field, is_randomizing_field, cpu_cycles_field, state_field,
  diff_field, relaxing_field, flash_stack_inited,
}
use flash_stack.Runtime.Obtain.{get_memory_at_random}

-- memset, and the assignments, to the metadata at `md`.
unfoldable pub clear_metadata : ℕ → M (Unit {0})
clear_metadata md = do
  store (md + shadow_stack_field) 0
  store (md + is_randomizing_field) 0
  store (md + cpu_cycles_field) 0
  store (md + state_field) 0
  store (md + diff_field) 0
  store (md + relaxing_field) 0

unfoldable pub fill_metadata : ℕ → ℕ → ℕ → M (Unit {0})
fill_metadata md base diff = do
  store (md + shadow_stack_field) base
  store (md + is_randomizing_field) 0
  store (md + cpu_cycles_field) 0
  store (md + relaxing_field) 0
  store (md + diff_field) diff

unfoldable pub init_metadata : ℕ → ℕ → M (Unit {0})
unfolding clear_metadata fill_metadata
init_metadata base diff =
    clear_metadata (metadata_of base) >> fill_metadata (metadata_of base) base diff

module _ (k : System) where
  -- The loop until get_memory_at_random succeeds; `none` after `fuel` rounds.
  unfoldable pub await_memory : ℕ → ℕ → M (Option ℕ)
  unfolding get_memory_at_random
  await_memory zero inner = pure none
  await_memory (suc fuel) inner = do
    let rest = await_memory fuel inner
    got ← get_memory_at_random k inner true
    elim got [ none ↦ rest | some base ↦ pure (some base) ]

  -- What do_init_shadow_stack does with the memory; arch_prctl's result is not looked at.
  unfoldable pub install : ℕ → ℕ → M (Unit {0})
  unfolding init_metadata
  install rsp base = do
    let diff = sub64 (add64 (add64 base call_stack_size) user_space_size) rsp
    init_metadata base diff
    done ← set_gs k diff
    store (metadata_of base + state_field) flash_stack_inited

  -- `false` if the fuel of the loop ran out.
  unfoldable pub do_init_shadow_stack : ℕ → ℕ → ℕ → M Bool
  unfolding await_memory install
  do_init_shadow_stack fuel rsp inner = do
    got ← await_memory fuel inner
    elim got [ none ↦ pure false | some base ↦ install rsp base >> pure true ]

  unfoldable pub init_shadow_stack : ℕ → ℕ → ℕ → M Bool
  unfolding do_init_shadow_stack
  init_shadow_stack fuel rsp inner w =
      if w.inited
      then some (true, w)
      else do_init_shadow_stack fuel rsp inner (record w { inited = true })

  -- A null pointer of metadata is read, which faults.
  unfoldable pub allow_system_call : ℕ → M ℕ
  unfolding metadata_by_rsp
  allow_system_call rsp = do
    relaxing ← gets (λ w. w.relaxing_during_init)
    found ← gets (metadata_by_rsp k rsp)
    if relaxing
        then pure 1
        else elim found [ none ↦ λ w. none | some md ↦ load (md + is_randomizing_field) ]
