-- ===== src/Runtime/Undone.antt =====
-- The branch of gs_rsp_runtime_rerandomize in FlashStack/gs.rsp.c for a failure of arch_prctl.
use flash_stack.Base.{ℕ, ◌+◌, ◌≡◌, false, none, some, arith}
use flash_stack.Runtime.{
  System, Space, World, ◌>>=◌, ◌>>◌, real_shadow_stack_size, metadata_offset, shadow_stack_field,
}
use flash_stack.Runtime.Promises.{inside, Promises}
use flash_stack.Runtime.Rerandomize.{after_mremap, undo}

-- On a system that keeps its promises, if arch_prctl fails once mremap has moved the shadow stack
-- to pages that do not hold the old metadata, the branch that wants to undo the move faults: it
-- writes to the metadata at its old address, which is no longer mapped.
pub after_mremap-faults :
    (k : System) (old new at delta diff : ℕ) (s : Space) (w : World)
    → Promises k
    → k.mremap old real_shadow_stack_size new s ≡ some (at, w.space)
    → inside new real_shadow_stack_size (old + metadata_offset + shadow_stack_field) ≡ false
    → k.set_gs diff w.space ≡ none
    → after_mremap k (old + metadata_offset) old delta diff new (some at) w ≡ none
unfolding after_mremap undo
after_mremap-faults k old new at delta diff s w promises moved apart failed =
    let (_, m) = promises.mremap_moves _ _ _ _ _ _ moved in
    let gone : w.space.mapped (old + metadata_offset + shadow_stack_field) ≡ false =
      ground (arith, m.mapped_now (old + metadata_offset + shadow_stack_field), apart) in
    rw (failed, ◌>>=◌, ◌>>◌, ◌>>=◌, gone)
