-- ===== src/Fsgs/Setup.antt =====
-- do_init_shadow_stack, set_call_stack_info and init_shadow_stack of FlashStack/fsgs.c.
use flash_stack.Base.{ℕ, zero, suc, ◌+◌, ◌*◌, true, Option, none, some, ltb, if◌then◌else◌}
use flash_stack.Base.Steps.{pure, ◌>>=◌, ◌>>◌}
use flash_stack.Asm.{add64, sub64}
use flash_stack.Runtime.{call_stack_size, flash_stack_inited}
use flash_stack.Buddy.{page_size}
use flash_stack.Fsgs.{
  Os, F, load, store, rdrand, set_gs, get_memory_from, stack_size, self_addr_field, gs_diff_field,
  r_field, busy_field, stack_field, clock_field, inited_field, shadow_stack_top_field,
  call_stack_top_field, ratio_factor_field, default_ratio,
}

-- memset to zero, by words.
unfoldable pub clear_words : ℕ → ℕ → F (Unit {0})
clear_words zero a = pure tt
clear_words (suc n) a = do store (a + n * 8) 0; clear_words n a

-- The end of the call stack, from its lowest address and its size.
abbrev pub stack_high : ℕ → ℕ → ℕ
stack_high low size =
    if ltb (low + size) (low + call_stack_size) then low + call_stack_size else low + size

-- `range` is what pthread_attr_getstack gives; without it the program is aborted.
unfoldable pub set_call_stack_info : Option (ℕ × ℕ) → ℕ → F (Unit {0})
set_call_stack_info none md w = none
set_call_stack_info (some (low, size)) md w =
    (do
      store (md + call_stack_top_field) (stack_high low size)
      base ← load (md + stack_field)
      store (md + shadow_stack_top_field) (add64 base call_stack_size)
      store (md + inited_field) flash_stack_inited)
      w

module _ (k : Os) where
  -- From the assignments to the metadata on.
  unfoldable pub fill_gs_metadata : Option (ℕ × ℕ) → ℕ → ℕ → ℕ → F (Unit {0})
  fill_gs_metadata range md base diff = do
    store (md + self_addr_field) md
    store (md + gs_diff_field) diff
    store (md + stack_field) base
    store (md + clock_field) 0
    store (md + busy_field) 0
    store (md + ratio_factor_field) default_ratio
    r ← rdrand k
    store (md + r_field) r
    set_gs k md
    set_call_stack_info range md

  -- Behind the two calls of get_memory_at_random in do_init_shadow_stack.
  unfoldable pub install_at : ℕ → Option (ℕ × ℕ) → ℕ → ℕ → F (Unit {0})
  install_at rsp range md base = do
    clear_words 12 md
    fill_gs_metadata range md base (sub64 (add64 base call_stack_size) rsp)

  -- do_init_shadow_stack, with the stack pointer of the function.
  unfoldable pub prepare_thread : ℕ → ℕ → Option (ℕ × ℕ) → F (Unit {0})
  prepare_thread fuel rsp range = do
    md ← get_memory_from k fuel 0 page_size
    base ← get_memory_from k fuel 0 stack_size
    install_at rsp range md base

  -- init_shadow_stack
  unfoldable pub prepare_once : ℕ → ℕ → Option (ℕ × ℕ) → F (Unit {0})
  prepare_once fuel rsp range w =
      if w.inited then some (tt, w) else prepare_thread fuel rsp range (record w { inited = true })
