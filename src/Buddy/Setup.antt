-- ===== src/Buddy/Setup.antt =====
-- The preparation of a thread in FlashStack/buddy_tls.c, and au_edu_unsw_SPA_init of
-- FlashStack/init.c.
use flash_stack.Base.{ℕ, ◌+◌, ◌*◌, ◌%◌, Bool, true, false, Option, none, some, ltb, if◌then◌else◌}
use flash_stack.Base.Steps.{pure, ◌>>=◌, ◌>>◌}
use flash_stack.Asm.{word_mod, add64, sub64}
use flash_stack.Buddy.{
  Kernel, B, write_word, mprotect, buddy_call_stack_size, align, page_size, random_val_field,
  stack_top_field, buddy_info_field, randomizing_field, cycles_field,
}

-- What pthread_getattr_np and pthread_attr_getstack say of the stack: its lowest address and its
-- size; `none` is an error of one of them.
abbrev pub StackAttr : Type 0
StackAttr = Option (ℕ × ℕ)

-- The end of the stack, raised if the stack is smaller than four times the size.
abbrev pub raised_high : ℕ → ℕ → ℕ → ℕ
raised_high low stack_size size =
    if ltb (add64 low stack_size) (add64 low ((4 * size) % word_mod))
    then add64 low ((4 * size) % word_mod)
    else add64 low stack_size

module _ (k : Kernel) where
  unfoldable pub init_info : ℕ → ℕ → ℕ → ℕ → B (Unit {0})
  init_info info other random_val stack_high = do
    mprotect k info page_size true
    write_word (info + random_val_field) random_val
    write_word (info + stack_top_field) stack_high
    write_word (info + buddy_info_field) other
    write_word (info + cycles_field) 0
    write_word (info + randomizing_field) 0

  -- `random_val` is what random() gives.
  unfoldable pub buddy_init_tls_metadata : ℕ → ℕ → B (Unit {0})
  buddy_init_tls_metadata random_val stack_high = do
    size ← buddy_call_stack_size k
    (let ptr2 = sub64 (align size stack_high) ((2 * size) % word_mod) in
        let ptr3 = sub64 (align size stack_high) ((3 * size) % word_mod) in
        init_info ptr2 ptr3 random_val stack_high >> init_info ptr3 ptr2 random_val stack_high)

  -- An error ends the program.
  unfoldable pub buddy_init_main_thread_tls : StackAttr → ℕ → B (Unit {0})
  buddy_init_main_thread_tls none random_val p = none
  buddy_init_main_thread_tls (some (low, stack_size)) random_val p =
      (do
        size ← buddy_call_stack_size k
        (let high = raised_high low stack_size size in
            mprotect k (sub64 high size) page_size false
            >> buddy_init_tls_metadata random_val high))
        p

  -- buddy_init_other_thread_tls and what do_start_routine does before the thread's own routine
  unfoldable pub buddy_init_other_thread_tls : StackAttr → ℕ → B (Unit {0})
  unfolding buddy_init_main_thread_tls
  buddy_init_other_thread_tls = buddy_init_main_thread_tls

  -- With the number that atol reads from __SPA_CALL_STACK_SIZE, as a 64-bit word.
  unfoldable pub set_stk_size_global_var : Option ℕ → B (Unit {0})
  set_stk_size_global_var none = pure tt
  set_stk_size_global_var (some kilobytes) = do
    mprotect k k.mask_at page_size true
    write_word k.mask_at (sub64 0 ((kilobytes * 1024) % word_mod))
    mprotect k k.mask_at page_size false

  -- `init` is the static variable; with its new value.
  unfoldable pub au_edu_unsw_spa_init : Bool → Option ℕ → StackAttr → ℕ → B Bool
  au_edu_unsw_spa_init true kilobytes attr random_val = pure true
  au_edu_unsw_spa_init false kilobytes attr random_val = do
    set_stk_size_global_var kilobytes
    buddy_init_main_thread_tls attr random_val
    pure true
