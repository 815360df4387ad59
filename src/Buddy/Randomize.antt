-- ===== src/Buddy/Randomize.antt =====
-- au_edu_unsw_randomize of FlashStack/simd_rand.c, with SAVE_TOTAL_RAND_CNT defined.
use flash_stack.Base.{ℕ, ◌+◌, Bool, true, false, ◌||◌, ◌==◌, if◌then◌else◌}
use flash_stack.Base.Steps.{pure, ◌>>=◌, ◌>>◌, modify}
use flash_stack.Asm.{add64, sub64}
use flash_stack.Buddy.{
  Kernel, B, read_word, write_word, mprotect, buddy_call_stack_size, avx2_64_x_4_add, page_size,
  random_val_field, stack_top_field, buddy_info_field, randomizing_field, cycles_field,
}

-- Whether neither record is being changed: the second flag is read only if the first is clear.
unfoldable pub is_idle : ℕ → ℕ → B Bool
is_idle tls_info buddy_info = do
  flag ← read_word (tls_info + randomizing_field)
  if flag == 0
      then (do flag' ← read_word (buddy_info + randomizing_field); pure (flag' == 0))
      else pure false

-- Whether the test at the beginning lets the function go on.
unfoldable pub is_buddy_stack_idle : ℕ → ℕ → B Bool
unfolding is_idle
is_buddy_stack_idle tls_info buddy_info =
    if tls_info == 0 || buddy_info == 0 then pure false else (do
      back ← read_word (buddy_info + buddy_info_field)
      if back == tls_info then is_idle tls_info buddy_info else pure false)

module _ (k : Kernel) where
  -- What is done to each of the two records first: `x` is the random offset.
  unfoldable pub renew : ℕ → ℕ → ℕ → B (Unit {0})
  renew info x cycles = do
    mprotect k info page_size true
    write_word (info + randomizing_field) 1
    r ← read_word (info + random_val_field)
    write_word (info + random_val_field) (add64 r x)
    write_word (info + cycles_field) cycles

  unfoldable pub settle : ℕ → B (Unit {0})
  settle info = do write_word (info + randomizing_field) 0; mprotect k info page_size false

  -- From the first mprotect on, with the size of the call stack and the field stack_top.
  unfoldable pub randomize_all : ℕ → ℕ → ℕ → ℕ → ℕ → ℕ → ℕ → B (Unit {0})
  unfolding renew settle
  randomize_all tls_info buddy_info cycles x rsp size stack_top = do
    renew tls_info x cycles
    renew buddy_info x cycles
    settle buddy_info
    avx2_64_x_4_add (sub64 rsp size) (sub64 stack_top size) x
    settle tls_info
    modify (λ p. record p { rand_cnt = p.rand_cnt + 1 })

  -- `x` is what random() gives, and `rsp` the stack pointer of the function.
  unfoldable pub au_edu_unsw_randomize : ℕ → ℕ → ℕ → ℕ → B (Unit {0})
  au_edu_unsw_randomize tls_info cycles x rsp = do
    buddy_info ← read_word (tls_info + buddy_info_field)
    idle ← is_buddy_stack_idle tls_info buddy_info
    if idle
        then (do
          size ← buddy_call_stack_size k
          stack_top ← read_word (tls_info + stack_top_field)
          randomize_all tls_info buddy_info cycles x rsp size stack_top)
        else pure tt
