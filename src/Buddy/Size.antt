-- ===== src/Buddy/Size.antt =====
-- set_stk_size_global_var and au_edu_unsw_SPA_init of FlashStack/init.c.
use flash_stack.Base.{
  ℕ, ◌+◌, ◌-◌, ◌*◌, ◌%◌, ◌≤◌, ◌<◌, ◌≡◌, refl, true, false, Option, none, some, ◌==◌, arith,
}
use flash_stack.Base.Steps.{◌>>=◌, ◌>>◌}
use flash_stack.Asm.{word_mod, sub64}
use flash_stack.Buddy.{Process, Kernel, with_word, mprotect, page_size, buddy_call_stack_size}
use flash_stack.Buddy.Promises.{on_page, Promises}
use flash_stack.Scheme.{def_ss_offset}
use flash_stack.Buddy.Fields.{PageReadable}
use flash_stack.Buddy.Layout.{Stack, Mask, Buddies, lower_info, upper_info}
use flash_stack.Buddy.Ready.{buddy_init_main_thread_tls_lem}
use flash_stack.Buddy.Setup.{StackAttr, raised_high, set_stk_size_global_var, au_edu_unsw_spa_init}

-- On a kernel that lets protections be changed, with the mask at the beginning of a readable page:
-- if __SPA_CALL_STACK_SIZE is set to a number of kilobytes, then after set_stk_size_global_var
-- BUDDY_CALL_STACK_SIZE gives that size in bytes, modulo 2^64. No other word has changed, and the
-- page of the mask cannot be written.
pub set_stk_size_global_var_lem :
    (k : Kernel) (kilobytes : ℕ) (p : Process)
    → Promises k
    → k.mask_at % page_size ≡ 0
    → PageReadable k.mask_at p
    → (q : Process) × (set_stk_size_global_var k (some kilobytes) p ≡ some (tt, q))
      × (buddy_call_stack_size k q ≡ some ((kilobytes * 1024) % word_mod, q))
      × ((b : ℕ) → (b == k.mask_at) ≡ false → q.memory.word b ≡ p.memory.word b)
      × ((b : ℕ) → on_page k.mask_at b ≡ true → q.memory.writable b ≡ false)
unfolding set_stk_size_global_var
set_stk_size_global_var_lem k kilobytes p promises aligned readable =
    let at = k.mask_at in
    let (m, e, s) = promises.mprotect_protects at true p.memory aligned readable in
    let w : m.writable at ≡ true = ground (arith, s.writable_now at) in
    let mask = sub64 0 ((kilobytes * 1024) % word_mod) in
    let p1 = with_word at mask (record p { memory = m }) in
    let (m', e', s') =
      promises.mprotect_protects at false p1.memory aligned
        (λ b o. s.readable_still b (readable b o)) in
    let r : m'.readable at ≡ true =
      s'.readable_still at (s.readable_still at (readable at (ground arith))) in
    let v : m'.word at ≡ mask = ground (arith, s'.word_same at) in
    let n : sub64 0 mask ≡ (kilobytes * 1024) % word_mod = omega arith in
    (
      record p1 { memory = m' },
      rw (◌>>=◌, ◌>>◌, e, w, mprotect, e'),
      rw (◌>>=◌, r, v, n),
      λ b h. ground (arith, h, s.word_same b, s'.word_same b),
      λ b o. ground (arith, o, s'.writable_now b),
    )

-- With __SPA_CALL_STACK_SIZE not set, under the conditions of buddy_init_main_thread_tls, the
-- first call of au_edu_unsw_SPA_init returns with the records in order, and a later call changes
-- nothing.
pub au_edu_unsw_spa_init_lem :
    (k : Kernel) (low stack_size r top : ℕ) (p : Process)
    → Promises k
    → raised_high low stack_size def_ss_offset ≡ top
    → Stack top
    → Mask k top p
    → r < word_mod
    → PageReadable (top - def_ss_offset) p
    → PageReadable (lower_info top) p
    → PageReadable (upper_info top) p
    → ((b : ℕ)
        → top + page_size ≤ b + 2 * def_ss_offset
        → b + def_ss_offset < top
        → p.memory.writable b ≡ true)
    → (q : Process) × (au_edu_unsw_spa_init k false none (some (low, stack_size)) r p
        ≡ some (true, q))
      × Buddies k top r q
      × ((kilobytes : Option ℕ) (attr : StackAttr) (r' : ℕ)
          → au_edu_unsw_spa_init k true kilobytes attr r' q ≡ some (true, q))
unfolding au_edu_unsw_spa_init set_stk_size_global_var
au_edu_unsw_spa_init_lem k low stack_size r top p promises eh s m rw' rg rl ru w =
    let (q, run, z, _) =
      buddy_init_main_thread_tls_lem k low stack_size r top p promises eh s m rw' rg rl ru w in
    (q, rw (◌>>=◌, ◌>>◌, run), z, λ kilobytes attr r'. refl)
