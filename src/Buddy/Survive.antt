-- ===== src/Buddy/Survive.antt =====
-- Return addresses across au_edu_unsw_randomize of FlashStack/simd_rand.c.
use flash_stack.Base.{
  ℕ, ◌+◌, ◌-◌, ◌%◌, ◌≤◌, ◌<◌, ◌≡◌, ◌≢◌, ◌⊎◌, inl, inr, ◌∙◌, true, false, ◌||◌, some, arith,
}
use flash_stack.Base.Steps.{◌>>=◌}
use flash_stack.Asm.{add64, sub64}
use flash_stack.Scheme.{def_ss_offset}
use flash_stack.Buddy.{
  Process, Kernel, page_size, stack_top_field, buddy_info_field, randomizing_field,
}
use flash_stack.Buddy.Promises.{on_page, Promises}
use flash_stack.Buddy.Rounds.{is_word_of}
use flash_stack.Buddy.Randomize.{is_idle, is_buddy_stack_idle, randomize_all, au_edu_unsw_randomize}
use flash_stack.Buddy.Layout.{
  Pair, Stack, Info, Mask, Buddies, lower_info, upper_info, size_default,
}
use flash_stack.Buddy.Randomized.{start_of, Pair-Places, randomize_all-Done}
use flash_stack.Buddy.Kept.{
  done-Info, done-Info_other, done_outside, done_decoded, done_writable, done-Mask,
}

-- The test at the beginning: both records have the link to the other, and their flags are clear.
is_buddy_stack_idle-Info :
    (info other top r r' : ℕ) (p : Process)
    → info ≢ 0
    → other ≢ 0
    → Info info other top r p
    → Info other info top r' p
    → is_buddy_stack_idle info other p ≡ some (true, p)
unfolding is_buddy_stack_idle is_idle
is_buddy_stack_idle-Info info other top r r' p n n' i j = ground (
  arith,
  i.page_readable (info + randomizing_field) (ground arith),
  j.page_readable (other + randomizing_field) (ground arith),
  j.page_readable (other + buddy_info_field) (ground arith),
  i.idle,
  j.idle,
  j.link_is,
)

begins :
    (k : Kernel) (top r info other cycles x rsp : ℕ) (p : Process)
    → Stack top
    → Mask k top p
    → Pair top info other
    → Info info other top r p
    → Info other info top r p
    → au_edu_unsw_randomize k info cycles x rsp p
      ≡ randomize_all k info other cycles x rsp def_ss_offset top p
unfolding au_edu_unsw_randomize
begins k top r info other cycles x rsp p s m pair i j =
    let link = i.page_readable (info + buddy_info_field) (ground arith) in
    let top_readable = i.page_readable (info + stack_top_field) (ground arith) in
    let idle =
      is_buddy_stack_idle-Info info other top r r p (ground (arith, s.top_room))
        (ground (arith, s.top_room)) i j in
    rw (◌>>=◌, link, i.link_is, idle, size_default k top p m, top_readable, i.top_is, i.link_is)

-- What the function leaves, with the record `info` that the prologue found, and the other.
pub record Randomized (k : Kernel) (top r info other x rsp : ℕ) (p q : Process) : Type 0 where
  pub in_order : Buddies k top (add64 r x) q
  -- a word of the shadow stack, with the random value taken off
  pub decoded :
      (a : ℕ)
      → rsp ≤ a
      → a < top
      → a % 8 ≡ 0
      → sub64 (q.memory.word (a - def_ss_offset)) (add64 r x)
        ≡ sub64 (p.memory.word (a - def_ss_offset)) r
  pub outside :
      (b : ℕ)
      → on_page info b ≡ false
      → on_page other b ≡ false
      → is_word_of (start_of rsp) (top - def_ss_offset) b ≡ false
      → q.memory.word b ≡ p.memory.word b
  pub locked : (b : ℕ) → (on_page info b || on_page other b) ≡ true → q.memory.writable b ≡ false
  pub counted : q.rand_cnt ≡ p.rand_cnt + 1

both :
    (k : Kernel) (top r info other : ℕ) (p : Process)
    → Pair top info other
    → Buddies k top r p
    → Info info other top r p × Info other info top r p
both k top r info other p (inl (e, e')) h = rw (e, e') (h.lower, h.upper)
both k top r info other p (inr (e, e')) h = rw (e, e') (h.upper, h.lower)

back :
    (top r info other : ℕ) (p : Process)
    → Pair top info other
    → Info info other top r p
    → Info other info top r p
    → Info (lower_info top) (upper_info top) top r p
      × Info (upper_info top) (lower_info top) top r p
back top r info other p (inl (e, e')) i j = (rw (e, e') at i, rw (e, e') at j)
back top r info other p (inr (e, e')) i j = (rw (e, e') at j, rw (e, e') at i)

-- On a kernel that lets protections be changed, with the records of the thread in order, called
-- with one of them and a stack pointer in the call stack above its guard page and a multiple of 8,
-- au_edu_unsw_randomize returns without a fault. The records are in order with the random value
-- grown by x, and cannot be written. For every slot of the call stack from the stack pointer up,
-- the word that the shadow stack has for it, less the random value, is what it was. Outside the
-- two pages and the range of the loop no word has changed.
pub au_edu_unsw_randomize_lem :
    (k : Kernel) (top r info other cycles x rsp : ℕ) (p : Process)
    → Promises k
    → Buddies k top r p
    → Pair top info other
    → top + page_size ≤ rsp + def_ss_offset
    → rsp < top
    → rsp % 8 ≡ 0
    → (q : Process) × (au_edu_unsw_randomize k info cycles x rsp p ≡ some (tt, q))
      × Randomized k top r info other x rsp p q
au_edu_unsw_randomize_lem k top r info other cycles x rsp p promises h pair lo hi e =
    let s = h.stack in
    let l = Pair-Places top info other rsp s pair lo hi in
    let (i, j) = both k top r info other p pair h in
    let (q, run, d) =
      randomize_all-Done k top info other cycles x rsp p promises l i.page_readable j.page_readable
        s.top_user hi (omega (arith, lo, s.top_room))
        (λ b lo' hi'.
          h.shadow_writable b (omega (arith, lo', l.start_shadow)) (omega (arith, hi'))) in
    let (lower, upper) =
      back top (add64 r x) info other q pair (done-Info k top r info other cycles x rsp p q s l d i)
        (done-Info_other k top r info other cycles x rsp p q s l d j) in
    (
      q,
      begins k top r info other cycles x rsp p s h.mask pair i j ∙ run,
      record {
        in_order = record {
          stack = s;
          mask =
              done-Mask k top r info other cycles x rsp p q s l d (ground arith) (ground arith)
                h.mask;
          random_word = omega arith;
          lower = lower;
          upper = upper;
          shadow_writable =
              done_writable k top r info other cycles x rsp p q s l d h.shadow_writable
                (ground (arith, s.top_room)) (ground (arith, s.top_room));
        };
        decoded = λ a. done_decoded k top r info other cycles x rsp p q s l d a h.random_word e;
        outside = done_outside k top r info other cycles x rsp p q s l d;
        locked = λ b o. ground (arith, d.writable_now b, o);
        counted = d.counted;
      },
    )

abbrev Refused : ℕ → ℕ → Process → Type 0
Refused info other p =
    (info ≡ 0)
    ⊎ (other ≡ 0)
    ⊎ (p.memory.word (other + buddy_info_field) ≢ info)
    ⊎ (p.memory.word (info + randomizing_field) ≢ 0)
    ⊎ (p.memory.word (other + randomizing_field) ≢ 0)

is_buddy_stack_idle-refuses :
    (info other : ℕ) (p : Process)
    → p.memory.readable (info + randomizing_field) ≡ true
    → p.memory.readable (other + buddy_info_field) ≡ true
    → p.memory.readable (other + randomizing_field) ≡ true
    → Refused info other p
    → is_buddy_stack_idle info other p ≡ some (false, p)
unfolding is_buddy_stack_idle is_idle
is_buddy_stack_idle-refuses info other p f g i why = ground (arith, f, g, i, why)

-- Called with a record whose buddy does not link back to it, or while one of the two is being
-- changed, with the fields that the test reads readable, au_edu_unsw_randomize changes nothing.
au_edu_unsw_randomize-refuses :
    (k : Kernel) (info other cycles x rsp : ℕ) (p : Process)
    → p.memory.readable (info + buddy_info_field) ≡ true
    → p.memory.word (info + buddy_info_field) ≡ other
    → p.memory.readable (info + randomizing_field) ≡ true
    → p.memory.readable (other + buddy_info_field) ≡ true
    → p.memory.readable (other + randomizing_field) ≡ true
    → Refused info other p
    → au_edu_unsw_randomize k info cycles x rsp p ≡ some (tt, p)
unfolding au_edu_unsw_randomize
au_edu_unsw_randomize-refuses k info other cycles x rsp p h e f g i why =
    let refused = is_buddy_stack_idle-refuses info other p f g i why in rw (◌>>=◌, h, e, refused)
