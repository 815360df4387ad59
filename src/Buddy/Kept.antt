-- ===== src/Buddy/Kept.antt =====
-- The parts of what au_edu_unsw_randomize of FlashStack/simd_rand.c leaves.
use flash_stack.Base.{ℕ, ◌+◌, ◌-◌, ◌*◌, ◌%◌, ◌≤◌, ◌<◌, ◌≡◌, true, false, arith}
use flash_stack.Asm.{word_mod, add64, sub64}
use flash_stack.Scheme.{def_ss_offset}
use flash_stack.Buddy.{
  Process, Kernel, page_size, random_val_field, stack_top_field, buddy_info_field,
  randomizing_field,
}
use flash_stack.Buddy.Promises.{on_page}
use flash_stack.Buddy.Rounds.{is_word_of}
use flash_stack.Buddy.Layout.{Stack, Info, Mask, lower_info}
use flash_stack.Buddy.Randomized.{start_of, Places, Done}

module _ (k : Kernel) (top r info other cycles x rsp : ℕ) (p q : Process) (s : Stack top)
    (l : Places top info other rsp) (d : Done top info other cycles x rsp p q) where
  pub done-Info : Info info other top r p → Info info other top (add64 r x) q
  done-Info i = record {
    page_readable = λ b o. d.readable_still b (i.page_readable b o);
    random_is = ground (arith, d.words (info + random_val_field), i.random_is);
    top_is = ground (arith, l.info_below, l.apart, d.words (info + stack_top_field), i.top_is);
    link_is = ground (arith, l.info_below, l.apart, d.words (info + buddy_info_field), i.link_is);
    idle = ground (arith, d.words (info + randomizing_field));
  }

  pub done-Info_other : Info other info top r p → Info other info top (add64 r x) q
  done-Info_other i = record {
    page_readable = λ b o. d.readable_still b (i.page_readable b o);
    random_is = ground (arith, d.words (other + random_val_field), i.random_is);
    top_is = ground (arith, l.other_below, l.apart, d.words (other + stack_top_field), i.top_is);
    link_is = ground (arith, l.other_below, l.apart, d.words (other + buddy_info_field), i.link_is);
    idle = ground (arith, d.words (other + randomizing_field));
  }

  -- What lies outside the records and the range of the loop.
  pub done_outside :
      (b : ℕ)
      → on_page info b ≡ false
      → on_page other b ≡ false
      → is_word_of (start_of rsp) (top - def_ss_offset) b ≡ false
      → q.memory.word b ≡ p.memory.word b
  done_outside b i o n = ground (arith, d.words b, i, o, n)

  pub done_decoded :
      (a : ℕ)
      → r < word_mod
      → rsp % 8 ≡ 0
      → rsp ≤ a
      → a < top
      → a % 8 ≡ 0
      → sub64 (q.memory.word (a - def_ss_offset)) (add64 r x)
        ≡ sub64 (p.memory.word (a - def_ss_offset)) r
  done_decoded a w e lo hi e' =
      let now : q.memory.word (a - def_ss_offset) ≡ add64 (p.memory.word (a - def_ss_offset)) x =
        ground (
          arith,
          l.info_below,
          l.other_below,
          l.start_shadow,
          d.words (a - def_ss_offset),
          s.top_room,
        ) in
      omega (arith, now, w)

  pub done_writable :
      ((b : ℕ)
        → top + page_size ≤ b + 2 * def_ss_offset
        → b + def_ss_offset < top
        → p.memory.writable b ≡ true)
      → (info + page_size + 2 * def_ss_offset ≤ top + page_size)
      → (other + page_size + 2 * def_ss_offset ≤ top + page_size)
      → (b : ℕ) → top + page_size ≤ b + 2 * def_ss_offset
      → b + def_ss_offset < top
      → q.memory.writable b ≡ true
  done_writable w i o b lo hi = ground (arith, d.writable_now b, w b lo hi)

  pub done-Mask : lower_info top ≤ info → lower_info top ≤ other → Mask k top p → Mask k top q
  done-Mask i o m = record {
    mask_readable = d.readable_still k.mask_at m.mask_readable;
    mask_is = ground (
      arith,
      m.mask_is,
      m.mask_apart,
      d.words k.mask_at,
      l.info_below,
      l.other_below,
      l.starts,
      s.top_room,
    );
    mask_apart = m.mask_apart;
  }
