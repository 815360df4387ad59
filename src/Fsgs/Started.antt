-- ===== src/Fsgs/Started.antt =====
-- The preparation of a thread in FlashStack/fsgs.c, from init_shadow_stack on.
use flash_stack.Base.{
  ℕ, zero, suc, ◌+◌, ◌*◌, ◌^◌, ◌≤◌, ◌<◌, ◌≡◌, inl, inr, ◌∙◌, refl, true, false, some, arith,
}
use flash_stack.Base.Steps.{◌>>=◌, ◌>>◌}
use flash_stack.Asm.{add64, sub64}
use flash_stack.Asm.Machine.{update}
use flash_stack.Runtime.{call_stack_size, flash_stack_inited}
use flash_stack.Runtime.Promises.{inside}
use flash_stack.Buddy.{Memory, page_size}
use flash_stack.Buddy.Promises.{on_page}
use flash_stack.Fsgs.{
  Os, Thread, set_word, get_memory_from, stack_size, max_attempts, self_addr_field, gs_diff_field,
  r_field, busy_field, stack_field, clock_field, inited_field, shadow_stack_top_field,
  call_stack_top_field, ratio_factor_field, default_ratio,
}
use flash_stack.Fsgs.Promises.{Grows, Spacious, Promises, Serves}
use flash_stack.Fsgs.Ready.{Place, Says}
use flash_stack.Fsgs.Touch.{IsOpen, with_words}
use flash_stack.Fsgs.Fresh.{with_memory, get_memory_from_lem, page_free, page_leaves, fresh_apart}
use flash_stack.Fsgs.Whole.{Ready}
use flash_stack.Fsgs.Setup.{
  clear_words, stack_high, set_call_stack_info, fill_gs_metadata, install_at, prepare_thread,
  prepare_once,
}

clear_words_lem :
    (n md : ℕ) (w : Thread)
    → n * 8 < page_size
    → IsOpen md w.memory
    → (f : ℕ → ℕ) × (clear_words n md w ≡ some (tt, with_words f w))
      × ((b : ℕ) → on_page md b ≡ false → f b ≡ w.memory.word b)
unfolding clear_words
clear_words_lem zero md w l o = (w.memory.word, refl, λ b _. refl)
clear_words_lem (suc n) md w l o =
    let writable = o (md + n * 8) (ground (arith, l)) in
    let (f, run, e) = clear_words_lem n md (set_word (md + n * 8) 0 w) (omega (arith, l)) o in
    (f, rw (◌>>=◌, ◌>>◌, writable, run), λ b h. e b h ∙ ground (arith, l, h))

-- The words after the assignments up to call_stack_top, and after all.
abbrev filled_before : ℕ → ℕ → ℕ → ℕ → ℕ → (ℕ → ℕ) → ℕ → ℕ
filled_before md base diff r high f =
    let f1 = update (update f (md + self_addr_field) md) (md + gs_diff_field) diff in
    let f2 = update (update f1 (md + stack_field) base) (md + clock_field) 0 in
    let f3 = update (update f2 (md + busy_field) 0) (md + ratio_factor_field) default_ratio in
    update (update f3 (md + r_field) r) (md + call_stack_top_field) high

abbrev filled_words : ℕ → ℕ → ℕ → ℕ → ℕ → (ℕ → ℕ) → ℕ → ℕ
filled_words md base diff r high f =
    update
      (update (filled_before md base diff r high f) (md + shadow_stack_top_field)
        (add64 base call_stack_size))
      (md + inited_field) flash_stack_inited

abbrev installed : (ℕ → ℕ) → ℕ → Thread → Thread
installed f md w = record (with_words f w) { gs = md; draws = w.draws + 1 }

fill_gs_metadata_runs :
    (k : Os) (md base diff low size : ℕ) (w : Thread)
    → k.sets_gs md ≡ true
    → ((f : ℕ) → f < page_size → w.memory.writable (md + f) ≡ true)
    → ((f : ℕ) → f < page_size → w.memory.readable (md + f) ≡ true)
    → fill_gs_metadata k (some (low, size)) md base diff w
      ≡ some (
        tt,
        installed
            (filled_words md base diff (k.rdrand w.draws) (stack_high low size) w.memory.word)
            md
            w,
      )
unfolding fill_gs_metadata set_call_stack_info
fill_gs_metadata_runs k md base diff low size w g o r =
    let e0 = o self_addr_field (omega arith) in
    let e1 = o gs_diff_field (omega arith) in
    let e2 = o stack_field (omega arith) in
    let e3 = o clock_field (omega arith) in
    let e4 = o busy_field (omega arith) in
    let e5 = o ratio_factor_field (omega arith) in
    let e6 = o r_field (omega arith) in
    let e7 = o call_stack_top_field (omega arith) in
    let e8 = o shadow_stack_top_field (omega arith) in
    let e9 = o inited_field (omega arith) in
    let r2 = r stack_field (omega arith) in
    let v : filled_before md base diff (k.rdrand w.draws) (stack_high low size) w.memory.word
          (md + stack_field)
        ≡ base =
      ground arith in
    rw (◌>>=◌, ◌>>◌, e0, e1, e2, e3, e4, e5, e6, g, e7, r2, v, e8, e9)

diff_lem :
    (base rsp : ℕ)
    → base + stack_size ≤ 2 ^ 47
    → rsp < 2 ^ 47
    → sub64 (add64 base call_stack_size) rsp ≡ add64 base (sub64 call_stack_size rsp)
diff_lem base rsp h l = omega (arith, h, l)

filled_words-Says :
    (md base diff shift r high : ℕ) (f : ℕ → ℕ)
    → base + stack_size ≤ 2 ^ 47
    → diff ≡ add64 base shift
    → Says md base shift r 0 (filled_words md base diff r high f)
filled_words-Says md base diff shift r high f h e = record {
  self_is = ground arith;
  diff_is = ground (arith, e);
  r_is = ground arith;
  busy_is = ground arith;
  stack_is = ground arith;
  inited_is = ground arith;
  top_is = ground (arith, h);
}

filled_words-outside :
    (md base diff r high b : ℕ) (f : ℕ → ℕ)
    → on_page md b ≡ false
    → filled_words md base diff r high f b ≡ f b
filled_words-outside md base diff r high b f h = ground (arith, h)

installed_lem :
    (k : Os) (rsp low size md base : ℕ) (w : Thread)
    → k.sets_gs md ≡ true
    → IsOpen md w.memory
    → ((b : ℕ) → on_page md b ≡ true → w.memory.readable b ≡ true)
    → base + stack_size ≤ 2 ^ 47
    → rsp < 2 ^ 47
    → (f : ℕ → ℕ) × (install_at k rsp (some (low, size)) md base w ≡ some (tt, installed f md w))
      × Says md base (sub64 call_stack_size rsp) (k.rdrand w.draws) 0 f
      × ((b : ℕ) → on_page md b ≡ false → f b ≡ w.memory.word b)
unfolding install_at
installed_lem k rsp low size md base w g o r h l =
    let (f0, run, e) = clear_words_lem 12 md w (omega arith) o in
    let run2 =
      fill_gs_metadata_runs k md base (sub64 (add64 base call_stack_size) rsp) low size
        (with_words f0 w) g (λ f i. o (md + f) (ground (arith, i)))
        (λ f i. r (md + f) (ground (arith, i))) in
    (
      filled_words md base (sub64 (add64 base call_stack_size) rsp) (k.rdrand w.draws)
          (stack_high low size) f0,
      rw (◌>>=◌, ◌>>◌, run, run2),
      filled_words-Says md base _ (sub64 call_stack_size rsp) (k.rdrand w.draws)
          (stack_high low size) f0 h (diff_lem base rsp h l),
      λ b n. filled_words-outside md base _ (k.rdrand w.draws) (stack_high low size) b f0 n ∙ e b n,
    )

-- The two regions that a thread gets.
granted-Place :
    (md base : ℕ) (m m1 m2 : Memory)
    → Grows md page_size m m1
    → Grows base stack_size m1 m2
    → Place md base m2
granted-Place md base m m1 m2 g1 g2 = record {
  md_aligned = g1.aligned;
  md_user = g1.fits;
  base_user = g2.fits;
  apart =
      elim (fresh_apart base stack_size md page_size m1 g2.fresh
        (λ b i. ground (arith, i, g1.readable_now b)) (omega arith) (omega arith)) [
          | inl h ↦ inr h
          | inr h ↦ inl h
        ];
  md_readable = λ b o. ground (arith, o, g1.readable_now b, g2.readable_now b);
  stack_readable = λ i l. ground (arith, l, g2.readable_now (base + i));
  stack_writable = λ i l. ground (arith, l, g2.writable_now (base + i));
}

prepare_once_runs :
    (k : Os) (fuel rsp low size md base n n' : ℕ) (w z : Thread) (m1 m2 : Memory)
    → w.inited ≡ false
    → get_memory_from k fuel 0 page_size (record w { inited = true })
      ≡ some (md, with_memory m1 n (record w { inited = true }))
    → get_memory_from k fuel 0 stack_size (with_memory m1 n (record w { inited = true }))
      ≡ some (base, with_memory m2 n' (record w { inited = true }))
    → install_at k rsp (some (low, size)) md base (with_memory m2 n' (record w { inited = true }))
      ≡ some (tt, z)
    → prepare_once k fuel rsp (some (low, size)) w ≡ some (tt, z)
unfolding prepare_once prepare_thread
prepare_once_runs k fuel rsp low size md base n n' w z m1 m2 i r1 r2 r3 =
    rw (◌>>=◌, ◌>>◌, i, r1, r2, r3)

-- What was mapped before the two regions came is as it was.
granted_kept :
    (md base b : ℕ) (m m1 m2 : Memory) (f : ℕ → ℕ)
    → Grows md page_size m m1
    → Grows base stack_size m1 m2
    → ((b : ℕ) → on_page md b ≡ false → f b ≡ m2.word b)
    → m.readable b ≡ true
    → (m2.readable b ≡ true)
      × (f b ≡ m.word b)
      × (on_page md b ≡ false)
      × (inside base stack_size b ≡ false)
granted_kept md base b m m1 m2 f g1 g2 kept r =
    let s1 : m1.readable b ≡ true = ground (arith, r, g1.readable_now b) in
    let s2 : m2.readable b ≡ true = ground (arith, s1, g2.readable_now b) in
    let o : on_page md b ≡ false = ground (arith, r, g1.fresh b) in
    let n : inside base stack_size b ≡ false = ground (arith, s1, g2.fresh b) in
    (s2, kept b o ∙ g2.word_same b s1 ∙ g1.word_same b r, o, n)

installed-Ready :
    (md base shift r : ℕ) (f : ℕ → ℕ) (w : Thread)
    → Place md base w.memory
    → Says md base shift r 0 f
    → w.inited ≡ true
    → Ready md base shift r (installed f md w)
installed-Ready md base shift r f w p s i = record {
  place = record {
    md_aligned = p.md_aligned;
    md_user = p.md_user;
    base_user = p.base_user;
    apart = p.apart;
    md_readable = p.md_readable;
    stack_readable = p.stack_readable;
    stack_writable = p.stack_writable;
  };
  says = s;
  gs_is = refl;
  inited_is = i;
}

slot_of_first :
    (base rsp v : ℕ)
    → base + stack_size ≤ 2 ^ 47
    → rsp < 2 ^ 47
    → v ≡ add64 base (sub64 call_stack_size rsp)
    → add64 rsp v ≡ base + call_stack_size
slot_of_first base rsp v h l e = rw e (omega (arith, h, l))

-- On a system that keeps its promises, and meets requests where there is room, with room for two
-- shadow stacks and fuel for seven attempts, the first call of init_shadow_stack ends without a
-- fault and with the thread in order, if the bounds of the call stack are known: diff leads from the
-- stack pointer, which lies in user space, to the address call_stack_size above the start of the
-- shadow stack. What was mapped before is mapped and unchanged, and apart from what the thread got.
pub prepare_once-Ready :
    (k : Os) (c c' fuel rsp low size : ℕ) (w : Thread)
    → Promises k
    → Serves k
    → Spacious c c' w.memory.readable
    → max_attempts + 2 ≤ fuel
    → rsp < 2 ^ 47
    → w.inited ≡ false
    → (md : ℕ) × (base : ℕ) × (r : ℕ) × (z : Thread) × (prepare_once k fuel rsp (some (low, size)) w
        ≡ some (tt, z))
      × Ready md base (sub64 call_stack_size rsp) r z
      × (add64 rsp (z.memory.word (md + gs_diff_field)) ≡ base + call_stack_size)
      × ((b : ℕ)
          → w.memory.readable b ≡ true
          → (z.memory.readable b ≡ true)
            × (z.memory.word b ≡ w.memory.word b)
            × (on_page md b ≡ false)
            × (inside base stack_size b ≡ false))
prepare_once-Ready k c c' fuel rsp low size w promises serves room_for enough l i =
    let w0 = record w { inited = true } in
    let (md, m1, n, run1, g1) =
      get_memory_from_lem k c fuel 0 page_size w0 promises serves (omega (arith, enough))
        (omega (arith, enough)) (page_free c c' w.memory.readable room_for) in
    let (d, free) = page_leaves c c' md w.memory m1 room_for g1 in
    let w1 = with_memory m1 n w0 in
    let (base, m2, n', run2, g2) =
      get_memory_from_lem k d fuel 0 stack_size w1 promises serves (omega (arith, enough))
        (omega (arith, enough)) free in
    let w2 = with_memory m2 n' w0 in
    let place = granted-Place md base w.memory m1 m2 g1 g2 in
    let (f, run3, says, kept) =
      installed_lem k rsp low size md base w2 (promises.set_gs_user md (omega (arith, g1.fits)))
        (λ b o. ground (arith, o, g1.writable_now b, g2.writable_now b)) place.md_readable g2.fits
        l in
    let i2 : w2.inited ≡ true = refl {a = true} in
    (
      md,
      base,
      k.rdrand n',
      installed f md w2,
      prepare_once_runs k fuel rsp low size md base n n' w (installed f md w2) m1 m2 i run1 run2
          run3,
      installed-Ready md base (sub64 call_stack_size rsp) (k.rdrand n') f w2 place says i2,
      slot_of_first base rsp (f (md + gs_diff_field)) g2.fits l says.diff_is,
      λ b. granted_kept md base b w.memory m1 m2 f g1 g2 kept,
    )
