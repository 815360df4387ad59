-- ===== src/Fsgs/Values.antt =====
-- The change of the values on the shadow stack in fsgs_runtime_rerandomize of FlashStack/fsgs.c, with
-- SPA_ENABLE_GS_MSR.
use mathlib.Core.Path.{subst}
use flash_stack.Base.{ℕ, ◌+◌, ◌-◌, ◌%◌, ◌^◌, ◌≤◌, ◌<◌, ◌≡◌, ◌∙◌, refl, ap, true, false, some, arith}
use flash_stack.Base.Steps.{◌>>=◌, ◌>>◌}
use flash_stack.Asm.{word_mod, add64, sub64}
use flash_stack.Asm.Machine.{update}
use flash_stack.Runtime.{call_stack_size}
use flash_stack.Runtime.Promises.{inside}
use flash_stack.Buddy.{Process, page_size, avx2_64_x_4_add}
use flash_stack.Buddy.Promises.{on_page}
use flash_stack.Buddy.Rounds.{shifted, Shifted, AllWritable, avx2_64_x_4_add_lem}
use flash_stack.Fsgs.{
  Os, Thread, self_addr_field, gs_diff_field, busy_field, stack_field, inited_field, set_word,
  store, on_memory, change_values, stack_size, r_field, shadow_stack_top_field,
  call_stack_top_field,
}
use flash_stack.Fsgs.Touch.{store-open}
use flash_stack.Fsgs.Moved.{Moving}

-- Where the loop begins, with the end of the call stack and the stack pointer.
abbrev pub loop_start : ℕ → ℕ → ℕ → ℕ
loop_start base call_top rsp =
    let ss_ptr = base + call_stack_size - (call_top - rsp) in ss_ptr - ss_ptr % 32

-- From `w` to `z` the random value has grown by `x`, and with it each word of the shadow stack from
-- the start of the loop to shadow_stack_top.
pub record Changed (md base shift r x start : ℕ) (w z : Thread) : Type 0 where
  pub moving : Moving md base shift (add64 r x) z
  pub gs_same : z.gs ≡ w.gs
  pub inited_same : z.inited ≡ w.inited
  pub readable_same : (b : ℕ) → z.memory.readable b ≡ w.memory.readable b
  pub stack_words :
      (i : ℕ)
      → i < stack_size
      → z.memory.word (base + i) ≡ shifted start (base + call_stack_size) x w.memory.word (base + i)
  pub others_kept :
      (b : ℕ)
      → on_page md b ≡ false
      → inside base stack_size b ≡ false
      → z.memory.word b ≡ w.memory.word b

-- The thread whose memory is that of the process.
abbrev back_in : Process → Thread → Thread
back_in q w = record w { memory = q.memory }

change_values_runs :
    (k : Os) (rsp md : ℕ) (w w1 : Thread) (q : Process)
    → w.memory.readable (md + r_field) ≡ true
    → store
        (md + r_field)
        (add64 (w.memory.word (md + r_field)) (k.rdrand w.draws))
        (record w { draws = w.draws + 1 })
      ≡ some (tt, w1)
    → w1.memory.readable (md + shadow_stack_top_field) ≡ true
    → w1.memory.readable (md + call_stack_top_field) ≡ true
    → avx2_64_x_4_add
        (sub64
          (w1.memory.word (md + shadow_stack_top_field))
          (sub64 (w1.memory.word (md + call_stack_top_field)) rsp))
        (w1.memory.word (md + shadow_stack_top_field))
        (k.rdrand w.draws)
        (record { memory = w1.memory; rand_cnt = 0 })
      ≡ some (tt, q)
    → change_values k rsp md w ≡ some (tt, back_in q w1)
unfolding change_values
change_values_runs k rsp md w w1 q r e r' r'' run = rw (◌>>=◌, ◌>>◌, r, e, r', r'', on_memory, run)

-- What the loop makes of a thread whose random value has been stored.
Shifted-Changed :
    (md base shift r x start : ℕ) (w : Thread) (q : Process)
    → Moving md base shift r w
    → base ≤ start
    → Shifted start
        (base + call_stack_size)
        x
        (record { memory = (set_word (md + r_field) (add64 r x) w).memory; rand_cnt = 0 })
        q
    → Changed md base shift r x start w
        (back_in q (record (set_word (md + r_field) (add64 r x) w) { draws = w.draws + 1 }))
Shifted-Changed md base shift r x start w q m lo s =
    let page_word : (f : ℕ)
        → f < page_size
        → q.memory.word (md + f) ≡ update w.memory.word (md + r_field) (add64 r x) (md + f) =
      λ f l. s.words (md + f) ∙ ground (arith, l, lo, m.place.apart) in
    record {
      moving = record {
        place = record {
          md_aligned = m.place.md_aligned;
          md_user = m.place.md_user;
          base_user = m.place.base_user;
          apart = m.place.apart;
          md_readable = λ b o. s.readable_same b ∙ m.place.md_readable b o;
          stack_readable = λ i l. s.readable_same (base + i) ∙ m.place.stack_readable i l;
          stack_writable = λ i l. s.writable_same (base + i) ∙ m.place.stack_writable i l;
        };
        says = record {
          self_is = page_word self_addr_field (omega arith) ∙ ground (arith, m.says.self_is);
          diff_is = page_word gs_diff_field (omega arith) ∙ ground (arith, m.says.diff_is);
          r_is = page_word r_field (omega arith) ∙ ground arith;
          busy_is = page_word busy_field (omega arith) ∙ ground (arith, m.says.busy_is);
          stack_is = page_word stack_field (omega arith) ∙ ground (arith, m.says.stack_is);
          inited_is = page_word inited_field (omega arith) ∙ ground (arith, m.says.inited_is);
          top_is = page_word shadow_stack_top_field (omega arith) ∙ ground (arith, m.says.top_is);
        };
        is_open = λ b o. s.writable_same b ∙ m.is_open b o;
      };
      gs_same = refl;
      inited_same = refl;
      readable_same = s.readable_same;
      stack_words = λ i l. s.words (base + i) ∙ ground (arith, l, m.place.apart);
      others_kept = λ b o n. s.words b ∙ ground (arith, o, n, lo);
    }

-- The loop runs within the shadow stack, whose end is a multiple of 32.
loop_runs :
    (base call_top rsp x : ℕ) (p : Process)
    → base % 32 ≡ 0
    → base + stack_size ≤ 2 ^ 47
    → rsp ≤ call_top
    → call_top < word_mod
    → call_top ≤ rsp + call_stack_size
    → ((i : ℕ) → i < stack_size → p.memory.writable (base + i) ≡ true)
    → (q : Process) × (avx2_64_x_4_add
          (sub64 (base + call_stack_size) (sub64 call_top rsp))
          (base + call_stack_size)
          x
          p
        ≡ some (tt, q))
      × Shifted (loop_start base call_top rsp) (base + call_stack_size) x p q
loop_runs base call_top rsp x p e user le word room writes =
    let ss_ptr = base + call_stack_size - (call_top - rsp) in
    let same : sub64 (base + call_stack_size) (sub64 call_top rsp) ≡ ss_ptr =
      omega (arith, user, le, word, room) in
    let writable : AllWritable (ss_ptr - ss_ptr % 32) (base + call_stack_size) p = λ b l u.
      subst (λ c. p.memory.writable c ≡ true) (omega (arith, e, room, l))
        (writes (b - base) (omega (arith, u))) in
    let (q, run, s) =
      avx2_64_x_4_add_lem ss_ptr (base + call_stack_size) x p (omega (arith, user)) (omega arith)
        (omega (arith, e)) writable in
    (q, ap (λ a. avx2_64_x_4_add a (base + call_stack_size) x p) same ∙ run, s)

pub change_values-Changed :
    (k : Os) (rsp md base shift r call_top : ℕ) (w : Thread)
    → Moving md base shift r w
    → base % 32 ≡ 0
    → w.memory.word (md + call_stack_top_field) ≡ call_top
    → rsp ≤ call_top
    → call_top < word_mod
    → call_top ≤ rsp + call_stack_size
    → (z : Thread) × (change_values k rsp md w ≡ some (tt, z))
      × Changed md base shift r (k.rdrand w.draws) (loop_start base call_top rsp) w z
change_values-Changed k rsp md base shift r call_top w m e et le word room =
    let x = k.rdrand w.draws in
    let w1 = set_word (md + r_field) (add64 r x) (record w { draws = w.draws + 1 }) in
    let stored =
      store-open md r_field (add64 r x) (record w { draws = w.draws + 1 }) (omega arith)
        m.is_open in
    let top : w1.memory.word (md + shadow_stack_top_field) ≡ base + call_stack_size =
      ground (arith, m.says.top_is) in
    let call : w1.memory.word (md + call_stack_top_field) ≡ call_top = ground (arith, et) in
    let (q, run, s) =
      loop_runs base call_top rsp x (record { memory = w1.memory; rand_cnt = 0 }) e
        m.place.base_user le word room m.place.stack_writable in
    (
      back_in q w1,
      change_values_runs k rsp md w w1 q (m.place.md_readable _ (ground arith))
          (ap (λ v. store (md + r_field) (add64 v x) (record w { draws = w.draws + 1 })) m.says.r_is
            ∙ stored)
          (m.place.md_readable _ (ground arith)) (m.place.md_readable _ (ground arith))
          (rw (top, call) run),
      Shifted-Changed md base shift r x (loop_start base call_top rsp) w q m
          (omega (arith, e, room)) s,
    )
