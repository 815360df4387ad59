-- ===== src/Fsgs/Decoded.antt =====
-- fsgs_runtime_rerandomize of FlashStack/fsgs.c, from its call to its return, with
-- SPA_ENABLE_GS_MSR: the return addresses that the epilogues find.
use flash_stack.Base.{ℕ, ◌+◌, ◌-◌, ◌%◌, ◌≤◌, ◌<◌, ◌≡◌, ◌⊎◌, ◌∙◌, sym, ap, true, false, some, arith}
use flash_stack.Asm.{word_mod, add64, sub64}
use flash_stack.Runtime.{call_stack_size}
use flash_stack.Runtime.Promises.{inside}
use flash_stack.Buddy.{page_size}
use flash_stack.Buddy.Promises.{on_page}
use flash_stack.Fsgs.{
  Os, Thread, set_word, fsgs_runtime_rerandomize, stack_size, self_addr_field, busy_field,
  clock_field, inited_field, call_stack_top_field, max_attempts,
}
use flash_stack.Fsgs.Promises.{Spacious, Promises, Serves}
use flash_stack.Fsgs.Fresh.{Spacious-same}
use flash_stack.Fsgs.Whole.{Ready}
use flash_stack.Fsgs.Call.{opened_lem, open_and_test_runs, enter_runs, slot_at, slot_in_stack}
use flash_stack.Fsgs.Values.{loop_start}
use flash_stack.Fsgs.Renewed.{Renewed, opened-Renewed, test_time-Renewed}

-- What the call leaves, for a thread that was prepared with the stack pointer `entry`.
pub record Rerandomized (md base md' base' entry r r' rsp : ℕ) (w z : Thread) : Type 0 where
  pub ready : Ready md' base' (sub64 call_stack_size entry) r' z
  -- the address that the epilogue finds for the place `a` of the call stack
  pub decoded :
      (a : ℕ)
      → rsp ≤ a
      → a < entry
      → a % 8 ≡ 0
      → sub64 (z.memory.word (slot_at md' z a)) r' ≡ sub64 (w.memory.word (slot_at md w a)) r
  -- above the stack pointer of the preparation the words stay, whatever becomes of the value
  pub missed :
      (a : ℕ)
      → entry ≤ a
      → a + call_stack_size < entry + stack_size
      → z.memory.word (slot_at md' z a) ≡ w.memory.word (slot_at md w a)
  pub others_kept :
      (b : ℕ)
      → w.memory.readable b ≡ true
      → on_page md b ≡ false
      → inside base stack_size b ≡ false
      → (z.memory.readable b ≡ true) × (z.memory.word b ≡ w.memory.word b)

-- In terms of the call stack.
Renewed-Rerandomized :
    (md base md' base' entry r r' rsp call_top : ℕ) (w z : Thread)
    → Ready md base (sub64 call_stack_size entry) r w
    → entry % 8 ≡ 0
    → entry ≤ call_top
    → call_top < word_mod
    → call_top ≤ rsp + call_stack_size
    → Renewed md base md' base'
        (sub64 call_stack_size entry)
        r
        r'
        (loop_start base call_top rsp)
        w
        z
    → Rerandomized md base md' base' entry r r' rsp w z
Renewed-Rerandomized md base md' base' entry r r' rsp call_top w z h e le word deep s =
    let shift = sub64 call_stack_size entry in
    record {
      ready = s.ready;
      decoded = λ a l u m.
          let here : add64 a shift ≡ a + call_stack_size - entry =
            omega (arith, l, u, le, word, deep) in
          let fits : add64 a shift < stack_size = omega (arith, here, u) in
          ap (λ b. sub64 (z.memory.word b) r') (slot_in_stack md' base' shift r' a z s.ready fits)
          ∙ s.decoded (add64 a shift) (omega (arith, here, u)) (omega (arith, here, l, u, le, deep))
              (omega (arith, here, l, u, le, deep, e, m))
          ∙ ap (λ b. sub64 (w.memory.word b) r) (sym (slot_in_stack md base shift r a w h fits));
      missed = λ a l u.
          let here : add64 a shift ≡ a + call_stack_size - entry = omega (arith, l, u, le, word) in
          let fits : add64 a shift < stack_size = omega (arith, here, u) in
          ap z.memory.word (slot_in_stack md' base' shift r' a z s.ready fits)
          ∙ s.above_kept (add64 a shift) (omega (arith, here, l)) fits
          ∙ ap w.memory.word (sym (slot_in_stack md base shift r a w h fits));
      others_kept = s.others_kept;
    }

-- With SPA_ENABLE_GS_MSR, on a system that keeps its promises and moves shadow stacks, with room
-- for two of them and fuel for seven attempts: a thread in order, prepared with the stack pointer
-- `entry`, calls fsgs_runtime_rerandomize. Its shadow stack begins at a multiple of 32, its random
-- value is a word, `entry` is a multiple of 8, and both stack pointers lie below call_stack_top,
-- which is a word and at most the size of the call stack above the one of the call. The call
-- returns without a fault, the thread is in order again, and its random value is the old one, or
-- that and the next random number. For each place of the call stack from the stack pointer up to
-- `entry`, the word of the shadow stack less the random value is what it was. For the places from
-- `entry` on, in the rest of the shadow stack, the word itself is what it was, also if the value
-- has changed. Outside the metadata and the shadow stack all that was mapped is as it was.
pub fsgs_runtime_rerandomize-Rerandomized :
    (k : Os) (c c' fuel rsp md base entry r call_top : ℕ) (w : Thread)
    → Promises k
    → Serves k
    → Spacious c c' w.memory.readable
    → max_attempts + 2 ≤ fuel
    → Ready md base (sub64 call_stack_size entry) r w
    → r < word_mod
    → base % 32 ≡ 0
    → entry % 8 ≡ 0
    → w.memory.word (md + call_stack_top_field) ≡ call_top
    → entry ≤ call_top
    → rsp ≤ call_top
    → call_top < word_mod
    → call_top ≤ rsp + call_stack_size
    → (md' : ℕ) × (base' : ℕ) × (r' : ℕ) × (z : Thread) × (fsgs_runtime_rerandomize k fuel true rsp
          w
        ≡ some (tt, z))
      × ((r' ≡ r) ⊎ (r' ≡ add64 r (k.rdrand w.draws)))
      × Rerandomized md base md' base' entry r r' rsp w z
fsgs_runtime_rerandomize-Rerandomized k c c' fuel rsp md base entry r call_top w promises serves
      room enough h hr eb e et le le' word deep =
    let shift = sub64 call_stack_size entry in
    let readable : (f : ℕ) → f < page_size → w.memory.readable (md + f) ≡ true =
      λ f l. h.place.md_readable (md + f) (ground (arith, l)) in
    let (t, e1, e2, m, b, unmapped, same) = opened_lem k md base shift r w promises h in
    let w2 = set_word (md + busy_field) 1 (record w { memory = t }) in
    let w3 = record w2 { readings = w2.readings + 1 } in
    let (md', base', z, run, (r', grown, s)) =
      test_time-Renewed k c c' fuel rsp md base shift r (w2.memory.word (md + clock_field))
        (k.rdtsc w2.readings) call_top w3 promises serves
        (Spacious-same c c' w.memory.readable t.readable unmapped room) enough
        (record { place = m.place; says = m.says; is_open = m.is_open }) h.gs_is h.inited_is hr eb
        (ground (arith, same (md + call_stack_top_field), et)) le' word deep in
    (
      md',
      base',
      r',
      z,
      enter_runs k fuel true rsp md w h.inited_is h.gs_is (readable self_addr_field (omega arith))
            h.says.self_is (readable inited_field (omega arith)) h.says.inited_is
            (readable busy_field (omega arith)) h.says.busy_is
          ∙ open_and_test_runs k fuel true rsp md w (record w { memory = t }) w2 e1 e2
              (m.place.md_readable (md + clock_field) (ground arith))
          ∙ run,
      grown,
      Renewed-Rerandomized md base md' base' entry r r' rsp call_top w z h e le word deep
          (opened-Renewed md base md' base' shift r r' _ w w3 z b s),
    )
