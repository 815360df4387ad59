-- ===== src/Fsgs/Call.antt =====
-- fsgs_runtime_rerandomize of FlashStack/fsgs.c, from its call to its return, without
-- SPA_ENABLE_GS_MSR.
use flash_stack.Base.{
  ℕ, ◌+◌, ◌≤◌, ◌<◌, ◌≡◌, inl, inr, ◌∙◌, sym, ap, Bool, true, false, some, arith, Bool-cases, ltb,
}
use flash_stack.Base.Steps.{◌>>=◌, ◌>>◌}
use flash_stack.Asm.{add64, sub64}
use flash_stack.Runtime.{cycles_per_randomization, flash_stack_inited}
use flash_stack.Buddy.{Memory, page_size}
use flash_stack.Fsgs.{
  Os, Thread, set_word, store, mprotect, open_and_test, test_time, enter, fsgs_runtime_rerandomize,
  stack_size, self_addr_field, gs_diff_field, busy_field, clock_field, inited_field, max_attempts,
}
use flash_stack.Fsgs.Promises.{Spacious, Promises, Serves}
use flash_stack.Fsgs.Ready.{Brought, Brought-trans}
use flash_stack.Fsgs.Touch.{IsOpen, store-open, set_word-Brought}
use flash_stack.Fsgs.Fresh.{Spacious-same}
use flash_stack.Fsgs.Moved.{Moving}
use flash_stack.Fsgs.Whole.{Ready, Survives, Says-busy, Says-same, protected-Brought}
use flash_stack.Fsgs.Survive.{cleared_lem, change_and_move-Survives}

-- The flag is set, on a page that can be written.
pub opened_lem :
    (k : Os) (md base shift r : ℕ) (w : Thread)
    → Promises k
    → Ready md base shift r w
    → (t : Memory) × (mprotect k md page_size true w ≡ some (tt, record w { memory = t }))
      × (store (md + busy_field) 1 (record w { memory = t })
          ≡ some (tt, set_word (md + busy_field) 1 (record w { memory = t })))
      × Moving md base shift r (set_word (md + busy_field) 1 (record w { memory = t }))
      × Brought md base md base w.memory
          (set_word (md + busy_field) 1 (record w { memory = t })).memory
      × ((b : ℕ) → w.memory.readable b ≡ false → t.readable b ≡ false)
      × ((b : ℕ) → t.word b ≡ w.memory.word b)
opened_lem k md base shift r w promises h =
    let (t, e, s) =
      promises.mprotect_protects md true w.memory h.place.md_aligned h.place.md_readable in
    let w1 = record w { memory = t } in
    let is_open : IsOpen md t = λ b o. ground (arith, o, s.writable_now b) in
    let b1 = protected-Brought md base true w.memory t h.place s in
    let b2 = set_word-Brought md base busy_field 1 w1 (omega arith) b1.place in
    (
      t,
      rw (mprotect, e),
      store-open md busy_field 1 w1 (omega arith) is_open,
      record {
        place = b2.place;
        says =
            Says-busy md base shift r 0 1 w1
              (Says-same md base shift r 0 w.memory.word t.word s.word_same h.says);
        is_open = is_open;
      },
      Brought-trans _ b1 b2,
      s.unmapped_still,
      s.word_same,
    )

pub open_and_test_runs :
    (k : Os) (fuel : ℕ) (msr : Bool) (rsp md : ℕ) (w w1 w2 : Thread)
    → mprotect k md page_size true w ≡ some (tt, w1)
    → store (md + busy_field) 1 w1 ≡ some (tt, w2)
    → w2.memory.readable (md + clock_field) ≡ true
    → open_and_test k fuel msr rsp md w
      ≡ test_time k fuel msr rsp md
          (w2.memory.word (md + clock_field))
          (k.rdtsc w2.readings)
          (record w2 { readings = w2.readings + 1 })
unfolding open_and_test
open_and_test_runs k fuel msr rsp md w w1 w2 e e' r = rw (◌>>=◌, ◌>>◌, e, e', r)

test_time-Survives :
    (k : Os) (c c' fuel rsp md base shift r last cur : ℕ) (w : Thread)
    → Promises k
    → Serves k
    → Spacious c c' w.memory.readable
    → max_attempts + 2 ≤ fuel
    → Moving md base shift r w
    → w.gs ≡ md
    → w.inited ≡ true
    → (md' : ℕ) × (base' : ℕ) × (z : Thread) × (test_time k fuel false rsp md last cur w
        ≡ some (tt, z))
      × Survives md base md' base' shift r w z
unfolding test_time
test_time-Survives k c c' fuel rsp md base shift r last cur w promises serves room enough m g i =
    elim (Bool-cases (ltb (sub64 cur last) cycles_per_randomization)) [
      | inl h ↦ (
        md,
        base,
        set_word (md + busy_field) 0 w,
        rw h (store-open md busy_field 0 w (omega arith) m.is_open),
        cleared_lem md base shift r w m g i,
      )
      | inr h ↦
          let (md', base', z, run, s) =
            change_and_move-Survives k c c' fuel rsp md base shift r cur w promises serves room
              enough m g i in
          (md', base', z, rw h run, s)
    ]

pub enter_runs :
    (k : Os) (fuel : ℕ) (msr : Bool) (rsp md : ℕ) (w : Thread)
    → w.inited ≡ true
    → w.gs ≡ md
    → w.memory.readable (md + self_addr_field) ≡ true
    → w.memory.word (md + self_addr_field) ≡ md
    → w.memory.readable (md + inited_field) ≡ true
    → w.memory.word (md + inited_field) ≡ flash_stack_inited
    → w.memory.readable (md + busy_field) ≡ true
    → w.memory.word (md + busy_field) ≡ 0
    → fsgs_runtime_rerandomize k fuel msr rsp w ≡ open_and_test k fuel msr rsp md w
unfolding fsgs_runtime_rerandomize enter
enter_runs k fuel msr rsp md w i g r0 v0 r48 v48 r24 v24 =
    rw (◌>>=◌, i, g, r0, v0, r48, v48, v0, r24, v24, v0)

-- Where the prologue puts the return address that lies at `a` on the call stack.
abbrev pub slot_at : ℕ → Thread → ℕ → ℕ
slot_at md w a = add64 a (w.memory.word (md + gs_diff_field))

pub slot_in_stack :
    (md base shift r a : ℕ) (w : Thread)
    → Ready md base shift r w
    → add64 a shift < stack_size
    → slot_at md w a ≡ base + add64 a shift
slot_in_stack md base shift r a w h l =
    let e = h.says.diff_is in rw e (omega (arith, l, h.place.base_user))

-- On a system that keeps its promises and moves shadow stacks, with room for two of them and fuel
-- for seven attempts, a thread in order comes back from fsgs_runtime_rerandomize without a fault
-- and in order again, with the same random value. The shadow stack may lie elsewhere. Wherever
-- the prologue put a return address with the old field diff, the epilogue finds it with the new
-- one, if the slot lies within the shadow stack. Outside the metadata and the shadow stack all
-- that was mapped is as it was.
pub fsgs_runtime_rerandomize_lem :
    (k : Os) (c c' fuel rsp md base shift r : ℕ) (w : Thread)
    → Promises k
    → Serves k
    → Spacious c c' w.memory.readable
    → max_attempts + 2 ≤ fuel
    → Ready md base shift r w
    → (md' : ℕ) × (base' : ℕ) × (z : Thread) × (fsgs_runtime_rerandomize k fuel false rsp w
        ≡ some (tt, z))
      × Survives md base md' base' shift r w z
      × ((a : ℕ)
          → add64 a shift < stack_size
          → z.memory.word (slot_at md' z a) ≡ w.memory.word (slot_at md w a))
fsgs_runtime_rerandomize_lem k c c' fuel rsp md base shift r w promises serves room enough h =
    let readable : (f : ℕ) → f < page_size → w.memory.readable (md + f) ≡ true =
      λ f l. h.place.md_readable (md + f) (ground (arith, l)) in
    let (t, e, e', m, b, unmapped, _) = opened_lem k md base shift r w promises h in
    let w2 = set_word (md + busy_field) 1 (record w { memory = t }) in
    let w3 = record w2 { readings = w2.readings + 1 } in
    let (md', base', z, run, s) =
      test_time-Survives k c c' fuel rsp md base shift r (w2.memory.word (md + clock_field))
        (k.rdtsc w2.readings) w3 promises serves
        (Spacious-same c c' w.memory.readable t.readable unmapped room) enough
        (record { place = m.place; says = m.says; is_open = m.is_open }) h.gs_is h.inited_is in
    let brought = Brought-trans z.memory b s.brought in
    (
      md',
      base',
      z,
      enter_runs k fuel false rsp md w h.inited_is h.gs_is (readable self_addr_field (omega arith))
            h.says.self_is (readable inited_field (omega arith)) h.says.inited_is
            (readable busy_field (omega arith)) h.says.busy_is
          ∙ open_and_test_runs k fuel false rsp md w (record w { memory = t }) w2 e e'
              (m.place.md_readable (md + clock_field) (ground arith))
          ∙ run,
      record { ready = s.ready; brought = brought },
      λ a l.
          ap z.memory.word (slot_in_stack md' base' shift r a z s.ready l)
          ∙ brought.stack_kept (add64 a shift) l
          ∙ ap w.memory.word (sym (slot_in_stack md base shift r a w h l)),
    )
