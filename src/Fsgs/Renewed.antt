-- ===== src/Fsgs/Renewed.antt =====
-- fsgs_runtime_rerandomize of FlashStack/fsgs.c, from the test of the time to its
-- return, with SPA_ENABLE_GS_MSR.
use flash_stack.Base.{
  ℕ, ◌+◌, ◌%◌, ◌≤◌, ◌<◌, ◌≡◌, ◌⊎◌, inl, inr, ◌∙◌, refl, ap, true, false, some, arith, Bool-cases,
  ltb,
}
use flash_stack.Asm.{word_mod, add64, sub64}
use flash_stack.Runtime.{call_stack_size, cycles_per_randomization}
use flash_stack.Runtime.Promises.{inside}
use flash_stack.Buddy.Promises.{on_page}
use flash_stack.Buddy.Rounds.{shifted}
use flash_stack.Fsgs.{
  Os, Thread, set_word, test_time, change_and_move, stack_size, busy_field, clock_field,
  call_stack_top_field, max_attempts,
}
use flash_stack.Fsgs.Promises.{Spacious, Promises, Serves}
use flash_stack.Fsgs.Ready.{Brought}
use flash_stack.Fsgs.Touch.{store-open, set_word-Brought}
use flash_stack.Fsgs.Fresh.{Spacious-same}
use flash_stack.Fsgs.Moved.{Moving}
use flash_stack.Fsgs.Fast.{touched-Moving}
use flash_stack.Fsgs.Whole.{Ready}
use flash_stack.Fsgs.Survive.{cleared_lem, from_ratio-Survives}
use flash_stack.Fsgs.Values.{loop_start, Changed, change_values-Changed}

-- From `w` to `z` the random value may have become `r'`, and the words of the shadow stack from
-- `start` to shadow_stack_top with it. Nothing else that was mapped is lost.
pub record Renewed (md base md' base' shift r r' start : ℕ) (w z : Thread) : Type 0 where
  pub ready : Ready md' base' shift r' z
  pub decoded :
      (i : ℕ)
      → i < call_stack_size
      → start ≤ base + i
      → i % 8 ≡ 0
      → sub64 (z.memory.word (base' + i)) r' ≡ sub64 (w.memory.word (base + i)) r
  pub above_kept :
      (i : ℕ)
      → call_stack_size ≤ i
      → i < stack_size
      → z.memory.word (base' + i) ≡ w.memory.word (base + i)
  pub others_kept :
      (b : ℕ)
      → w.memory.readable b ≡ true
      → on_page md b ≡ false
      → inside base stack_size b ≡ false
      → (z.memory.readable b ≡ true) × (z.memory.word b ≡ w.memory.word b)

-- Without a change of the values.
Brought-Renewed :
    (md base md' base' shift r start : ℕ) (w z : Thread)
    → Ready md' base' shift r z
    → Brought md base md' base' w.memory z.memory
    → Renewed md base md' base' shift r r start w z
Brought-Renewed md base md' base' shift r start w z h b = record {
  ready = h;
  decoded = λ i l s e. ap (λ v. sub64 v r) (b.stack_kept i (omega (arith, l)));
  above_kept = λ i l u. b.stack_kept i u;
  others_kept = λ a q o n. let (p, e, _, _) = b.others_kept a q o n in (p, e);
}

-- The word with the value taken off.
decoded_lem :
    (base start r x i v : ℕ)
    → r < word_mod
    → base % 32 ≡ 0
    → start % 32 ≡ 0
    → i < call_stack_size
    → start ≤ base + i
    → i % 8 ≡ 0
    → sub64 (shifted start (base + call_stack_size) x (λ _. v) (base + i)) (add64 r x) ≡ sub64 v r
decoded_lem base start r x i v hr eb es l s e = ground (arith, hr, eb, es, l, s, e)

-- Before the change of the values, and behind it, nothing is lost.
Changed-Renewed :
    (md base md' base' shift r x start : ℕ) (w t u z : Thread)
    → r < word_mod
    → base % 32 ≡ 0
    → start % 32 ≡ 0
    → Brought md base md base w.memory t.memory
    → Changed md base shift r x start t u
    → Brought md base md' base' u.memory z.memory
    → Ready md' base' shift (add64 r x) z
    → Renewed md base md' base' shift r (add64 r x) start w z
Changed-Renewed md base md' base' shift r x start w t u z hr eb es b c b' h = record {
  ready = h;
  decoded = λ i l s e.
      ap (λ v. sub64 v (add64 r x))
        (b'.stack_kept i (omega (arith, l)) ∙ c.stack_words i (omega (arith, l)))
      ∙ decoded_lem base start r x i _ hr eb es l s e
      ∙ ap (λ v. sub64 v r) (b.stack_kept i (omega (arith, l)));
  above_kept =
      λ i l u. b'.stack_kept i u ∙ c.stack_words i u ∙ ground (arith, l) ∙ b.stack_kept i u;
  others_kept = λ a q o n.
      let (p, e, _, _) = b.others_kept a q o n in
      let (p', e', _, _) = b'.others_kept a (c.readable_same a ∙ p) o n in
      (p', e' ∙ c.others_kept a o n ∙ e);
}

-- Before it, only the page of metadata may change.
pub opened-Renewed :
    (md base md' base' shift r r' start : ℕ) (w t z : Thread)
    → Brought md base md base w.memory t.memory
    → Renewed md base md' base' shift r r' start t z
    → Renewed md base md' base' shift r r' start w z
opened-Renewed md base md' base' shift r r' start w t z b s = record {
  ready = s.ready;
  decoded = λ i l u e. s.decoded i l u e ∙ ap (λ v. sub64 v r) (b.stack_kept i (omega (arith, l)));
  above_kept = λ i l u. s.above_kept i l u ∙ b.stack_kept i u;
  others_kept = λ a q o n.
      let (p, e, _, _) = b.others_kept a q o n in
      let (p', e') = s.others_kept a p o n in (p', e' ∙ e);
}

-- What one call may make of the thread.
abbrev pub Outcomes : Os → ℕ → ℕ → ℕ → ℕ → ℕ → ℕ → ℕ → Thread → Thread → Type 0
Outcomes k md base md' base' shift r start w z =
    (r' : ℕ) × ((r' ≡ r) ⊎ (r' ≡ add64 r (k.rdrand w.draws)))
    × Renewed md base md' base' shift r r' start w z

change_and_move-Renewed :
    (k : Os) (c c' fuel rsp md base shift r cur call_top : ℕ) (w : Thread)
    → Promises k
    → Serves k
    → Spacious c c' w.memory.readable
    → max_attempts + 2 ≤ fuel
    → Moving md base shift r w
    → w.gs ≡ md
    → w.inited ≡ true
    → r < word_mod
    → base % 32 ≡ 0
    → w.memory.word (md + call_stack_top_field) ≡ call_top
    → rsp ≤ call_top
    → call_top < word_mod
    → call_top ≤ rsp + call_stack_size
    → (md' : ℕ) × (base' : ℕ) × (z : Thread) × (change_and_move k fuel true rsp md cur w
        ≡ some (tt, z))
      × Renewed md base md' base' shift r
          (add64 r (k.rdrand w.draws))
          (loop_start base call_top rsp)
          w
          z
change_and_move-Renewed k c c' fuel rsp md base shift r cur call_top w promises serves room enough m
      g i hr eb et le word deep =
    let w1 = set_word (md + clock_field) cur w in
    let m1 = touched-Moving md base shift r clock_field cur w (inl refl) m in
    let stored = store-open md clock_field cur w (omega arith) m.is_open in
    let (w2, run, d) =
      change_values-Changed k rsp md base shift r call_top w1 m1 eb (ground (arith, et)) le word
        deep in
    let room2 =
      Spacious-same c c' w.memory.readable w2.memory.readable (λ b x. d.readable_same b ∙ x) room in
    let (md', base', z, run', s) =
      from_ratio-Survives k c c' fuel true rsp md base shift (add64 r (k.rdrand w.draws)) cur w w1
        w2 promises serves room2 enough stored run d.moving (d.gs_same ∙ g) (d.inited_same ∙ i) in
    (
      md',
      base',
      z,
      run',
      Changed-Renewed md base md' base' shift r (k.rdrand w.draws) (loop_start base call_top rsp) w
          w1 w2 z hr eb (omega arith)
          (set_word-Brought md base clock_field cur w (omega arith) m.place) d s.brought s.ready,
    )

pub test_time-Renewed :
    (k : Os) (c c' fuel rsp md base shift r last cur call_top : ℕ) (w : Thread)
    → Promises k
    → Serves k
    → Spacious c c' w.memory.readable
    → max_attempts + 2 ≤ fuel
    → Moving md base shift r w
    → w.gs ≡ md
    → w.inited ≡ true
    → r < word_mod
    → base % 32 ≡ 0
    → w.memory.word (md + call_stack_top_field) ≡ call_top
    → rsp ≤ call_top
    → call_top < word_mod
    → call_top ≤ rsp + call_stack_size
    → (md' : ℕ) × (base' : ℕ) × (z : Thread) × (test_time k fuel true rsp md last cur w
        ≡ some (tt, z))
      × Outcomes k md base md' base' shift r (loop_start base call_top rsp) w z
unfolding test_time
test_time-Renewed k c c' fuel rsp md base shift r last cur call_top w promises serves room enough m
      g i hr eb et le word deep =
    elim (Bool-cases (ltb (sub64 cur last) cycles_per_randomization)) [
      | inl h ↦
          let s = cleared_lem md base shift r w m g i in
          (
            md,
            base,
            set_word (md + busy_field) 0 w,
            rw h (store-open md busy_field 0 w (omega arith) m.is_open),
            (r, inl refl, Brought-Renewed md base md base shift r _ w _ s.ready s.brought),
          )
      | inr h ↦
          let (md', base', z, run, s) =
            change_and_move-Renewed k c c' fuel rsp md base shift r cur call_top w promises serves
              room enough m g i hr eb et le word deep in
          (md', base', z, rw h run, (add64 r (k.rdrand w.draws), inr refl, s))
    ]
