-- ===== src/Fsgs/Whole.antt =====
-- fsgs_runtime_rerandomize of FlashStack/fsgs.c, without SPA_ENABLE_GS_MSR.
use flash_stack.Base.{ℕ, ◌+◌, ◌≤◌, ◌≡◌, inr, ◌∙◌, refl, Bool, true, some, arith}
use flash_stack.Base.Steps.{◌>>=◌, ◌>>◌}
use flash_stack.Buddy.{Memory, page_size}
use flash_stack.Buddy.Promises.{Protects}
use flash_stack.Fsgs.{
  Os, Thread, set_word, store, move_to, fast_move, get_memory_from, stack_size, busy_field,
  ratio_factor_field, default_ratio, max_attempts,
}
use flash_stack.Fsgs.Promises.{Spacious, Promises, Serves}
use flash_stack.Fsgs.Ready.{Place, Says, Brought, Brought-trans, touched-Brought}
use flash_stack.Fsgs.Touch.{store-open, set_word-Brought}
use flash_stack.Fsgs.Fresh.{with_memory, get_memory_from_lem, page_free, page_leaves, Spacious-same}
use flash_stack.Fsgs.Moved.{Moving, move_to_lem}
use flash_stack.Fsgs.Fast.{touched-Moving, grown-Moving, grown-Room, grown-Carried, Carried}

fast_move_runs :
    (k : Os) (fuel md new_md new_stack n n' : ℕ) (w z : Thread) (m1 m2 : Memory)
    → store (md + ratio_factor_field) default_ratio w
      ≡ some (tt, set_word (md + ratio_factor_field) default_ratio w)
    → get_memory_from k fuel 0 page_size (set_word (md + ratio_factor_field) default_ratio w)
      ≡ some (new_md, with_memory m1 n (set_word (md + ratio_factor_field) default_ratio w))
    → get_memory_from k fuel 0 stack_size
        (with_memory m1 n (set_word (md + ratio_factor_field) default_ratio w))
      ≡ some (
        new_stack,
        with_memory m2 n' (with_memory m1 n (set_word (md + ratio_factor_field) default_ratio w)),
      )
    → move_to k md new_md new_stack
        (with_memory m2 n' (with_memory m1 n (set_word (md + ratio_factor_field) default_ratio w)))
      ≡ some (new_md, z)
    → fast_move k fuel md w ≡ some (new_md, z)
unfolding fast_move
fast_move_runs k fuel md new_md new_stack n n' w z m1 m2 e r1 r2 r3 =
    rw (◌>>=◌, ◌>>◌, e, r1, r2, r3)

pub fast_move-Carried :
    (k : Os) (c c' fuel md base shift r : ℕ) (w : Thread)
    → Promises k
    → Serves k
    → Spacious c c' w.memory.readable
    → max_attempts + 2 ≤ fuel
    → Moving md base shift r w
    → (md' : ℕ) × (base' : ℕ) × (z : Thread) × (fast_move k fuel md w ≡ some (md', z))
      × Carried md base md' base' shift r w z
fast_move-Carried k c c' fuel md base shift r w promises serves room_for enough m =
    let w0 = set_word (md + ratio_factor_field) default_ratio w in
    let m0 = touched-Moving md base shift r ratio_factor_field default_ratio w (inr refl) m in
    let (new_md, t1, n, run1, g1) =
      get_memory_from_lem k c fuel 0 page_size w0 promises serves (omega (arith, enough))
        (omega (arith, enough)) (page_free c c' w0.memory.readable room_for) in
    let (d, free) =
      page_leaves c c' new_md w0.memory t1
        (Spacious-same c c' w.memory.readable w0.memory.readable (λ b x. x) room_for) g1 in
    let w1 = with_memory t1 n w0 in
    let m1 = grown-Moving md base shift r new_md page_size n w0 t1 g1 m0 in
    let (new_stack, t2, n', run2, g2) =
      get_memory_from_lem k d fuel 0 stack_size w1 promises serves (omega (arith, enough))
        (omega (arith, enough)) free in
    let w2 = with_memory t2 n' w1 in
    let m2 = grown-Moving md base shift r new_stack stack_size n' w1 t2 g2 m1 in
    let room = grown-Room md base new_md new_stack w0.memory t1 t2 m0.place m1.place g1 g2 in
    let (z, run3, s) = move_to_lem k md base new_md new_stack shift r w2 promises serves m2 room in
    let carried = grown-Carried md base new_md new_stack shift r n n' w0 z t1 t2 m0.place g1 g2 s in
    (
      new_md,
      new_stack,
      z,
      fast_move_runs k fuel md new_md new_stack n n' w z t1 t2
          (store-open md ratio_factor_field default_ratio w (omega arith) m.is_open) run1 run2 run3,
      record {
        moving = carried.moving;
        gs_is = carried.gs_is;
        inited_same = carried.inited_same;
        brought =
            Brought-trans z.memory
              (set_word-Brought md base ratio_factor_field default_ratio w (omega arith) m.place)
              carried.brought;
      },
    )

-- A thread whose shadow stack lies at `base` and whose metadata at `md`, for the gs register, says
-- so, with the flag clear.
pub record Ready (md base shift r : ℕ) (w : Thread) : Type 0 where
  pub place : Place md base w.memory
  pub says : Says md base shift r 0 w.memory.word
  pub gs_is : w.gs ≡ md
  pub inited_is : w.inited ≡ true

-- From `w` to `z` nothing is lost.
pub record Survives (md base md' base' shift r : ℕ) (w z : Thread) : Type 0 where
  pub ready : Ready md' base' shift r z
  pub brought : Brought md base md' base' w.memory z.memory

pub Says-busy :
    (md base shift r busy v : ℕ) (w : Thread)
    → Says md base shift r busy w.memory.word
    → Says md base shift r v (set_word (md + busy_field) v w).memory.word
Says-busy md base shift r busy v w s = record {
  self_is = ground (arith, s.self_is);
  diff_is = ground (arith, s.diff_is);
  r_is = ground (arith, s.r_is);
  busy_is = ground arith;
  stack_is = ground (arith, s.stack_is);
  inited_is = ground (arith, s.inited_is);
  top_is = ground (arith, s.top_is);
}

pub Says-same :
    (md base shift r busy : ℕ) (f g : ℕ → ℕ)
    → ((b : ℕ) → g b ≡ f b)
    → Says md base shift r busy f
    → Says md base shift r busy g
Says-same md base shift r busy f g e s = record {
  self_is = e _ ∙ s.self_is;
  diff_is = e _ ∙ s.diff_is;
  r_is = e _ ∙ s.r_is;
  busy_is = e _ ∙ s.busy_is;
  stack_is = e _ ∙ s.stack_is;
  inited_is = e _ ∙ s.inited_is;
  top_is = e _ ∙ s.top_is;
}

pub protected-Brought :
    (md base : ℕ) (write : Bool) (m t : Memory)
    → Place md base m
    → Protects md write m t
    → Brought md base md base m t
protected-Brought md base write m t p s =
    touched-Brought md base m t p (λ b o. s.word_same b) s.readable_still
      (λ b o. ground (arith, o, s.writable_now b))
