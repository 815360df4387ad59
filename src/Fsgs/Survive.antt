-- ===== src/Fsgs/Survive.antt =====
-- fsgs_runtime_rerandomize of FlashStack/fsgs.c, from the test of the time to its return.
use flash_stack.Base.{
  ℕ, ◌+◌, ◌≤◌, ◌≡◌, inl, inr, ◌∙◌, refl, Bool, true, false, some, arith, Bool-cases, if◌then◌else◌,
}
use flash_stack.Base.Steps.{pure, ◌>>=◌, ◌>>◌}
use flash_stack.Asm.{sub64}
use flash_stack.Fsgs.{
  Os, Thread, set_word, store, mprotect, close_page, is_spent, move_if_due, change_values,
  change_and_move, busy_field, clock_field, ratio_factor_field, max_attempts,
}
use flash_stack.Fsgs.Promises.{Spacious, Promises, Serves}
use flash_stack.Fsgs.Ready.{Brought-trans, touched-Brought}
use flash_stack.Fsgs.Touch.{store-open, set_word-Brought}
use flash_stack.Fsgs.Fresh.{Spacious-same}
use flash_stack.Fsgs.Moved.{Moving}
use flash_stack.Fsgs.Fast.{touched-Moving, Carried}
use flash_stack.Fsgs.Whole.{Survives, fast_move-Carried, Says-busy, Says-same, protected-Brought}

-- What clears the flag.
pub cleared_lem :
    (md base shift r : ℕ) (w : Thread)
    → Moving md base shift r w
    → w.gs ≡ md
    → w.inited ≡ true
    → Survives md base md base shift r w (set_word (md + busy_field) 0 w)
cleared_lem md base shift r w m g i =
    let b = set_word-Brought md base busy_field 0 w (omega arith) m.place in
    record {
      ready = record {
        place = b.place;
        says = Says-busy md base shift r 1 0 w m.says;
        gs_is = g;
        inited_is = i;
      };
      brought = b;
    }

close_page-Survives :
    (k : Os) (md base shift r : ℕ) (w : Thread)
    → Promises k
    → Moving md base shift r w
    → w.gs ≡ md
    → w.inited ≡ true
    → (z : Thread) × (close_page k md w ≡ some (tt, z)) × Survives md base md base shift r w z
unfolding close_page
close_page-Survives k md base shift r w promises m g i =
    let c = cleared_lem md base shift r w m g i in
    let w1 = set_word (md + busy_field) 0 w in
    let stored = store-open md busy_field 0 w (omega arith) m.is_open in
    let (t, e, s) =
      promises.mprotect_protects md false w1.memory m.place.md_aligned c.ready.place.md_readable in
    let b = protected-Brought md base false w1.memory t c.ready.place s in
    (
      record w1 { memory = t },
      rw (◌>>=◌, ◌>>◌, stored, mprotect, e),
      record {
        ready = record {
          place = b.place;
          says = Says-same md base shift r 0 w1.memory.word t.word s.word_same c.ready.says;
          gs_is = g;
          inited_is = i;
        };
        brought = Brought-trans t c.brought b;
      },
    )

-- The metadata to go on with, moved or not.
goes_on :
    (k : Os) (c c' fuel md base shift r ratio : ℕ) (w : Thread)
    → Promises k
    → Serves k
    → Spacious c c' w.memory.readable
    → max_attempts + 2 ≤ fuel
    → Moving md base shift r w
    → w.gs ≡ md
    → (md' : ℕ) × (base' : ℕ) × (z : Thread) × (move_if_due k fuel md ratio w ≡ some (md', z))
      × Carried md base md' base' shift r w z
unfolding move_if_due
goes_on k c c' fuel md base shift r ratio w promises serves room enough m g =
    elim (Bool-cases (is_spent ratio)) [
      | inl h ↦
          let (md', base', z, run, carried) =
            fast_move-Carried k c c' fuel md base shift r w promises serves room enough m in
          (md', base', z, rw h run, carried)
      | inr h ↦ (
        md,
        base,
        w,
        rw h,
        record {
          moving = m;
          gs_is = g;
          inited_same = refl;
          brought =
              touched-Brought md base w.memory w.memory m.place (λ b o. refl) (λ b x. x)
                (λ b o. refl);
        },
      )
    ]

change_and_move_runs :
    (k : Os) (fuel : ℕ) (msr : Bool) (rsp md cur md' : ℕ) (w w1 w2 w3 z z' : Thread)
    → store (md + clock_field) cur w ≡ some (tt, w1)
    → (if msr then change_values k rsp md else pure tt) w1 ≡ some (tt, w2)
    → w2.memory.readable (md + ratio_factor_field) ≡ true
    → store (md + ratio_factor_field) (sub64 (w2.memory.word (md + ratio_factor_field)) 1) w2
      ≡ some (tt, w3)
    → move_if_due k fuel md (sub64 (w2.memory.word (md + ratio_factor_field)) 1) w3 ≡ some (md', z)
    → close_page k md' z ≡ some (tt, z')
    → change_and_move k fuel msr rsp md cur w ≡ some (tt, z')
unfolding change_and_move
change_and_move_runs k fuel msr rsp md cur md' w w1 w2 w3 z z' e c r e' run run' =
    rw (◌>>=◌, ◌>>◌, e, c, r, e', run, run')

-- From `w1`, with the time stored and perhaps the values changed, the call goes on to its return.
pub from_ratio-Survives :
    (k : Os) (c c' fuel : ℕ) (msr : Bool) (rsp md base shift r cur : ℕ) (w w1 w2 : Thread)
    → Promises k
    → Serves k
    → Spacious c c' w2.memory.readable
    → max_attempts + 2 ≤ fuel
    → store (md + clock_field) cur w ≡ some (tt, w1)
    → (if msr then change_values k rsp md else pure tt) w1 ≡ some (tt, w2)
    → Moving md base shift r w2
    → w2.gs ≡ md
    → w2.inited ≡ true
    → (md' : ℕ) × (base' : ℕ) × (z : Thread) × (change_and_move k fuel msr rsp md cur w
        ≡ some (tt, z))
      × Survives md base md' base' shift r w2 z
from_ratio-Survives k c c' fuel msr rsp md base shift r cur w w1 w2 promises serves room enough e e'
      m g i =
    let next = sub64 (w2.memory.word (md + ratio_factor_field)) 1 in
    let w3 = set_word (md + ratio_factor_field) next w2 in
    let m3 = touched-Moving md base shift r ratio_factor_field next w2 (inr refl) m in
    let readable = m.place.md_readable (md + ratio_factor_field) (ground arith) in
    let stored = store-open md ratio_factor_field next w2 (omega arith) m.is_open in
    let room3 = Spacious-same c c' w2.memory.readable w3.memory.readable (λ b x. x) room in
    let (md', base', z, run, carried) =
      goes_on k c c' fuel md base shift r next w3 promises serves room3 enough m3 g in
    let (z', run', s) =
      close_page-Survives k md' base' shift r z promises carried.moving carried.gs_is
        (carried.inited_same ∙ i) in
    (
      md',
      base',
      z',
      change_and_move_runs k fuel msr rsp md cur md' w w1 w2 w3 z z' e e' readable stored run run',
      record {
        ready = s.ready;
        brought =
            Brought-trans z'.memory
              (Brought-trans z.memory
                (set_word-Brought md base ratio_factor_field next w2 (omega arith) m.place)
                carried.brought)
              s.brought;
      },
    )

pub change_and_move-Survives :
    (k : Os) (c c' fuel rsp md base shift r cur : ℕ) (w : Thread)
    → Promises k
    → Serves k
    → Spacious c c' w.memory.readable
    → max_attempts + 2 ≤ fuel
    → Moving md base shift r w
    → w.gs ≡ md
    → w.inited ≡ true
    → (md' : ℕ) × (base' : ℕ) × (z : Thread) × (change_and_move k fuel false rsp md cur w
        ≡ some (tt, z))
      × Survives md base md' base' shift r w z
change_and_move-Survives k c c' fuel rsp md base shift r cur w promises serves room enough m g i =
    let w1 = set_word (md + clock_field) cur w in
    let m1 = touched-Moving md base shift r clock_field cur w (inl refl) m in
    let stored = store-open md clock_field cur w (omega arith) m.is_open in
    let room1 = Spacious-same c c' w.memory.readable w1.memory.readable (λ b x. x) room in
    let (md', base', z, run, s) =
      from_ratio-Survives k c c' fuel false rsp md base shift r cur w w1 w1 promises serves room1
        enough stored refl m1 g i in
    (
      md',
      base',
      z,
      run,
      record {
        ready = s.ready;
        brought =
            Brought-trans z.memory
              (set_word-Brought md base clock_field cur w (omega arith) m.place) s.brought;
      },
    )
