-- ===== src/Tests/Returns.antt =====
-- A function of the scheme USE_SPA_FS_GS_TLS that is moved, and a thread that ends.
use flash_stack.Base.{
  ℕ, ◌+◌, ◌≤◌, ◌<◌, ◌≡◌, refl, true, false, ◌||◌, List, [], ◌∷◌, none, some, ◌==◌, if◌then◌else◌,
  arith, inl, length,
}
use flash_stack.Asm.{add64, sub64}
use flash_stack.Asm.Machine.{Machine, Env, jump, run}
use flash_stack.Scheme.{fs_gs_tls, epilogue}
use flash_stack.Scheme.Return.{AtEntry, entered}
use flash_stack.Runtime.Promises.{inside}
use flash_stack.Runtime.Regions.{destructor_iterations}
use flash_stack.Buddy.{Memory}
use flash_stack.Buddy.Promises.{on_page}
use flash_stack.Fsgs.{Thread, fsgs_runtime_rerandomize, stack_size}
use flash_stack.Fsgs.Whole.{Ready, Survives}
use flash_stack.Fsgs.Call.{slot_at, fsgs_runtime_rerandomize_lem}
use flash_stack.Fsgs.During.{entry, moved, epilogue-moved}
use flash_stack.Fsgs.Regions.{ThreadRegionInfo, cleanup_handler, sweep_regions, cycles_after_end}
use flash_stack.Fsgs.Ended.{Outside, cleanup_handler_lem}
use flash_stack.Tests.Movers.{
  system, system-Promises, system-Serves, thread, thread-Ready, thread-Spacious, contents,
  is_mapped,
}

abbrev unused : ThreadRegionInfo
unused = record {
  valid = false;
  metadata = 0;
  metadata_size = 0;
  shadow_stack = 0;
  shadow_stack_size = 0;
  expired_time = 0;
  tid = 0;
}

cleanup_handler_lem_example :
    (4 < destructor_iterations
      → cleanup_handler system 9 4 (unused ∷ []) thread ≡ some ((some 5, unused ∷ []), thread))
    × (destructor_iterations ≤ 4
        → (slots' : List ThreadRegionInfo) × (cleanup_handler system 9 4 (unused ∷ []) thread
            ≡ some ((none, slots'), record thread { readings = 4 }))
          × ((m : Memory) (n b : ℕ)
              → ((j : ℕ)
                  → n ≤ j
                  → j < n + length (unused ∷ [])
                  → cycles_after_end < sub64 (system.rdtsc j) (system.rdtsc 3))
              → on_page 0x10000 b || inside 0x20000000 stack_size b ≡ true
              → (sweep_regions system slots' m n).1.readable b ≡ false)
          × ((m : Memory) (n b : ℕ)
              → Outside b (unused ∷ [])
              → on_page 0x10000 b || inside 0x20000000 stack_size b ≡ false
              → ((sweep_regions system slots' m n).1.readable b ≡ m.readable b)
                × ((sweep_regions system slots' m n).1.word b ≡ m.word b)))
cleanup_handler_lem_example =
    cleanup_handler_lem system 0x10000 0x20000000 0x7fff00 0 9 4 (unused ∷ []) thread
      system-Promises thread-Ready refl

abbrev pub machine : Machine
machine = record {
  rax_ = 0;
  rdi_ = 0;
  rsi_ = 0;
  rdx_ = 0;
  rsp_ = 0x80;
  r10_ = 0;
  r11_ = 0;
  gs_base = 0x10000;
  zero_flag = false;
  word = λ x. if x == 0x80 then 0x4005d0 else contents x;
}

abbrev pub program : Env
program = record {
  symbol = λ s. 0;
  label_at = λ n. n;
  function_at = λ f. 0;
  value_of = λ o m. 0;
  call_plt = λ f m. m;
}

machine-AtEntry : AtEntry (fs_gs_tls false) program machine
machine-AtEntry = record {
  instrumented = λ e. ground (arith, e);
  rsp_word = omega arith;
  words = λ a. ground arith;
  symbols = λ x. omega arith;
  apart = (λ e. ground (arith, e), tt);
}

abbrev inside_thread : Thread
inside_thread = record thread {
  memory = record {
    word = (entered (fs_gs_tls false) program machine).word;
    readable = is_mapped;
    writable = is_mapped;
  };
}

inside-Ready : Ready 0x10000 0x20000000 0x7fff00 0 inside_thread
inside-Ready = record {
  place = record {
    md_aligned = refl;
    md_user = omega arith;
    base_user = omega arith;
    apart = inl (omega arith);
    md_readable = λ b o. ground (arith, o);
    stack_readable = λ i l. ground (arith, l);
    stack_writable = λ i l. ground (arith, l);
  };
  says = record {
    self_is = refl;
    diff_is = refl;
    r_is = refl;
    busy_is = refl;
    stack_is = refl;
    inited_is = refl;
    top_is = refl;
  };
  gs_is = refl;
  inited_is = refl;
}

moved_once :
    (md' : ℕ) × (base' : ℕ) × (z : Thread) × (fsgs_runtime_rerandomize system 7 false 0x40
        inside_thread
      ≡ some (tt, z))
    × Survives 0x10000 0x20000000 md' base' 0x7fff00 0 inside_thread z
    × ((a : ℕ)
        → add64 a 0x7fff00 < stack_size
        → z.memory.word (slot_at md' z a)
          ≡ inside_thread.memory.word (slot_at 0x10000 inside_thread a))
moved_once =
    fsgs_runtime_rerandomize_lem system 0x40000000 0x80000000 7 0x40 0x10000 0x20000000 0x7fff00 0
      inside_thread system-Promises system-Serves thread-Spacious (omega arith) inside-Ready

abbrev leaving : Machine
leaving = record machine { gs_base = moved_once.2.gs; word = moved_once.2.memory.word }

epilogue-moved_example :
    (c : Machine) × (run program (epilogue (fs_gs_tls false)) leaving ≡ jump 0x4005d0 c)
    × (c.rsp_ ≡ add64 machine.rsp_ 8)
epilogue-moved_example =
    epilogue-moved system 0x10000 0x20000000 0x7fff00 0 program machine leaving inside_thread
      moved_once.2 system-Promises system-Serves (omega arith) machine-AtEntry refl inside-Ready
      (λ a. refl)
      (moved 0x40000000 0x80000000 7 0x40 entry thread-Spacious (omega arith) moved_once.3) refl
      refl (λ a. refl)
