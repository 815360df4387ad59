-- ===== src/Tests/Buddies.antt =====
-- A thread of the buddy schemes.
use flash_stack.Base.{
  ℕ, ◌+◌, ◌-◌, ◌*◌, ◌%◌, ◌≡◌, inl, inr, refl, true, false, ◌&&◌, ◌||◌, some, ◌==◌, ltb, leb,
  if◌then◌else◌, arith,
}
use flash_stack.Asm.{word_mod, neg, add64}
use flash_stack.Asm.Machine.{Machine, Env, jump, run}
use flash_stack.Scheme.{buddy_stack_tls, def_ss_offset, epilogue}
use flash_stack.Scheme.Return.{AtEntry, entered}
use flash_stack.Buddy.{
  B, Process, Kernel, page_size, random_val_field, avx2_64_x_4_add, buddy_get_tls_info,
  buddy_call_stack_size,
}
use flash_stack.Buddy.Promises.{on_page, Promises}
use flash_stack.Buddy.Rounds.{Shifted, avx2_64_x_4_add_lem}
use flash_stack.Buddy.Randomize.{au_edu_unsw_randomize}
use flash_stack.Buddy.Layout.{Pair, Stack, Buddies, lower_info, upper_info, buddy_get_tls_info_lem}
use flash_stack.Hooks.{recvmsg, do_randomization, with_pointer, call_hook}
use flash_stack.Hooks.Kept.{OneCall, ahead_of_it, Keeps, call_hook_lem}
use flash_stack.Buddy.Survive.{Randomized, au_edu_unsw_randomize_lem}
use flash_stack.Buddy.During.{entry, randomized, epilogue-randomize}
use flash_stack.Buddy.Setup.{set_stk_size_global_var, buddy_init_main_thread_tls}
use flash_stack.Buddy.Ready.{buddy_init_main_thread_tls_lem}
use flash_stack.Buddy.Size.{set_stk_size_global_var_lem}

abbrev kernel : Kernel
kernel = record {
  mprotect = λ a n write m.
      some (record m { writable = λ b. if leb a b && ltb b (a + n) then write else m.writable b });
  mask_at = 0x601000;
}

kernel-Promises : Promises kernel
kernel-Promises = record {
  mprotect_protects = λ a write m aligned readable. (
    record m { writable = λ b. if leb a b && ltb b (a + page_size) then write else m.writable b },
    refl,
    record {
      word_same = λ b. refl;
      readable_still = λ b h. h;
      unmapped_still = λ b h. h;
      writable_now = λ b. refl;
    },
  );
}

-- A stack that ends in the middle of an aligned block.
abbrev top : ℕ
top = 0x7ffff0003000

-- The records are set up, with the random value 1000.
abbrev words : ℕ → ℕ
words b =
    if b == 0x601000
    then neg def_ss_offset
    else if b == lower_info top || b == upper_info top
    then 1000
    else if b == lower_info top + 8 || b == upper_info top + 8
    then top
    else if b == lower_info top + 16
    then upper_info top
    else if b == upper_info top + 16
    then lower_info top
    else if b == lower_info top + 24 || b == upper_info top + 24
    then 0
    else 0x4005d0

abbrev process : (ℕ → ℕ) → Process
process f = record {
  memory = record { word = f; readable = λ b. true; writable = λ b. true };
  rand_cnt = 0;
}

abbrev started : Process
started = process words

top-Stack : Stack top
top-Stack = record { top_aligned = omega arith; top_user = omega arith; top_room = omega arith }

started-Buddies : Buddies kernel top 1000 started
started-Buddies = record {
  stack = top-Stack;
  mask = record { mask_readable = refl; mask_is = refl; mask_apart = inl (omega arith) };
  random_word = omega arith;
  lower = record {
    page_readable = λ b o. refl;
    random_is = refl;
    top_is = refl;
    link_is = refl;
    idle = refl;
  };
  upper = record {
    page_readable = λ b o. refl;
    random_is = refl;
    top_is = refl;
    link_is = refl;
    idle = refl;
  };
  shadow_writable = λ b lo hi. refl;
}

avx2_64_x_4_add_lem_example :
    (q : Process) × (avx2_64_x_4_add 1008 1088 5 (process words) ≡ some (tt, q))
    × Shifted 992 1088 5 (process words) q
avx2_64_x_4_add_lem_example =
    avx2_64_x_4_add_lem 1008 1088 5 (process words) (omega arith) (omega arith) refl
      (λ b lo hi. refl)

buddy_get_tls_info_lem_example :
    (info : ℕ) × (other : ℕ) × (buddy_get_tls_info kernel (top - 0x4000) started
      ≡ some (info, started))
    × Pair top info other
    × (started.memory.word (info + random_val_field) ≡ 1000)
    × (started.memory.word (other + random_val_field) ≡ 1000)
buddy_get_tls_info_lem_example =
    buddy_get_tls_info_lem kernel top 1000 (top - 0x4000) started started-Buddies (omega arith)
      (omega arith)

au_edu_unsw_randomize_lem_example :
    (q : Process) × (au_edu_unsw_randomize kernel (lower_info top) 99 12345 (top - 0x4000) started
      ≡ some (tt, q))
    × Randomized kernel top 1000 (lower_info top) (upper_info top) 12345 (top - 0x4000) started q
au_edu_unsw_randomize_lem_example =
    au_edu_unsw_randomize_lem kernel top 1000 (lower_info top) (upper_info top) 99 12345
      (top - 0x4000) started kernel-Promises started-Buddies (inl (refl, refl)) (omega arith)
      (omega arith) refl

-- The word 0x4005d0 is no link.
abbrev machine : Machine
machine = record {
  rax_ = 0;
  rdi_ = 0;
  rsi_ = 0;
  rdx_ = 0;
  rsp_ = top - 0x2000;
  r10_ = 0;
  r11_ = 0;
  gs_base = 0;
  zero_flag = false;
  word = λ b. words b % word_mod;
}

abbrev program : Env
program = record {
  symbol = λ s. 0x601000;
  label_at = λ n. n;
  function_at = λ f. 0;
  value_of = λ o m. 0;
  call_plt = λ f m. m;
}

abbrev inside_function : Process
inside_function = process (entered buddy_stack_tls program machine).word

inside_Buddies : Buddies kernel top 1000 inside_function
inside_Buddies = record {
  stack = top-Stack;
  mask = record { mask_readable = refl; mask_is = refl; mask_apart = inl (omega arith) };
  random_word = omega arith;
  lower = record {
    page_readable = λ b o. refl;
    random_is = refl;
    top_is = refl;
    link_is = refl;
    idle = refl;
  };
  upper = record {
    page_readable = λ b o. refl;
    random_is = refl;
    top_is = refl;
    link_is = refl;
    idle = refl;
  };
  shadow_writable = λ b lo hi. refl;
}

moved :
    (q : Process) × (au_edu_unsw_randomize kernel
        (lower_info top)
        99
        12345
        (top - 0x4000)
        inside_function
      ≡ some (tt, q))
    × Randomized kernel top 1000
        (lower_info top)
        (upper_info top)
        12345
        (top - 0x4000)
        inside_function
        q
moved =
    au_edu_unsw_randomize_lem kernel top 1000 (lower_info top) (upper_info top) 99 12345
      (top - 0x4000) inside_function kernel-Promises inside_Buddies (inl (refl, refl)) (omega arith)
      (omega arith) refl

machine-AtEntry : AtEntry buddy_stack_tls program machine
machine-AtEntry = record {
  instrumented = λ e. ground (arith, e);
  rsp_word = omega arith;
  words = λ a. omega arith;
  symbols = λ x. omega arith;
  apart = (λ e. ground (arith, e), tt);
}

abbrev leaving : Machine
leaving = record machine { word = moved.0.memory.word }

epilogue-randomize_example :
    (c : Machine) × (run program (epilogue buddy_stack_tls) leaving ≡ jump 0x4005d0 c)
    × (c.rsp_ ≡ add64 machine.rsp_ 8)
epilogue-randomize_example =
    epilogue-randomize kernel top 1000 13345 program machine leaving inside_function moved.0
      kernel-Promises inside_Buddies (omega arith) (omega arith) refl machine-AtEntry (λ a. refl)
      (randomized (lower_info top) (upper_info top) 99 12345 (top - 0x4000) entry (inl (refl, refl))
        (omega arith) (omega arith) refl moved.1)
      refl (λ a. refl)

raised_Stack : Stack (top + 3 * 0x800000)
raised_Stack = record { top_aligned = omega arith; top_user = omega arith; top_room = omega arith }

buddy_init_main_thread_tls_lem_example :
    (q : Process) × (buddy_init_main_thread_tls kernel (some (top - 0x800000, 0x800000)) 77 started
      ≡ some (tt, q))
    × Buddies kernel (top + 3 * 0x800000) 77 q
    × ((b : ℕ) → on_page (top + 2 * 0x800000) b ≡ true → q.memory.writable b ≡ false)
buddy_init_main_thread_tls_lem_example =
    buddy_init_main_thread_tls_lem kernel (top - 0x800000) 0x800000 77 (top + 3 * 0x800000) started
      kernel-Promises refl raised_Stack
      (record { mask_readable = refl; mask_is = refl; mask_apart = inl (omega arith) })
      (omega arith) (λ b o. refl) (λ b o. refl) (λ b o. refl) (λ b lo hi. refl)

set_stk_size_global_var_lem_example :
    (q : Process) × (set_stk_size_global_var kernel (some 4096) started ≡ some (tt, q))
    × (buddy_call_stack_size kernel q ≡ some (0x400000, q))
    × ((b : ℕ) → (b == 0x601000) ≡ false → q.memory.word b ≡ started.memory.word b)
    × ((b : ℕ) → on_page 0x601000 b ≡ true → q.memory.writable b ≡ false)
set_stk_size_global_var_lem_example =
    set_stk_size_global_var_lem kernel 4096 started kernel-Promises refl (λ b o. refl)

-- A function of the C library that returns 42.
abbrev real : B ℕ
real p = some (42, p)

call_hook_lem_example :
    (v : ℕ) × (r' : ℕ) × (q : Process) × (call_hook
        (do_randomization kernel 64000000 12345 (top - 0x4000) (top - 0x5000))
        real
        (λ h. true)
        recvmsg
        (λ h. false)
        started
      ≡ some ((v, with_pointer (λ h. true) recvmsg (λ h. false)), q))
    × Keeps kernel top (top - 0x5000) 1000 r' started q
    × OneCall ahead_of_it
        (do_randomization kernel 64000000 12345 (top - 0x4000) (top - 0x5000))
        real
        v
        started
        q
call_hook_lem_example =
    call_hook_lem kernel top 1000 64000000 12345 (top - 0x4000) (top - 0x5000) real (λ h. true)
      recvmsg (λ h. false) started kernel-Promises (omega arith) (omega arith) (omega arith) refl
      (λ r p b. (42, p, refl, record { in_order = b; decoded = λ a l u e. refl })) (inr refl)
      started-Buddies
