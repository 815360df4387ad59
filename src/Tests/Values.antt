-- ===== src/Tests/Values.antt =====
-- A function of the scheme USE_SPA_FS_GS_TLS with SPA_ENABLE_GS_MSR, whose values are changed.
use flash_stack.Base.{ℕ, ◌≡◌, ◌⊎◌, refl, true, some, ◌==◌, if◌then◌else◌, arith, inl}
use flash_stack.Asm.{add64}
use flash_stack.Asm.Machine.{Machine, jump, run}
use flash_stack.Scheme.{fs_gs_tls, epilogue}
use flash_stack.Scheme.Return.{AtEntry, entered}
use flash_stack.Fsgs.{Thread, fsgs_runtime_rerandomize}
use flash_stack.Fsgs.Whole.{Ready}
use flash_stack.Fsgs.Decoded.{Rerandomized, fsgs_runtime_rerandomize-Rerandomized}
use flash_stack.Fsgs.Changing.{begin, changed}
use flash_stack.Fsgs.Returned.{epilogue-changed}
use flash_stack.Tests.Movers.{
  system, system-Promises, system-Serves, thread, thread-Spacious, contents, is_mapped,
}
use flash_stack.Tests.Returns.{machine, program}

-- With a random value, and the end of the call stack 0x100 above the stack pointer of the
-- preparation.
abbrev valued : Machine
valued = record machine {
  word = λ x.
      if x == 0x80
      then 0x4005d0
      else if x == 0x10010
      then 0xffffffffffffff00
      else if x == 0x10040
      then 0x200
      else contents x;
}

valued-AtEntry : AtEntry (fs_gs_tls true) program valued
valued-AtEntry = record {
  instrumented = λ e. ground (arith, e);
  rsp_word = omega arith;
  words = λ a. ground arith;
  symbols = λ x. omega arith;
  apart = (λ e. ground (arith, e), (λ e. ground (arith, e), tt));
}

abbrev valued_thread : Thread
valued_thread = record thread {
  memory = record {
    word = (entered (fs_gs_tls true) program valued).word;
    readable = is_mapped;
    writable = is_mapped;
  };
}

valued-Ready : Ready 0x10000 0x20000000 0x7fff00 0xffffffffffffff00 valued_thread
valued-Ready = record {
  place = record {
    md_aligned = refl;
    md_user = omega arith;
    base_user = omega arith;
    apart = inl (omega arith);
    md_readable = λ b o. ground (arith, o);
    stack_readable = λ i l. ground (arith, l);
    stack_writable = λ i l. ground (arith, l);
  };
  says = record {
    self_is = refl;
    diff_is = refl;
    r_is = refl;
    busy_is = refl;
    stack_is = refl;
    inited_is = refl;
    top_is = refl;
  };
  gs_is = refl;
  inited_is = refl;
}

fsgs_runtime_rerandomize-Rerandomized_example :
    (md' : ℕ) × (base' : ℕ) × (r' : ℕ) × (z : Thread) × (fsgs_runtime_rerandomize system 7 true 0x40
        valued_thread
      ≡ some (tt, z))
    × ((r' ≡ 0xffffffffffffff00) ⊎ (r' ≡ add64 0xffffffffffffff00 (system.rdrand 0)))
    × Rerandomized 0x10000 0x20000000 md' base' 0x100 0xffffffffffffff00 r' 0x40 valued_thread z
fsgs_runtime_rerandomize-Rerandomized_example =
    fsgs_runtime_rerandomize-Rerandomized system 0x40000000 0x80000000 7 0x40 0x10000 0x20000000
      0x100 0xffffffffffffff00 0x200 valued_thread system-Promises system-Serves thread-Spacious
      (omega arith) valued-Ready (omega arith) refl refl refl (omega arith) (omega arith)
      (omega arith) (omega arith)

-- The same, for the witness below.
changed_once :
    (md' : ℕ) × (base' : ℕ) × (r' : ℕ) × (z : Thread) × (fsgs_runtime_rerandomize system 7 true 0x40
        valued_thread
      ≡ some (tt, z))
    × ((r' ≡ 0xffffffffffffff00) ⊎ (r' ≡ add64 0xffffffffffffff00 (system.rdrand 0)))
    × Rerandomized 0x10000 0x20000000 md' base' 0x100 0xffffffffffffff00 r' 0x40 valued_thread z
changed_once =
    fsgs_runtime_rerandomize-Rerandomized system 0x40000000 0x80000000 7 0x40 0x10000 0x20000000
      0x100 0xffffffffffffff00 0x200 valued_thread system-Promises system-Serves thread-Spacious
      (omega arith) valued-Ready (omega arith) refl refl refl (omega arith) (omega arith)
      (omega arith) (omega arith)

abbrev leaving : Machine
leaving = record valued { gs_base = changed_once.3.gs; word = changed_once.3.memory.word }

epilogue-changed_example :
    (c : Machine) × (run program (epilogue (fs_gs_tls true)) leaving ≡ jump 0x4005d0 c)
    × (c.rsp_ ≡ add64 valued.rsp_ 8)
epilogue-changed_example =
    epilogue-changed system 0x10000 0x20000000 0xffffffffffffff00 0x100 program valued leaving
      valued_thread changed_once.3 system-Promises system-Serves refl (omega arith) refl
      (omega arith) (omega arith) valued-AtEntry refl valued-Ready (λ a. refl)
      (changed 0x40000000 0x80000000 7 0x40 begin thread-Spacious (omega arith) refl (omega arith)
        (omega arith) (omega arith) (omega arith) changed_once.4)
      refl refl (λ a. refl)
