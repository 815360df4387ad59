-- ===== src/Scheme/Calls.antt =====
-- The code that add_instrumentation of FlashStack/afl-as.c prints for a call when
-- ENABLE_GS_RSP_CALL_INSTRUMENTED is defined: the caller writes the return address to the shadow
-- stack itself and enters a protected function behind its prologue.
use flash_stack.Base.{
  ℕ, ◌*◌, ◌<◌, ◌≡◌, ◌≢◌, ◌⊎◌, refl, Bool, true, false, List, [], ◌∷◌, ◌++◌, arith, if◌then◌else◌,
  Bytes, ◌==◌,
}
use flash_stack.Asm.{
  word_mod, neg, add64, sub64, rax, rsp, r10, r11, imm, reg, mem, mem_index, gs_index, gs_at,
  verbatim, Instr, movq, addq, cmpq, leaq, callq_star, callq_offset, jne, label,
}
use flash_stack.Asm.Machine.{Machine, Env, Outcome, call, run, push}
use flash_stack.Scheme.{
  Scheme, shadow_stack, gs_rsp, fs_gs_tls, user_space_size, offset_diff, offset_r,
}
use flash_stack.Scheme.Return.{entered}

-- SPA_PROTECTED_FUNC_MAGIC_NUM: the first eight bytes of the prologue, little-endian.
abbrev pub magic_num : Scheme → ℕ
magic_num (fs_gs_tls true) = 0x1c034c65241c8b4c
magic_num (fs_gs_tls false) = 0x148b4c65241c8b4c
magic_num _ = 0x0000ba49241c8b4c

-- SPA_LENGTH_OF_PROTECTED_PROLOGUE
abbrev pub prologue_length : Scheme → ℕ
prologue_length (fs_gs_tls true) = 26
prologue_length (fs_gs_tls false) = 17
prologue_length _ = 19

-- From r11 to the shadow slot of the call that follows. Only the two schemes on the gs register
-- instrument calls.
abbrev pub store_ahead : Scheme → List Instr
store_ahead (fs_gs_tls msr) =
    (if msr then addq (gs_at offset_r) (reg r11) ∷ [] else [])
    ++ (movq (gs_at offset_diff) (reg r10) ∷ movq (reg r11) (mem_index (neg 8) rsp r10 1) ∷ [])
store_ahead _ =
    movq (imm (neg user_space_size)) (reg r10) ∷ movq (reg r11) (gs_index (neg 8) rsp r10 1) ∷ []

-- `callq *operand`
abbrev pub indirect_call : Scheme → Bytes → List Instr
indirect_call s operand =
    movq (verbatim operand) (reg rax)
    ∷ movq (imm (magic_num s)) (reg r11)
    ∷ cmpq (mem 0 rax) (reg r11)
    ∷ jne 1
    ∷ leaq 2 r11
    ∷ (store_ahead s
        ++ (addq (imm (prologue_length s)) (reg rax)
            ∷ label 1
            ∷ callq_star (reg rax)
            ∷ label 2
            ∷ []))

-- `callq f`, with `f` in the list of protected functions; `line` is the call without its comment.
abbrev pub direct_call : Scheme → Bytes → List Instr
direct_call s line =
    leaq 1 r11 ∷ (store_ahead s ++ (callq_offset line (prologue_length s) ∷ label 1 ∷ []))

-- A call as the compiler wrote it: to `target`, to come back at `back`.
abbrev pub plain_call : Machine → ℕ → Machine
plain_call m back = push m back

-- The stack pointer, the registers of the arguments and the base of the gs segment.
abbrev pub callee_regs : Machine → ℕ × ℕ × ℕ × ℕ × ℕ
callee_regs m = (m.rsp_, m.rdi_, m.rsi_, m.rdx_, m.gs_base)

-- Two machines agree on these and on every word of memory.
pub record SameForCallee (a b : Machine) : Type 0 where
  pub regs_same : callee_regs a ≡ callee_regs b
  pub word_same : (x : ℕ) → a.word x ≡ b.word x

-- The caller is about to call: the push does not hit the data of the scheme.
pub record AtCall (s : Scheme) (e : Env) (m : Machine) : Type 0 where
  pub on_gs : (s ≡ gs_rsp) ⊎ ((msr : Bool) × (s ≡ fs_gs_tls msr))
  pub rsp_word : m.rsp_ < word_mod
  pub gs_word : m.gs_base < word_mod
  pub labels : (k : ℕ) → e.label_at k < word_mod
  pub push_spares_diff : sub64 m.rsp_ 8 ≢ add64 m.gs_base offset_diff
  pub push_spares_r : sub64 m.rsp_ 8 ≢ add64 m.gs_base offset_r
  pub slot_apart :
      add64 (neg 8) (add64 m.rsp_ (m.word (add64 m.gs_base offset_diff) * 1)) ≢ sub64 m.rsp_ 8

-- A run of `code` calls `target`, and the callee finds what it would find in `callee`, but `left` in
-- rax, and other contents of r10 and r11.
abbrev pub CallsInto : Env → List Instr → Machine → ℕ → Machine → ℕ → Type 0
CallsInto e code m target callee left =
    (c : Machine) × (run e code m ≡ call target c) × SameForCallee c callee × (c.rax_ ≡ left)

abbrev called : Outcome → Machine → Machine
called (call t c) m = c
called _ m = m

-- The eight bytes at the target are those of a prologue.
abbrev pub is_protected : Scheme → Machine → ℕ → Bool
is_protected s m target = magic_num s == m.word (add64 0 target)

module _ (e : Env) (m : Machine) where
  direct_same :
      (s : Scheme) (line : Bytes)
      → AtCall s e m
      → (s ≡ gs_rsp) ⊎ ((msr : Bool) × (s ≡ fs_gs_tls msr))
      → CallsInto e
          (direct_call s line)
          m
          (add64 (e.function_at line) (prologue_length s))
          (entered s e (plain_call m (e.label_at 1)))
          m.rax_
  direct_same gs_rsp line h _ =
      let c = called (run e (direct_call gs_rsp line) m) m in
      (c, refl, record { regs_same = refl; word_same = λ x. ground arith }, refl)
  direct_same (fs_gs_tls true) line h _ =
      let c = called (run e (direct_call (fs_gs_tls true) line) m) m in
      (
        c,
        refl,
        record {
          regs_same = refl;
          word_same =
              λ x. ground (arith, h.push_spares_diff, h.push_spares_r, h.slot_apart, h.labels 1);
        },
        refl,
      )
  direct_same (fs_gs_tls false) line h _ =
      let c = called (run e (direct_call (fs_gs_tls false) line) m) m in
      (
        c,
        refl,
        record { regs_same = refl; word_same = λ x. ground (arith, h.push_spares_diff) },
        refl,
      )
  direct_same _ line h w = ground arith

  -- In the two schemes on the gs register, where the push of the call hits neither the data of
  -- the scheme nor the shadow slot, a direct call that is instrumented enters the function behind
  -- its prologue, with the stack pointer, the argument registers, the gs base and the whole
  -- memory, shadow stack included, as a plain call followed by the prologue would leave them, and
  -- with rax as it was.
  pub direct_call-entered :
      (s : Scheme) (line : Bytes)
      → AtCall s e m
      → CallsInto e
          (direct_call s line)
          m
          (add64 (e.function_at line) (prologue_length s))
          (entered s e (plain_call m (e.label_at 1)))
          m.rax_
  direct_call-entered s line h = direct_same s line h h.on_gs

  indirect_same :
      (s : Scheme) (operand : Bytes)
      → AtCall s e m
      → (s ≡ gs_rsp) ⊎ ((msr : Bool) × (s ≡ fs_gs_tls msr))
      → is_protected s m (e.value_of operand m) ≡ true
      → CallsInto e
          (indirect_call s operand)
          m
          (add64 (e.value_of operand m) (prologue_length s))
          (entered s e (plain_call m (e.label_at 2)))
          (add64 (e.value_of operand m) (prologue_length s))
  indirect_same gs_rsp operand h _ b =
      let c = called (run e (indirect_call gs_rsp operand) m) m in
      (
        c,
        ground (arith, b),
        record { regs_same = ground (arith, b); word_same = λ x. ground (arith, b) },
        ground (arith, b),
      )
  indirect_same (fs_gs_tls true) operand h _ b =
      let c = called (run e (indirect_call (fs_gs_tls true) operand) m) m in
      (
        c,
        ground (arith, b),
        record {
          regs_same = ground (arith, b);
          word_same =
              λ x. ground (arith, b, h.push_spares_diff, h.push_spares_r, h.slot_apart, h.labels 2);
        },
        ground (arith, b),
      )
  indirect_same (fs_gs_tls false) operand h _ b =
      let c = called (run e (indirect_call (fs_gs_tls false) operand) m) m in
      (
        c,
        ground (arith, b),
        record {
          regs_same = ground (arith, b);
          word_same = λ x. ground (arith, b, h.push_spares_diff);
        },
        ground (arith, b),
      )
  indirect_same shadow_stack operand h w b = ground arith
  indirect_same _ operand h w b = absurd (ground arith)

  indirect_plain :
      (s : Scheme) (operand : Bytes)
      → (s ≡ gs_rsp) ⊎ ((msr : Bool) × (s ≡ fs_gs_tls msr))
      → is_protected s m (e.value_of operand m) ≡ false
      → CallsInto e
          (indirect_call s operand)
          m
          (e.value_of operand m)
          (plain_call m (e.label_at 2))
          (e.value_of operand m)
  indirect_plain gs_rsp operand _ b =
      let c = called (run e (indirect_call gs_rsp operand) m) m in
      (
        c,
        ground (arith, b),
        record { regs_same = ground (arith, b); word_same = λ x. ground (arith, b) },
        ground (arith, b),
      )
  indirect_plain (fs_gs_tls true) operand _ b =
      let c = called (run e (indirect_call (fs_gs_tls true) operand) m) m in
      (
        c,
        ground (arith, b),
        record { regs_same = ground (arith, b); word_same = λ x. ground (arith, b) },
        ground (arith, b),
      )
  indirect_plain (fs_gs_tls false) operand _ b =
      let c = called (run e (indirect_call (fs_gs_tls false) operand) m) m in
      (
        c,
        ground (arith, b),
        record { regs_same = ground (arith, b); word_same = λ x. ground (arith, b) },
        ground (arith, b),
      )
  indirect_plain _ operand w b = absurd (ground arith)

  -- In the same schemes and under the same conditions, an indirect call that is instrumented
  -- looks at the eight bytes at its target. If they are those of a prologue, it enters the
  -- function behind its prologue, with the stack pointer, the argument registers, the gs base and
  -- the whole memory as a plain call followed by the prologue would leave them; if not, it enters
  -- the function at its start, with these as the plain call would leave them. In both cases rax is
  -- lost: it holds the address that is entered, and not what the caller put there, which for a
  -- variadic function is the number of its vector arguments.
  pub indirect_call-entered :
      (s : Scheme) (operand : Bytes)
      → AtCall s e m
      → (is_protected s m (e.value_of operand m) ≡ true
          → CallsInto e
              (indirect_call s operand)
              m
              (add64 (e.value_of operand m) (prologue_length s))
              (entered s e (plain_call m (e.label_at 2)))
              (add64 (e.value_of operand m) (prologue_length s)))
        × (is_protected s m (e.value_of operand m) ≡ false
            → CallsInto e
                (indirect_call s operand)
                m
                (e.value_of operand m)
                (plain_call m (e.label_at 2))
                (e.value_of operand m))
  indirect_call-entered s operand h =
      (indirect_same s operand h h.on_gs, indirect_plain s operand h.on_gs)
