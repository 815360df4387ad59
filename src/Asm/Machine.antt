-- ===== src/Asm/Machine.antt =====
-- What the printed instructions do, as far as the saved return addresses depend on it. Memory is
-- read and written in whole words: two accesses touch the same word if their addresses are equal.
use Prim.Native.Nat.{bit_and}
use flash_stack.Base.{
  ℕ, ◌*◌, Bool, true, false, List, [], ◌∷◌, ◌==◌, if◌then◌else◌, Bytes, ◌≡◌, ◌≢◌, arith,
}
use flash_stack.Asm.{
  add64, sub64, Reg, rax, rdi, rsi, rdx, rsp, r10, r11, Symbol, Operand, imm, reg, mem, mem_index,
  gs_index, gs_at, got, word_at, verbatim, Instr, movq, addq, subq, andq, cmpq, leaq, pushq, popq,
  callq_plt, callq_star, callq_offset, jne, jmpq_star, label, Out, copy, mark, ins, counts,
}

pub record Machine : Type 0 where
  pub rax_ : ℕ
  pub rdi_ : ℕ
  pub rsi_ : ℕ
  pub rdx_ : ℕ
  pub rsp_ : ℕ
  pub r10_ : ℕ
  pub r11_ : ℕ
  pub gs_base : ℕ
  pub zero_flag : Bool
  pub word : ℕ → ℕ

-- What the assembler, the linker and the rest of the program supply.
pub record Env : Type 0 where
  -- the addresses of symbols, local labels and functions
  pub symbol : Symbol → ℕ
  pub label_at : ℕ → ℕ
  pub function_at : Bytes → ℕ
  -- the value of an operand that is copied from the input
  pub value_of : Bytes → Machine → ℕ
  -- a call that returns
  pub call_plt : Bytes → Machine → Machine

-- How a run ends: behind its last instruction, or at an address outside the printed code.
pub data Outcome : Type 0 where
  next : Machine → Outcome
  jump : ℕ → Machine → Outcome
  call : ℕ → Machine → Outcome
  stuck : Outcome

abbrev pub get : Machine → Reg → ℕ
get m rax = m.rax_
get m rdi = m.rdi_
get m rsi = m.rsi_
get m rdx = m.rdx_
get m rsp = m.rsp_
get m r10 = m.r10_
get m r11 = m.r11_

abbrev pub put : Machine → Reg → ℕ → Machine
put m rax v = record m { rax_ = v }
put m rdi v = record m { rdi_ = v }
put m rsi v = record m { rsi_ = v }
put m rdx v = record m { rdx_ = v }
put m rsp v = record m { rsp_ = v }
put m r10 v = record m { r10_ = v }
put m r11 v = record m { r11_ = v }

abbrev pub update : (ℕ → ℕ) → ℕ → ℕ → ℕ → ℕ
update f a v b = if a == b then v else f b

pub update-same : (f : ℕ → ℕ) (a v : ℕ) → update f a v a ≡ v
update-same f a v = ground arith

pub update-apart : (f : ℕ → ℕ) (a b v : ℕ) → a ≢ b → update f a v b ≡ f b
update-apart f a b v n = ground arith

abbrev pub store : Machine → ℕ → ℕ → Machine
store m a v = record m { word = update m.word a v }

abbrev pub indexed : Machine → ℕ → Reg → Reg → ℕ → ℕ
indexed m disp base index scale = add64 disp (add64 (get m base) (get m index * scale))

abbrev pub push : Machine → ℕ → Machine
push m v = let top = sub64 m.rsp_ 8 in store (record m { rsp_ = top }) top v

module _ (e : Env) where
  abbrev pub read : Machine → Operand → ℕ
  read m (imm n) = n
  read m (reg r) = get m r
  read m (mem disp base) = m.word (add64 disp (get m base))
  read m (mem_index disp base index scale) = m.word (indexed m disp base index scale)
  read m (gs_index disp base index scale) =
      m.word (add64 m.gs_base (indexed m disp base index scale))
  read m (gs_at disp) = m.word (add64 m.gs_base disp)
  read m (got s) = e.symbol s
  read m (word_at s) = m.word (e.symbol s)
  read m (verbatim text) = e.value_of text m

  -- An operand that cannot be written is never a destination here.
  abbrev pub write : Machine → Operand → ℕ → Machine
  write m (reg r) v = put m r v
  write m (mem disp base) v = store m (add64 disp (get m base)) v
  write m (mem_index disp base index scale) v = store m (indexed m disp base index scale) v
  write m (gs_index disp base index scale) v =
      store m (add64 m.gs_base (indexed m disp base index scale)) v
  write m (gs_at disp) v = store m (add64 m.gs_base disp) v
  write m _ v = m

  -- `pop` computes the address of its destination after the increment.
  abbrev pub pop : Machine → Operand → Machine
  pop m o = write (record m { rsp_ = add64 m.rsp_ 8 }) o (m.word m.rsp_)

  -- The effect of an instruction that goes on to the next one.
  abbrev pub effect : Instr → Machine → Machine
  effect (movq a b) m = write m b (read m a)
  effect (addq a b) m = write m b (add64 (read m b) (read m a))
  effect (subq a b) m = write m b (sub64 (read m b) (read m a))
  effect (andq a b) m = write m b (bit_and (read m b) (read m a))
  effect (cmpq a b) m = record m { zero_flag = read m b == read m a }
  effect (leaq k r) m = put m r (e.label_at k)
  effect (pushq r) m = push m (get m r)
  effect (popq o) m = pop m o
  effect (callq_plt f) m = e.call_plt f m
  effect _ m = m

  -- The return address of a call is that of the label printed behind it.
  abbrev pub calls : ℕ → List Instr → Machine → Outcome
  calls target (label k ∷ is) m = call target (push m (e.label_at k))
  calls target _ m = stuck

  -- Instruction by instruction; the flag and the number say that a taken `jne` is on its way to
  -- that label.
  abbrev pub run_from : Bool → ℕ → List Instr → Machine → Outcome
  run_from skipping l [] m = next m
  run_from true l (label k ∷ is) m = run_from (if k == l then false else true) l is m
  run_from true l (i ∷ is) m = run_from true l is m
  run_from false l (callq_star o ∷ is) m = calls (read m o) is m
  run_from false l (callq_offset f n ∷ is) m = calls (add64 (e.function_at f) n) is m
  run_from false l (jne k ∷ is) m = run_from (if m.zero_flag then false else true) k is m
  run_from false l (jmpq_star o ∷ is) m = jump (read m o) m
  run_from false l (i ∷ is) m = run_from false l is (effect i m)

  abbrev pub run : List Instr → Machine → Outcome
  run = run_from false 0

-- The instructions among the lines that are printed.
abbrev pub code_of : List Out → List Instr
code_of [] = []
code_of (ins i ∷ os) = i ∷ code_of os
code_of (copy _ ∷ os) = code_of os
code_of (mark _ ∷ os) = code_of os
code_of (counts _ _ _ ∷ os) = code_of os
