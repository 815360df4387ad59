-- ===== src/Asm.antt =====
-- The assembly that afl-as.c prints: instructions of x86-64 in AT&T order (source, destination).
-- Addresses and immediate values are 64-bit patterns, so `-8388608` is `neg 8388608`.
pub mod Machine
use flash_stack.Base.{ℕ, ◌+◌, ◌-◌, ◌^◌, ◌%◌, Bool, Bytes}

abbrev pub word_mod : ℕ
word_mod = 2 ^ 64

-- The pattern of `-n`.
abbrev pub neg : ℕ → ℕ
neg n = word_mod - n

abbrev pub add64 : ℕ → ℕ → ℕ
add64 a b = (a + b) % word_mod

abbrev pub sub64 : ℕ → ℕ → ℕ
sub64 a b = (a + word_mod - b) % word_mod

pub data Reg : Type 0 where
  rax rdi rsi rdx rsp r10 r11 : Reg

-- `.BUDDY.CALL_STACK_SIZE_MASK` and `.unsw.randomval`
pub data Symbol : Type 0 where
  stack_size_mask random_val : Symbol

pub data Operand : Type 0 where
  -- `$n`
  imm : ℕ → Operand
  reg : Reg → Operand
  -- `disp(base)`
  mem : ℕ → Reg → Operand
  -- `disp(base, index, scale)`
  mem_index : ℕ → Reg → Reg → ℕ → Operand
  -- `%gs:disp(base, index, scale)`
  gs_index : ℕ → Reg → Reg → ℕ → Operand
  -- `%gs:(disp)`
  gs_at : ℕ → Operand
  -- `symbol@GOTPCREL(%rip)`: the entry that holds the symbol's address
  got : Symbol → Operand
  -- `symbol`: the word stored at the symbol's address
  word_at : Symbol → Operand
  -- an operand copied from the line that is rewritten
  verbatim : Bytes → Operand

pub data Instr : Type 0 where
  movq addq subq andq : Operand → Operand → Instr
  -- `cmpq a, b`, which sets the zero flag if the two are equal
  cmpq : Operand → Operand → Instr
  -- `leaq label(%rip), reg`
  leaq : ℕ → Reg → Instr
  pushq : Reg → Instr
  popq : Operand → Instr
  -- `callq name@plt`
  callq_plt : Bytes → Instr
  -- `callq *operand`
  callq_star : Operand → Instr
  -- `callq name+n`: the line as it stands in the input, with an offset
  callq_offset : Bytes → ℕ → Instr
  -- `jne labelf`
  jne : ℕ → Instr
  -- `jmpq *operand`
  jmpq_star : Operand → Instr
  -- `label:`
  label : ℕ → Instr

-- What is written to the output file.
pub data Out : Type 0 where
  -- the input line
  copy : Bytes → Out
  -- a comment line of the instrumentation
  mark : Bytes → Out
  ins : Instr → Out
  -- the comment with the numbers of `.cfi_startproc` and `.cfi_endproc`, and pass_thru
  counts : ℕ → ℕ → Bool → Out
