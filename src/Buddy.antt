-- ===== src/Buddy.antt =====
-- FlashStack/buddy_tls.c, FlashStack/simd_rand.c and FlashStack/init.c, the runtime library of the
-- buddy schemes, and the macros of FlashStack/spa.h that they use: the shadow stack lies one stack
-- size below the call stack, and two records hold the random value of the thread.
pub mod Rounds
pub mod Promises
pub mod Randomize
pub mod Layout
pub mod Fields
pub mod Randomized
pub mod Kept
pub mod Survive
pub mod During
pub mod Setup
pub mod Ready
pub mod Size
mod Bound
use Prim.Native.Nat.{bit_and}
use flash_stack.Base.{
  ℕ, zero, suc, ◌+◌, ◌-◌, ◌*◌, ◌%◌, Bool, true, false, not, ◌&&◌, ◌||◌, Option, none, some, ◌==◌,
  ltb, if◌then◌else◌,
}
use flash_stack.Base.Steps.{Steps, pure, ◌>>=◌, ◌>>◌, modify}
use flash_stack.Asm.{word_mod, neg, add64, sub64}
use flash_stack.Asm.Machine.{update}

-- PAGE_SIZE
abbrev pub page_size : ℕ
page_size = 4096

-- The fields of Buddy_TLS_Info.
abbrev pub random_val_field : ℕ
random_val_field = 0

abbrev pub stack_top_field : ℕ
stack_top_field = 8

abbrev pub buddy_info_field : ℕ
buddy_info_field = 16

abbrev pub randomizing_field : ℕ
randomizing_field = 24

abbrev pub cycles_field : ℕ
cycles_field = 32

-- A word is read and written at its address as a whole.
pub record Memory : Type 0 where
  pub word : ℕ → ℕ
  pub readable : ℕ → Bool
  pub writable : ℕ → Bool

pub record Process : Type 0 where
  pub memory : Memory
  pub rand_cnt : ℕ

abbrev pub B : Type 0 → Type 0
B = Steps Process

-- mprotect of a range, to be writable and readable or only readable; `none` is a failure, which
-- leaves memory as it was.
pub record Kernel : Type 0 where
  pub mprotect : ℕ → ℕ → Bool → Memory → Option Memory
  -- the address of .BUDDY.CALL_STACK_SIZE_MASK
  pub mask_at : ℕ

abbrev pub read_word : ℕ → B ℕ
read_word a p = if p.memory.readable a then some (p.memory.word a, p) else none

abbrev pub with_word : ℕ → ℕ → Process → Process
with_word a v p = record p { memory = record p.memory { word = update p.memory.word a v } }

abbrev pub write_word : ℕ → ℕ → B (Unit {0})
write_word a v p = if p.memory.writable a then some (tt, with_word a v p) else none

-- `b` is one of the four words from `a` on.
abbrev pub in_four : ℕ → ℕ → Bool
in_four a b = b == a || b == a + 8 || b == a + 16 || b == a + 24

abbrev pub four_writable : ℕ → Memory → Bool
four_writable a m = m.writable a && m.writable (a + 8) && m.writable (a + 16) && m.writable (a + 24)

-- One load, addition and store of 256 bits.
unfoldable pub add_four : ℕ → ℕ → B (Unit {0})
add_four a x p =
    if four_writable a p.memory
    then some (
      tt,
      record p {
        memory = record p.memory {
          word = λ b. if in_four a b then add64 (p.memory.word b) x else p.memory.word b;
        };
      },
    )
    else none

-- The loop of avx2_64_x_4_add; `none` without fuel.
unfoldable pub add_from : ℕ → ℕ → ℕ → ℕ → B (Unit {0})
unfolding add_four
add_from zero ss_ptr ss_end x p = none
add_from (suc fuel) ss_ptr ss_end x p = elim (ltb ss_ptr ss_end) [
  | true ↦ (add_four ss_ptr x >> add_from fuel (ss_ptr + 32) ss_end x) p
  | false ↦ some (tt, p)
]

-- One round for each 32 bytes, and one for the last test.
unfoldable pub avx2_64_x_4_add : ℕ → ℕ → ℕ → B (Unit {0})
unfolding add_from
avx2_64_x_4_add ss_ptr ss_end x = add_from (suc ss_end) (bit_and ss_ptr (neg 32)) ss_end x

-- BUDDY_ALIGN_CALL_STACK_POINTER, with the size
abbrev pub align : ℕ → ℕ → ℕ
align size x = bit_and x (sub64 (word_mod - 1) (sub64 size 1))

module _ (k : Kernel) where
  -- BUDDY_CALL_STACK_SIZE
  abbrev pub buddy_call_stack_size : B ℕ
  buddy_call_stack_size = do mask ← read_word k.mask_at; pure (sub64 0 mask)

  abbrev pub mprotect : ℕ → ℕ → Bool → B (Unit {0})
  mprotect a n write p = elim (k.mprotect a n write p.memory) [
    | none ↦ some (tt, p)
    | some m ↦ some (tt, record p { memory = m })
  ]

  -- With the stack pointer.
  unfoldable pub buddy_get_tls_info : ℕ → B ℕ
  buddy_get_tls_info rsp = do
    size ← buddy_call_stack_size
    pure (sub64 (align size rsp) ((2 * size) % word_mod))
