-- ===== src/Runtime.antt =====
-- FlashStack/gs.rsp.c, the runtime library of the scheme USE_SPA_GS_RSP: for each thread a shadow
-- stack at a random place of memory, and its metadata on it. The operating system is a parameter.
pub mod Runs
pub mod Promises
pub mod Lookup
pub mod Obtain
pub mod Prepare
pub mod Prepared
pub mod Rerandomize
pub mod Moves
pub mod Survive
pub mod Undone
pub mod Whole
pub mod Regions
pub mod Table
pub use flash_stack.Base.Steps.{pure, ◌>>=◌, ◌>>◌, modify, gets}
use Prim.Native.Nat.{bit_and}
use flash_stack.Base.Steps.{Steps}
use flash_stack.Base.{
  ℕ, zero, suc, ◌+◌, ◌-◌, ◌*◌, ◌%◌, ◌^◌, Bool, true, false, not, ◌&&◌, ◌||◌, List, [], Option, none,
  some, ◌==◌, ltb, leb, if◌then◌else◌,
}
use flash_stack.Asm.{word_mod, neg, add64, sub64}
use flash_stack.Asm.Machine.{update}
use flash_stack.Scheme.{user_space_size}

-- DEF_BUDDY_CALL_STACK_SIZE, which is INIT_SHADOW_STACK_OFFSET too
abbrev pub call_stack_size : ℕ
call_stack_size = 0x800000

-- REAL_SHADOW_STACK_SIZE
abbrev pub real_shadow_stack_size : ℕ
real_shadow_stack_size = 0xa00000

-- METADATA_OFFSET_ON_SHADOW_STACK
abbrev pub metadata_offset : ℕ
metadata_offset = 0x980000

-- SPA_MAX_MMAP_ATTEMPTS
abbrev pub max_mmap_attempts : ℕ
max_mmap_attempts = 20

-- SPA_MAX_SHADOW_STACK_ADDR
abbrev pub max_shadow_stack_addr : ℕ
max_shadow_stack_addr = 0x7f0000000000 - 8 * call_stack_size

-- SPA_SHADOW_STACK_8MB_RAND_ADDR_MASK and SPA_8MB_MASK
abbrev pub rand_addr_mask : ℕ
rand_addr_mask = 0x7fffff800000

abbrev pub mask_8mb : ℕ
mask_8mb = 0x7fffff

-- MAX_GS_BASE_ADDR
abbrev pub max_gs_base_addr : ℕ
max_gs_base_addr = 0x7fffffffefff

-- CPU_CYCLES_PER_RANDOMIZATION
abbrev pub cycles_per_randomization : ℕ
cycles_per_randomization = 32000000

-- FLASH_STACK_INITED
abbrev pub flash_stack_inited : ℕ
flash_stack_inited = 1

-- The fields of gs_rsp_metadata.
abbrev pub shadow_stack_field : ℕ
shadow_stack_field = 0

abbrev pub is_randomizing_field : ℕ
is_randomizing_field = 8

abbrev pub cpu_cycles_field : ℕ
cpu_cycles_field = 16

abbrev pub state_field : ℕ
state_field = 24

abbrev pub diff_field : ℕ
diff_field = 32

abbrev pub relaxing_field : ℕ
relaxing_field = 40

-- Memory and the gs register. A word is read and written at its address as a whole.
pub record Space : Type 0 where
  pub word : ℕ → ℕ
  pub mapped : ℕ → Bool
  pub gs : ℕ

-- The system: what it answers, and the memory that it leaves; `none` is a failure, which leaves
-- memory as it was. The n-th reading of the time-stamp counter and the n-th random number are
-- given by n.
pub record System : Type 0 where
  pub mmap : ℕ → ℕ → Space → Option (ℕ × Space)
  pub munmap : ℕ → ℕ → Space → Space
  -- mremap with MREMAP_MAYMOVE and MREMAP_FIXED, from an address, a size, to an address
  pub mremap : ℕ → ℕ → ℕ → Space → Option (ℕ × Space)
  pub set_gs : ℕ → Space → Option Space
  pub get_gs : Space → Option ℕ
  pub rdtsc : ℕ → ℕ
  pub rdrand : ℕ → ℕ

-- The variables of the library, as one thread sees them; `readings` and `draws` count what was
-- asked of the processor.
pub record World : Type 0 where
  pub space : Space
  pub readings : ℕ
  pub draws : ℕ
  pub inited : Bool
  pub relaxing_during_init : Bool
  pub total_rand_cnt : ℕ
  pub total_fail_rand_cnt : ℕ
  pub total_cpu_cycles : ℕ
  pub total_attempts : ℕ → ℕ

-- `none` is a fault: memory that is not mapped was touched.
abbrev pub M : Type 0 → Type 0
M = Steps World

abbrev pub load : ℕ → M ℕ
load a w = if w.space.mapped a then some (w.space.word a, w) else none

abbrev pub set_word : ℕ → ℕ → World → World
set_word a v w = record w { space = record w.space { word = update w.space.word a v } }

abbrev pub store : ℕ → ℕ → M (Unit {0})
store a v w = if w.space.mapped a then some (tt, set_word a v w) else none

-- get_gs_rsp_metadata_by_shadow_stack
abbrev pub metadata_of : ℕ → ℕ
metadata_of shadow_stack = add64 shadow_stack metadata_offset

module _ (k : System) where
  abbrev pub rdtsc : M ℕ
  rdtsc w = some (k.rdtsc w.readings, record w { readings = w.readings + 1 })

  abbrev pub rdrand : M ℕ
  rdrand w = some (k.rdrand w.draws, record w { draws = w.draws + 1 })

  abbrev pub munmap : ℕ → ℕ → M (Unit {0})
  munmap a n w = some (tt, record w { space = k.munmap a n w.space })

  abbrev pub mmap : ℕ → ℕ → M (Option ℕ)
  mmap hint n w = elim (k.mmap hint n w.space) [
    | none ↦ some (none, w)
    | some (a, sp) ↦ some (some a, record w { space = sp })
  ]

  abbrev pub mremap : ℕ → ℕ → ℕ → M (Option ℕ)
  mremap old n new w = elim (k.mremap old n new w.space) [
    | none ↦ some (none, w)
    | some (a, sp) ↦ some (some a, record w { space = sp })
  ]

  -- Whether arch_prctl(ARCH_SET_GS, v) succeeded.
  abbrev pub set_gs : ℕ → M Bool
  set_gs v w = elim (k.set_gs v w.space) [
    | none ↦ some (false, w)
    | some sp ↦ some (true, record w { space = sp })
  ]

  -- get_gs_rsp_metadata_by_rsp, with the stack pointer that it reads; `none` for NULL.
  unfoldable pub metadata_by_rsp : ℕ → World → Option ℕ
  metadata_by_rsp rsp w = elim (k.get_gs w.space) [
    | none ↦ none
    | some gs ↦
        let ssp = sub64 (add64 rsp gs) user_space_size in
        some (metadata_of (bit_and ssp (neg call_stack_size)))
  ]
