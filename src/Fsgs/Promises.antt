-- ===== src/Fsgs/Promises.antt =====
-- What FlashStack/fsgs.c relies on in mmap, munmap, mremap, mprotect and arch_prctl, as their
-- manual pages say it.
use flash_stack.Base.{ℕ, ◌+◌, ◌%◌, ◌^◌, ◌≤◌, ◌<◌, ◌≡◌, Bool, true, false, not, ◌&&◌, ◌||◌, some}
use flash_stack.Runtime.Promises.{inside}
use flash_stack.Buddy.{Memory, page_size}
use flash_stack.Buddy.Promises.{on_page, Protects}
use flash_stack.Fsgs.{Os, stack_size}

-- A region that was free is mapped, to be read and written, within user space.
pub record Grows (a n : ℕ) (m t : Memory) : Type 0 where
  pub aligned : a % page_size ≡ 0
  pub fits : a + n ≤ 2 ^ 47
  pub fresh : (b : ℕ) → inside a n b ≡ true → m.readable b ≡ false
  pub readable_now : (b : ℕ) → t.readable b ≡ (inside a n b || m.readable b)
  pub writable_now : (b : ℕ) → t.writable b ≡ (inside a n b || m.writable b)
  pub word_same : (b : ℕ) → m.readable b ≡ true → t.word b ≡ m.word b

pub record Shrinks (a n : ℕ) (m t : Memory) : Type 0 where
  pub readable_now : (b : ℕ) → t.readable b ≡ (not (inside a n b) && m.readable b)
  pub writable_now : (b : ℕ) → t.writable b ≡ (not (inside a n b) && m.writable b)
  pub word_same : (b : ℕ) → inside a n b ≡ false → t.word b ≡ m.word b

-- The pages at `old` are moved to `new`, over what was mapped there.
pub record Shifts (old n new : ℕ) (m t : Memory) : Type 0 where
  pub moved_readable : (i : ℕ) → i < n → t.readable (new + i) ≡ m.readable (old + i)
  pub moved_writable : (i : ℕ) → i < n → t.writable (new + i) ≡ m.writable (old + i)
  pub moved_word : (i : ℕ) → i < n → t.word (new + i) ≡ m.word (old + i)
  pub readable_now :
      (b : ℕ) → inside new n b ≡ false → t.readable b ≡ (not (inside old n b) && m.readable b)
  pub writable_now :
      (b : ℕ) → inside new n b ≡ false → t.writable b ≡ (not (inside old n b) && m.writable b)
  pub word_same : (b : ℕ) → inside new n b ≡ false → t.word b ≡ m.word b

pub record Promises (k : Os) : Type 0 where
  pub mmap_maps : (hint n a : ℕ) (m t : Memory) → k.mmap hint n m ≡ some (a, t) → Grows a n m t
  pub munmap_unmaps : (a n : ℕ) (m : Memory) → Shrinks a n m (k.munmap a n m)
  pub mremap_moves :
      (old n new a : ℕ) (m t : Memory)
      → k.mremap old n new m ≡ some (a, t)
      → (a ≡ new) × Shifts old n new m t
  pub mprotect_protects :
      (a : ℕ) (write : Bool) (m : Memory)
      → a % page_size ≡ 0
      → ((b : ℕ) → on_page a b ≡ true → m.readable b ≡ true)
      → (t : Memory) × (k.mprotect a page_size write m ≡ some t) × Protects a write m t
  pub set_gs_user : (v : ℕ) → v < 2 ^ 47 → k.sets_gs v ≡ true

-- Room for `n` bytes at `c`.
pub record FreeAt (c n : ℕ) (readable : ℕ → Bool) : Type 0 where
  pub at_page : c % page_size ≡ 0
  pub in_space : c + n ≤ 2 ^ 47
  pub is_free : (b : ℕ) → inside c n b ≡ true → readable b ≡ false

-- Where there is room, a request that leaves the place open is met, and a shadow stack can be
-- moved over memory that is mapped.
pub record Serves (k : Os) : Type 0 where
  pub mmap_anywhere :
      (c n : ℕ) (m : Memory)
      → FreeAt c n m.readable
      → (a : ℕ) × (t : Memory) × (k.mmap 0 n m ≡ some (a, t))
  pub mremap_succeeds :
      (old new : ℕ) (m : Memory)
      → ((i : ℕ) → i < stack_size → m.readable (old + i) ≡ true)
      → ((i : ℕ) → i < stack_size → m.readable (new + i) ≡ true)
      → (a : ℕ) × (t : Memory) × (k.mremap old stack_size new m ≡ some (a, t))

-- Room for two shadow stacks.
pub record Spacious (c c' : ℕ) (readable : ℕ → Bool) : Type 0 where
  pub first : FreeAt c stack_size readable
  pub second : FreeAt c' stack_size readable
  pub in_order : c + stack_size ≤ c'
