-- ===== src/Buddy/Promises.antt =====
-- What FlashStack/simd_rand.c and FlashStack/buddy_tls.c rely on in mprotect.
use flash_stack.Base.{ℕ, ◌+◌, ◌%◌, ◌≡◌, Bool, true, false, ◌&&◌, some, ltb, leb, if◌then◌else◌}
use flash_stack.Buddy.{Memory, Kernel, page_size}

abbrev pub on_page : ℕ → ℕ → Bool
on_page a b = leb a b && ltb b (a + page_size)

pub record Protects (a : ℕ) (write : Bool) (m t : Memory) : Type 0 where
  pub word_same : (b : ℕ) → t.word b ≡ m.word b
  pub readable_still : (b : ℕ) → m.readable b ≡ true → t.readable b ≡ true
  pub unmapped_still : (b : ℕ) → m.readable b ≡ false → t.readable b ≡ false
  pub writable_now : (b : ℕ) → t.writable b ≡ (if on_page a b then write else m.writable b)

-- A page that can be read is there, and its protection can be changed.
pub record Promises (k : Kernel) : Type 0 where
  pub mprotect_protects :
      (a : ℕ) (write : Bool) (m : Memory)
      → a % page_size ≡ 0
      → ((b : ℕ) → on_page a b ≡ true → m.readable b ≡ true)
      → (t : Memory) × (k.mprotect a page_size write m ≡ some t) × Protects a write m t
