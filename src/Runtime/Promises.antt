-- ===== src/Runtime/Promises.antt =====
-- What FlashStack/gs.rsp.c relies on in mmap, munmap, mremap and arch_prctl, as their manual pages
-- say it.
use flash_stack.Base.{ℕ, ◌+◌, ◌≤◌, ◌≡◌, Bool, true, false, not, ◌&&◌, ◌||◌, some, ltb, leb}
use flash_stack.Scheme.{user_space_size}
use flash_stack.Runtime.{System, Space}

-- `b` is one of the `n` addresses from `a` on.
abbrev pub inside : ℕ → ℕ → ℕ → Bool
inside a n b = leb a b && ltb b (a + n)

-- A region that was free is mapped, within user space.
pub record Maps (a n : ℕ) (s t : Space) : Type 0 where
  pub fits : a + n ≤ user_space_size
  pub fresh : (b : ℕ) → inside a n b ≡ true → s.mapped b ≡ false
  pub mapped_now : (b : ℕ) → t.mapped b ≡ (inside a n b || s.mapped b)
  pub word_same : (b : ℕ) → s.mapped b ≡ true → t.word b ≡ s.word b
  pub gs_same : t.gs ≡ s.gs

pub record Unmaps (a n : ℕ) (s t : Space) : Type 0 where
  pub mapped_now : (b : ℕ) → t.mapped b ≡ (not (inside a n b) && s.mapped b)
  pub word_same : (b : ℕ) → inside a n b ≡ false → t.word b ≡ s.word b
  pub gs_same : t.gs ≡ s.gs

-- The pages at `old` are moved to `new`, over what was mapped there.
pub record MovesTo (old n new : ℕ) (s t : Space) : Type 0 where
  pub moved_mapped : (i : ℕ) → ltb i n ≡ true → t.mapped (new + i) ≡ s.mapped (old + i)
  pub moved_word : (i : ℕ) → ltb i n ≡ true → t.word (new + i) ≡ s.word (old + i)
  pub mapped_now :
      (b : ℕ) → inside new n b ≡ false → t.mapped b ≡ (not (inside old n b) && s.mapped b)
  pub word_same : (b : ℕ) → inside new n b ≡ false → t.word b ≡ s.word b
  pub gs_same : t.gs ≡ s.gs

pub record Promises (k : System) : Type 0 where
  pub mmap_maps : (hint n a : ℕ) (s t : Space) → k.mmap hint n s ≡ some (a, t) → Maps a n s t
  pub munmap_unmaps : (a n : ℕ) (s : Space) → Unmaps a n s (k.munmap a n s)
  pub mremap_moves :
      (old n new a : ℕ) (s t : Space)
      → k.mremap old n new s ≡ some (a, t)
      → (a ≡ new) × MovesTo old n new s t
  pub get_gs_reads : (s : Space) → k.get_gs s ≡ some s.gs
