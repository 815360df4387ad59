-- ===== src/Tests/Linux.antt =====
-- A system that keeps the promises: it maps what is asked for where that is free.
use flash_stack.Base.{
  ℕ, zero, suc, ◌+◌, ◌-◌, ◌*◌, ◌≡◌, refl, Bool, true, false, not, ◌&&◌, ◌||◌, Option, none, some,
  leb, if◌then◌else◌, arith, Bool-cases, inl, inr,
}
use mathlib.Core.Path.{subst}
use flash_stack.Scheme.{user_space_size}
use flash_stack.Runtime.{System, Space, max_gs_base_addr}
use flash_stack.Runtime.Promises.{inside, Maps, MovesTo, Promises}
use flash_stack.Runtime.Survive.{SetsGs}

pub all_free : ℕ → ℕ → (ℕ → Bool) → Bool
all_free zero a mapped = true
all_free (suc n) a mapped = not (mapped (a + n)) && all_free n a mapped

pub all_free_lem :
    (n a : ℕ) (mapped : ℕ → Bool) (b : ℕ)
    → all_free n a mapped ≡ true
    → inside a n b ≡ true
    → mapped b ≡ false
unfolding all_free
all_free_lem zero a mapped b h i = absurd (ground (arith, i))
all_free_lem (suc n) a mapped b h i = elim (Bool-cases (inside a n b)) [
  | inl j ↦ all_free_lem n a mapped b (ground (arith, h)) j
  | inr j ↦ let e : b ≡ a + n = ground (arith, i, j) in rw e (ground (arith, h))
]

pub all_free_complete :
    (n a : ℕ) (mapped : ℕ → Bool)
    → ((b : ℕ) → inside a n b ≡ true → mapped b ≡ false)
    → all_free n a mapped ≡ true
unfolding all_free
all_free_complete zero a mapped h = refl
all_free_complete (suc n) a mapped h =
    ground (arith, h (a + n), all_free_complete n a mapped (λ b i. h b (ground (arith, i))))

abbrev can_map : ℕ → ℕ → Space → Bool
can_map hint n s = leb (hint + n) user_space_size && all_free n hint s.mapped

abbrev grown : ℕ → ℕ → Space → Space
grown hint n s = record s { mapped = λ b. inside hint n b || s.mapped b }

abbrev pub linux : System
linux = record {
  mmap = λ hint n s. if can_map hint n s then some (hint, grown hint n s) else none;
  munmap = λ a n s. record s { mapped = λ b. not (inside a n b) && s.mapped b };
  mremap = λ old n new s. some (
    new,
    record s {
      mapped = λ b.
          if inside new n b then s.mapped (old + (b - new)) else not (inside old n b) && s.mapped b;
      word = λ b. if inside new n b then s.word (old + (b - new)) else s.word b;
    },
  );
  set_gs = λ v s. if leb v max_gs_base_addr then some (record s { gs = v }) else none;
  get_gs = λ s. some s.gs;
  rdtsc = λ n. 100000000 * n;
  rdrand = λ n. 0x200000000000 + n * 0x12345678;
}

abbrev Mapped : ℕ → Space → Option (ℕ × Space) → Type 0
Mapped n s none = Unit
Mapped n s (some (a, t)) = Maps a n s t

mmap_Mapped :
    (hint n : ℕ) (s : Space) (b : Bool)
    → can_map hint n s ≡ b
    → Mapped n s (if b then some (hint, grown hint n s) else none)
mmap_Mapped hint n s true h = record {
  fits = ground (arith, h);
  fresh = λ b i. all_free_lem n hint s.mapped b (ground (arith, h)) i;
  mapped_now = λ b. refl;
  word_same = λ b m. refl;
  gs_same = refl;
}
mmap_Mapped hint n s false h = tt

abbrev Moved : ℕ → ℕ → ℕ → Space → Option (ℕ × Space) → Type 0
Moved old n new s none = Unit
Moved old n new s (some (a, t)) = (a ≡ new) × MovesTo old n new s t

mremap_Moved : (old n new : ℕ) (s : Space) → Moved old n new s (linux.mremap old n new s)
mremap_Moved old n new s = (
  refl,
  record {
    moved_mapped = λ i l. ground (arith, l);
    moved_word = λ i l. ground (arith, l);
    mapped_now = λ b h. ground (arith, h);
    word_same = λ b h. ground (arith, h);
    gs_same = refl;
  },
)

pub linux-Promises : Promises linux
linux-Promises = record {
  mmap_maps = λ hint n a s t e. subst (Mapped n s) e (mmap_Mapped hint n s (can_map hint n s) refl);
  munmap_unmaps =
      λ a n s. record { mapped_now = λ b. refl; word_same = λ b i. refl; gs_same = refl };
  mremap_moves = λ old n new a s t e. subst (Moved old n new s) e (mremap_Moved old n new s);
  get_gs_reads = λ s. refl;
}

pub linux-SetsGs : SetsGs linux
linux-SetsGs v s h = ground (arith, h)
