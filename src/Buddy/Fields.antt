-- ===== src/Buddy/Fields.antt =====
-- What au_edu_unsw_randomize of FlashStack/simd_rand.c does to one of the two records.
use flash_stack.Base.{ℕ, ◌+◌, ◌%◌, ◌≡◌, refl, true, false, some, ◌==◌, if◌then◌else◌, arith}
use flash_stack.Base.Steps.{◌>>=◌, ◌>>◌}
use flash_stack.Asm.{add64}
use flash_stack.Buddy.{
  Memory, Process, Kernel, with_word, mprotect, page_size, random_val_field, randomizing_field,
  cycles_field,
}
use flash_stack.Buddy.Promises.{on_page, Promises}
use flash_stack.Buddy.Randomize.{renew, settle}

-- The random value, the flag and the time have changed, and the page can be written.
pub record Renewed (info x cycles : ℕ) (p q : Process) : Type 0 where
  pub words :
      (b : ℕ)
      → q.memory.word b ≡ (
          if b == info + random_val_field
          then add64 (p.memory.word (info + random_val_field)) x
          else if b == info + randomizing_field
          then 1
          else if b == info + cycles_field
          then cycles
          else p.memory.word b)
  pub readable_still : (b : ℕ) → p.memory.readable b ≡ true → q.memory.readable b ≡ true
  pub writable_now :
      (b : ℕ) → q.memory.writable b ≡ (if on_page info b then true else p.memory.writable b)
  pub count_same : q.rand_cnt ≡ p.rand_cnt

-- The flag is clear, and the page can only be read.
pub record Settled (info : ℕ) (p q : Process) : Type 0 where
  pub words :
      (b : ℕ) → q.memory.word b ≡ (if b == info + randomizing_field then 0 else p.memory.word b)
  pub readable_still : (b : ℕ) → p.memory.readable b ≡ true → q.memory.readable b ≡ true
  pub writable_now :
      (b : ℕ) → q.memory.writable b ≡ (if on_page info b then false else p.memory.writable b)
  pub count_same : q.rand_cnt ≡ p.rand_cnt

abbrev pub PageReadable : ℕ → Process → Type 0
PageReadable info p = (b : ℕ) → on_page info b ≡ true → p.memory.readable b ≡ true

-- The process after `renew`, the new protection given.
abbrev renewed : ℕ → ℕ → ℕ → Memory → Process → Process
renewed info x cycles m p =
    let p1 = with_word (info + randomizing_field) 1 (record p { memory = m }) in
    with_word (info + cycles_field) cycles
      (with_word (info + random_val_field) (add64 (p1.memory.word (info + random_val_field)) x) p1)

module _ (k : Kernel) (promises : Promises k) (info : ℕ) (aligned : info % page_size ≡ 0) where
  pub renew-Renewed :
      (x cycles : ℕ) (p : Process)
      → PageReadable info p
      → (q : Process) × (renew k info x cycles p ≡ some (tt, q)) × Renewed info x cycles p q
  unfolding renew
  renew-Renewed x cycles p readable =
      let (m, e, s) = promises.mprotect_protects info true p.memory aligned readable in
      let w24 : m.writable (info + randomizing_field) ≡ true =
        ground (arith, s.writable_now (info + randomizing_field)) in
      let w0 : m.writable (info + random_val_field) ≡ true =
        ground (arith, s.writable_now (info + random_val_field)) in
      let w32 : m.writable (info + cycles_field) ≡ true =
        ground (arith, s.writable_now (info + cycles_field)) in
      let r0 : m.readable (info + random_val_field) ≡ true =
        s.readable_still (info + random_val_field)
          (readable (info + random_val_field) (ground arith)) in
      (
        renewed info x cycles m p,
        rw (◌>>◌, ◌>>=◌, e, w24, r0, w0, w32),
        record {
          words = λ b. ground (arith, s.word_same b, s.word_same (info + random_val_field));
          readable_still = s.readable_still;
          writable_now = s.writable_now;
          count_same = refl;
        },
      )

  pub settle-Settled :
      (q : Process)
      → PageReadable info q
      → ((b : ℕ) → on_page info b ≡ true → q.memory.writable b ≡ true)
      → (t : Process) × (settle k info q ≡ some (tt, t)) × Settled info q t
  unfolding settle
  settle-Settled q readable writable =
      let w24 = writable (info + randomizing_field) (ground arith) in
      let q1 = with_word (info + randomizing_field) 0 q in
      let (m, e, s) = promises.mprotect_protects info false q1.memory aligned readable in
      (
        record q1 { memory = m },
        rw (◌>>◌, ◌>>=◌, w24, mprotect, e),
        record {
          words = λ b. ground (arith, s.word_same b);
          readable_still = s.readable_still;
          writable_now = s.writable_now;
          count_same = refl;
        },
      )
