-- ===== src/Buddy/Rounds.antt =====
-- The loop of avx2_64_x_4_add in FlashStack/simd_rand.c.
use mathlib.Core.Path.{subst}
use flash_stack.Base.{
  ℕ, zero, suc, ◌+◌, ◌-◌, ◌*◌, ◌%◌, ◌/◌, ◌≤◌, ◌<◌, ◌≡◌, refl, Bool, true, ◌&&◌, some, ◌==◌, ltb,
  leb, if◌then◌else◌, arith, bit_and_high5,
}
use flash_stack.Base.Steps.{◌>>=◌, ◌>>◌}
use flash_stack.Asm.{word_mod, add64}
use flash_stack.Buddy.{Process, in_four, add_four, add_from, avx2_64_x_4_add}

-- `b` is the address of one of the words that lie one behind the other from `a` to `e`.
abbrev pub is_word_of : ℕ → ℕ → ℕ → Bool
is_word_of a e b = leb a b && ltb b e && (b - a) % 8 == 0

-- `x` added to each word from `a` to `e`.
abbrev pub shifted : ℕ → ℕ → ℕ → (ℕ → ℕ) → ℕ → ℕ
shifted a e x f b = if is_word_of a e b then add64 (f b) x else f b

-- What remains is as it was.
pub record Shifted (a e x : ℕ) (p q : Process) : Type 0 where
  pub words : (b : ℕ) → q.memory.word b ≡ shifted a e x p.memory.word b
  pub readable_same : (b : ℕ) → q.memory.readable b ≡ p.memory.readable b
  pub writable_same : (b : ℕ) → q.memory.writable b ≡ p.memory.writable b
  pub count_same : q.rand_cnt ≡ p.rand_cnt

abbrev pub AllWritable : ℕ → ℕ → Process → Type 0
AllWritable a e p = (b : ℕ) → a ≤ b → b < e → p.memory.writable b ≡ true

abbrev four_added : ℕ → ℕ → Process → Process
four_added a x p = record p {
  memory = record p.memory {
    word = λ b. if in_four a b then add64 (p.memory.word b) x else p.memory.word b;
  };
}

add_four_runs :
    (a x : ℕ) (p : Process)
    → AllWritable a (a + 32) p
    → add_four a x p ≡ some (tt, four_added a x p)
unfolding add_four
add_four_runs a x p h = rw (
  h a (omega arith) (omega arith),
  h (a + 8) (omega arith) (omega arith),
  h (a + 16) (omega arith) (omega arith),
  h (a + 24) (omega arith) (omega arith),
)

four_added-Shifted :
    (a n x : ℕ) (p q : Process)
    → Shifted (a + 32) (a + 32 * suc n) x (four_added a x p) q
    → Shifted a (a + 32 * suc n) x p q
four_added-Shifted a n x p q s = record {
  words = λ b. ground (arith, s.words b);
  readable_same = s.readable_same;
  writable_same = s.writable_same;
  count_same = s.count_same;
}

abbrev Adds : ℕ → ℕ → ℕ → ℕ → Process → Type 0
Adds fuel a e x p = (q : Process) × (add_from fuel a e x p ≡ some (tt, q)) × Shifted a e x p q

add_from-Shifted :
    (n fuel a x : ℕ) (p : Process)
    → n < fuel
    → AllWritable a (a + 32 * n) p
    → Adds fuel a (a + 32 * n) x p
unfolding add_from
add_from-Shifted n zero a x p f h = absurd (omega (arith, f))
add_from-Shifted zero (suc fuel) a x p f h = (
  p,
  ground arith,
  record {
    words = λ b. ground arith;
    readable_same = λ b. refl;
    writable_same = λ b. refl;
    count_same = refl;
  },
)
add_from-Shifted (suc n) (suc fuel) a x p f h =
    let here = add_four_runs a x p (λ b l u. h b l (omega (arith, u))) in
    let e : a + 32 + 32 * n ≡ a + 32 * suc n = omega arith in
    let (q, run, s) =
      add_from-Shifted n fuel (a + 32) x (four_added a x p) (omega (arith, f))
        (λ b l u. h b (omega (arith, l)) (omega (arith, u))) in
    let lt : ltb a (a + 32 * suc n) ≡ true = ground arith in
    (
      q,
      rw (add_from, lt, ◌>>◌, ◌>>=◌, here) (rw e at run),
      four_added-Shifted a n x p q (rw e at s),
    )

-- With an end that is a multiple of 32 and not below the start, a start of 64 bits, and writable
-- memory from the start's multiple of 32 on, avx2_64_x_4_add ends without a fault. It has added
-- x, modulo 2^64, to each word from that multiple of 32 to the end, and changed nothing else.
pub avx2_64_x_4_add_lem :
    (ss_ptr ss_end x : ℕ) (p : Process)
    → ss_ptr < word_mod
    → ss_ptr ≤ ss_end
    → ss_end % 32 ≡ 0
    → AllWritable (ss_ptr - ss_ptr % 32) ss_end p
    → (q : Process) × (avx2_64_x_4_add ss_ptr ss_end x p ≡ some (tt, q))
      × Shifted (ss_ptr - ss_ptr % 32) ss_end x p q
unfolding avx2_64_x_4_add
avx2_64_x_4_add_lem ss_ptr ss_end x p w le m h =
    let a = ss_ptr - ss_ptr % 32 in
    let n = (ss_end - a) / 32 in
    let e : a + 32 * n ≡ ss_end = omega (arith, le, m) in
    let (q, run, s) =
      subst (λ end. Adds (suc ss_end) a end x p) e
        (add_from-Shifted n (suc ss_end) a x p (omega (arith, le))
          (λ b l u. h b l (omega (arith, e, u)))) in
    (q, rw (bit_and_high5 ss_ptr w) run, s)
