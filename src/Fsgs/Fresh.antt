-- ===== src/Fsgs/Fresh.antt =====
-- get_memory_at_random of FlashStack/fsgs.c, and where the memory lies that it gives.
use Prim.Native.Nat.{bit_and}
use flash_stack.Base.{
  ℕ, zero, suc, ◌+◌, ◌≤◌, ◌<◌, ◌≡◌, ◌⊎◌, inl, inr, Bool, true, false, ◌||◌, some, ltb, leb, arith,
  Bool-cases, Option-cases,
}
use flash_stack.Runtime.Promises.{inside}
use flash_stack.Buddy.{Memory, page_size}
use flash_stack.Fsgs.{Os, Thread, get_memory_from, max_attempts, stack_size}
use flash_stack.Fsgs.Promises.{Grows, FreeAt, Spacious, Promises, Serves}

-- What is mapped afresh lies apart from what was mapped.
pub fresh_apart :
    (a n c k : ℕ) (m : Memory)
    → ((b : ℕ) → inside a n b ≡ true → m.readable b ≡ false)
    → ((b : ℕ) → inside c k b ≡ true → m.readable b ≡ true)
    → 0 < n
    → 0 < k
    → (a + n ≤ c) ⊎ (c + k ≤ a)
fresh_apart a n c k m fresh there hn hk = elim (Bool-cases (leb (a + n) c)) [
  | inl h ↦ inl (ground (arith, h))
  | inr h ↦ elim (Bool-cases (leb (c + k) a)) [
    | inl h' ↦ inr (ground (arith, h'))
    | inr h' ↦ elim (Bool-cases (leb a c)) [
      | inl le ↦ absurd (ground (arith, h, le, hk, fresh c, there c))
      | inr gt ↦ absurd (ground (arith, h', gt, hn, fresh a, there a))
    ]
  ]
]

-- The thread with memory and random numbers drawn.
abbrev pub with_memory : Memory → ℕ → Thread → Thread
with_memory m n w = record w { memory = m; draws = n }

-- Where there is room the loop of get_memory_at_random ends within seven rounds: the seventh leaves
-- the place open. It gives a region that was free, and changes nothing else.
pub get_memory_from_lem :
    (k : Os) (c fuel i size : ℕ) (w : Thread)
    → Promises k
    → Serves k
    → max_attempts + 2 ≤ i + fuel
    → 0 < fuel
    → FreeAt c size w.memory.readable
    → (a : ℕ) × (t : Memory) × (n : ℕ) × (get_memory_from k fuel i size w
        ≡ some (a, with_memory t n w))
      × Grows a size w.memory t
unfolding get_memory_from
get_memory_from_lem k c zero i size w promises serves enough more free =
    absurd (omega (arith, more))
get_memory_from_lem k c (suc fuel) i size w promises serves enough more free =
    elim (Bool-cases (ltb max_attempts i)) [
      | inl h ↦
          let (a, t, e) = serves.mmap_anywhere c size w.memory free in
          (a, t, w.draws + 1, rw (get_memory_from, h, e), promises.mmap_maps 0 size a w.memory t e)
      | inr h ↦
          elim (Option-cases (k.mmap (bit_and (k.rdrand w.draws) 0x7ffffffff000) size w.memory)) [
            | inl e ↦
                let (a, t, n, run, g) =
                  get_memory_from_lem k c fuel (i + 1) size (record w { draws = w.draws + 1 })
                    promises serves (omega (arith, enough)) (ground (arith, enough, h)) free in
                (a, t, n, rw (get_memory_from, h, e, run), g)
            | inr ((a, t), e) ↦ (
              a,
              t,
              w.draws + 1,
              rw (get_memory_from, h, e),
              promises.mmap_maps _ size a w.memory t e,
            )
          ]
    ]

-- A page that is mapped leaves room for one of the two.
pub page_leaves :
    (c c' a : ℕ) (m t : Memory)
    → Spacious c c' m.readable
    → Grows a page_size m t
    → (d : ℕ) × FreeAt d stack_size t.readable
page_leaves c c' a m t s g = elim (Bool-cases (leb (a + page_size) c || leb (c + stack_size) a)) [
  | inl h ↦ (
    c,
    record {
      at_page = s.first.at_page;
      in_space = s.first.in_space;
      is_free = λ b i. ground (arith, h, i, g.readable_now b, s.first.is_free b i);
    },
  )
  | inr h ↦
      let above : a + page_size ≤ c' = ground (arith, h, g.aligned, s.second.at_page, s.in_order) in
      (
        c',
        record {
          at_page = s.second.at_page;
          in_space = s.second.in_space;
          is_free = λ b i. ground (arith, above, i, g.readable_now b, s.second.is_free b i);
        },
      )
]

pub page_free :
    (c c' : ℕ) (readable : ℕ → Bool) → Spacious c c' readable → FreeAt c page_size readable
page_free c c' readable s = record {
  at_page = s.first.at_page;
  in_space = omega (arith, s.first.in_space);
  is_free = λ b i. s.first.is_free b (ground (arith, i));
}

free_same :
    (c n : ℕ) (f g : ℕ → Bool) → ((b : ℕ) → f b ≡ false → g b ≡ false) → FreeAt c n f → FreeAt c n g
free_same c n f g e h = record {
  at_page = h.at_page;
  in_space = h.in_space;
  is_free = λ b i. e b (h.is_free b i);
}

pub Spacious-same :
    (c c' : ℕ) (f g : ℕ → Bool)
    → ((b : ℕ) → f b ≡ false → g b ≡ false)
    → Spacious c c' f
    → Spacious c c' g
Spacious-same c c' f g e s = record {
  first = free_same c stack_size f g e s.first;
  second = free_same c' stack_size f g e s.second;
  in_order = s.in_order;
}
