-- ===== src/Runtime/Obtain.antt =====
-- get_memory_at_random of FlashStack/gs.rsp.c.
use Prim.Native.Nat.{bit_and}
use flash_stack.Base.{
  ℕ, zero, suc, ◌+◌, ◌*◌, ◌%◌, ◌≤◌, ◌≡◌, refl, sym, ◌∙◌, Bool, true, not, ◌&&◌, ◌||◌, Option, none,
  some, ◌==◌, ltb, if◌then◌else◌, arith, bit_and_low23, Bool-cases, inl, inr, Option-cases,
}
use flash_stack.Asm.{sub64}
use flash_stack.Asm.Machine.{update}
use flash_stack.Runtime.{
  System, Space, World, M, pure, ◌>>=◌, ◌>>◌, modify, rdrand, mmap, munmap, real_shadow_stack_size,
  max_mmap_attempts, max_shadow_stack_addr, rand_addr_mask, mask_8mb,
}
use flash_stack.Runtime.Promises.{Maps, Unmaps, Promises}

abbrev pub adjusted_rsp : ℕ → ℕ
adjusted_rsp rsp = sub64 rsp (2 * real_shadow_stack_size)

-- The address to ask for, from a random number.
abbrev pub hint_at : ℕ → ℕ → ℕ
hint_at rsp x =
    let y = x % max_shadow_stack_addr in
    bit_and (if ltb 0 (adjusted_rsp rsp) then y % adjusted_rsp rsp else y) rand_addr_mask

-- Not 8MB-aligned, or above adjusted_rsp.
abbrev pub is_refused : ℕ → ℕ → Bool
is_refused rsp a = not (bit_and a mask_8mb == 0) || ltb (adjusted_rsp rsp) a

-- gsrsp_total_attempts: each number of attempts below SPA_MAX_MMAP_ATTEMPTS has its counter, and
-- the rest share one.
abbrev pub count_attempts : Bool → ℕ → World → World
count_attempts init i w =
    let slot = if ltb i max_mmap_attempts then i else max_mmap_attempts in
    if ltb i max_mmap_attempts && init
    then w
    else record w { total_attempts = update w.total_attempts slot (w.total_attempts slot + 1) }

module _ (k : System) (rsp : ℕ) where
  -- The loop, with `left` rounds to go before it breaks; the address and the final value of `i`.
  unfoldable pub try_addresses : ℕ → ℕ → M (Option ℕ × ℕ)
  try_addresses zero i = do x ← rdrand k; pure (none, i)
  try_addresses (suc left) i =
      let rest = try_addresses left (i + 1) in
      do
        x ← rdrand k
        got ← mmap k (hint_at rsp x) real_shadow_stack_size
        elim got [
          | none ↦ rest
          | some a ↦
              if is_refused rsp a
              then munmap k a real_shadow_stack_size >> rest
              else pure (some a, i + 1)
        ]

  unfoldable pub get_memory_at_random : Bool → M (Option ℕ)
  unfolding try_addresses
  get_memory_at_random init = do
    (addr, i) ← try_addresses (max_mmap_attempts + 1) 0
    modify (count_attempts init i)
    pure addr

-- Memory and the gs register as they were, for who only touches what is mapped.
pub record Kept (s t : Space) : Type 0 where
  pub mapped_same : (b : ℕ) → t.mapped b ≡ s.mapped b
  pub word_same : (b : ℕ) → s.mapped b ≡ true → t.word b ≡ s.word b
  pub gs_same : t.gs ≡ s.gs

-- The variables of the thread that the loop leaves alone.
abbrev pub flags : World → Bool × Bool × ℕ × ℕ × ℕ × ℕ
flags w = (
  w.inited, w.relaxing_during_init, w.readings, w.total_rand_cnt, w.total_fail_rand_cnt,
  w.total_cpu_cycles,
)

abbrev pub Obtained : ℕ → Option ℕ → Space → Space → Type 0
Obtained rsp none s t = Kept s t
Obtained rsp (some a) s t =
    Maps a real_shadow_stack_size s t × (a % 0x800000 ≡ 0) × (a ≤ adjusted_rsp rsp)

Kept-Obtained :
    (rsp : ℕ) (r : Option ℕ) (s t u : Space) → Kept s t → Obtained rsp r t u → Obtained rsp r s u
Kept-Obtained rsp none s t u h g = record {
  mapped_same = λ b. g.mapped_same b ∙ h.mapped_same b;
  word_same = λ b m. g.word_same b (h.mapped_same b ∙ m) ∙ h.word_same b m;
  gs_same = g.gs_same ∙ h.gs_same;
}
Kept-Obtained rsp (some a) s t u h (g, al, le) = (
  record {
    fits = g.fits;
    fresh = λ b i. sym (h.mapped_same b) ∙ g.fresh b i;
    mapped_now = λ b. rw (h.mapped_same b) at (g.mapped_now b);
    word_same = λ b m. g.word_same b (h.mapped_same b ∙ m) ∙ h.word_same b m;
    gs_same = g.gs_same ∙ h.gs_same;
  },
  al,
  le,
)

-- What is mapped and unmapped again is as it was.
pub Unmaps-Maps : {a n : ℕ} {s t u : Space} → Maps a n s t → Unmaps a n t u → Kept s u
Unmaps-Maps g h = record {
  mapped_same = λ b. ground (arith, h.mapped_now b, g.mapped_now b, g.fresh b);
  word_same = λ b m. ground (arith, h.word_same b, g.word_same b m, g.fresh b, m);
  gs_same = h.gs_same ∙ g.gs_same;
}

abbrev Tried : ℕ → ℕ → ℕ → World → Option ((Option ℕ × ℕ) × World) → Type 0
Tried rsp left i w out =
    (r : Option ℕ) × (n : ℕ) × (w' : World) × (out ≡ some ((r, n), w'))
    × Obtained rsp r w.space w'.space
    × (flags w' ≡ flags w)
    × (n ≤ i + left)

module _ (k : System) (promises : Promises k) (rsp : ℕ) where
  abbrev drawn : World → World
  drawn w = record w { draws = w.draws + 1 }

  abbrev asked : World → Option (ℕ × Space)
  asked w = k.mmap (hint_at rsp (k.rdrand w.draws)) real_shadow_stack_size w.space

  try_addresses_lem : (left i : ℕ) (w : World) → Tried rsp left i w (try_addresses k rsp left i w)
  unfolding try_addresses
  try_addresses_lem zero i w = (
    none,
    i,
    drawn w,
    refl,
    record { mapped_same = λ b. refl; word_same = λ b m. refl; gs_same = refl },
    refl,
    omega arith,
  )
  try_addresses_lem (suc left) i w = elim (Option-cases (asked w)) [
    | inl e ↦
        let (r, n, w', run, got, same, le) = try_addresses_lem left (i + 1) (drawn w) in
        (r, n, w', rw (e, ◌>>=◌) run, got, same, omega arith)
    | inr ((a, sp), e) ↦
        let maps = promises.mmap_maps _ _ _ _ _ e in
        elim (Bool-cases (is_refused rsp a)) [
          | inl b ↦
              let gone = k.munmap a real_shadow_stack_size sp in
              let u = promises.munmap_unmaps a real_shadow_stack_size sp in
              let next = record (drawn w) { space = gone } in
              let (r, n, w', run, got, same, le) = try_addresses_lem left (i + 1) next in
              (
                r,
                n,
                w',
                rw (e, ◌>>=◌, b, ◌>>◌) run,
                Kept-Obtained rsp r w.space gone w'.space (Unmaps-Maps maps u) got,
                same,
                omega arith,
              )
          | inr b ↦ (
            some a,
            i + 1,
            record (drawn w) { space = sp },
            rw (e, ◌>>=◌, b),
            (maps, ground (arith, b, bit_and_low23 a), ground (arith, b)),
            refl,
            omega arith,
          )
        ]
  ]

  -- On a system that keeps its promises get_memory_at_random returns without a fault. If it gives
  -- an address, that is a multiple of 8 MB and not above the adjusted stack pointer, and 10 MB
  -- from there on, which were free, are mapped; but for these, and wholly if it gives none, what
  -- was mapped is still mapped with its contents, and nothing else is. The gs register and the
  -- other variables of the thread are as they were.
  pub get_memory_at_random_lem :
      (init : Bool) (w : World)
      → (r : Option ℕ) × (w' : World) × (get_memory_at_random k rsp init w ≡ some (r, w'))
        × Obtained rsp r w.space w'.space
        × (flags w' ≡ flags w)
  unfolding get_memory_at_random
  get_memory_at_random_lem init w =
      let (r, n, w', run, got, same, le) = try_addresses_lem (max_mmap_attempts + 1) 0 w in
      (r, count_attempts init n w', rw (run, ◌>>=◌), ground (arith, got), ground (arith, same))
