-- ===== src/Runtime/Table.antt =====
-- The table of ended threads in FlashStack/gs.rsp.c, and the memory of their shadow stacks.
use flash_stack.Base.{
  ℕ, zero, suc, sym, ◌+◌, ◌≤◌, ◌<◌, ◌≡◌, ◌⊎◌, inl, inr, refl, ◌∙◌, Bool, true, false, not, ◌||◌,
  List, [], ◌∷◌, none, some, if◌then◌else◌, get_elem?, length, arith, Bool-cases, ltb-eq-false,
}
use flash_stack.Asm.{sub64}
use mathlib.Core.Option.{some-injective}
use mathlib.Core.Path.{subst}
use flash_stack.Runtime.{
  System, Space, World, metadata_offset, real_shadow_stack_size, call_stack_size,
  shadow_stack_field,
}
use flash_stack.Runtime.Promises.{Promises, inside}
use flash_stack.Runtime.Lookup.{metadata_by_rsp_iff}
use flash_stack.Runtime.Moves.{Ready}
use flash_stack.Runtime.Regions.{
  Region, destructor_iterations, add_memory_region, sweep_slot, release_memory_region,
  release_shadow_stack, thread_cleanup_handler,
}

-- Of `m` readings of the clock from the n-th on each, or none, is more than 32000000000 cycles, ten
-- seconds, after the end of the thread.
abbrev pub Old : System → ℕ → ℕ → Region → Type 0
Old k n m x = (j : ℕ) → n ≤ j → j < n + m → 32000000000 < sub64 (k.rdtsc j) x.expired_time

abbrev pub Young : System → ℕ → ℕ → Region → Type 0
Young k n m x = (j : ℕ) → n ≤ j → j < n + m → sub64 (k.rdtsc j) x.expired_time ≤ 32000000000

-- The sweep has no reason to unmap `b` for this slot.
abbrev pub Spares : System → ℕ → ℕ → ℕ → Region → Type 0
Spares k n m b x =
    (x.valid ≡ false) ⊎ (inside x.shadow_stack x.shadow_stack_size b ≡ false) ⊎ Young k n m x

abbrev pub AllSpare : System → ℕ → ℕ → ℕ → List Region → Type 0
AllSpare k n m b [] = Unit
AllSpare k n m b (x ∷ xs) = Spares k n m b x × AllSpare k n m b xs

Spares-fewer :
    (k : System) (n m n' m' b : ℕ) (x : Region)
    → n ≤ n'
    → n' + m' ≤ n + m
    → Spares k n m b x
    → Spares k n' m' b x
Spares-fewer k n m n' m' b x lo hi (inl v) = inl v
Spares-fewer k n m n' m' b x lo hi (inr (inl out)) = inr (inl out)
Spares-fewer k n m n' m' b x lo hi (inr (inr young)) =
    inr (inr (λ j l u. young j (omega (arith, lo, l)) (omega (arith, hi, u))))

AllSpare-fewer :
    (k : System) (n m n' m' b : ℕ) (xs : List Region)
    → n ≤ n'
    → n' + m' ≤ n + m
    → AllSpare k n m b xs
    → AllSpare k n' m' b xs
AllSpare-fewer k n m n' m' b [] lo hi h = tt
AllSpare-fewer k n m n' m' b (x ∷ xs) lo hi (h, hs) =
    (Spares-fewer k n m n' m' b x lo hi h, AllSpare-fewer k n m n' m' b xs lo hi hs)

-- A round reads the clock at most once for a slot.
sweep_slot-readings :
    (k : System) (x : Region) (s : Space) (n : ℕ)
    → (n ≤ (sweep_slot k x s n).2) × ((sweep_slot k x s n).2 ≤ n + 1)
sweep_slot-readings k x s n = (ground arith, ground arith)

module _ (k : System) (promises : Promises k) where
  slot_stays :
      (m b : ℕ) (x : Region) (s : Space) (n : ℕ)
      → Spares k n (suc m) b x
      → ((sweep_slot k x s n).1.mapped b ≡ s.mapped b) × ((sweep_slot k x s n).1.word b ≡ s.word b)
  slot_stays m b x s n (inl v) = (ground (arith, v), ground (arith, v))
  slot_stays m b x s n (inr (inl out)) =
      let u = promises.munmap_unmaps x.shadow_stack x.shadow_stack_size s in
      (ground (arith, out, u.mapped_now b), ground (arith, out, u.word_same b))
  slot_stays m b x s n (inr (inr young)) =
      let here = young n (omega arith) (omega arith) in (ground (arith, here), ground (arith, here))

  slot_unmaps :
      (m b : ℕ) (x : Region) (s : Space) (n : ℕ)
      → (s.mapped b ≡ false)
        ⊎ ((x.valid ≡ true)
            × Old k n (suc m) x
            × (inside x.shadow_stack x.shadow_stack_size b ≡ true))
      → (sweep_slot k x s n).1.mapped b ≡ false
  slot_unmaps m b x s n (inl h) =
      ground (arith, h, (promises.munmap_unmaps x.shadow_stack x.shadow_stack_size s).mapped_now b)
  slot_unmaps m b x s n (inr (v, old, i)) = ground (
    arith,
    v,
    old n (omega arith) (omega arith),
    i,
    (promises.munmap_unmaps x.shadow_stack x.shadow_stack_size s).mapped_now b,
  )

  sweep_stays :
      (b : ℕ) (xs : List Region) (s : Space) (n : ℕ)
      → AllSpare k n (length xs) b xs
      → ((release_memory_region k xs s n).1.mapped b ≡ s.mapped b)
        × ((release_memory_region k xs s n).1.word b ≡ s.word b)
  unfolding release_memory_region
  sweep_stays b [] s n h = (refl, refl)
  sweep_stays b (x ∷ xs) s n (h, hs) =
      let (m, w) = slot_stays (length xs) b x s n h in
      let (_, s', n') = sweep_slot k x s n in
      let (lo, hi) = sweep_slot-readings k x s n in
      let (m', w') =
        sweep_stays b xs s' n'
          (AllSpare-fewer k n (suc (length xs)) n' (length xs) b xs lo (omega (arith, hi)) hs) in
      (m' ∙ m, w' ∙ w)

  -- A valid region that is old, and has the address.
  abbrev Due : ℕ → ℕ → ℕ → ℕ → List Region → Type 0
  Due n m b i xs =
      (x : Region) × (get_elem? xs i ≡ some x)
      × (x.valid ≡ true)
      × Old k n m x
      × (inside x.shadow_stack x.shadow_stack_size b ≡ true)

  sweep_unmaps :
      (b i : ℕ) (xs : List Region) (s : Space) (n : ℕ)
      → (s.mapped b ≡ false) ⊎ Due n (length xs) b i xs
      → (release_memory_region k xs s n).1.mapped b ≡ false
  unfolding release_memory_region
  sweep_unmaps b i [] s n (inl h) = h
  sweep_unmaps b i [] s n (inr (x, e, v, old, inn)) = absurd (ground (arith, e))
  sweep_unmaps b i (x ∷ xs) s n (inl h) =
      sweep_unmaps b i xs _ _ (inl (slot_unmaps (length xs) b x s n (inl h)))
  sweep_unmaps b zero (x ∷ xs) s n (inr (y, e, v, old, inn)) =
      let same : y ≡ x = sym (some-injective x y e) in
      sweep_unmaps b zero xs _ _ (
        inl (
          slot_unmaps (length xs) b x s n (
            inr (
              subst
                (λ z.
                  (z.valid ≡ true)
                  × Old k n (suc (length xs)) z
                  × (inside z.shadow_stack z.shadow_stack_size b ≡ true))
                same (v, old, inn)))))
  sweep_unmaps b (suc i) (x ∷ xs) s n (inr (y, e, v, old, inn)) =
      let (lo, hi) = sweep_slot-readings k x s n in
      sweep_unmaps b i xs _ _
        (inr (y, e, v, λ j l u. old j (omega (arith, lo, l)) (omega (arith, hi, u)), inn))

-- On a system that keeps its promises, a round of release_memory_region reads the clock at most
-- once for each slot. It unmaps every address of a valid region if each of these readings is more
-- than ten seconds, 32000000000 cycles, after the time in the region. An address all of whose
-- regions are free, or of which no reading is so late, stays as it is, mapped or not, with its
-- contents.
pub release_memory_region_lem :
    (k : System) (b : ℕ) (slots : List Region) (s : Space) (n : ℕ)
    → Promises k
    → ((i : ℕ) (x : Region)
        → get_elem? slots i ≡ some x
        → x.valid ≡ true
        → Old k n (length slots) x
        → inside x.shadow_stack x.shadow_stack_size b ≡ true
        → (release_memory_region k slots s n).1.mapped b ≡ false)
      × (AllSpare k n (length slots) b slots
          → ((release_memory_region k slots s n).1.mapped b ≡ s.mapped b)
            × ((release_memory_region k slots s n).1.word b ≡ s.word b))
release_memory_region_lem k b slots s n promises = (
  λ i x e v old inn. sweep_unmaps k promises b i slots s n (inr (x, e, v, old, inn)),
  sweep_stays k promises b slots s n,
)

-- The regions that the table answers for.
abbrev pub valid_regions : List Region → List Region
valid_regions [] = []
valid_regions (x ∷ xs) = if x.valid then x ∷ valid_regions xs else valid_regions xs

abbrev pub has_free_slot : List Region → Bool
has_free_slot [] = false
has_free_slot (x ∷ xs) = not x.valid || has_free_slot xs

added_keeps :
    (r : Region) (slots : List Region) (i : ℕ) (x : Region)
    → get_elem? slots i ≡ some x
    → x.valid ≡ true
    → get_elem? (add_memory_region r slots) i ≡ some x
unfolding add_memory_region
added_keeps r [] i x e v = absurd (ground (arith, e))
added_keeps r (y ∷ ys) zero x e v = elim (Bool-cases y.valid) [
  | inl h ↦ simp h e
  | inr h ↦ absurd (ground (arith, e, v, h))
]
added_keeps r (y ∷ ys) (suc i) x e v = elim (Bool-cases y.valid) [
  | inl h ↦ rw h (added_keeps r ys i x e v)
  | inr h ↦ rw h e
]

added_joins :
    (r : Region) (slots : List Region)
    → has_free_slot slots ≡ true
    → (i : ℕ) × (get_elem? (add_memory_region r slots) i ≡ some (record r { valid = true }))
unfolding add_memory_region
added_joins r [] h = absurd (ground (arith, h))
added_joins r (y ∷ ys) h = elim (Bool-cases y.valid) [
  | inl v ↦ let (i, e) = added_joins r ys (ground (arith, h, v)) in (suc i, rw v e)
  | inr v ↦ (0, rw v)
]

added_lost :
    (r : Region) (slots : List Region)
    → has_free_slot slots ≡ false
    → add_memory_region r slots ≡ slots
unfolding add_memory_region
added_lost r [] h = refl
added_lost r (y ∷ ys) h = ground (arith, h, added_lost r ys)

added_length :
    (r : Region) (slots : List Region)
    → (length (add_memory_region r slots) ≡ length slots)
      × (length (valid_regions (add_memory_region r slots))
          ≡ (if has_free_slot slots then 1 else 0) + length (valid_regions slots))
unfolding add_memory_region
added_length r [] = (omega arith, omega arith)
added_length r (y ∷ ys) = (ground (arith, added_length r ys), ground (arith, added_length r ys))

-- add_memory_region keeps the size of the table and every region in it. The new one joins them if
-- a slot is free; if none is, the table stays as it was, and the region is lost.
pub add_memory_region_lem :
    (r : Region) (slots : List Region)
    → (length (add_memory_region r slots) ≡ length slots)
      × (length (valid_regions (add_memory_region r slots))
          ≡ (if has_free_slot slots then 1 else 0) + length (valid_regions slots))
      × ((i : ℕ) (x : Region)
          → get_elem? slots i ≡ some x
          → x.valid ≡ true
          → get_elem? (add_memory_region r slots) i ≡ some x)
      × ((has_free_slot slots ≡ true)
          → (i : ℕ) × (get_elem? (add_memory_region r slots) i ≡ some (record r { valid = true })))
      × ((has_free_slot slots ≡ false) → add_memory_region r slots ≡ slots)
add_memory_region_lem r slots = (
  (added_length r slots).0,
  (added_length r slots).1,
  added_keeps r slots,
  added_joins r slots,
  added_lost r slots,
)

-- The region that release_shadow_stack enters.
abbrev pub ended_region : System → ℕ → ℕ → World → Region
ended_region k base tid w = record {
  valid = false;
  shadow_stack = base;
  shadow_stack_size = real_shadow_stack_size;
  expired_time = k.rdtsc w.readings;
  tid = tid;
}

-- Before the fourth round of the thread's destructors thread_cleanup_handler only sets the key,
-- to the next number. From then on, on a system that keeps its promises, with the shadow stack in
-- order and the stack pointer below the one of its preparation, by at most 8 MB, it enters
-- exactly that shadow stack into the table and leaves the key clear, without a fault.
pub thread_cleanup_handler_lem :
    (k : System) (top base rsp tid iter : ℕ) (slots : List Region) (w : World)
    → Promises k
    → Ready top base w.space
    → rsp < top
    → top ≤ rsp + call_stack_size
    → (iter < destructor_iterations
        → thread_cleanup_handler k rsp tid iter slots w ≡ some (some (iter + 1), slots, w))
      × (destructor_iterations ≤ iter
          → thread_cleanup_handler k rsp tid iter slots w
            ≡ some (
              none,
              add_memory_region (ended_region k base tid w) slots,
              record w { readings = w.readings + 1 },
            ))
unfolding thread_cleanup_handler release_shadow_stack
thread_cleanup_handler_lem k top base rsp tid iter slots w promises r lo hi =
    let found =
      (metadata_by_rsp_iff k top base rsp w promises r.anchored
          (omega (arith, r.anchored.top_user))).1
        (lo, hi) in
    let m : w.space.mapped (base + metadata_offset + shadow_stack_field) ≡ true =
      ground (arith, r.all_mapped metadata_offset) in
    (
      λ h. ground (arith, h),
      λ h. rw (ltb-eq-false iter destructor_iterations h, found, m, r.own_address),
    )
