-- ===== src/Fsgs/Ended.antt =====
-- What becomes of the memory of a thread that has ended, in FlashStack/fsgs.c.
use flash_stack.Base.{
  ℕ, zero, suc, ◌+◌, ◌≤◌, ◌<◌, ◌≡◌, ◌⊎◌, inl, inr, refl, ◌∙◌, Bool, true, false, not, ◌||◌, ◌&&◌,
  List, [], ◌∷◌, none, some, if◌then◌else◌, get_elem?, length, arith, Bool-cases, ltb-eq-false,
}
use flash_stack.Base.Steps.{◌>>=◌}
use flash_stack.Asm.{sub64}
use flash_stack.Runtime.Promises.{inside}
use flash_stack.Runtime.Regions.{destructor_iterations}
use flash_stack.Buddy.{Memory, page_size}
use flash_stack.Buddy.Promises.{on_page}
use flash_stack.Fsgs.{Os, Thread, stack_size, self_addr_field, stack_field}
use flash_stack.Fsgs.Promises.{Promises}
use flash_stack.Fsgs.Whole.{Ready}
use flash_stack.Fsgs.Regions.{
  ThreadRegionInfo, enter_region, is_over, unmap_region, sweep_region, sweep_regions,
  release_thread, cleanup_handler, cycles_after_end,
}

-- The address lies in the region, in its shadow stack or its metadata.
abbrev pub holds : ThreadRegionInfo → ℕ → Bool
holds x b = inside x.shadow_stack x.shadow_stack_size b || inside x.metadata x.metadata_size b

-- At `l` readings of the clock from the n-th on, the time has come.
abbrev pub OverFrom : Os → ℕ → ℕ → ThreadRegionInfo → Type 0
OverFrom k n l x = (j : ℕ) → n ≤ j → j < n + l → is_over k j x ≡ true

-- No valid region of the table holds the address.
abbrev pub Outside : ℕ → List ThreadRegionInfo → Type 0
Outside b [] = Unit
Outside b (x ∷ xs) = ((x.valid ≡ false) ⊎ (holds x b ≡ false)) × Outside b xs

abbrev pub has_room : List ThreadRegionInfo → Bool
has_room [] = false
has_room (x ∷ xs) = not x.valid || has_room xs

module _ (k : Os) (promises : Promises k) where
  unmap_region-readable :
      (x : ThreadRegionInfo) (m : Memory) (b : ℕ)
      → (unmap_region k x m).readable b ≡ (not (holds x b) && m.readable b)
  unmap_region-readable x m b =
      let u = promises.munmap_unmaps x.shadow_stack x.shadow_stack_size m in
      let v =
        promises.munmap_unmaps x.metadata x.metadata_size
          (k.munmap x.shadow_stack x.shadow_stack_size m) in
      ground (arith, u.readable_now b, v.readable_now b)

  unmap_region-word :
      (x : ThreadRegionInfo) (m : Memory) (b : ℕ)
      → holds x b ≡ false
      → (unmap_region k x m).word b ≡ m.word b
  unmap_region-word x m b h =
      let u = promises.munmap_unmaps x.shadow_stack x.shadow_stack_size m in
      let v =
        promises.munmap_unmaps x.metadata x.metadata_size
          (k.munmap x.shadow_stack x.shadow_stack_size m) in
      v.word_same b (ground (arith, h)) ∙ u.word_same b (ground (arith, h))

  sweep_region-readings :
      (x : ThreadRegionInfo) (m : Memory) (n : ℕ)
      → (n ≤ (sweep_region k x m n).2) × ((sweep_region k x m n).2 ≤ n + 1)
  sweep_region-readings x m n = (ground arith, ground arith)

  -- What is not mapped stays so.
  sweep_region-unmapped :
      (b : ℕ) (x : ThreadRegionInfo) (m : Memory) (n : ℕ)
      → m.readable b ≡ false
      → (sweep_region k x m n).1.readable b ≡ false
  sweep_region-unmapped b x m n h = ground (arith, h, unmap_region-readable x m b)

  sweep_region-unmaps :
      (b : ℕ) (x : ThreadRegionInfo) (m : Memory) (n : ℕ)
      → x.valid ≡ true
      → is_over k n x ≡ true
      → holds x b ≡ true
      → (sweep_region k x m n).1.readable b ≡ false
  sweep_region-unmaps b x m n v o h = ground (arith, v, o, h, unmap_region-readable x m b)

  sweep_region-outside :
      (b : ℕ) (x : ThreadRegionInfo) (m : Memory) (n : ℕ)
      → (x.valid ≡ false) ⊎ (holds x b ≡ false)
      → ((sweep_region k x m n).1.readable b ≡ m.readable b)
        × ((sweep_region k x m n).1.word b ≡ m.word b)
  sweep_region-outside b x m n (inl v) = (ground (arith, v), ground (arith, v))
  sweep_region-outside b x m n (inr h) =
      (ground (arith, h, unmap_region-readable x m b), ground (arith, unmap_region-word x m b h))

  sweep_regions-unmapped :
      (b : ℕ) (xs : List ThreadRegionInfo) (m : Memory) (n : ℕ)
      → m.readable b ≡ false
      → (sweep_regions k xs m n).1.readable b ≡ false
  unfolding sweep_regions
  sweep_regions-unmapped b [] m n h = h
  sweep_regions-unmapped b (x ∷ xs) m n h =
      sweep_regions-unmapped b xs _ _ (sweep_region-unmapped b x m n h)

  sweep_regions-unmaps :
      (b i : ℕ) (x : ThreadRegionInfo) (xs : List ThreadRegionInfo) (m : Memory) (n : ℕ)
      → get_elem? xs i ≡ some x
      → x.valid ≡ true
      → OverFrom k n (length xs) x
      → holds x b ≡ true
      → (sweep_regions k xs m n).1.readable b ≡ false
  unfolding sweep_regions
  sweep_regions-unmaps b i x [] m n e v o h = absurd (ground (arith, e))
  sweep_regions-unmaps b zero x (y ∷ ys) m n e v o h = sweep_regions-unmapped b ys _ _ (
      sweep_region-unmaps b y m n (ground (arith, e, v))
        (ground (arith, e, o n (omega arith) (omega arith))) (ground (arith, e, h)))
  sweep_regions-unmaps b (suc i) x (y ∷ ys) m n e v o h =
      sweep_regions-unmaps b i x ys (sweep_region k y m n).1 (sweep_region k y m n).2 e v
        (λ j l u.
          o j (omega (arith, l, (sweep_region-readings y m n).0))
            (omega (arith, u, (sweep_region-readings y m n).1)))
        h

  sweep_regions-Outside :
      (b : ℕ) (xs : List ThreadRegionInfo) (m : Memory) (n : ℕ)
      → Outside b xs
      → ((sweep_regions k xs m n).1.readable b ≡ m.readable b)
        × ((sweep_regions k xs m n).1.word b ≡ m.word b)
  unfolding sweep_regions
  sweep_regions-Outside b [] m n h = (refl, refl)
  sweep_regions-Outside b (x ∷ xs) m n (h, hs) =
      let (r, w) = sweep_region-outside b x m n h in
      let (r', w') =
        sweep_regions-Outside b xs (sweep_region k x m n).1 (sweep_region k x m n).2 hs in
      (r' ∙ r, w' ∙ w)

enter_region-joins :
    (r : ThreadRegionInfo) (slots : List ThreadRegionInfo)
    → has_room slots ≡ true
    → (i : ℕ) × (get_elem? (enter_region r slots) i ≡ some (record r { valid = true }))
unfolding enter_region
enter_region-joins r [] h = absurd (ground (arith, h))
enter_region-joins r (y ∷ ys) h = elim (Bool-cases y.valid) [
  | inl v ↦ let (i, e) = enter_region-joins r ys (ground (arith, h, v)) in (suc i, rw v e)
  | inr v ↦ (0, rw v)
]

enter_region-length :
    (r : ThreadRegionInfo) (slots : List ThreadRegionInfo)
    → length (enter_region r slots) ≡ length slots
unfolding enter_region
enter_region-length r [] = refl
enter_region-length r (y ∷ ys) = ground (arith, enter_region-length r ys)

Outside-if :
    (b : ℕ) (v : Bool) (xs ys : List ThreadRegionInfo)
    → Outside b xs
    → Outside b ys
    → Outside b (if v then xs else ys)
Outside-if b true xs ys h g = h
Outside-if b false xs ys h g = g

enter_region-Outside :
    (b : ℕ) (r : ThreadRegionInfo) (slots : List ThreadRegionInfo)
    → holds r b ≡ false
    → Outside b slots
    → Outside b (enter_region r slots)
unfolding enter_region
enter_region-Outside b r [] h o = tt
enter_region-Outside b r (y ∷ ys) h (a, o) =
    Outside-if b y.valid (y ∷ enter_region r ys) (record r { valid = true } ∷ ys)
      (a, enter_region-Outside b r ys h o) (inr h, o)

-- What release_shadow_stack enters.
abbrev region_of : Os → ℕ → ℕ → ℕ → Thread → ThreadRegionInfo
region_of k md base tid w = record {
  valid = false;
  metadata = md;
  metadata_size = page_size;
  shadow_stack = base;
  shadow_stack_size = stack_size;
  expired_time = k.rdtsc w.readings;
  tid = tid;
}

release_thread_runs :
    (k : Os) (md base tid : ℕ) (slots : List ThreadRegionInfo) (w : Thread)
    → w.gs ≡ md
    → w.memory.readable (md + self_addr_field) ≡ true
    → w.memory.word (md + self_addr_field) ≡ md
    → w.memory.readable (md + stack_field) ≡ true
    → w.memory.word (md + stack_field) ≡ base
    → release_thread k tid slots w
      ≡ some
          (enter_region (region_of k md base tid w) slots, record w { readings = w.readings + 1 })
unfolding release_thread
release_thread_runs k md base tid slots w g r0 v0 r32 v32 = rw (◌>>=◌, g, r0, v0, r32, v32, v0)

handler_releases :
    (k : Os) (md base shift r tid iter : ℕ) (slots : List ThreadRegionInfo) (w : Thread)
    → Ready md base shift r w
    → destructor_iterations ≤ iter
    → cleanup_handler k tid iter slots w
      ≡ some (
        (none, enter_region (region_of k md base tid w) slots),
        record w { readings = w.readings + 1 },
      )
unfolding cleanup_handler
handler_releases k md base shift r tid iter slots w h l =
    let run =
      release_thread_runs k md base tid slots w h.gs_is
        (h.place.md_readable (md + self_addr_field) (ground arith)) h.says.self_is
        (h.place.md_readable (md + stack_field) (ground arith)) h.says.stack_is in
    rw (◌>>=◌, ltb-eq-false iter destructor_iterations l, run)

-- Before the fourth round of the thread's destructors thread_cleanup_handler only sets the key to
-- the next number. In the fourth, on a system that keeps its promises, with the thread in order and
-- a slot free, it clears the key, ends without a fault and leaves memory as it is. Every later
-- round of release_memory_region whose readings of the clock, at most one for each slot, are more than the waiting time
-- behind leaves neither the shadow stack nor the metadata mapped, and no round changes an
-- address that lies in neither and in no other valid region of the table.
pub cleanup_handler_lem :
    (k : Os) (md base shift r tid iter : ℕ) (slots : List ThreadRegionInfo) (w : Thread)
    → Promises k
    → Ready md base shift r w
    → has_room slots ≡ true
    → (iter < destructor_iterations
        → cleanup_handler k tid iter slots w ≡ some ((some (iter + 1), slots), w))
      × (destructor_iterations ≤ iter
          → (slots' : List ThreadRegionInfo) × (cleanup_handler k tid iter slots w
              ≡ some ((none, slots'), record w { readings = w.readings + 1 }))
            × ((m : Memory) (n b : ℕ)
                → ((j : ℕ)
                    → n ≤ j
                    → j < n + length slots
                    → cycles_after_end < sub64 (k.rdtsc j) (k.rdtsc w.readings))
                → on_page md b || inside base stack_size b ≡ true
                → (sweep_regions k slots' m n).1.readable b ≡ false)
            × ((m : Memory) (n b : ℕ)
                → Outside b slots
                → on_page md b || inside base stack_size b ≡ false
                → ((sweep_regions k slots' m n).1.readable b ≡ m.readable b)
                  × ((sweep_regions k slots' m n).1.word b ≡ m.word b)))
unfolding cleanup_handler
cleanup_handler_lem k md base shift r tid iter slots w promises h room = (
  λ l. ground (arith, l),
  λ l.
      let region = region_of k md base tid w in
      let (i, e) = enter_region-joins region slots room in
      (
        enter_region region slots,
        handler_releases k md base shift r tid iter slots w h l,
        λ m n b late inn.
            sweep_regions-unmaps k promises b i (record region { valid = true })
              (enter_region region slots) m n e refl
              (λ j g u. ground (arith, late j g (rw (enter_region-length region slots) at u)))
              (ground (arith, inn)),
        λ m n b o out.
            sweep_regions-Outside k promises b (enter_region region slots) m n
              (enter_region-Outside b region slots (ground (arith, out)) o),
      ),
)
