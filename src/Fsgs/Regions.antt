-- ===== src/Fsgs/Regions.antt =====
-- The table of ended threads in FlashStack/fsgs.c: add_memory_region, release_memory_region,
-- release_shadow_stack and thread_cleanup_handler. Each runs as a whole: the first two hold the
-- mutex.
use flash_stack.Base.{
  ℕ, ◌+◌, ◌*◌, Bool, true, false, List, [], ◌∷◌, Option, none, some, ltb, if◌then◌else◌,
}
use flash_stack.Base.Steps.{pure, ◌>>=◌, gets}
use flash_stack.Asm.{sub64}
use flash_stack.Runtime.{cycles_per_randomization}
use flash_stack.Runtime.Regions.{destructor_iterations}
use flash_stack.Buddy.{Memory, page_size}
use flash_stack.Fsgs.{Os, F, Thread, load, rdtsc, stack_size, self_addr_field, stack_field}

pub record ThreadRegionInfo : Type 0 where
  pub valid : Bool
  pub metadata : ℕ
  pub metadata_size : ℕ
  pub shadow_stack : ℕ
  pub shadow_stack_size : ℕ
  pub expired_time : ℕ
  pub tid : ℕ

-- CPU_CYCLES_AFTER_THREAD_EXITING of fsgs.c
abbrev pub cycles_after_end : ℕ
cycles_after_end = cycles_per_randomization * 1000 * 10

-- Into the first slot that is free; without one the table stays.
unfoldable pub enter_region : ThreadRegionInfo → List ThreadRegionInfo → List ThreadRegionInfo
enter_region r [] = []
enter_region r (x ∷ xs) =
    let rest = enter_region r xs in if x.valid then x ∷ rest else (record r { valid = true }) ∷ xs

module _ (k : Os) where
  abbrev pub is_over : ℕ → ThreadRegionInfo → Bool
  is_over readings x = ltb cycles_after_end (sub64 (k.rdtsc readings) x.expired_time)

  -- The shadow stack first, then the metadata.
  abbrev pub unmap_region : ThreadRegionInfo → Memory → Memory
  unmap_region x m =
      k.munmap x.metadata x.metadata_size (k.munmap x.shadow_stack x.shadow_stack_size m)

  -- One slot of a round of release_memory_region: the time is read only for a slot that is valid.
  abbrev pub sweep_region : ThreadRegionInfo → Memory → ℕ → ThreadRegionInfo × Memory × ℕ
  sweep_region x m n =
      if x.valid
      then if is_over n x
        then (record x { valid = false }, unmap_region x m, n + 1)
        else (x, m, n + 1)
      else (x, m, n)

  -- One round of the loop of release_memory_region.
  unfoldable pub sweep_regions :
      List ThreadRegionInfo → Memory → ℕ → List ThreadRegionInfo × Memory × ℕ
  sweep_regions [] m n = ([], m, n)
  sweep_regions (x ∷ xs) m n =
      let (x', m', n') = sweep_region x m n in
      let (xs', m'', n'') = sweep_regions xs m' n' in (x' ∷ xs', m'', n'')

  -- release_shadow_stack, with the table.
  unfoldable pub release_thread : ℕ → List ThreadRegionInfo → F (List ThreadRegionInfo)
  release_thread tid slots = do
    gs ← gets (λ w. w.gs)
    md ← load (gs + self_addr_field)
    base ← load (md + stack_field)
    now ← rdtsc k
    pure (
        enter_region
          (record {
            valid = false;
            metadata = md;
            metadata_size = page_size;
            shadow_stack = base;
            shadow_stack_size = stack_size;
            expired_time = now;
            tid = tid;
          })
          slots)

  -- thread_cleanup_handler, with the new value of the thread's key, if it is set.
  unfoldable pub cleanup_handler :
      ℕ → ℕ → List ThreadRegionInfo → F (Option ℕ × List ThreadRegionInfo)
  cleanup_handler tid iter slots w =
      let released : Option ((Option ℕ × List ThreadRegionInfo) × Thread) =
        (release_thread tid slots >>= λ slots'. pure (none, slots')) w in
      if ltb iter destructor_iterations then some ((some (iter + 1), slots), w) else released
