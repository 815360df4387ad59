-- ===== src/Runtime/Regions.antt =====
-- The table of shadow stacks whose threads have ended, in FlashStack/gs.rsp.c: add_memory_region,
-- release_memory_region, release_shadow_stack and thread_cleanup_handler. Each runs as a whole: the
-- first two hold the mutex.
use flash_stack.Base.{
  ℕ, ◌+◌, ◌*◌, Bool, true, false, List, [], ◌∷◌, Option, none, some, ltb, if◌then◌else◌,
}
use flash_stack.Asm.{sub64}
use flash_stack.Runtime.{
  System, Space, World, load, metadata_by_rsp, real_shadow_stack_size, cycles_per_randomization,
  shadow_stack_field,
}

-- ThreadRegionInfo
pub record Region : Type 0 where
  pub valid : Bool
  pub shadow_stack : ℕ
  pub shadow_stack_size : ℕ
  pub expired_time : ℕ
  pub tid : ℕ

-- CPU_CYCLES_AFTER_THREAD_EXITING
abbrev pub cycles_after_exiting : ℕ
cycles_after_exiting = cycles_per_randomization * 1000

-- PTHREAD_DESTRUCTOR_ITERATIONS
abbrev pub destructor_iterations : ℕ
destructor_iterations = 4

-- Into the first slot that is free; without one the table stays.
unfoldable pub add_memory_region : Region → List Region → List Region
add_memory_region r [] = []
add_memory_region r (x ∷ xs) =
    let rest = add_memory_region r xs in
    if x.valid then x ∷ rest else (record r { valid = true }) ∷ xs

module _ (k : System) where
  abbrev pub is_expired : ℕ → Region → Bool
  is_expired readings x = ltb cycles_after_exiting (sub64 (k.rdtsc readings) x.expired_time)

  -- One slot of a round of release_memory_region: the time is read only for a slot that is valid.
  abbrev pub sweep_slot : Region → Space → ℕ → Region × Space × ℕ
  sweep_slot x s n =
      if x.valid
      then if is_expired n x
        then (record x { valid = false }, k.munmap x.shadow_stack x.shadow_stack_size s, n + 1)
        else (x, s, n + 1)
      else (x, s, n)

  unfoldable pub release_memory_region : List Region → Space → ℕ → List Region × Space × ℕ
  release_memory_region [] s n = ([], s, n)
  release_memory_region (x ∷ xs) s n =
      let (x', s', n') = sweep_slot x s n in
      let (xs', s'', n'') = release_memory_region xs s' n' in (x' ∷ xs', s'', n'')

  -- `none` is a fault; a null pointer of metadata ends it.
  unfoldable pub release_shadow_stack : ℕ → ℕ → List Region → World → Option (List Region × World)
  unfolding metadata_by_rsp add_memory_region
  release_shadow_stack rsp tid slots w = elim (metadata_by_rsp k rsp w) [
    | none ↦ some (slots, w)
    | some md ↦ elim (load (md + shadow_stack_field) w) [
      | none ↦ none
      | some (base, w') ↦ some (
        add_memory_region
            (record {
              valid = false;
              shadow_stack = base;
              shadow_stack_size = real_shadow_stack_size;
              expired_time = k.rdtsc w'.readings;
              tid = tid;
            })
            slots,
        record w' { readings = w'.readings + 1 },
      )
    ]
  ]

  -- With the new value of the thread's key, if it is set.
  unfoldable pub thread_cleanup_handler :
      ℕ → ℕ → ℕ → List Region → World → Option (Option ℕ × List Region × World)
  unfolding release_shadow_stack
  thread_cleanup_handler rsp tid iter slots w =
      let released : Option (Option ℕ × List Region × World) =
        elim (release_shadow_stack rsp tid slots w) [
          | none ↦ none
          | some (slots', w') ↦ some (none, slots', w')
        ] in
      if ltb iter destructor_iterations then some (some (iter + 1), slots, w) else released
