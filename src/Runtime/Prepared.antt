-- ===== src/Runtime/Prepared.antt =====
-- init_shadow_stack of FlashStack/gs.rsp.c, from its call to its return.
use flash_stack.Base.{
  ℕ, zero, suc, ◌+◌, ◌*◌, ◌≤◌, ◌≡◌, ◌∙◌, refl, ap, Bool, true, false, Option, none, some,
  if◌then◌else◌, arith,
}
use flash_stack.Asm.{add64, sub64}
use flash_stack.Scheme.{user_space_size}
use flash_stack.Runtime.{
  System, Space, World, ◌>>=◌, ◌>>◌, store, set_word, metadata_of, set_gs, call_stack_size,
  real_shadow_stack_size, metadata_offset, max_gs_base_addr, shadow_stack_field,
  is_randomizing_field, cpu_cycles_field, state_field, diff_field, relaxing_field,
  flash_stack_inited,
}
use flash_stack.Runtime.Promises.{Promises}
use flash_stack.Runtime.Obtain.{get_memory_at_random, get_memory_at_random_lem, Obtained}
use flash_stack.Runtime.Moves.{Ready}
use flash_stack.Runtime.Runs.{follow}
use flash_stack.Runtime.Survive.{SetsGs}
use flash_stack.Runtime.Prepare.{
  clear_metadata, fill_metadata, init_metadata, await_memory, install, do_init_shadow_stack,
  init_shadow_stack,
}

abbrev cleared : ℕ → World → World
cleared md w = set_word (md + relaxing_field) 0 (
    set_word (md + diff_field) 0 (
      set_word (md + state_field) 0 (
        set_word (md + cpu_cycles_field) 0
          (set_word (md + is_randomizing_field) 0 (set_word (md + shadow_stack_field) 0 w)))))

abbrev filled : ℕ → ℕ → ℕ → World → World
filled md base diff w = set_word (md + diff_field) diff (
    set_word (md + relaxing_field) 0 (
      set_word (md + cpu_cycles_field) 0
        (set_word (md + is_randomizing_field) 0 (set_word (md + shadow_stack_field) base w))))

module _ (md : ℕ) (w : World)
    (mapped : (f : ℕ) → f ≤ relaxing_field → w.space.mapped (md + f) ≡ true) where
  m0 : w.space.mapped (md + shadow_stack_field) ≡ true
  m0 = mapped shadow_stack_field (omega arith)

  m8 : w.space.mapped (md + is_randomizing_field) ≡ true
  m8 = mapped is_randomizing_field (omega arith)

  m16 : w.space.mapped (md + cpu_cycles_field) ≡ true
  m16 = mapped cpu_cycles_field (omega arith)

  m24 : w.space.mapped (md + state_field) ≡ true
  m24 = mapped state_field (omega arith)

  m32 : w.space.mapped (md + diff_field) ≡ true
  m32 = mapped diff_field (omega arith)

  m40 : w.space.mapped (md + relaxing_field) ≡ true
  m40 = mapped relaxing_field (omega arith)

  clear_metadata-cleared : clear_metadata md w ≡ some (tt, cleared md w)
  unfolding clear_metadata
  clear_metadata-cleared =
      rw (
        ◌>>◌, m0, ◌>>=◌, ◌>>◌, m8, ◌>>=◌, ◌>>◌, m16, ◌>>=◌, ◌>>◌, m24, ◌>>=◌, ◌>>◌, m32, ◌>>=◌, m40,
      )

  fill_metadata-filled :
      (base diff : ℕ) → fill_metadata md base diff w ≡ some (tt, filled md base diff w)
  unfolding fill_metadata
  fill_metadata-filled base diff =
      rw (◌>>◌, m0, ◌>>=◌, ◌>>◌, m8, ◌>>=◌, ◌>>◌, m16, ◌>>=◌, ◌>>◌, m40, ◌>>=◌, m32)

  store_state : (v : ℕ) → store (md + state_field) v w ≡ some (tt, set_word (md + state_field) v w)
  store_state v = rw m24

-- Some of the next `fuel` calls of get_memory_at_random yields memory.
unfoldable pub yields : System → ℕ → ℕ → World → Bool
unfolding get_memory_at_random
yields k zero inner w = false
yields k (suc fuel) inner w = elim (get_memory_at_random k inner true w) [
  | none ↦ false
  | some (some base, w') ↦ true
  | some (none, w') ↦ yields k fuel inner w'
]

-- The shadow stack is in order, and marked as such.
abbrev pub Installed : ℕ → World → Type 0
Installed top w =
    (base : ℕ) × Ready top base w.space
    × (w.space.word (base + metadata_offset + state_field) ≡ flash_stack_inited)
    × (w.space.word (base + metadata_offset + is_randomizing_field) ≡ 0)

module _ (k : System) (promises : Promises k) (sets : SetsGs k) (rsp inner : ℕ)
    (deeper : inner ≤ rsp) (user : rsp ≤ user_space_size)
    (room : 2 * real_shadow_stack_size ≤ inner) where
  module _ (base : ℕ) (s : Space) (w : World) (got : Obtained inner (some base) s w.space) where
    abbrev at_md : ℕ
    at_md = base + metadata_offset

    abbrev gs_diff : ℕ
    gs_diff = sub64 (add64 (add64 base call_stack_size) user_space_size) rsp

    md_mapped : (f : ℕ) → f ≤ relaxing_field → w.space.mapped (at_md + f) ≡ true
    md_mapped f l = ground (arith, got.0.mapped_now (at_md + f), l)

    gs_diff_user : gs_diff ≤ max_gs_base_addr
    gs_diff_user = omega (arith, got.2, got.0.fits, deeper, user, room)

    abbrev prepared : World
    prepared = filled at_md base gs_diff (cleared at_md w)

    abbrev set_up : World
    set_up = record prepared { space = record prepared.space { gs = gs_diff } }

    init_metadata-prepared : init_metadata base gs_diff w ≡ some (tt, prepared)
    unfolding init_metadata
    init_metadata-prepared =
        let e : metadata_of base ≡ at_md = omega (arith, got.0.fits) in
        rw e (
          ap (follow (λ _. fill_metadata at_md base gs_diff))
            (clear_metadata-cleared at_md w md_mapped)
          ∙ fill_metadata-filled at_md (cleared at_md w) md_mapped base gs_diff)

    install-set_up :
        install k rsp base w ≡ some (tt, set_word (at_md + state_field) flash_stack_inited set_up)
    unfolding install
    install-set_up =
        let e : metadata_of base ≡ at_md = omega (arith, got.0.fits) in
        ap
          (follow (λ _.
            set_gs k gs_diff >>= λ done. store (metadata_of base + state_field) flash_stack_inited))
          init_metadata-prepared
        ∙ rw (sets gs_diff prepared.space gs_diff_user, ◌>>=◌, e)
            (store_state at_md set_up md_mapped flash_stack_inited)

    install_lem : (w' : World) × (install k rsp base w ≡ some (tt, w')) × Installed rsp w'
    install_lem = (
      set_word (at_md + state_field) flash_stack_inited set_up,
      install-set_up,
      (
        base,
        record {
          anchored = record {
            top_user = user;
            aligned = got.1;
            fits = got.0.fits;
            gs_diff = omega (arith, got.0.fits, user);
          };
          gs_user = gs_diff_user;
          all_mapped = λ i l. ground (arith, got.0.mapped_now (base + i), l);
          own_address = ground arith;
          own_diff = ground arith;
        },
        ground arith,
        ground arith,
      ),
    )

  abbrev Awaited : Bool → Option ℕ → World → Type 0
  Awaited b none w' = b ≡ false
  Awaited b (some base) w' = (b ≡ true) × ((s : Space) × Obtained inner (some base) s w'.space)

  abbrev Waits : ℕ → World → Type 0
  Waits fuel w =
      (r : Option ℕ) × (w' : World) × (await_memory k fuel inner w ≡ some (r, w'))
      × Awaited (yields k fuel inner w) r w'

  await_next :
      (fuel : ℕ) (w w1 : World) (r : Option ℕ)
      → get_memory_at_random k inner true w ≡ some (r, w1)
      → Obtained inner r w.space w1.space
      → Waits fuel w1
      → Waits (suc fuel) w
  unfolding await_memory yields
  await_next fuel w w1 none run got (r, w', rest, h) =
      (r, w', rw (run, ◌>>=◌) rest, rw (yields, run) h)
  await_next fuel w w1 (some base) run got rest =
      (some base, w1, rw (run, ◌>>=◌), rw (yields, run) (refl, (w.space, got)))

  await_memory_lem : (fuel : ℕ) (w : World) → Waits fuel w
  unfolding await_memory yields
  await_memory_lem zero w = (none, w, refl, refl)
  await_memory_lem (suc fuel) w =
      let (r, w1, run, got, same) = get_memory_at_random_lem k promises inner true w in
      await_next fuel w w1 r run got (await_memory_lem fuel w1)

  do_init_from :
      (fuel : ℕ) (w w1 : World) (r : Option ℕ)
      → await_memory k fuel inner w ≡ some (r, w1)
      → Awaited (yields k fuel inner w) r w1
      → (w' : World) × (do_init_shadow_stack k fuel rsp inner w ≡ some (yields k fuel inner w, w'))
        × (yields k fuel inner w ≡ true → Installed rsp w')
  unfolding do_init_shadow_stack
  do_init_from fuel w w1 none run h = (w1, rw (run, ◌>>=◌, h), λ t. absurd (ground (arith, t, h)))
  do_init_from fuel w w1 (some base) run (h, (s, got)) =
      let (w', ran, ok) = install_lem base s w1 got in
      (w', rw (run, ◌>>=◌, ◌>>◌, h) (rw (ran, ◌>>=◌)), λ t. ok)

  do_init_lem :
      (fuel : ℕ) (w : World)
      → (w' : World) × (do_init_shadow_stack k fuel rsp inner w ≡ some (yields k fuel inner w, w'))
        × (yields k fuel inner w ≡ true → Installed rsp w')
  unfolding do_init_shadow_stack
  do_init_lem fuel w =
      let (r, w1, run, h) = await_memory_lem fuel w in do_init_from fuel w w1 r run h

-- On a system that keeps its promises, and where arch_prctl takes every address up to
-- MAX_GS_BASE_ADDR, init_shadow_stack, on a thread that has no shadow stack yet, called at `rsp`
-- within user space and with a stack pointer `inner` of at least 20 MB and at most `rsp` in
-- get_memory_at_random, does not fault. If one of the first `fuel` calls of get_memory_at_random
-- yields memory, it succeeds, and a shadow stack is in order for a thread prepared at `rsp`, with
-- its state set and is_randomizing 0; if none does, the fuel of the endless loop is used up.
pub init_shadow_stack_lem :
    (k : System) (fuel rsp inner : ℕ) (w : World)
    → Promises k
    → SetsGs k
    → inner ≤ rsp
    → rsp ≤ user_space_size
    → 2 * real_shadow_stack_size ≤ inner
    → w.inited ≡ false
    → (w' : World) × (init_shadow_stack k fuel rsp inner w
        ≡ some (yields k fuel inner (record w { inited = true }), w'))
      × (yields k fuel inner (record w { inited = true }) ≡ true → Installed rsp w')
unfolding init_shadow_stack
init_shadow_stack_lem k fuel rsp inner w promises sets d u room h =
    let (w', run, ok) =
      do_init_lem k promises sets rsp inner d u room fuel (record w { inited = true }) in
    (
      w',
      ap
            (λ b.
              if b
              then some (true, w)
              else do_init_shadow_stack k fuel rsp inner (record w { inited = true }))
            h
          ∙ run,
      ok,
    )
