-- ===== src/Tests/Threads.antt =====
-- A thread with its shadow stack at 0x100000000000, on that system.
use flash_stack.Base.{
  inl, inr, ◌&&◌, ◌-◌, not, ℕ, ◌+◌, ◌≤◌, ◌<◌, ◌≡◌, ◌↔◌, refl, true, false, List, [], ◌∷◌, Option,
  none, some, arith, ◌==◌, if◌then◌else◌, get_elem?, length,
}
use flash_stack.Runtime.{
  System, Space, World, metadata_by_rsp, metadata_offset, real_shadow_stack_size, call_stack_size,
}
use flash_stack.Runtime.Promises.{Promises, inside}
use flash_stack.Runtime.Lookup.{metadata_by_rsp_iff}
use flash_stack.Runtime.Obtain.{get_memory_at_random, get_memory_at_random_lem, Obtained, flags}
use flash_stack.Runtime.Prepare.{init_shadow_stack}
use flash_stack.Runtime.Prepared.{yields, Installed, init_shadow_stack_lem}
use flash_stack.Runtime.Moves.{Ready, Carried}
use flash_stack.Runtime.Undone.{after_mremap-faults}
use flash_stack.Runtime.Rerandomize.{after_mremap, rerandomize}
use flash_stack.Runtime.Whole.{flag, slot_of, rerandomize_lem}
use flash_stack.Runtime.Regions.{
  Region, add_memory_region, release_memory_region, thread_cleanup_handler, destructor_iterations,
}
use flash_stack.Runtime.Table.{
  Old, AllSpare, valid_regions, has_free_slot, ended_region, release_memory_region_lem,
  add_memory_region_lem, thread_cleanup_handler_lem,
}
use flash_stack.Tests.Linux.{linux, linux-Promises, linux-SetsGs}

abbrev base : ℕ
base = 0x100000000000

abbrev top : ℕ
top = 0x7ffff0000000

abbrev gs_there : ℕ
gs_there = 0x100010800000

abbrev home : Space
home = record {
  word = λ x.
      if x == base + 0x980000
      then base
      else if x == base + 0x980020
      then gs_there
      else if x == base + 0x980018
      then 1
      else if x == base + 0x7fff00
      then 0x1234
      else 0;
  mapped = inside base real_shadow_stack_size;
  gs = gs_there;
}

abbrev running : World
running = record {
  space = home;
  readings = 5;
  draws = 0;
  inited = true;
  relaxing_during_init = false;
  total_rand_cnt = 0;
  total_fail_rand_cnt = 0;
  total_cpu_cycles = 0;
  total_attempts = λ i. 0;
}

abbrev fresh : World
fresh = record running { inited = false }

home-Ready : Ready top base home
home-Ready = record {
  anchored = record { top_user = omega arith; aligned = refl; fits = omega arith; gs_diff = refl };
  gs_user = omega arith;
  all_mapped = λ i l. ground (arith, l);
  own_address = refl;
  own_diff = refl;
}

rerandomize_lem_example :
    (b : ℕ) × (w' : World) × (rerandomize linux 0x7fffefffff00 0x7fffeffffe00 running
      ≡ some (tt, w'))
    × Carried top base b home w'.space
    × (flag b w'.space ≡ 0)
    × ((p : ℕ)
        → p < top
        → top ≤ p + call_stack_size
        → w'.space.word (slot_of w'.space.gs p) ≡ home.word (slot_of gs_there p))
rerandomize_lem_example =
    rerandomize_lem linux top base 0x7fffefffff00 0x7fffeffffe00 running linux-Promises linux-SetsGs
      home-Ready (omega arith) (omega arith)

init_shadow_stack_lem_example :
    (w' : World) × (init_shadow_stack linux 3 top 0x7fffeffffe00 fresh
      ≡ some (yields linux 3 0x7fffeffffe00 running, w'))
    × (yields linux 3 0x7fffeffffe00 running ≡ true → Installed top w')
init_shadow_stack_lem_example =
    init_shadow_stack_lem linux 3 top 0x7fffeffffe00 fresh linux-Promises linux-SetsGs (omega arith)
      (omega arith) (omega arith) refl

get_memory_at_random_lem_example :
    (r : Option ℕ) × (w' : World) × (get_memory_at_random linux top false running ≡ some (r, w'))
    × Obtained top r home w'.space
    × (flags w' ≡ flags running)
get_memory_at_random_lem_example = get_memory_at_random_lem linux linux-Promises top false running

metadata_by_rsp_iff_example :
    (metadata_by_rsp linux 0x7fffefffff00 running ≡ some (base + metadata_offset))
    ↔ ((0x7fffefffff00 < top) × (top ≤ 0x7fffefffff00 + call_stack_size))
metadata_by_rsp_iff_example =
    metadata_by_rsp_iff linux top base 0x7fffefffff00 running linux-Promises home-Ready.anchored
      (omega arith)

abbrev ended : Region
ended = record {
  valid = true;
  shadow_stack = base;
  shadow_stack_size = real_shadow_stack_size;
  expired_time = 0;
  tid = 7;
}

abbrev free_slot : Region
free_slot = record ended { valid = false }

abbrev slots : List Region
slots = ended ∷ free_slot ∷ []

release_memory_region_lem_example :
    ((i : ℕ) (x : Region)
      → get_elem? slots i ≡ some x
      → x.valid ≡ true
      → Old linux 1000 2 x
      → inside x.shadow_stack x.shadow_stack_size base ≡ true
      → (release_memory_region linux slots home 1000).1.mapped base ≡ false)
    × (AllSpare linux 1000 2 base slots
        → ((release_memory_region linux slots home 1000).1.mapped base ≡ home.mapped base)
          × ((release_memory_region linux slots home 1000).1.word base ≡ home.word base))
release_memory_region_lem_example =
    release_memory_region_lem linux base slots home 1000 linux-Promises

-- The region is old at the thousandth reading and young at the tenth.
ended-Old : Old linux 1000 2 ended
ended-Old j l u = omega (arith, l, u)

slots-AllSpare : AllSpare linux 10 2 base slots
slots-AllSpare = (inr (inr (λ j l u. omega (arith, l, u))), (inl refl, tt))

swept : (release_memory_region linux slots home 1000).1.mapped base ≡ false
swept =
    (release_memory_region_lem linux base slots home 1000 linux-Promises).0 0 ended refl refl
      ended-Old refl

kept_mapped : (release_memory_region linux slots home 10).1.mapped base ≡ home.mapped base
kept_mapped =
    ((release_memory_region_lem linux base slots home 10 linux-Promises).1 slots-AllSpare).0

add_memory_region_lem_example :
    (length (add_memory_region free_slot slots) ≡ 2)
    × (length (valid_regions (add_memory_region free_slot slots)) ≡ 2)
    × ((i : ℕ) (x : Region)
        → get_elem? slots i ≡ some x
        → x.valid ≡ true
        → get_elem? (add_memory_region free_slot slots) i ≡ some x)
    × ((has_free_slot slots ≡ true)
        → (i : ℕ) × (get_elem? (add_memory_region free_slot slots) i ≡ some ended))
    × ((has_free_slot slots ≡ false) → add_memory_region free_slot slots ≡ slots)
add_memory_region_lem_example = add_memory_region_lem free_slot slots

thread_cleanup_handler_lem_example :
    (4 < destructor_iterations
      → thread_cleanup_handler linux 0x7fffefffff00 7 4 slots running
        ≡ some (some 5, slots, running))
    × (destructor_iterations ≤ 4
        → thread_cleanup_handler linux 0x7fffefffff00 7 4 slots running
          ≡ some (
            none,
            add_memory_region (ended_region linux base 7 running) slots,
            record running { readings = 6 },
          ))
thread_cleanup_handler_lem_example =
    thread_cleanup_handler_lem linux top base 0x7fffefffff00 7 4 slots running linux-Promises
      home-Ready (omega arith) (omega arith)

-- The system, but for arch_prctl, which fails.
abbrev refusing : System
refusing = record linux { set_gs = λ v s. none }

refusing-Promises : Promises refusing
refusing-Promises = record {
  mmap_maps = linux-Promises.mmap_maps;
  munmap_unmaps = linux-Promises.munmap_unmaps;
  mremap_moves = linux-Promises.mremap_moves;
  get_gs_reads = linux-Promises.get_gs_reads;
}

abbrev moved_on : World
moved_on = record running {
  space = record home {
    mapped = λ b.
        if inside 0x200000000000 real_shadow_stack_size b
        then home.mapped (base + (b - 0x200000000000))
        else not (inside base real_shadow_stack_size b) && home.mapped b;
    word = λ b.
        if inside 0x200000000000 real_shadow_stack_size b
        then home.word (base + (b - 0x200000000000))
        else home.word b;
  };
}

after_mremap-faults_example :
    after_mremap refusing
      (base + metadata_offset)
      base
      0x100000000000
      0x200010800000
      0x200000000000
      (some 0x200000000000)
      moved_on
    ≡ none
after_mremap-faults_example =
    after_mremap-faults refusing base 0x200000000000 0x200000000000 0x100000000000 0x200010800000
      home moved_on refusing-Promises refl refl refl
