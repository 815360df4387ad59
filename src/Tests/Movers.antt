-- ===== src/Tests/Movers.antt =====
-- A system with memory, and a thread of the scheme USE_SPA_FS_GS_TLS.
use flash_stack.Base.{
  ℕ, zero, suc, ◌+◌, ◌-◌, ◌*◌, ◌^◌, ◌<◌, ◌≡◌, refl, sym, Bool, true, false, not, ◌&&◌, ◌||◌, Option,
  none, some, ltb, leb, ◌==◌, if◌then◌else◌, arith, Bool-cases, Option-cases, inl, inr,
}
use mathlib.Core.Option.{some-injective, none-ne-some}
use mathlib.Core.Path.{subst}
use flash_stack.Asm.{add64, sub64}
use flash_stack.Runtime.{call_stack_size}
use flash_stack.Runtime.Promises.{inside}
use flash_stack.Buddy.{Memory, page_size}
use flash_stack.Buddy.Promises.{on_page}
use flash_stack.Fsgs.{Os, Thread, stack_size, gs_diff_field, fsgs_runtime_rerandomize}
use flash_stack.Fsgs.Promises.{Grows, Shifts, FreeAt, Spacious, Promises, Serves}
use flash_stack.Fsgs.Whole.{Ready, Survives}
use flash_stack.Fsgs.Setup.{prepare_once}
use flash_stack.Fsgs.Started.{prepare_once-Ready}
use flash_stack.Fsgs.Call.{slot_at, fsgs_runtime_rerandomize_lem}
use flash_stack.Tests.Linux.{all_free, all_free_lem, all_free_complete}

-- The highest page below `bound` with room for `n` bytes.
pub find_room : ℕ → ℕ → (ℕ → Bool) → Option ℕ
find_room n zero mapped = none
find_room n (suc i) mapped =
    if leb (i * page_size + n) (2 ^ 47) && all_free n (i * page_size) mapped
    then some (i * page_size)
    else find_room n i mapped

find_room-FreeAt :
    (n bound a : ℕ) (mapped : ℕ → Bool) → find_room n bound mapped ≡ some a → FreeAt a n mapped
unfolding find_room
find_room-FreeAt n zero a mapped h = absurd (none-ne-some a h)
find_room-FreeAt n (suc i) a mapped h =
    elim (Bool-cases (leb (i * page_size + n) (2 ^ 47) && all_free n (i * page_size) mapped)) [
      | inl y ↦
          let e : i * page_size ≡ a = some-injective (i * page_size) a (rw (find_room, y) at h) in
          record {
            at_page = rw (sym e) (omega arith);
            in_space = rw (sym e) (ground (arith, y));
            is_free =
                rw (sym e) (λ b o. all_free_lem n (i * page_size) mapped b (ground (arith, y)) o);
          }
      | inr y ↦ find_room-FreeAt n i a mapped (rw (find_room, y) at h)
    ]

below_full :
    (n i c : ℕ) (mapped : ℕ → Bool)
    → FreeAt c n mapped
    → c < suc i * page_size
    → (leb (i * page_size + n) (2 ^ 47) && all_free n (i * page_size) mapped) ≡ false
    → c < i * page_size
below_full n i c mapped f h y = elim (Bool-cases (c == i * page_size)) [
  | inl same ↦
      let e : c ≡ i * page_size = ground (arith, same) in
      let full = rw e at (all_free_complete n c mapped f.is_free) in
      absurd (ground (arith, y, full, e, f.in_space))
  | inr other ↦ ground (arith, other, h, f.at_page)
]

find_room-finds :
    (n bound c : ℕ) (mapped : ℕ → Bool)
    → FreeAt c n mapped
    → c < bound * page_size
    → (a : ℕ) × (find_room n bound mapped ≡ some a)
unfolding find_room
find_room-finds n zero c mapped f h = absurd (omega (arith, h))
find_room-finds n (suc i) c mapped f h =
    elim (Bool-cases (leb (i * page_size + n) (2 ^ 47) && all_free n (i * page_size) mapped)) [
      | inl y ↦ (i * page_size, rw (find_room, y))
      | inr y ↦
          let lower = below_full n i c mapped f h y in
          let (a, e) = find_room-finds n i c mapped f lower in (a, rw (find_room, y, e))
    ]

abbrev pub filled : Bool → ℕ → ℕ → Memory → Memory
filled to a n m = record m {
  readable = λ b. if inside a n b then to else m.readable b;
  writable = λ b. if inside a n b then to else m.writable b;
}

abbrev pub moved_over : ℕ → ℕ → ℕ → Memory → Memory
moved_over old n new m = record {
  word = λ b. if inside new n b then m.word (old + (b - new)) else m.word b;
  readable = λ b.
      if inside new n b then m.readable (old + (b - new)) else not (inside old n b) && m.readable b;
  writable = λ b.
      if inside new n b then m.writable (old + (b - new)) else not (inside old n b) && m.writable b;
}

moved_over-Shifts : (old n new : ℕ) (m : Memory) → Shifts old n new m (moved_over old n new m)
moved_over-Shifts old n new m = record {
  moved_readable = λ i l. ground (arith, l);
  moved_writable = λ i l. ground (arith, l);
  moved_word = λ i l. ground (arith, l);
  readable_now = λ b o. ground (arith, o);
  writable_now = λ b o. ground (arith, o);
  word_same = λ b o. ground (arith, o);
}

abbrev pub system : Os
system = record {
  mmap = λ hint n m. elim (find_room n (2 ^ 35 + 1) m.readable) [
    | none ↦ none
    | some a ↦ some (a, filled true a n m)
  ];
  munmap = λ a n m. filled false a n m;
  mremap = λ old n new m. some (new, moved_over old n new m);
  mprotect = λ a n write m.
      some (record m { writable = λ b. if leb a b && ltb b (a + n) then write else m.writable b });
  sets_gs = λ v. ltb v (2 ^ 47);
  rdtsc = λ n. 100000000 * n;
  rdrand = λ n. 0x200000000000 + n * 0x12345678;
}

system-mmap : (hint n a : ℕ) (m t : Memory) → system.mmap hint n m ≡ some (a, t) → Grows a n m t
system-mmap hint n a m t e = elim (Option-cases (find_room n (2 ^ 35 + 1) m.readable)) [
  | inl h ↦ absurd (none-ne-some (a, t) (rw (system, h) at e))
  | inr (c, h) ↦
      let pair = some-injective (c, filled true c n m) (a, t) (rw (system, h) at e) in
      let free = find_room-FreeAt n (2 ^ 35 + 1) c m.readable h in
      let grows : Grows c n m (filled true c n m) = record {
        aligned = free.at_page;
        fits = free.in_space;
        fresh = free.is_free;
        readable_now = λ b. ground arith;
        writable_now = λ b. ground arith;
        word_same = λ b r. refl;
      } in
      subst (λ x. Grows x.0 n m x.1) pair grows
]

pub system-Promises : Promises system
system-Promises = record {
  mmap_maps = system-mmap;
  munmap_unmaps = λ a n m. record {
    readable_now = λ b. ground arith;
    writable_now = λ b. ground arith;
    word_same = λ b o. refl;
  };
  mremap_moves = λ old n new a m t e.
      let pair = some-injective (new, moved_over old n new m) (a, t) e in
      subst (λ x. (x.0 ≡ new) × Shifts old n new m x.1) pair (refl, moved_over-Shifts old n new m);
  mprotect_protects = λ a write m aligned readable. (
    record m { writable = λ b. if leb a b && ltb b (a + page_size) then write else m.writable b },
    refl,
    record {
      word_same = λ b. refl;
      readable_still = λ b h. h;
      unmapped_still = λ b h. h;
      writable_now = λ b. refl;
    },
  );
  set_gs_user = λ v h. ground (arith, h);
}

pub system-Serves : Serves system
system-Serves = record {
  mmap_anywhere = λ c n m free.
      let (a, e) =
        find_room-finds n (2 ^ 35 + 1) c m.readable free (omega (arith, free.in_space)) in
      (a, filled true a n m, rw (system, e));
  mremap_succeeds = λ old new m h h'. (new, moved_over old stack_size new m, refl);
}

-- The metadata of a thread whose shadow stack lies at 0x20000000.
abbrev pub contents : ℕ → ℕ
contents b =
    if b == 0x10000
    then 0x10000
    else if b == 0x10008
    then add64 0x20000000 0x7fff00
    else if b == 0x10020
    then 0x20000000
    else if b == 0x10030
    then 1
    else if b == 0x10038
    then 0x20800000
    else 0

abbrev pub is_mapped : ℕ → Bool
is_mapped b = inside 0x10000 page_size b || inside 0x20000000 stack_size b

abbrev pub thread : Thread
thread = record {
  memory = record { word = contents; readable = is_mapped; writable = is_mapped };
  gs = 0x10000;
  readings = 3;
  draws = 0;
  inited = true;
  relaxing_sandbox = 0;
}

pub thread-Ready : Ready 0x10000 0x20000000 0x7fff00 0 thread
thread-Ready = record {
  place = record {
    md_aligned = refl;
    md_user = omega arith;
    base_user = omega arith;
    apart = inl (omega arith);
    md_readable = λ b o. ground (arith, o);
    stack_readable = λ i l. ground (arith, l);
    stack_writable = λ i l. ground (arith, l);
  };
  says = record {
    self_is = refl;
    diff_is = refl;
    r_is = refl;
    busy_is = refl;
    stack_is = refl;
    inited_is = refl;
    top_is = refl;
  };
  gs_is = refl;
  inited_is = refl;
}

pub thread-Spacious : Spacious 0x40000000 0x80000000 thread.memory.readable
thread-Spacious = record {
  first = record { at_page = refl; in_space = omega arith; is_free = λ b i. ground (arith, i) };
  second = record { at_page = refl; in_space = omega arith; is_free = λ b i. ground (arith, i) };
  in_order = omega arith;
}

fsgs_runtime_rerandomize_lem_example :
    (md' : ℕ) × (base' : ℕ) × (z : Thread) × (fsgs_runtime_rerandomize system 7 false 0x7ffe1000
        thread
      ≡ some (tt, z))
    × Survives 0x10000 0x20000000 md' base' 0x7fff00 0 thread z
    × ((a : ℕ)
        → add64 a 0x7fff00 < stack_size
        → z.memory.word (slot_at md' z a) ≡ thread.memory.word (slot_at 0x10000 thread a))
fsgs_runtime_rerandomize_lem_example =
    fsgs_runtime_rerandomize_lem system 0x40000000 0x80000000 7 0x7ffe1000 0x10000 0x20000000
      0x7fff00 0 thread system-Promises system-Serves thread-Spacious (omega arith) thread-Ready

abbrev unprepared : Thread
unprepared = record thread { inited = false }

prepare_once-Ready_example :
    (md : ℕ) × (base : ℕ) × (r : ℕ) × (z : Thread) × (prepare_once system 7 0x7ffe1000
        (some (0x7f800000, 0x800000))
        unprepared
      ≡ some (tt, z))
    × Ready md base (sub64 call_stack_size 0x7ffe1000) r z
    × (add64 0x7ffe1000 (z.memory.word (md + gs_diff_field)) ≡ base + call_stack_size)
    × ((b : ℕ)
        → unprepared.memory.readable b ≡ true
        → (z.memory.readable b ≡ true)
          × (z.memory.word b ≡ unprepared.memory.word b)
          × (on_page md b ≡ false)
          × (inside base stack_size b ≡ false))
prepare_once-Ready_example =
    prepare_once-Ready system 0x40000000 0x80000000 7 0x7ffe1000 0x7f800000 0x800000 unprepared
      system-Promises system-Serves thread-Spacious (omega arith) (omega arith) refl
