-- ===== src/Buddy/Ready.antt =====
-- buddy_init_main_thread_tls of FlashStack/buddy_tls.c, for the default size of the call stack.
use flash_stack.Base.{
  ℕ, ◌+◌, ◌-◌, ◌*◌, ◌%◌, ◌≤◌, ◌<◌, ◌≡◌, refl, ◌∙◌, true, false, ◌||◌, some, ◌==◌, if◌then◌else◌,
  arith,
}
use flash_stack.Base.Steps.{◌>>=◌, ◌>>◌}
use flash_stack.Asm.{word_mod, sub64}
use flash_stack.Scheme.{def_ss_offset}
use flash_stack.Buddy.{
  Memory, Process, Kernel, with_word, mprotect, align, buddy_call_stack_size, page_size,
  random_val_field, stack_top_field, buddy_info_field, randomizing_field, cycles_field,
}
use flash_stack.Buddy.Promises.{on_page, Promises}
use flash_stack.Buddy.Fields.{PageReadable}
use flash_stack.Buddy.Layout.{
  Stack, Info, Mask, Buddies, lower_info, upper_info, size_default, align_default,
}
use flash_stack.Buddy.Setup.{
  init_info, buddy_init_tls_metadata, raised_high, buddy_init_main_thread_tls,
}

-- The fields are set, and the page can be written.
record Filled (info other r top : ℕ) (p q : Process) : Type 0 where
  words :
      (b : ℕ)
      → q.memory.word b ≡ (
          if b == info + random_val_field
          then r
          else if b == info + stack_top_field
          then top
          else if b == info + buddy_info_field
          then other
          else if b == info + cycles_field || b == info + randomizing_field
          then 0
          else p.memory.word b)
  readable_still : (b : ℕ) → p.memory.readable b ≡ true → q.memory.readable b ≡ true
  writable_now :
      (b : ℕ) → q.memory.writable b ≡ (if on_page info b then true else p.memory.writable b)
  count_same : q.rand_cnt ≡ p.rand_cnt

abbrev filled : ℕ → ℕ → ℕ → ℕ → Memory → Process → Process
filled info other r top m p = with_word (info + randomizing_field) 0 (
    with_word (info + cycles_field) 0 (
      with_word (info + buddy_info_field) other (
        with_word (info + stack_top_field) top
          (with_word (info + random_val_field) r (record p { memory = m })))))

module _ (k : Kernel) (promises : Promises k) where
  init_info-Filled :
      (info other r top : ℕ) (p : Process)
      → info % page_size ≡ 0
      → PageReadable info p
      → (q : Process) × (init_info k info other r top p ≡ some (tt, q))
        × Filled info other r top p q
  unfolding init_info
  init_info-Filled info other r top p aligned readable =
      let (m, e, s) = promises.mprotect_protects info true p.memory aligned readable in
      let w0 : m.writable (info + random_val_field) ≡ true =
        ground (arith, s.writable_now (info + random_val_field)) in
      let w8 : m.writable (info + stack_top_field) ≡ true =
        ground (arith, s.writable_now (info + stack_top_field)) in
      let w16 : m.writable (info + buddy_info_field) ≡ true =
        ground (arith, s.writable_now (info + buddy_info_field)) in
      let w24 : m.writable (info + randomizing_field) ≡ true =
        ground (arith, s.writable_now (info + randomizing_field)) in
      let w32 : m.writable (info + cycles_field) ≡ true =
        ground (arith, s.writable_now (info + cycles_field)) in
      (
        filled info other r top m p,
        rw (◌>>◌, ◌>>=◌, e, w0, w8, w16, w32, w24),
        record {
          words = λ b. ground (arith, s.word_same b);
          readable_still = s.readable_still;
          writable_now = s.writable_now;
          count_same = refl;
        },
      )

module _ (k : Kernel) (top r : ℕ) (p p1 p2 : Process) (s : Stack top)
    (c1 : Filled (upper_info top) (lower_info top) r top p p1)
    (c2 : Filled (lower_info top) (upper_info top) r top p1 p2)
    (rl : PageReadable (lower_info top) p) (ru : PageReadable (upper_info top) p) where
  still : (b : ℕ) → p.memory.readable b ≡ true → p2.memory.readable b ≡ true
  still b h = c2.readable_still b (c1.readable_still b h)

  lower-Info : Info (lower_info top) (upper_info top) top r p2
  lower-Info = record {
    page_readable = λ b o. still b (rl b o);
    random_is = ground (arith, c2.words (lower_info top + random_val_field));
    top_is = ground (arith, c2.words (lower_info top + stack_top_field));
    link_is = ground (arith, c2.words (lower_info top + buddy_info_field));
    idle = ground (arith, c2.words (lower_info top + randomizing_field));
  }

  kept_upper :
      (f : ℕ) → f ≤ 24 → p2.memory.word (upper_info top + f) ≡ p1.memory.word (upper_info top + f)
  kept_upper f h = ground (arith, c2.words (upper_info top + f), s.top_room)

  upper-Info : Info (upper_info top) (lower_info top) top r p2
  upper-Info = record {
    page_readable = λ b o. still b (ru b o);
    random_is =
        kept_upper random_val_field (omega arith)
        ∙ ground (arith, c1.words (upper_info top + random_val_field));
    top_is =
        kept_upper stack_top_field (omega arith)
        ∙ ground (arith, c1.words (upper_info top + stack_top_field));
    link_is =
        kept_upper buddy_info_field (omega arith)
        ∙ ground (arith, c1.words (upper_info top + buddy_info_field));
    idle =
        kept_upper randomizing_field (omega arith)
        ∙ ground (arith, c1.words (upper_info top + randomizing_field));
  }

  still_masked : Mask k top p → Mask k top p2
  still_masked m = record {
    mask_readable = still k.mask_at m.mask_readable;
    mask_is =
        ground (arith, m.mask_is, m.mask_apart, c1.words k.mask_at, c2.words k.mask_at, s.top_room);
    mask_apart = m.mask_apart;
  }

  set_up-Buddies :
      r < word_mod
      → Mask k top p
      → ((b : ℕ)
          → top + page_size ≤ b + 2 * def_ss_offset
          → b + def_ss_offset < top
          → p.memory.writable b ≡ true)
      → Buddies k top r p2
  set_up-Buddies rw m w = record {
    stack = s;
    mask = still_masked m;
    random_word = rw;
    lower = lower-Info;
    upper = upper-Info;
    shadow_writable = λ b lo hi. ground (arith, w b lo hi, c1.writable_now b, c2.writable_now b);
  }

-- The page under the call stack can only be read, and the rest of memory is as it was.
record Guarded (at : ℕ) (p q : Process) : Type 0 where
  word_same : (b : ℕ) → q.memory.word b ≡ p.memory.word b
  readable_still : (b : ℕ) → p.memory.readable b ≡ true → q.memory.readable b ≡ true
  writable_now :
      (b : ℕ) → q.memory.writable b ≡ (if on_page at b then false else p.memory.writable b)

guard-Guarded :
    (k : Kernel) (at : ℕ) (p : Process)
    → Promises k
    → at % page_size ≡ 0
    → PageReadable at p
    → (q : Process) × (mprotect k at page_size false p ≡ some (tt, q)) × Guarded at p q
guard-Guarded k at p promises aligned readable =
    let (m, e, s) = promises.mprotect_protects at false p.memory aligned readable in
    (
      record p { memory = m },
      rw (mprotect, e),
      record {
        word_same = s.word_same;
        readable_still = s.readable_still;
        writable_now = s.writable_now;
      },
    )

init_metadata_runs :
    (k : Kernel) (top r ptr2 ptr3 : ℕ) (p p1 p2 : Process)
    → buddy_call_stack_size k p ≡ some (def_ss_offset, p)
    → sub64 (align def_ss_offset top) ((2 * def_ss_offset) % word_mod) ≡ ptr2
    → sub64 (align def_ss_offset top) ((3 * def_ss_offset) % word_mod) ≡ ptr3
    → init_info k ptr2 ptr3 r top p ≡ some (tt, p1)
    → init_info k ptr3 ptr2 r top p1 ≡ some (tt, p2)
    → buddy_init_tls_metadata k r top p ≡ some (tt, p2)
unfolding buddy_init_tls_metadata
init_metadata_runs k top r ptr2 ptr3 p p1 p2 s e2 e3 r1 r2 =
    rw (◌>>=◌, ◌>>◌, s, e2, e3, r1, e2, e3, r2)

main_thread_runs :
    (k : Kernel) (low stack_size r at high : ℕ) (p p0 p2 : Process)
    → buddy_call_stack_size k p ≡ some (def_ss_offset, p)
    → raised_high low stack_size def_ss_offset ≡ high
    → sub64 high def_ss_offset ≡ at
    → mprotect k at page_size false p ≡ some (tt, p0)
    → buddy_init_tls_metadata k r high p0 ≡ some (tt, p2)
    → buddy_init_main_thread_tls k (some (low, stack_size)) r p ≡ some (tt, p2)
unfolding buddy_init_main_thread_tls
main_thread_runs k low stack_size r at high p p0 p2 s eh ea r1 r2 =
    rw (◌>>=◌, ◌>>◌, s, eh, ea, r1, eh, r2)

-- On a kernel that lets protections be changed, for the default size of the call stack, a stack in
-- user space whose end, raised if need be, is the end of a page, with the pages of the records and
-- of the guard readable and the shadow stack over its lowest page writable,
-- buddy_init_main_thread_tls returns without a fault. The records are then in order with the
-- random value, and the guard page, lowest in the call stack, cannot be written.
pub buddy_init_main_thread_tls_lem :
    (k : Kernel) (low stack_size r top : ℕ) (p : Process)
    → Promises k
    → raised_high low stack_size def_ss_offset ≡ top
    → Stack top
    → Mask k top p
    → r < word_mod
    → PageReadable (top - def_ss_offset) p
    → PageReadable (lower_info top) p
    → PageReadable (upper_info top) p
    → ((b : ℕ)
        → top + page_size ≤ b + 2 * def_ss_offset
        → b + def_ss_offset < top
        → p.memory.writable b ≡ true)
    → (q : Process) × (buddy_init_main_thread_tls k (some (low, stack_size)) r p ≡ some (tt, q))
      × Buddies k top r q
      × ((b : ℕ) → on_page (top - def_ss_offset) b ≡ true → q.memory.writable b ≡ false)
buddy_init_main_thread_tls_lem k low stack_size r top p promises eh s m rw' rg rl ru w =
    let at = top - def_ss_offset in
    let ea : sub64 top def_ss_offset ≡ at = omega (arith, s.top_user, s.top_room) in
    let (p0, run0, c0) =
      guard-Guarded k at p promises (omega (arith, s.top_aligned, s.top_room)) rg in
    let m0 : Mask k top p0 = record {
      mask_readable = c0.readable_still k.mask_at m.mask_readable;
      mask_is = c0.word_same k.mask_at ∙ m.mask_is;
      mask_apart = m.mask_apart;
    } in
    let ru0 : PageReadable (upper_info top) p0 = λ b o. c0.readable_still b (ru b o) in
    let rl0 : PageReadable (lower_info top) p0 = λ b o. c0.readable_still b (rl b o) in
    let (p1, run1, c1) =
      init_info-Filled k promises (upper_info top) (lower_info top) r top p0
        (ground (arith, s.top_room)) ru0 in
    let (p2, run2, c2) =
      init_info-Filled k promises (lower_info top) (upper_info top) r top p1
        (ground (arith, s.top_room)) (λ b o. c1.readable_still b (rl0 b o)) in
    let a = align_default top (omega (arith, s.top_user)) in
    let e2 : sub64 (align def_ss_offset top) ((2 * def_ss_offset) % word_mod) ≡ upper_info top =
      ground (arith, a, s.top_room, s.top_user) in
    let e3 : sub64 (align def_ss_offset top) ((3 * def_ss_offset) % word_mod) ≡ lower_info top =
      ground (arith, a, s.top_room, s.top_user) in
    (
      p2,
      main_thread_runs k low stack_size r at top p p0 p2 (size_default k top p m) eh ea run0 (
          init_metadata_runs k top r (upper_info top) (lower_info top) p0 p1 p2
            (size_default k top p0 m0) e2 e3 run1 run2),
      set_up-Buddies k top r p0 p1 p2 s c1 c2 rl0 ru0 rw' m0
          (λ b lo hi. ground (arith, w b lo hi, c0.writable_now b)),
      λ b o. ground (arith, o, c0.writable_now b, c1.writable_now b, c2.writable_now b, s.top_room),
    )
