-- ===== src/Fsgs/Move.antt =====
-- The move of a shadow stack and its metadata in FlashStack/fsgs.c, with memory for both at hand.
use flash_stack.Base.{
  ℕ, ◌+◌, ◌%◌, ◌^◌, ◌≤◌, ◌<◌, ◌≡◌, ◌⊎◌, ◌∙◌, refl, true, false, some, ◌==◌, if◌then◌else◌, arith,
}
use flash_stack.Base.Steps.{◌>>=◌, ◌>>◌}
use flash_stack.Asm.{add64, sub64}
use flash_stack.Runtime.{call_stack_size}
use flash_stack.Runtime.Promises.{inside}
use flash_stack.Buddy.{Memory, page_size}
use flash_stack.Buddy.Promises.{on_page}
use flash_stack.Fsgs.{
  Os, Thread, set_word, copy_words, mremap, move_to, bring_stack, switch_to, stack_size,
  self_addr_field, gs_diff_field, r_field, busy_field, stack_field, inited_field,
  shadow_stack_top_field,
}
use flash_stack.Fsgs.Promises.{Shrinks, Shifts}
use flash_stack.Fsgs.Ready.{Place, Says}
use flash_stack.Fsgs.Touch.{IsOpen, with_words, copied}

-- The new page and the new region, mapped and apart from all that matters.
pub record Room (md base new_md new_stack : ℕ) (m : Memory) : Type 0 where
  pub new_aligned : new_md % page_size ≡ 0
  pub new_user : new_md + page_size ≤ 2 ^ 47
  pub stack_user : new_stack + stack_size ≤ 2 ^ 47
  pub new_md_apart : (new_md + page_size ≤ md) ⊎ (md + page_size ≤ new_md)
  pub new_base_apart : (new_md + page_size ≤ base) ⊎ (base + stack_size ≤ new_md)
  pub stack_md_apart : (new_stack + stack_size ≤ md) ⊎ (md + page_size ≤ new_stack)
  pub stack_base_apart : (new_stack + stack_size ≤ base) ⊎ (base + stack_size ≤ new_stack)
  pub new_stack_apart : (new_md + page_size ≤ new_stack) ⊎ (new_stack + stack_size ≤ new_md)
  pub new_readable : (b : ℕ) → on_page new_md b ≡ true → m.readable b ≡ true
  pub new_writable : (b : ℕ) → on_page new_md b ≡ true → m.writable b ≡ true
  pub stack_readable : (i : ℕ) → i < stack_size → m.readable (new_stack + i) ≡ true

-- Before mremap, and behind the last store.
abbrev pub prepared : ℕ → ℕ → (ℕ → ℕ) → Thread → Thread
prepared new_md d f w =
    set_word (new_md + self_addr_field) new_md
      (set_word (new_md + gs_diff_field) d (with_words f w))

abbrev pub renamed : ℕ → ℕ → Memory → Thread → Thread
renamed new_md at t w =
    set_word (new_md + shadow_stack_top_field) (add64 at call_stack_size)
      (set_word (new_md + stack_field) at (record w { memory = t }))

pub switch_to-runs :
    (k : Os) (md new_md at : ℕ) (w : Thread)
    → w.memory.writable (new_md + stack_field) ≡ true
    → w.memory.writable (new_md + shadow_stack_top_field) ≡ true
    → k.sets_gs new_md ≡ true
    → switch_to k md new_md at w
      ≡ some (
        new_md,
        record (renamed new_md at w.memory w) {
          gs = new_md;
          memory = k.munmap md page_size (renamed new_md at w.memory w).memory;
        },
      )
unfolding switch_to
switch_to-runs k md new_md at w v32 v56 g = rw (◌>>=◌, ◌>>◌, v32, v56, g)

pub bring_stack-runs :
    (k : Os) (md new_md new_stack base d at : ℕ) (f : ℕ → ℕ) (w : Thread) (t : Memory)
    → w.memory.writable (new_md + gs_diff_field) ≡ true
    → w.memory.writable (new_md + self_addr_field) ≡ true
    → k.mremap base stack_size new_stack (prepared new_md d f w).memory ≡ some (at, t)
    → bring_stack k md new_md new_stack base d (with_words f w)
      ≡ switch_to k md new_md at (record (prepared new_md d f w) { memory = t })
unfolding bring_stack
bring_stack-runs k md new_md new_stack base d at f w t w8 w0 moved =
    rw (◌>>=◌, ◌>>◌, w8, w0, mremap, moved)

pub move_to-runs :
    (k : Os) (md base new_md new_stack d : ℕ) (f : ℕ → ℕ) (w : Thread)
    → copy_words 12 md new_md w ≡ some (tt, with_words f w)
    → w.memory.readable (md + gs_diff_field) ≡ true
    → w.memory.readable (md + stack_field) ≡ true
    → f (md + stack_field) ≡ base
    → add64 (f (md + gs_diff_field)) (sub64 new_stack base) ≡ d
    → move_to k md new_md new_stack w ≡ bring_stack k md new_md new_stack base d (with_words f w)
unfolding move_to
move_to-runs k md base new_md new_stack d f w copy r8 r32 b e =
    rw (◌>>=◌, ◌>>◌, copy, r8, r32, b, e)

pub old_word :
    (md new_md o : ℕ) (f g : ℕ → ℕ)
    → ((b : ℕ) → f b ≡ copied 12 md new_md g b)
    → (new_md + page_size ≤ md) ⊎ (md + page_size ≤ new_md)
    → o < 96
    → f (md + o) ≡ g (md + o)
old_word md new_md o f g copy apart h = ground (arith, copy (md + o), h, apart)

module _ (md base new_md new_stack shift r d : ℕ) (w : Thread) (p : Place md base w.memory)
    (room : Room md base new_md new_stack w.memory) (says : Says md base shift r 1 w.memory.word)
    (same_shift : d ≡ add64 new_stack shift) (f : ℕ → ℕ)
    (copy : (b : ℕ) → f b ≡ copied 12 md new_md w.memory.word b) (t : Memory)
    (shifts : Shifts base stack_size new_stack (prepared new_md d f w).memory t) (u : Memory)
    (shrinks : Shrinks md page_size
      (renamed new_md new_stack t (prepared new_md d f w)).memory
      u) where
  -- What mremap finds and leaves.
  prepared_word :
      (b : ℕ)
      → (prepared new_md d f w).memory.word b ≡ (
          if b == new_md + self_addr_field
          then new_md
          else if b == new_md + gs_diff_field
          then d
          else f b)
  prepared_word b = ground arith

  -- What munmap finds.
  renamed_word :
      (b : ℕ)
      → on_page md b ≡ false
      → u.word b ≡ (
          if b == new_md + shadow_stack_top_field
          then add64 new_stack call_stack_size
          else if b == new_md + stack_field
          then new_stack
          else t.word b)
  renamed_word b o = ground (arith, o, shrinks.word_same b)

  new_words :
      (o : ℕ)
      → o < 96
      → o % 8 ≡ 0
      → u.word (new_md + o) ≡ (
          if o == shadow_stack_top_field
          then add64 new_stack call_stack_size
          else if o == stack_field
          then new_stack
          else if o == self_addr_field
          then new_md
          else if o == gs_diff_field
          then add64 new_stack shift
          else w.memory.word (md + o))
  new_words o h e =
      let c : f (new_md + o) ≡ w.memory.word (md + o) = ground (arith, h, e, copy (new_md + o)) in
      let a = shifts.word_same (new_md + o) (ground (arith, h, room.new_stack_apart)) in
      let b = renamed_word (new_md + o) (ground (arith, h, room.new_md_apart)) in
      let z = prepared_word (new_md + o) in ground (arith, a, b, c, z, same_shift)

  pub moved-Says : Says new_md new_stack shift r 1 u.word
  moved-Says = record {
    self_is = new_words self_addr_field (omega arith) refl;
    diff_is = new_words gs_diff_field (omega arith) refl;
    r_is = new_words r_field (omega arith) refl ∙ says.r_is;
    busy_is = new_words busy_field (omega arith) refl ∙ says.busy_is;
    stack_is = new_words stack_field (omega arith) refl;
    inited_is = new_words inited_field (omega arith) refl ∙ says.inited_is;
    top_is = new_words shadow_stack_top_field (omega arith) refl ∙ omega (arith, room.stack_user);
  }

  pub moved-Place : Place new_md new_stack u
  moved-Place = record {
    md_aligned = room.new_aligned;
    md_user = room.new_user;
    base_user = room.stack_user;
    apart = room.new_stack_apart;
    md_readable = λ b o. ground (
      arith,
      o,
      room.new_readable b,
      room.new_md_apart,
      room.new_base_apart,
      room.new_stack_apart,
      shifts.readable_now b,
      shrinks.readable_now b,
    );
    stack_readable = λ i l. ground (
      arith,
      l,
      room.stack_md_apart,
      shifts.moved_readable i l,
      shrinks.readable_now (new_stack + i),
      p.stack_readable i l,
    );
    stack_writable = λ i l. ground (
      arith,
      l,
      room.stack_md_apart,
      shifts.moved_writable i l,
      shrinks.writable_now (new_stack + i),
      p.stack_writable i l,
    );
  }

  pub moved-IsOpen : IsOpen new_md u
  moved-IsOpen b o = ground (
    arith,
    o,
    room.new_writable b,
    room.new_md_apart,
    room.new_base_apart,
    room.new_stack_apart,
    shifts.writable_now b,
    shrinks.writable_now b,
  )

  pub moved_stack : (i : ℕ) → i < stack_size → u.word (new_stack + i) ≡ w.memory.word (base + i)
  moved_stack i l =
      let c : f (base + i) ≡ w.memory.word (base + i) =
        ground (arith, l, room.new_base_apart, copy (base + i)) in
      let y = prepared_word (base + i) in
      let z = renamed_word (new_stack + i) (ground (arith, l, room.stack_md_apart)) in
      ground (arith, l, c, y, z, room.new_base_apart, room.new_stack_apart, shifts.moved_word i l)

  pub moved_others :
      (b : ℕ)
      → w.memory.readable b ≡ true
      → on_page md b ≡ false
      → inside base stack_size b ≡ false
      → on_page new_md b ≡ false
      → inside new_stack stack_size b ≡ false
      → (u.readable b ≡ true) × (u.word b ≡ w.memory.word b)
  moved_others b h o n o' n' =
      let c : f b ≡ w.memory.word b = ground (arith, o', copy b) in
      let a = shifts.word_same b n' in
      let z = renamed_word b o in
      let y = prepared_word b in
      (
        ground (arith, h, o, n, shifts.readable_now b n', shrinks.readable_now b),
        ground (arith, o', a, c, y, z),
      )
