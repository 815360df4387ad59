-- ===== src/Fsgs/Moved.antt =====
-- The fast move of FlashStack/fsgs.c, from the request for memory on.
use flash_stack.Base.{ℕ, ◌+◌, ◌<◌, ◌≡◌, inl, inr, ◌∙◌, refl, ap, true, false, some, arith}
use flash_stack.Asm.{add64, sub64}
use flash_stack.Runtime.Promises.{inside}
use flash_stack.Buddy.{Memory, page_size}
use flash_stack.Buddy.Promises.{on_page}
use flash_stack.Fsgs.{
  Os, Thread, copy_words, move_to, stack_size, gs_diff_field, stack_field, self_addr_field,
  shadow_stack_top_field,
}
use flash_stack.Fsgs.Promises.{Shifts, Promises, Serves}
use flash_stack.Fsgs.Ready.{Place, Says}
use flash_stack.Fsgs.Touch.{IsOpen, with_words, copy_words-copied}
use flash_stack.Fsgs.Move.{
  Room, prepared, renamed, switch_to-runs, bring_stack-runs, move_to-runs, old_word, moved-Says,
  moved-Place, moved-IsOpen, moved_stack, moved_others,
}

-- The thread goes on with the metadata at `md`, which is open, with its flag set.
pub record Moving (md base shift r : ℕ) (w : Thread) : Type 0 where
  pub place : Place md base w.memory
  pub says : Says md base shift r 1 w.memory.word
  pub is_open : IsOpen md w.memory

-- From `w` to `z` the shadow stack is brought from `base` to `base'`; what else was mapped, away
-- from the new places, is the same.
pub record Settled (md base md' base' shift r : ℕ) (w z : Thread) : Type 0 where
  pub moving : Moving md' base' shift r z
  pub gs_is : z.gs ≡ md'
  pub inited_same : z.inited ≡ w.inited
  pub stack_kept : (i : ℕ) → i < stack_size → z.memory.word (base' + i) ≡ w.memory.word (base + i)
  pub others_kept :
      (b : ℕ)
      → w.memory.readable b ≡ true
      → on_page md b ≡ false
      → inside base stack_size b ≡ false
      → on_page md' b ≡ false
      → inside base' stack_size b ≡ false
      → (z.memory.readable b ≡ true) × (z.memory.word b ≡ w.memory.word b)

-- The thread behind munmap.
abbrev finished : Os → ℕ → ℕ → ℕ → ℕ → (ℕ → ℕ) → Thread → Memory → Thread
finished k md new_md new_stack d f w t =
    let w3 = renamed new_md new_stack t (prepared new_md d f w) in
    record w3 { gs = new_md; memory = k.munmap md page_size w3.memory }

move_to-finishes :
    (k : Os) (md base new_md new_stack d at : ℕ) (f : ℕ → ℕ) (w : Thread) (t : Memory)
    → copy_words 12 md new_md w ≡ some (tt, with_words f w)
    → w.memory.readable (md + gs_diff_field) ≡ true
    → w.memory.readable (md + stack_field) ≡ true
    → f (md + stack_field) ≡ base
    → add64 (f (md + gs_diff_field)) (sub64 new_stack base) ≡ d
    → w.memory.writable (new_md + gs_diff_field) ≡ true
    → w.memory.writable (new_md + self_addr_field) ≡ true
    → k.mremap base stack_size new_stack (prepared new_md d f w).memory ≡ some (at, t)
    → at ≡ new_stack
    → t.writable (new_md + stack_field) ≡ true
    → t.writable (new_md + shadow_stack_top_field) ≡ true
    → k.sets_gs new_md ≡ true
    → move_to k md new_md new_stack w ≡ some (new_md, finished k md new_md new_stack d f w t)
move_to-finishes k md base new_md new_stack d at f w t copy r8 r32 b e w8 w0 moved ea v32 v56 g =
    let moved' = moved ∙ ap (λ x. some (x, t)) ea in
    move_to-runs k md base new_md new_stack d f w copy r8 r32 b e
    ∙ bring_stack-runs k md new_md new_stack base d new_stack f w t w8 w0 moved'
    ∙ switch_to-runs k md new_md new_stack (record (prepared new_md d f w) { memory = t }) v32 v56 g

-- mremap leaves the new page writable.
still_writable :
    (md base new_md new_stack o : ℕ) (w : Thread) (m t : Memory)
    → Room md base new_md new_stack w.memory
    → ((b : ℕ) → m.writable b ≡ w.memory.writable b)
    → o < page_size
    → Shifts base stack_size new_stack m t
    → t.writable (new_md + o) ≡ true
still_writable md base new_md new_stack o w m t room same h shifts = ground (
  arith,
  h,
  same (new_md + o),
  room.new_writable (new_md + o),
  room.new_base_apart,
  room.new_stack_apart,
  shifts.writable_now (new_md + o),
)

pub move_to_lem :
    (k : Os) (md base new_md new_stack shift r : ℕ) (w : Thread)
    → Promises k
    → Serves k
    → Moving md base shift r w
    → Room md base new_md new_stack w.memory
    → (z : Thread) × (move_to k md new_md new_stack w ≡ some (new_md, z))
      × Settled md base new_md new_stack shift r w z
move_to_lem k md base new_md new_stack shift r w promises serves moving room =
    let p = moving.place in
    let says = moving.says in
    let (f, copy, e) =
      copy_words-copied 12 md new_md w
        (elim room.new_md_apart [ inl h ↦ inr (omega (arith, h)) | inr h ↦ inl (omega (arith, h)) ])
        (λ i l. p.md_readable (md + i) (ground (arith, l)))
        (λ i l. room.new_writable (new_md + i) (ground (arith, l))) in
    let e8 =
      old_word md new_md gs_diff_field f w.memory.word e room.new_md_apart (omega arith)
      ∙ says.diff_is in
    let e32 =
      old_word md new_md stack_field f w.memory.word e room.new_md_apart (omega arith)
      ∙ says.stack_is in
    let d = add64 (f (md + gs_diff_field)) (sub64 new_stack base) in
    let same : d ≡ add64 new_stack shift =
      ap (λ x. add64 x (sub64 new_stack base)) e8 ∙ omega (arith, p.base_user, room.stack_user) in
    let w1 = prepared new_md d f w in
    let (at', t, run) =
      serves.mremap_succeeds base new_stack w1.memory p.stack_readable room.stack_readable in
    let (ea, shifts) = promises.mremap_moves base stack_size new_stack at' w1.memory t run in
    let opened : (o : ℕ) → o < page_size → t.writable (new_md + o) ≡ true =
      λ o h. still_writable md base new_md new_stack o w w1.memory t room (λ b. refl) h shifts in
    let z = finished k md new_md new_stack d f w t in
    let u = z.memory in
    let shrinks = promises.munmap_unmaps md page_size (renamed new_md new_stack t w1).memory in
    (
      z,
      move_to-finishes k md base new_md new_stack d at' f w t copy (p.md_readable _ (ground arith))
          (p.md_readable _ (ground arith)) e32 refl (room.new_writable _ (ground arith))
          (room.new_writable _ (ground arith)) run ea (opened stack_field (omega arith))
          (opened shadow_stack_top_field (omega arith))
          (promises.set_gs_user new_md (omega (arith, room.new_user))),
      record {
        moving = record {
          place =
              moved-Place md base new_md new_stack shift r d w p room says same f e t shifts u
                shrinks;
          says =
              moved-Says md base new_md new_stack shift r d w p room says same f e t shifts u
                shrinks;
          is_open =
              moved-IsOpen md base new_md new_stack shift r d w p room says same f e t shifts u
                shrinks;
        };
        gs_is = refl;
        inited_same = refl;
        stack_kept =
            moved_stack md base new_md new_stack shift r d w p room says same f e t shifts u
              shrinks;
        others_kept =
            moved_others md base new_md new_stack shift r d w p room says same f e t shifts u
              shrinks;
      },
    )
