-- ===== src/Runtime/Survive.antt =====
-- The part of gs_rsp_runtime_rerandomize in FlashStack/gs.rsp.c that has memory for a move.
use flash_stack.Base.{
  ℕ, ◌+◌, ◌%◌, ◌≤◌, ◌≡◌, ◌∙◌, ap, true, false, ◌||◌, Option, some, arith, ltb, Bool-cases, inl, inr,
  Option-cases,
}
use flash_stack.Asm.{add64, sub64}
use flash_stack.Asm.Machine.{update}
use flash_stack.Scheme.{user_space_size}
use flash_stack.Runtime.{
  System, Space, World, metadata_of, call_stack_size, real_shadow_stack_size, metadata_offset,
  max_gs_base_addr, shadow_stack_field, mremap, diff_field, ◌>>=◌, ◌>>◌,
}
use flash_stack.Runtime.Runs.{load-at, follow}
use flash_stack.Runtime.Promises.{inside, Maps, Unmaps, MovesTo, Promises}
use flash_stack.Runtime.Obtain.{Kept, Unmaps-Maps}
use flash_stack.Runtime.Moves.{Ready, Carried, Kept-Carried}
use flash_stack.Runtime.Rerandomize.{
  use_memory, place, after_mremap, move, move_from, undo, is_negative,
}

-- What a move has written to the metadata before mremap is called.
abbrev renamed : ℕ → ℕ → ℕ → Space → Space
renamed md new diff s = record s {
  word = update (update s.word (md + shadow_stack_field) new) (md + diff_field) diff;
}

module _ (top a new : ℕ) (s t : Space) (r : Ready top a s)
    (m : Maps new real_shadow_stack_size s t) where
  abbrev md : ℕ
  md = a + metadata_offset

  abbrev delta : ℕ
  delta = sub64 new a

  abbrev diff : ℕ
  diff = add64 s.gs delta

  diff_anchors : diff + top ≡ new + call_stack_size + user_space_size
  diff_anchors = omega (arith, r.anchored.top_user, r.anchored.fits, r.anchored.gs_diff, m.fits)

  diff_back : sub64 diff delta ≡ s.gs
  diff_back = omega (arith, r.gs_user, r.anchored.fits, m.fits)

  apart_new : (x : ℕ) → s.mapped x ≡ true → inside new real_shadow_stack_size x ≡ false
  apart_new x h = ground (arith, m.fresh x)

  still_mapped : (x : ℕ) → s.mapped x ≡ true → t.mapped x ≡ true
  still_mapped x h = ground (arith, m.mapped_now x)

  moved_Carried :
      (u : Space)
      → new % 0x800000 ≡ 0
      → diff ≤ max_gs_base_addr
      → MovesTo a real_shadow_stack_size new (renamed md new diff t) u
      → Carried top a new s (record u { gs = diff })
  moved_Carried u al le v = record {
    ready = record {
      anchored = record {
        top_user = r.anchored.top_user;
        aligned = al;
        fits = m.fits;
        gs_diff = diff_anchors;
      };
      gs_user = le;
      all_mapped =
          λ i l. ground (arith, v.moved_mapped i, still_mapped (a + i), r.all_mapped i l, l);
      own_address = ground (arith, v.moved_word metadata_offset);
      own_diff = ground (arith, v.moved_word (metadata_offset + diff_field));
    };
    stack_kept = λ i l. ground (arith, v.moved_word i, m.word_same (a + i), r.all_mapped i, l);
    others_kept = λ x h n. (
      ground (arith, v.mapped_now x, apart_new x h, still_mapped x h, n),
      ground (arith, v.word_same x, apart_new x h, m.word_same x h, n),
      apart_new x h,
    );
  }

  -- The metadata as undo leaves it.
  abbrev restored : Space
  restored =
      let u = record t { word = update (renamed md new diff t).word (md + shadow_stack_field) a } in
      record t { word = update u.word (md + diff_field) (sub64 (u.word (md + diff_field)) delta) }

  undone_Kept : (u : Space) → Unmaps new real_shadow_stack_size restored u → Kept s u
  undone_Kept u v = record {
    mapped_same = λ b. ground (arith, v.mapped_now b, m.mapped_now b, m.fresh b);
    word_same = λ b h. ground (
      arith,
      v.word_same b,
      apart_new b h,
      m.word_same b h,
      diff_back,
      r.own_address,
      r.own_diff,
    );
    gs_same = v.gs_same ∙ m.gs_same;
  }

-- arch_prctl(ARCH_SET_GS) does not refuse an address of user space.
abbrev pub SetsGs : System → Type 0
SetsGs k = (v : ℕ) (s : Space) → v ≤ max_gs_base_addr → k.set_gs v s ≡ some (record s { gs = v })

-- The run goes on with the metadata of the shadow stack, wherever that is by then.
abbrev pub Goes : ℕ → ℕ → Space → Option (ℕ × World) → Type 0
Goes top a s out =
    (b : ℕ) × (w' : World) × (out ≡ some (b + metadata_offset, w')) × Carried top a b s w'.space

module _ (k : System) (promises : Promises k) (sets : SetsGs k) (top a new : ℕ) (s : Space)
    (w : World) (r : Ready top a s) (m : Maps new real_shadow_stack_size s w.space)
    (al : new % 0x800000 ≡ 0) where
  abbrev there : ℕ
  there = a + metadata_offset

  mapped_at : (f : ℕ) → f ≤ diff_field → w.space.mapped (there + f) ≡ true
  mapped_at f l = ground (
    arith,
    still_mapped top a new s w.space r m (a + (metadata_offset + f)),
    r.all_mapped (metadata_offset + f),
  )

  address_at : w.space.word (there + shadow_stack_field) ≡ a
  address_at = ground (
    arith,
    m.word_same (a + metadata_offset + shadow_stack_field),
    r.all_mapped (metadata_offset + shadow_stack_field),
    r.own_address,
  )

  diff_at : w.space.word (there + diff_field) ≡ s.gs
  diff_at = ground (
    arith,
    m.word_same (a + metadata_offset + diff_field),
    r.all_mapped (metadata_offset + diff_field),
    r.own_diff,
  )

  mapped0 : w.space.mapped (there + shadow_stack_field) ≡ true
  mapped0 = mapped_at shadow_stack_field (omega arith)

  mapped32 : w.space.mapped (there + diff_field) ≡ true
  mapped32 = mapped_at diff_field (omega arith)

  use_memory-place : use_memory k there (some new) w ≡ place k there new a s.gs w
  unfolding use_memory
  use_memory-place = rw (mapped0, ◌>>=◌, mapped32, ◌>>=◌) (rw (address_at, diff_at))

  abbrev delta_of : ℕ
  delta_of = delta top a new s w.space r m

  abbrev diff_of : ℕ
  diff_of = diff top a new s w.space r m

  -- With the new address and the new distance written to the metadata.
  abbrev named : Space
  named = renamed there new diff_of w.space

  abbrev undone : World
  undone = record w {
    space = k.munmap new real_shadow_stack_size (restored top a new s w.space r m);
    total_fail_rand_cnt = w.total_fail_rand_cnt + 1;
  }

  undo_run : undo k there a delta_of new (record w { space = named }) ≡ some (there, undone)
  unfolding undo
  undo_run = rw (◌>>◌, ◌>>=◌, mapped0, ◌>>=◌, mapped32, ◌>>=◌, ◌>>◌, mapped32, ◌>>=◌)

  move-move_from : move k there new delta_of diff_of w ≡ move_from k there a new delta_of diff_of w
  unfolding move
  move-move_from =
      ap (follow (λ old. move_from k there old new delta_of diff_of))
        (load-at (there + shadow_stack_field) a w mapped0 address_at)

  move_from_run :
      move_from k there a new delta_of diff_of w
      ≡ (mremap k a real_shadow_stack_size new >>= after_mremap k there a delta_of diff_of new)
          (record w { space = named })
  unfolding move_from
  move_from_run = rw (◌>>◌, mapped0, ◌>>=◌, ◌>>◌, mapped32, ◌>>=◌)

  move_run :
      move k there new delta_of diff_of w
      ≡ (mremap k a real_shadow_stack_size new >>= after_mremap k there a delta_of diff_of new)
          (record w { space = named })
  move_run = move-move_from ∙ move_from_run

  new_md : metadata_of new ≡ new + metadata_offset
  new_md = omega (arith, m.fits)

  place_lem : Goes top a s (place k there new a s.gs w)
  unfolding place after_mremap
  place_lem = elim (Bool-cases (is_negative diff_of || ltb max_gs_base_addr diff_of)) [
    | inl h ↦
        let u = promises.munmap_unmaps new real_shadow_stack_size w.space in
        let t = k.munmap new real_shadow_stack_size w.space in
        (a, record w { space = t }, rw (h, ◌>>◌), Kept-Carried t r (Unmaps-Maps m u))
    | inr h ↦ elim (Option-cases (k.mremap a real_shadow_stack_size new named)) [
      | inl e ↦
          let u =
            promises.munmap_unmaps new real_shadow_stack_size (restored top a new s w.space r m) in
          (
            a,
            undone,
            rw h (move_run ∙ rw (e, ◌>>=◌) undo_run),
            Kept-Carried undone.space r (undone_Kept top a new s w.space r m undone.space u),
          )
      | inr ((at, u), e) ↦
          let (p, v) = promises.mremap_moves _ _ _ _ _ _ e in
          let le : diff_of ≤ max_gs_base_addr = ground (arith, h) in
          (
            new,
            record w { space = record u { gs = diff_of } },
            rw h (move_run ∙ rw (e, ◌>>=◌) (rw (sets diff_of u le, ◌>>=◌, p, new_md))),
            moved_Carried top a new s w.space r m u al le v,
          )
    ]
  ]

  pub use_memory_lem : Goes top a s (use_memory k there (some new) w)
  use_memory_lem = rw use_memory-place place_lem
