-- ===== src/Runtime/Whole.antt =====
-- gs_rsp_runtime_rerandomize of FlashStack/gs.rsp.c, from its call to its return.
use flash_stack.Base.{
  ℕ, ◌+◌, ◌-◌, ◌*◌, ◌≤◌, ◌<◌, ◌≡◌, ◌∙◌, refl, sym, ap, Bool, true, false, Option, none, some, arith,
  ltb, ◌==◌, ==_iff, if◌then◌else◌, Bool-cases, inl, inr,
}
use flash_stack.Asm.{neg, add64, sub64}
use flash_stack.Scheme.{user_space_size}
use flash_stack.Runtime.{
  M, pure, metadata_by_rsp, System, Space, World, set_word, call_stack_size, metadata_offset,
  is_randomizing_field, cpu_cycles_field, state_field, diff_field, flash_stack_inited,
  cycles_per_randomization, ◌>>=◌, ◌>>◌,
}
use flash_stack.Runtime.Runs.{word-set_word, follow}
use flash_stack.Runtime.Promises.{Promises}
use flash_stack.Runtime.Lookup.{Anchored, metadata_by_rsp_iff}
use flash_stack.Runtime.Obtain.{Kept, Obtained, get_memory_at_random_lem}
use flash_stack.Runtime.Moves.{Ready, Carried, Kept-Carried, Carried-trans, touched}
use flash_stack.Runtime.Survive.{SetsGs, Goes, use_memory_lem}
use flash_stack.Runtime.Rerandomize.{
  use_memory, rand_exit, randomize, test_busy, visit, rerandomize, count_failure,
}

field_mapped :
    {top a : ℕ} {s : Space} (f : ℕ)
    → Ready top a s
    → f ≤ diff_field
    → s.mapped (a + metadata_offset + f) ≡ true
field_mapped f r l = ground (arith, r.all_mapped (metadata_offset + f))

same_space : {s : Space} → Kept s s
same_space = record { mapped_same = λ b. refl; word_same = λ b m. refl; gs_same = refl }

-- The word at is_randomizing.
abbrev pub flag : ℕ → Space → ℕ
flag a s = s.word (a + metadata_offset + is_randomizing_field)

-- The call returns, with the stack of `a` carried to some `b` and the flag there as given.
abbrev pub Ends : ℕ → ℕ → Space → ℕ → Option (Unit {0} × World) → Type 0
Ends top a s v out =
    (b : ℕ) × (w' : World) × (out ≡ some (tt, w'))
    × Carried top a b s w'.space
    × (flag b w'.space ≡ v)

module _ (k : System) (promises : Promises k) (sets : SetsGs k) (top : ℕ) where
  use_memory_any :
      (a inner : ℕ) (s : Space) (w : World) (new : Option ℕ)
      → Ready top a s
      → Obtained inner new s w.space
      → Goes top a s (use_memory k (a + metadata_offset) new w)
  unfolding use_memory
  use_memory_any a inner s w none r h = (a, count_failure w, refl, Kept-Carried w.space r h)
  use_memory_any a inner s w (some new) r (m, al, le) =
      use_memory_lem k promises sets top a new s w r m al

  abbrev closed : ℕ → ℕ → World → World
  closed a from w = record w {
    space = (set_word (a + metadata_offset + is_randomizing_field) 0 w).space;
    readings = w.readings + 1;
    total_rand_cnt = w.total_rand_cnt + 1;
    total_cpu_cycles = add64 w.total_cpu_cycles (sub64 (k.rdtsc w.readings) from);
  }

  rand_exit-closed :
      (a from : ℕ) (w : World)
      → Ready top a w.space
      → rand_exit k from (a + metadata_offset) w ≡ some (tt, closed a from w)
  unfolding rand_exit
  rand_exit-closed a from w r = rw (◌>>◌, field_mapped is_randomizing_field r (omega arith), ◌>>=◌)

  -- Where the memory has been asked for.
  exit_from :
      (a inner from : ℕ) (s : Space) (w : World) (new : Option ℕ)
      → Ready top a s
      → Obtained inner new s w.space
      → Ends top a s 0 ((use_memory k (a + metadata_offset) new >>= rand_exit k from) w)
  exit_from a inner from s w new r h =
      let (b, w1, run, c) = use_memory_any a inner s w new r h in
      let t = touched is_randomizing_field 0 c.ready (inl refl) in
      (
        b,
        closed b from w1,
        ap (follow (rand_exit k from)) run ∙ rand_exit-closed b from w1 c.ready,
        Carried-trans _ c t,
        ground arith,
      )

  pub randomize_lem :
      (a inner from : ℕ) (w : World)
      → Ready top a w.space
      → Ends top a w.space 0 (randomize k inner from (a + metadata_offset) w)
  unfolding randomize
  randomize_lem a inner from w r =
      let w1 = set_word (a + metadata_offset + is_randomizing_field) 1 w in
      let c1 = touched is_randomizing_field 1 r (inl refl) in
      let cur = k.rdtsc w.readings in
      let w2 = record w1 { readings = w.readings + 1 } in
      let w3 = set_word (a + metadata_offset + cpu_cycles_field) cur w2 in
      let c3 = Carried-trans w3.space c1 (touched cpu_cycles_field cur c1.ready (inr refl)) in
      let (new, w4, run, got, same) = get_memory_at_random_lem k promises inner false w3 in
      let m8 = field_mapped is_randomizing_field r (omega arith) in
      let m16 = field_mapped cpu_cycles_field r (omega arith) in
      let last = w1.space.word (a + metadata_offset + cpu_cycles_field) in
      elim (Bool-cases (ltb (sub64 cur last) cycles_per_randomization)) [
        | inl h ↦ (
          a,
          set_word (a + metadata_offset + is_randomizing_field) 0 w2,
          rw (◌>>◌, m8, ◌>>=◌, m16, ◌>>=◌, h, m8),
          Carried-trans _ c1 (touched is_randomizing_field 0 c1.ready (inl refl)),
          word-set_word (a + metadata_offset + is_randomizing_field) 0 w2,
        )
        | inr h ↦
            let (b, w5, ends, c, z) = exit_from a inner from w3.space w4 new c3.ready got in
            (
              b,
              w5,
              rw (◌>>◌, m8, ◌>>=◌, m16, ◌>>=◌, h, ◌>>◌, m16, ◌>>=◌)
                  (ap
                      (follow
                        (λ new'. use_memory k (a + metadata_offset) new' >>= rand_exit k from))
                      run
                    ∙ ends),
              Carried-trans _ c3 c,
              z,
            )
      ]

  test_busy_lem :
      (a inner from : ℕ) (w : World)
      → Ready top a w.space
      → Ends top a w.space (flag a w.space) (test_busy k inner from (a + metadata_offset) w)
  unfolding test_busy
  test_busy_lem a inner from w r =
      let m8 = field_mapped is_randomizing_field r (omega arith) in
      elim (Bool-cases (flag a w.space == 0)) [
        | inl h ↦
            let (b, w', run, c, z) = randomize_lem a inner from w r in
            (b, w', rw (m8, ◌>>=◌, h) run, c, z ∙ sym ((==_iff (flag a w.space) 0).0 h))
        | inr h ↦ (a, w, rw (m8, ◌>>=◌, h), Kept-Carried w.space r same_space, refl)
      ]

  visit_lem :
      (a inner from : ℕ) (w : World)
      → Ready top a w.space
      → Ends top a w.space (flag a w.space) (visit k inner from (a + metadata_offset) w)
  unfolding visit
  visit_lem a inner from w r =
      let m24 = field_mapped state_field r (omega arith) in
      elim (Bool-cases (w.space.word (a + metadata_offset + state_field) == flash_stack_inited)) [
        | inl h ↦
            let (b, w', run, c, z) = test_busy_lem a inner from w r in
            (b, w', rw (m24, ◌>>=◌, h) run, c, z)
        | inr h ↦ (a, w, rw (m24, ◌>>=◌, h), Kept-Carried w.space r same_space, refl)
      ]

  abbrev visits : ℕ → ℕ → World → Bool → M (Unit {0})
  visits a inner w inited =
      if inited then visit k inner (k.rdtsc w.readings) (a + metadata_offset) else pure tt

  rerandomize-visits :
      (a rsp inner : ℕ) (w : World)
      → metadata_by_rsp k rsp (record w { readings = w.readings + 1 }) ≡ some (a + metadata_offset)
      → rerandomize k rsp inner w
        ≡ visits a inner w w.inited (record w { readings = w.readings + 1 })
  unfolding rerandomize
  rerandomize-visits a rsp inner w found = rw found

  rerandomize-Ends :
      (a rsp inner : ℕ) (w : World)
      → Ready top a w.space
      → rsp < top
      → top ≤ rsp + call_stack_size
      → Ends top a w.space (flag a w.space) (rerandomize k rsp inner w)
  rerandomize-Ends a rsp inner w r lo hi =
      let w1 = record w { readings = w.readings + 1 } in
      let found =
        (metadata_by_rsp_iff k top a rsp w1 promises r.anchored
            (omega (arith, r.anchored.top_user))).1
          (lo, hi) in
      let start = rerandomize-visits a rsp inner w found in
      elim (Bool-cases w.inited) [
        | inl h ↦
            let (b, w', run, c, z) = visit_lem a inner (k.rdtsc w.readings) w1 r in
            (b, w', start ∙ ap (λ i. visits a inner w i w1) h ∙ run, c, z)
        | inr h ↦ (
          a,
          w1,
          start ∙ ap (λ i. visits a inner w i w1) h,
          Kept-Carried w.space r same_space,
          refl,
        )
      ]

-- The word of the shadow stack for a return address at `p` of the call stack.
abbrev pub slot_of : ℕ → ℕ → ℕ
slot_of gs p = add64 gs (add64 0 (add64 p (neg user_space_size * 1)))

Carried-slot :
    {top a b : ℕ} {s t : Space} (p : ℕ)
    → Anchored top a s
    → Carried top a b s t
    → p < top
    → top ≤ p + call_stack_size
    → t.word (slot_of t.gs p) ≡ s.word (slot_of s.gs p)
Carried-slot {top} {a} {b} {s} {t} p h c lo hi =
    let i = call_stack_size + p - top in
    let x : slot_of s.gs p ≡ a + i = omega (arith, h.top_user, h.fits, h.gs_diff) in
    let g = c.ready.anchored in
    let y : slot_of t.gs p ≡ b + i = omega (arith, g.top_user, g.fits, g.gs_diff) in
    rw (x, y) (c.stack_kept i (omega arith))

-- On a system that keeps its promises, and where arch_prctl takes every address up to
-- MAX_GS_BASE_ADDR, let the shadow stack be in order, and let gs_rsp_runtime_rerandomize be
-- called below the stack pointer at which its thread was prepared, by at most 8 MB. Then it
-- returns without a fault on every path: moved, too early, busy, or for want of memory or address
-- space. The shadow stack is in order where it then stands, for every address of the call stack
-- the word at its shadow slot is the same as before, no other memory that was mapped has changed,
-- and is_randomizing is as it was.
pub rerandomize_lem :
    (k : System) (top a rsp inner : ℕ) (w : World)
    → Promises k
    → SetsGs k
    → Ready top a w.space
    → rsp < top
    → top ≤ rsp + call_stack_size
    → (b : ℕ) × (w' : World) × (rerandomize k rsp inner w ≡ some (tt, w'))
      × Carried top a b w.space w'.space
      × (flag b w'.space ≡ flag a w.space)
      × ((p : ℕ)
          → p < top
          → top ≤ p + call_stack_size
          → w'.space.word (slot_of w'.space.gs p) ≡ w.space.word (slot_of w.space.gs p))
rerandomize_lem k top a rsp inner w promises sets r lo hi =
    let (b, w', run, c, z) = rerandomize-Ends k promises sets top a rsp inner w r lo hi in
    (b, w', run, c, z, λ p. Carried-slot p r.anchored c)
