-- ===== src/Runtime/Moves.antt =====
-- The shadow stack and its metadata in FlashStack/gs.rsp.c, before and after a move.
use flash_stack.Base.{ℕ, ◌+◌, ◌≤◌, ◌<◌, ◌≡◌, ◌∙◌, sym, true, false, ◌⊎◌, arith}
use flash_stack.Asm.Machine.{update}
use flash_stack.Runtime.{
  Space, real_shadow_stack_size, metadata_offset, max_gs_base_addr, shadow_stack_field,
  is_randomizing_field, cpu_cycles_field, diff_field,
}
use flash_stack.Runtime.Promises.{inside}
use flash_stack.Runtime.Lookup.{Anchored}
use flash_stack.Runtime.Obtain.{Kept}

-- The shadow stack of a thread at `base`, mapped, with the metadata that says so.
pub record Ready (top base : ℕ) (s : Space) : Type 0 where
  pub anchored : Anchored top base s
  pub gs_user : s.gs ≤ max_gs_base_addr
  pub all_mapped : (i : ℕ) → i < real_shadow_stack_size → s.mapped (base + i) ≡ true
  pub own_address : s.word (base + metadata_offset + shadow_stack_field) ≡ base
  pub own_diff : s.word (base + metadata_offset + diff_field) ≡ s.gs

-- From `s` to `t` the shadow stack has come from `a` to `b` with its return addresses, and
-- nothing else that was mapped has changed.
pub record Carried (top a b : ℕ) (s t : Space) : Type 0 where
  pub ready : Ready top b t
  pub stack_kept : (i : ℕ) → i < metadata_offset → t.word (b + i) ≡ s.word (a + i)
  pub others_kept :
      (x : ℕ)
      → s.mapped x ≡ true
      → inside a real_shadow_stack_size x ≡ false
      → (t.mapped x ≡ true) × (t.word x ≡ s.word x) × (inside b real_shadow_stack_size x ≡ false)

pub Carried-trans :
    {top a b c : ℕ} {s t : Space} (u : Space)
    → Carried top a b s t
    → Carried top b c t u
    → Carried top a c s u
Carried-trans u h g = record {
  ready = g.ready;
  stack_kept = λ i l. g.stack_kept i l ∙ h.stack_kept i l;
  others_kept = λ x m n.
      let (p, q, r) = h.others_kept x m n in
      let (p', q', r') = g.others_kept x p r in (p', q' ∙ q, r');
}

pub Kept-Carried :
    {top a : ℕ} {s : Space} (t : Space) → Ready top a s → Kept s t → Carried top a a s t
Kept-Carried {top} {a} {s} t r h = record {
  ready = record {
    anchored = record {
      top_user = r.anchored.top_user;
      aligned = r.anchored.aligned;
      fits = r.anchored.fits;
      gs_diff = rw h.gs_same r.anchored.gs_diff;
    };
    gs_user = rw h.gs_same r.gs_user;
    all_mapped = λ i l. h.mapped_same (a + i) ∙ r.all_mapped i l;
    own_address = h.word_same _ (ground (arith, r.all_mapped metadata_offset)) ∙ r.own_address;
    own_diff =
        h.word_same _ (ground (arith, r.all_mapped (metadata_offset + diff_field)))
        ∙ r.own_diff
        ∙ sym h.gs_same;
  };
  stack_kept = λ i l. h.word_same _ (r.all_mapped i (omega arith));
  others_kept = λ x m n. (h.mapped_same x ∙ m, h.word_same x m, n);
}

-- Only the words of the metadata other than shadow_stack and diff are written.
pub touched :
    {top a : ℕ} {s : Space} (f v : ℕ)
    → Ready top a s
    → (f ≡ is_randomizing_field) ⊎ (f ≡ cpu_cycles_field)
    → Carried top a a s (record s { word = update s.word (a + metadata_offset + f) v })
touched {top} {a} {s} f v r w = record {
  ready = record {
    anchored = record {
      top_user = r.anchored.top_user;
      aligned = r.anchored.aligned;
      fits = r.anchored.fits;
      gs_diff = r.anchored.gs_diff;
    };
    gs_user = r.gs_user;
    all_mapped = r.all_mapped;
    own_address = ground (arith, r.own_address, w);
    own_diff = ground (arith, r.own_diff, w);
  };
  stack_kept = λ i l. ground (arith, w);
  others_kept = λ x m n. (m, ground (arith, w, n), n);
}
