-- ===== src/Fsgs/Fast.antt =====
-- The fast move of FlashStack/fsgs.c, with its two requests for memory.
use flash_stack.Base.{ℕ, ◌+◌, ◌-◌, ◌<◌, ◌≡◌, ◌⊎◌, inl, inr, ◌∙◌, true, false, arith, Bool-cases}
use flash_stack.Runtime.Promises.{inside}
use flash_stack.Buddy.{Memory, page_size}
use flash_stack.Fsgs.{
  Thread, set_word, stack_size, self_addr_field, gs_diff_field, r_field, busy_field, stack_field,
  clock_field, inited_field, shadow_stack_top_field, ratio_factor_field,
}
use flash_stack.Fsgs.Promises.{Grows}
use flash_stack.Fsgs.Ready.{Place, Brought}
use flash_stack.Fsgs.Touch.{set_word-Brought}
use flash_stack.Fsgs.Fresh.{fresh_apart, with_memory}
use flash_stack.Fsgs.Move.{Room}
use flash_stack.Fsgs.Moved.{Moving, Settled}

-- A field that Says does not look at.
abbrev pub IsPlain : ℕ → Type 0
IsPlain f = (f ≡ clock_field) ⊎ (f ≡ ratio_factor_field)

pub touched-Moving :
    (md base shift r f v : ℕ) (w : Thread)
    → IsPlain f
    → Moving md base shift r w
    → Moving md base shift r (set_word (md + f) v w)
touched-Moving md base shift r f v w plain m = record {
  place = (set_word-Brought md base f v w (ground (arith, plain)) m.place).place;
  says = record {
    self_is = ground (arith, plain, m.says.self_is);
    diff_is = ground (arith, plain, m.says.diff_is);
    r_is = ground (arith, plain, m.says.r_is);
    busy_is = ground (arith, plain, m.says.busy_is);
    stack_is = ground (arith, plain, m.says.stack_is);
    inited_is = ground (arith, plain, m.says.inited_is);
    top_is = ground (arith, plain, m.says.top_is);
  };
  is_open = m.is_open;
}

pub grown-Moving :
    (md base shift r a size n : ℕ) (w : Thread) (t : Memory)
    → Grows a size w.memory t
    → Moving md base shift r w
    → Moving md base shift r (with_memory t n w)
grown-Moving md base shift r a size n w t g m =
    let kept : (o : ℕ) → o < page_size → t.word (md + o) ≡ w.memory.word (md + o) =
      λ o h. g.word_same (md + o) (m.place.md_readable (md + o) (ground (arith, h))) in
    record {
      place = record {
        md_aligned = m.place.md_aligned;
        md_user = m.place.md_user;
        base_user = m.place.base_user;
        apart = m.place.apart;
        md_readable = λ b o. ground (arith, g.readable_now b, m.place.md_readable b o);
        stack_readable =
            λ i l. ground (arith, g.readable_now (base + i), m.place.stack_readable i l);
        stack_writable =
            λ i l. ground (arith, g.writable_now (base + i), m.place.stack_writable i l);
      };
      says = record {
        self_is = kept self_addr_field (omega arith) ∙ m.says.self_is;
        diff_is = kept gs_diff_field (omega arith) ∙ m.says.diff_is;
        r_is = kept r_field (omega arith) ∙ m.says.r_is;
        busy_is = kept busy_field (omega arith) ∙ m.says.busy_is;
        stack_is = kept stack_field (omega arith) ∙ m.says.stack_is;
        inited_is = kept inited_field (omega arith) ∙ m.says.inited_is;
        top_is = kept shadow_stack_top_field (omega arith) ∙ m.says.top_is;
      };
      is_open = λ b o. ground (arith, g.writable_now b, m.is_open b o);
    }

region_readable :
    (md base : ℕ) (m : Memory)
    → Place md base m
    → (b : ℕ) → inside base stack_size b ≡ true
    → m.readable b ≡ true
region_readable md base m p b h =
    let e : base + (b - base) ≡ b = ground (arith, h) in
    rw e at (p.stack_readable (b - base) (ground (arith, h)))

not_fresh : (a n b : ℕ) (m t : Memory) → Grows a n m t → m.readable b ≡ true → inside a n b ≡ false
not_fresh a n b m t g r = elim (Bool-cases (inside a n b)) [
  | inl h ↦ absurd (ground (arith, g.fresh b h, r))
  | inr h ↦ h
]

pub grown-Room :
    (md base new_md new_stack : ℕ) (m0 m1 m2 : Memory)
    → Place md base m0
    → Place md base m1
    → Grows new_md page_size m0 m1
    → Grows new_stack stack_size m1 m2
    → Room md base new_md new_stack m2
grown-Room md base new_md new_stack m0 m1 m2 p0 p1 g1 g2 = record {
  new_aligned = g1.aligned;
  new_user = g1.fits;
  stack_user = g2.fits;
  new_md_apart =
      fresh_apart new_md page_size md page_size m0 g1.fresh p0.md_readable (omega arith)
        (omega arith);
  new_base_apart =
      fresh_apart new_md page_size base stack_size m0 g1.fresh (region_readable md base m0 p0)
        (omega arith) (omega arith);
  stack_md_apart =
      fresh_apart new_stack stack_size md page_size m1 g2.fresh p1.md_readable (omega arith)
        (omega arith);
  stack_base_apart =
      fresh_apart new_stack stack_size base stack_size m1 g2.fresh (region_readable md base m1 p1)
        (omega arith) (omega arith);
  new_stack_apart =
      elim (fresh_apart new_stack stack_size new_md page_size m1 g2.fresh
        (λ b o. ground (arith, o, g1.readable_now b)) (omega arith) (omega arith)) [
          | inl h ↦ inr h
          | inr h ↦ inl h
        ];
  new_readable = λ b o. ground (arith, o, g1.readable_now b, g2.readable_now b);
  new_writable = λ b o. ground (arith, o, g1.writable_now b, g2.writable_now b);
  stack_readable = λ i l. ground (arith, l, g2.readable_now (new_stack + i));
}

-- From `w` to `z`, with the metadata open.
pub record Carried (md base md' base' shift r : ℕ) (w z : Thread) : Type 0 where
  pub moving : Moving md' base' shift r z
  pub gs_is : z.gs ≡ md'
  pub inited_same : z.inited ≡ w.inited
  pub brought : Brought md base md' base' w.memory z.memory

pub grown-Carried :
    (md base new_md new_stack shift r n n' : ℕ) (w z : Thread) (m1 m2 : Memory)
    → Place md base w.memory
    → Grows new_md page_size w.memory m1
    → Grows new_stack stack_size m1 m2
    → Settled md base new_md new_stack shift r (with_memory m2 n' (with_memory m1 n w)) z
    → Carried md base new_md new_stack shift r w z
grown-Carried md base new_md new_stack shift r n n' w z m1 m2 p g1 g2 s = record {
  moving = s.moving;
  gs_is = s.gs_is;
  inited_same = s.inited_same;
  brought = record {
    place = s.moving.place;
    stack_kept = λ i l.
        let r0 = p.stack_readable i l in
        let r1 : m1.readable (base + i) ≡ true = ground (arith, g1.readable_now (base + i), r0) in
        s.stack_kept i l ∙ g2.word_same (base + i) r1 ∙ g1.word_same (base + i) r0;
    others_kept = λ b h o n.
        let r1 : m1.readable b ≡ true = ground (arith, g1.readable_now b, h) in
        let r2 : m2.readable b ≡ true = ground (arith, g2.readable_now b, r1) in
        let o' = not_fresh new_md page_size b w.memory m1 g1 h in
        let n' = not_fresh new_stack stack_size b m1 m2 g2 r1 in
        let (p, q) = s.others_kept b r2 o n o' n' in
        (p, q ∙ g2.word_same b r1 ∙ g1.word_same b h, o', n');
  };
}
