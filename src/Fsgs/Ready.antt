-- ===== src/Fsgs/Ready.antt =====
-- The shadow stack and the metadata of a thread in FlashStack/fsgs.c.
use flash_stack.Base.{ℕ, ◌+◌, ◌%◌, ◌^◌, ◌≤◌, ◌<◌, ◌≡◌, ◌⊎◌, ◌∙◌, true, false, arith}
use flash_stack.Asm.{add64}
use flash_stack.Runtime.{call_stack_size, flash_stack_inited}
use flash_stack.Runtime.Promises.{inside}
use flash_stack.Buddy.{Memory, page_size}
use flash_stack.Buddy.Promises.{on_page}
use flash_stack.Fsgs.{
  stack_size, self_addr_field, gs_diff_field, r_field, busy_field, stack_field, inited_field,
  shadow_stack_top_field,
}

-- Where they lie.
pub record Place (md base : ℕ) (m : Memory) : Type 0 where
  pub md_aligned : md % page_size ≡ 0
  pub md_user : md + page_size ≤ 2 ^ 47
  pub base_user : base + stack_size ≤ 2 ^ 47
  pub apart : (md + page_size ≤ base) ⊎ (base + stack_size ≤ md)
  pub md_readable : (b : ℕ) → on_page md b ≡ true → m.readable b ≡ true
  pub stack_readable : (i : ℕ) → i < stack_size → m.readable (base + i) ≡ true
  pub stack_writable : (i : ℕ) → i < stack_size → m.writable (base + i) ≡ true

-- What the metadata says. `shift` is what the distance from the call stack to the shadow stack has
-- besides `base`, and `r` the random value.
pub record Says (md base shift r busy : ℕ) (f : ℕ → ℕ) : Type 0 where
  pub self_is : f (md + self_addr_field) ≡ md
  pub diff_is : f (md + gs_diff_field) ≡ add64 base shift
  pub r_is : f (md + r_field) ≡ r
  pub busy_is : f (md + busy_field) ≡ busy
  pub stack_is : f (md + stack_field) ≡ base
  pub inited_is : f (md + inited_field) ≡ flash_stack_inited
  pub top_is : f (md + shadow_stack_top_field) ≡ base + call_stack_size

-- From `m` to `t` the shadow stack has come from `base` to `base'` with its contents, and nothing
-- has changed outside it and the metadata.
pub record Brought (md base md' base' : ℕ) (m t : Memory) : Type 0 where
  pub place : Place md' base' t
  pub stack_kept : (i : ℕ) → i < stack_size → t.word (base' + i) ≡ m.word (base + i)
  pub others_kept :
      (b : ℕ)
      → m.readable b ≡ true
      → on_page md b ≡ false
      → inside base stack_size b ≡ false
      → (t.readable b ≡ true)
        × (t.word b ≡ m.word b)
        × (on_page md' b ≡ false)
        × (inside base' stack_size b ≡ false)

pub Brought-trans :
    {md base md' base' md'' base'' : ℕ} {m t : Memory} (u : Memory)
    → Brought md base md' base' m t
    → Brought md' base' md'' base'' t u
    → Brought md base md'' base'' m u
Brought-trans u h g = record {
  place = g.place;
  stack_kept = λ i l. g.stack_kept i l ∙ h.stack_kept i l;
  others_kept = λ b r o n.
      let (p, q, o', n') = h.others_kept b r o n in
      let (p', q', o'', n'') = g.others_kept b p o' n' in (p', q' ∙ q, o'', n'');
}

-- Only words of the metadata have changed, and its protection.
pub touched-Brought :
    (md base : ℕ) (m t : Memory)
    → Place md base m
    → ((b : ℕ) → on_page md b ≡ false → t.word b ≡ m.word b)
    → ((b : ℕ) → m.readable b ≡ true → t.readable b ≡ true)
    → ((b : ℕ) → on_page md b ≡ false → t.writable b ≡ m.writable b)
    → Brought md base md base m t
touched-Brought md base m t p w r x = record {
  place = record {
    md_aligned = p.md_aligned;
    md_user = p.md_user;
    base_user = p.base_user;
    apart = p.apart;
    md_readable = λ b o. r b (p.md_readable b o);
    stack_readable = λ i l. r (base + i) (p.stack_readable i l);
    stack_writable = λ i l. x (base + i) (ground (arith, l, p.apart)) ∙ p.stack_writable i l;
  };
  stack_kept = λ i l. w (base + i) (ground (arith, l, p.apart));
  others_kept = λ b h o n. (r b h, w b o, o, n);
}
