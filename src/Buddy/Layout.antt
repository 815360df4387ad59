-- ===== src/Buddy/Layout.antt =====
-- Where FlashStack/buddy_tls.c puts the two records of a thread, for the default size of the call
-- stack: below the shadow stack, or on its lowest page.
use flash_stack.Base.{
  ℕ, ◌+◌, ◌-◌, ◌*◌, ◌%◌, ◌^◌, ◌≤◌, ◌<◌, ◌≡◌, ◌⊎◌, inl, inr, true, some, arith, bit_and_high23, refl,
  Bool-cases, leb,
}
use flash_stack.Base.Steps.{◌>>=◌}
use flash_stack.Asm.{word_mod, neg, sub64}
use flash_stack.Scheme.{def_ss_offset}
use flash_stack.Buddy.{
  Process, Kernel, buddy_call_stack_size, buddy_get_tls_info, align, page_size, random_val_field,
  stack_top_field, buddy_info_field, randomizing_field,
}
use flash_stack.Buddy.Fields.{PageReadable}

-- The lower and the upper record.
abbrev pub lower_info : ℕ → ℕ
lower_info top = top - top % def_ss_offset - 3 * def_ss_offset

abbrev pub upper_info : ℕ → ℕ
upper_info top = top - top % def_ss_offset - 2 * def_ss_offset

abbrev pub Pair : ℕ → ℕ → ℕ → Type 0
Pair top info other =
    ((info ≡ lower_info top) × (other ≡ upper_info top))
    ⊎ ((info ≡ upper_info top) × (other ≡ lower_info top))

-- A record that is set up and not being changed.
pub record Info (info other top r : ℕ) (p : Process) : Type 0 where
  pub page_readable : PageReadable info p
  pub random_is : p.memory.word (info + random_val_field) ≡ r
  pub top_is : p.memory.word (info + stack_top_field) ≡ top
  pub link_is : p.memory.word (info + buddy_info_field) ≡ other
  pub idle : p.memory.word (info + randomizing_field) ≡ 0

-- Where the mask lies and what it is.
pub record Mask (k : Kernel) (top : ℕ) (p : Process) : Type 0 where
  pub mask_readable : p.memory.readable k.mask_at ≡ true
  pub mask_is : p.memory.word k.mask_at ≡ neg def_ss_offset
  pub mask_apart : (k.mask_at < lower_info top) ⊎ (top ≤ k.mask_at)

pub record Stack (top : ℕ) : Type 0 where
  pub top_aligned : top % page_size ≡ 0
  pub top_user : top < 2 ^ 47
  pub top_room : 4 * def_ss_offset ≤ top

-- The stack whose end is `top`, with the random value `r`. The lowest page of the shadow stack is
-- spared: the page over it in the call stack is the guard.
pub record Buddies (k : Kernel) (top r : ℕ) (p : Process) : Type 0 where
  pub stack : Stack top
  pub mask : Mask k top p
  pub random_word : r < word_mod
  pub lower : Info (lower_info top) (upper_info top) top r p
  pub upper : Info (upper_info top) (lower_info top) top r p
  pub shadow_writable :
      (b : ℕ)
      → top + page_size ≤ b + 2 * def_ss_offset
      → b + def_ss_offset < top
      → p.memory.writable b ≡ true

pub size_default :
    (k : Kernel) (top : ℕ) (p : Process)
    → Mask k top p
    → buddy_call_stack_size k p ≡ some (def_ss_offset, p)
size_default k top p m = rw (◌>>=◌, m.mask_readable, m.mask_is)

pub align_default : (x : ℕ) → x < word_mod → align def_ss_offset x ≡ x - x % def_ss_offset
align_default x h = bit_and_high23 x h

-- With the default size and both records of the thread in order, buddy_get_tls_info finds, from
-- any stack pointer in the 8 MB below the end of the stack, one of the two records; both hold the
-- same random value.
pub buddy_get_tls_info_lem :
    (k : Kernel) (top r rsp : ℕ) (p : Process)
    → Buddies k top r p
    → rsp < top
    → top ≤ rsp + def_ss_offset
    → (info : ℕ) × (other : ℕ) × (buddy_get_tls_info k rsp p ≡ some (info, p))
      × Pair top info other
      × (p.memory.word (info + random_val_field) ≡ r)
      × (p.memory.word (other + random_val_field) ≡ r)
unfolding buddy_get_tls_info
buddy_get_tls_info_lem k top r rsp p h lo hi =
    let t = h.stack in
    let a = align_default rsp (omega (arith, t.top_user, lo)) in
    let s = size_default k top p h.mask in
    let l = h.lower.random_is in
    let u = h.upper.random_is in
    elim (Bool-cases (leb (top - top % def_ss_offset) rsp)) [
      | inl c ↦
          let e : sub64 (rsp - rsp % def_ss_offset) ((2 * def_ss_offset) % word_mod)
              ≡ upper_info top =
            ground (arith, t.top_user, t.top_room, c, lo, hi) in
          (upper_info top, lower_info top, rw (◌>>=◌, s, a, e), inr (refl, refl), u, l)
      | inr c ↦
          let e : sub64 (rsp - rsp % def_ss_offset) ((2 * def_ss_offset) % word_mod)
              ≡ lower_info top =
            ground (arith, t.top_user, t.top_room, c, lo, hi) in
          (lower_info top, upper_info top, rw (◌>>=◌, s, a, e), inl (refl, refl), l, u)
    ]
