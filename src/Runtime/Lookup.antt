-- ===== src/Runtime/Lookup.antt =====
-- The address that get_gs_rsp_metadata_by_rsp of FlashStack/gs.rsp.c computes.
use flash_stack.Base.{ℕ, ◌+◌, ◌-◌, ◌%◌, ◌≤◌, ◌<◌, ◌≡◌, ◌↔◌, some, arith, bit_and_high23}
use flash_stack.Asm.{add64, sub64}
use flash_stack.Scheme.{user_space_size}
use flash_stack.Runtime.{
  System, Space, World, metadata_of, metadata_by_rsp, call_stack_size, real_shadow_stack_size,
  metadata_offset,
}
use flash_stack.Runtime.Promises.{Promises}

-- The shadow stack stands at `base`, and the gs register holds its distance to the call stack,
-- whose pointer was `top` when the thread was prepared.
pub record Anchored (top base : ℕ) (s : Space) : Type 0 where
  pub top_user : top ≤ user_space_size
  pub aligned : base % 0x800000 ≡ 0
  pub fits : base + real_shadow_stack_size ≤ user_space_size
  pub gs_diff : s.gs + top ≡ base + call_stack_size + user_space_size

found_iff :
    (top base gs rsp : ℕ)
    → top ≤ user_space_size
    → base % 0x800000 ≡ 0
    → base + real_shadow_stack_size ≤ user_space_size
    → gs + top ≡ base + call_stack_size + user_space_size
    → rsp ≤ user_space_size
    → (let ssp = sub64 (add64 rsp gs) user_space_size in
        (metadata_of (ssp - ssp % 0x800000) ≡ base + metadata_offset)
        ↔ ((rsp < top) × (top ≤ rsp + call_stack_size)))
found_iff top base gs rsp a b c d e = (λ h. (omega arith, omega arith), λ h. omega arith)

metadata_by_rsp_value :
    (k : System) (rsp : ℕ) (w : World)
    → Promises k
    → (let ssp = sub64 (add64 rsp w.space.gs) user_space_size in
        metadata_by_rsp k rsp w ≡ some (metadata_of (ssp - ssp % 0x800000)))
unfolding metadata_by_rsp
metadata_by_rsp_value k rsp w promises = ground (
  arith,
  promises.get_gs_reads w.space,
  bit_and_high23 (sub64 (add64 rsp w.space.gs) user_space_size) (omega arith),
)

-- On a system that keeps its promises, with the shadow stack at `base` and the gs register
-- holding its distance to the call stack of a thread that was prepared at `top`, the metadata is
-- found from a stack pointer of user space exactly if that lies below `top`, by at most 8 MB.
pub metadata_by_rsp_iff :
    (k : System) (top base rsp : ℕ) (w : World)
    → Promises k
    → Anchored top base w.space
    → rsp ≤ user_space_size
    → (metadata_by_rsp k rsp w ≡ some (base + metadata_offset))
      ↔ ((rsp < top) × (top ≤ rsp + call_stack_size))
metadata_by_rsp_iff k top base rsp w promises h r =
    let gs = w.space.gs in
    let f = found_iff top base gs rsp h.top_user h.aligned h.fits h.gs_diff r in
    rw (metadata_by_rsp_value k rsp w promises) (ground (arith, f))
