-- ===== src/Scheme/Return.antt =====
-- The prologue and the epilogue of a function in FlashStack/afl-as.c, with the body between them.
use Prim.Native.Nat.{bit_and}
use flash_stack.Base.{ℕ, ◌*◌, ◌<◌, ◌≡◌, ◌≢◌, refl, Bool, true, false, List, [], ◌∷◌, arith}
use flash_stack.Asm.{word_mod, neg, add64, Symbol, stack_size_mask, random_val}
use flash_stack.Asm.Machine.{Machine, Env, Outcome, next, jump, run}
use flash_stack.Scheme.{
  Scheme, shadow_stack, shadow_stack_via_reg, buddy_stack_tls, gs_rsp, shadesmar_gs, fs_gs_tls,
  buddy_tls_stk_size, global_randvar, def_ss_offset, def_local_storage_size, user_space_size,
  offset_diff, offset_r, prologue, epilogue,
}

-- Where the prologue stores.
abbrev pub shadow_slot : Scheme → Env → Machine → ℕ
shadow_slot shadow_stack e m = add64 (neg def_ss_offset) (add64 m.rsp_ 8)
shadow_slot gs_rsp e m = add64 m.gs_base (add64 0 (add64 m.rsp_ (neg user_space_size * 1)))
shadow_slot (fs_gs_tls msr) e m = add64 0 (add64 m.rsp_ (m.word (add64 m.gs_base offset_diff) * 1))
shadow_slot (buddy_tls_stk_size non_pie) e m =
    add64 0 (add64 m.rsp_ (m.word (e.symbol stack_size_mask) * 1))
shadow_slot _ e m = add64 (neg def_ss_offset) m.rsp_

-- The other words that the epilogue reads.
abbrev pub scheme_data : Scheme → Env → Machine → List ℕ
scheme_data buddy_stack_tls e m =
    add64 (neg def_local_storage_size) (bit_and m.rsp_ (neg def_ss_offset)) ∷ []
scheme_data (fs_gs_tls true) e m = add64 m.gs_base offset_diff ∷ add64 m.gs_base offset_r ∷ []
scheme_data (fs_gs_tls false) e m = add64 m.gs_base offset_diff ∷ []
scheme_data (buddy_tls_stk_size non_pie) e m =
    e.symbol stack_size_mask
    ∷ add64 0 (
        add64 (bit_and m.rsp_ (m.word (e.symbol stack_size_mask)))
          (m.word (e.symbol stack_size_mask) * 2))
    ∷ []
scheme_data _ e m = []

abbrev pub SameAt : (ℕ → ℕ) → (ℕ → ℕ) → List ℕ → Type 0
SameAt f g [] = Unit
SameAt f g (a ∷ l) = (f a ≡ g a) × SameAt f g l

abbrev pub Apart : ℕ → List ℕ → Type 0
Apart a [] = Unit
Apart a (b ∷ bs) = (a ≢ b) × Apart a bs

-- `m` is a machine at the entry of a function.
pub record AtEntry (s : Scheme) (e : Env) (m : Machine) : Type 0 where
  pub instrumented : s ≢ shadesmar_gs
  pub rsp_word : m.rsp_ < word_mod
  pub words : (a : ℕ) → m.word a < word_mod
  pub symbols : (x : Symbol) → e.symbol x < word_mod
  pub apart : Apart (shadow_slot s e m) (scheme_data s e m)

-- From `a`, behind the prologue, the body has come to `b`, in front of `ret`: the stack pointer is
-- back, and the body wrote neither the shadow slot nor the data of the scheme.
pub record BodyKeeps (s : Scheme) (e : Env) (m a b : Machine) : Type 0 where
  pub rsp_same : b.rsp_ ≡ a.rsp_
  pub gs_same : b.gs_base ≡ a.gs_base
  pub slot_same : b.word (shadow_slot s e m) ≡ a.word (shadow_slot s e m)
  pub data_same : SameAt b.word a.word (scheme_data s e m)

-- The machine behind the prologue.
abbrev pub landed : Outcome → Machine → Machine
landed (next a) m = a
landed _ m = m

abbrev pub entered : Scheme → Env → Machine → Machine
entered s e m = landed (run e (prologue s) m) m

abbrev pub Returns : Scheme → Env → Machine → Machine → Type 0
Returns s e m b =
    (c : Machine) × (run e (prologue s) m ≡ next (entered s e m))
    × (run e (epilogue s) b ≡ jump (m.word m.rsp_) c)
    × (c.rsp_ ≡ add64 m.rsp_ 8)

abbrev pub exited : Outcome → Machine → Machine
exited (jump t c) m = c
exited _ m = m

module _ (e : Env) (m b : Machine) where
  -- The body keeps what the epilogue reads.
  return_buddy :
      AtEntry buddy_stack_tls e m
      → BodyKeeps buddy_stack_tls e m (entered buddy_stack_tls e m) b
      → Returns buddy_stack_tls e m b
  return_buddy h k =
      let cell = add64 (neg def_local_storage_size) (bit_and m.rsp_ (neg def_ss_offset)) in
      (
        exited (run e (epilogue buddy_stack_tls) b) b,
        refl,
        ground (arith, k.slot_same, k.data_same.0, h.apart.0, h.words m.rsp_, h.words cell),
        ground arith,
      )

  return_fs_gs :
      (msr : Bool)
      → AtEntry (fs_gs_tls msr) e m
      → BodyKeeps (fs_gs_tls msr) e m (entered (fs_gs_tls msr) e m) b
      → Returns (fs_gs_tls msr) e m b
  return_fs_gs true h k = (
    exited (run e (epilogue (fs_gs_tls true)) b) b,
    refl,
    ground (
      arith,
      k.slot_same,
      k.data_same.0,
      k.data_same.1.0,
      h.apart.0,
      h.apart.1.0,
      h.words m.rsp_,
      h.words (add64 m.gs_base offset_r),
    ),
    ground arith,
  )
  return_fs_gs false h k = (
    exited (run e (epilogue (fs_gs_tls false)) b) b,
    refl,
    ground (arith, k.slot_same, k.data_same.0, h.apart.0),
    ground arith,
  )

  return_stk_size :
      (non_pie : Bool)
      → AtEntry (buddy_tls_stk_size non_pie) e m
      → BodyKeeps (buddy_tls_stk_size non_pie) e m (entered (buddy_tls_stk_size non_pie) e m) b
      → Returns (buddy_tls_stk_size non_pie) e m b
  return_stk_size true h k =
      let mask = m.word (e.symbol stack_size_mask) in
      let cell = add64 0 (add64 (bit_and m.rsp_ mask) (mask * 2)) in
      (
        exited (run e (epilogue (buddy_tls_stk_size true)) b) b,
        refl,
        ground (
          arith,
          k.slot_same,
          k.data_same.0,
          k.data_same.1.0,
          h.apart.0,
          h.apart.1.0,
          h.words m.rsp_,
          h.words cell,
        ),
        ground arith,
      )
  return_stk_size false h k =
      let at = e.symbol stack_size_mask in
      let mask = m.word at in
      let cell = add64 0 (add64 (bit_and m.rsp_ mask) (mask * 2)) in
      (
        exited (run e (epilogue (buddy_tls_stk_size false)) b) b,
        refl,
        ground (
          arith,
          k.slot_same,
          k.data_same.0,
          k.data_same.1.0,
          h.apart.0,
          h.apart.1.0,
          h.words m.rsp_,
          h.words cell,
          h.symbols stack_size_mask,
        ),
        ground arith,
      )

  return_global :
      AtEntry global_randvar e m
      → BodyKeeps global_randvar e m (entered global_randvar e m) b
      → Returns global_randvar e m b
  return_global h k = (
    exited (run e (epilogue global_randvar) b) b,
    refl,
    ground (arith, k.slot_same, h.words m.rsp_, h.symbols random_val),
    ground arith,
  )

-- In every scheme that instruments, with a 64-bit stack pointer and memory of 64-bit words, and
-- with the shadow slot apart from the data of the scheme, the prologue runs to its end. If the
-- body then gives back the stack pointer and the gs base and spares the shadow slot and the data
-- of the scheme, the epilogue jumps to the address that lay on top of the call stack at the entry
-- and pops that word. What the body wrote elsewhere, over the return address on the call stack
-- for one, does not matter.
pub epilogue-prologue :
    (s : Scheme) (e : Env) (m b : Machine)
    → AtEntry s e m
    → BodyKeeps s e m (entered s e m) b
    → Returns s e m b
epilogue-prologue shadow_stack e m b h k =
    (exited (run e (epilogue shadow_stack) b) b, refl, ground (arith, k.slot_same), ground arith)
epilogue-prologue shadow_stack_via_reg e m b h k = (
  exited (run e (epilogue shadow_stack_via_reg) b) b,
  refl,
  ground (arith, k.slot_same),
  ground arith,
)
epilogue-prologue buddy_stack_tls e m b h k = return_buddy e m b h k
epilogue-prologue gs_rsp e m b h k =
    (exited (run e (epilogue gs_rsp) b) b, refl, ground (arith, k.slot_same), ground arith)
epilogue-prologue shadesmar_gs e m b h k = absurd (h.instrumented refl)
epilogue-prologue (fs_gs_tls msr) e m b h k = return_fs_gs e m b msr h k
epilogue-prologue (buddy_tls_stk_size non_pie) e m b h k = return_stk_size e m b non_pie h k
epilogue-prologue global_randvar e m b h k = return_global e m b h k
