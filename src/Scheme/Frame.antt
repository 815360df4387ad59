-- ===== src/Scheme/Frame.antt =====
-- The code that FlashStack/afl-as.c prints at the entry of a function, and the registers and words
-- that it touches.
use flash_stack.Base.{
  ℕ, ◌*◌, ◌-◌, ◌≤◌, ◌<◌, ◌≡◌, ◌≢◌, refl, Bool, true, false, [], ◌∷◌, arith, if◌then◌else◌, Bytes,
}
use flash_stack.Asm.{word_mod, neg, add64, sub64, stack_size_mask, random_val, rdi, rsi, rdx, pushq}
use flash_stack.Asm.Machine.{Machine, Env, next, jump, run, update}
use flash_stack.Scheme.{
  Scheme, shadow_stack, shadow_stack_via_reg, buddy_stack_tls, gs_rsp, shadesmar_gs, fs_gs_tls,
  buddy_tls_stk_size, global_randvar, def_ss_offset, epilogue, guarded_call,
}
use flash_stack.Scheme.Return.{shadow_slot, landed, entered, exited}

-- The schemes whose prologue uses rax, where a variadic function expects the number of its vector
-- arguments.
abbrev pub uses_rax : Scheme → Bool
uses_rax shadow_stack_via_reg = true
uses_rax global_randvar = true
uses_rax _ = false

-- What the caller passes in registers, other than rax.
abbrev pub passed : Machine → ℕ × ℕ × ℕ × ℕ × ℕ
passed m = (m.rsp_, m.rdi_, m.rsi_, m.rdx_, m.gs_base)

-- A prologue writes one word, the shadow slot. It keeps the stack pointer, the argument registers
-- and the gs base, and, but for the two schemes that use it, rax; those leave there the word that
-- they stored.
pub entered_frame :
    (s : Scheme) (e : Env) (m : Machine) (a : ℕ)
    → m.rsp_ < word_mod
    → e.symbol stack_size_mask < word_mod
    → a ≢ shadow_slot s e m
    → ((entered s e m).word a ≡ m.word a)
      × (passed (entered s e m) ≡ passed m)
      × ((entered s e m).rax_
          ≡ (if uses_rax s then (entered s e m).word (shadow_slot s e m) else m.rax_))
entered_frame shadow_stack e m a h k ne = (ground arith, ground arith, refl)
entered_frame shadow_stack_via_reg e m a h k ne = (ground arith, ground arith, ground arith)
entered_frame buddy_stack_tls e m a h k ne = (ground arith, refl, refl)
entered_frame gs_rsp e m a h k ne = (ground arith, refl, refl)
entered_frame shadesmar_gs e m a h k ne = (refl, refl, refl)
entered_frame (fs_gs_tls true) e m a h k ne = (ground arith, refl, refl)
entered_frame (fs_gs_tls false) e m a h k ne = (ground arith, refl, refl)
entered_frame (buddy_tls_stk_size true) e m a h k ne = (ground arith, refl, refl)
entered_frame (buddy_tls_stk_size false) e m a h k ne = (ground arith, refl, refl)
entered_frame global_randvar e m a h k ne = (ground arith, refl, ground arith)

-- Something else in the global variable.
abbrev pub with_value : Env → ℕ → Machine → Machine
with_value e v m = record m { word = update m.word (e.symbol random_val) v }

-- In the scheme with a global variable, whatever is stored in the variable: the prologue leaves the
-- same rax, which it stores, and the same words everywhere but in the variable, if the return
-- address is not there. The epilogue jumps to the same address, if the shadow slot is not there.
-- Neither reads the variable: they add and subtract its address.
pub global_randvar-ignores_value :
    (e : Env) (m : Machine) (v : ℕ)
    → e.symbol random_val ≢ add64 0 m.rsp_
    → e.symbol random_val ≢ add64 (neg def_ss_offset) m.rsp_
    → ((entered global_randvar e (with_value e v m)).rax_ ≡ (entered global_randvar e m).rax_)
      × ((a : ℕ)
          → a ≢ e.symbol random_val
          → (entered global_randvar e (with_value e v m)).word a
            ≡ (entered global_randvar e m).word a)
      × ((t : ℕ) × (c : Machine) × (c' : Machine) × (run e (epilogue global_randvar) m ≡ jump t c)
          × (run e (epilogue global_randvar) (with_value e v m) ≡ jump t c'))
global_randvar-ignores_value e m v ne ne' =
    let read = m.word (add64 (neg def_ss_offset) m.rsp_) in
    (
      ground arith,
      λ a h. ground arith,
      (
        sub64 read (e.symbol random_val),
        exited (run e (epilogue global_randvar) m) m,
        exited (run e (epilogue global_randvar) (with_value e v m)) m,
        refl,
        ground arith,
      ),
    )

-- Behind the three pushes of a guarded call.
abbrev pub saved : Env → Machine → Machine
saved e m = landed (run e (pushq rdi ∷ pushq rsi ∷ pushq rdx ∷ []) m) m

abbrev pub slot : Machine → ℕ → ℕ
slot m k = m.rsp_ - 8 * k

-- The called function returns with the stack pointer where it was, and has not written the three
-- words above it.
pub record CallReturns (e : Env) (f : Bytes) (m : Machine) : Type 0 where
  pub room : 24 ≤ m.rsp_
  pub rsp_word : m.rsp_ < word_mod
  pub rsp_back : (e.call_plt f (saved e m)).rsp_ ≡ (saved e m).rsp_
  pub first : (e.call_plt f (saved e m)).word (slot m 1) ≡ (saved e m).word (slot m 1)
  pub second : (e.call_plt f (saved e m)).word (slot m 2) ≡ (saved e m).word (slot m 2)
  pub third : (e.call_plt f (saved e m)).word (slot m 3) ≡ (saved e m).word (slot m 3)

-- If the function that is called in place of the prologue of malloc and the like returns with the
-- stack pointer where it was, and has not written the three words that were pushed, the three
-- argument registers and the stack pointer are as they were before, whatever else it changed.
pub guarded_call-restores :
    (e : Env) (f : Bytes) (m : Machine)
    → CallReturns e f m
    → (c : Machine) × (run e (guarded_call f) m ≡ next c)
      × (c.rsp_ ≡ m.rsp_)
      × (c.rdi_ ≡ m.rdi_)
      × (c.rsi_ ≡ m.rsi_)
      × (c.rdx_ ≡ m.rdx_)
guarded_call-restores e f m h = (
  landed (run e (guarded_call f) m) m,
  refl,
  ground (arith, h.rsp_back),
  ground (arith, h.rsp_back, h.first),
  ground (arith, h.rsp_back, h.second),
  ground (arith, h.rsp_back, h.third),
)
