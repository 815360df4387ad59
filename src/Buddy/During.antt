-- ===== src/Buddy/During.antt =====
-- A function of the scheme USE_SPA_BUDDY_STACK_TLS, from its prologue to its epilogue, while
-- au_edu_unsw_randomize of FlashStack/simd_rand.c is called by what it calls.
use Prim.Native.Nat.{bit_and}
use mathlib.Core.Path.{subst}
use mathlib.Core.Option.{some-injective}
use flash_stack.Base.{
  ℕ, ◌+◌, ◌-◌, ◌%◌, ◌≤◌, ◌<◌, ◌≡◌, ◌≢◌, inl, inr, refl, sym, ap, ◌∙◌, some, arith, Bool-cases, leb,
  bit_and_high23,
}
use flash_stack.Asm.{word_mod, neg, add64, sub64}
use flash_stack.Asm.Machine.{Machine, Env, jump, run, update, update-same, update-apart}
use flash_stack.Scheme.{buddy_stack_tls, def_ss_offset, def_local_storage_size, epilogue}
use flash_stack.Scheme.Return.{AtEntry, entered, exited}
use flash_stack.Buddy.{Process, Kernel, page_size, random_val_field}
use flash_stack.Buddy.Promises.{Promises}
use flash_stack.Buddy.Randomize.{au_edu_unsw_randomize}
use flash_stack.Buddy.Layout.{Pair, Buddies, lower_info, upper_info}
use flash_stack.Buddy.Survive.{Randomized, au_edu_unsw_randomize_lem}

-- What happens between the two, for the return address in `slot` of the call stack: code that
-- keeps the records in order and spares the word that the shadow stack has for the slot, and
-- randomizations by functions with a smaller stack pointer.
pub data During (k : Kernel) (top slot r : ℕ) (p : Process) : ℕ → Process → Type 0 where
  entry : During k top slot r p r p
  body :
      {r' : ℕ} {q t : Process}
      → During k top slot r p r' q
      → Buddies k top r' t
      → t.memory.word (slot - def_ss_offset) ≡ q.memory.word (slot - def_ss_offset)
      → During k top slot r p r' t
  randomized :
      {r' : ℕ} {q t : Process} (info other cycles x rsp : ℕ)
      → During k top slot r p r' q
      → Pair top info other
      → top + page_size ≤ rsp + def_ss_offset
      → rsp ≤ slot
      → rsp % 8 ≡ 0
      → au_edu_unsw_randomize k info cycles x rsp q ≡ some (tt, t)
      → During k top slot r p (add64 r' x) t

-- In order, with the same return address in the slot.
abbrev pub Keeps : Kernel → ℕ → ℕ → ℕ → Process → ℕ → Process → Type 0
Keeps k top slot r p r' t =
    Buddies k top r' t
    × (sub64 (t.memory.word (slot - def_ss_offset)) r'
        ≡ sub64 (p.memory.word (slot - def_ss_offset)) r)

randomized-Keeps :
    (k : Kernel) (top slot r r' info other cycles x rsp : ℕ) (p q t : Process)
    → Promises k
    → slot < top
    → slot % 8 ≡ 0
    → Pair top info other
    → top + page_size ≤ rsp + def_ss_offset
    → rsp ≤ slot
    → rsp % 8 ≡ 0
    → au_edu_unsw_randomize k info cycles x rsp q ≡ some (tt, t)
    → Keeps k top slot r p r' q
    → Keeps k top slot r p (add64 r' x) t
randomized-Keeps k top slot r r' info other cycles x rsp p q t promises hi e8 pair lo le r8 run
      (h, e) =
    let (u, run', z') =
      au_edu_unsw_randomize_lem k top r' info other cycles x rsp q promises h pair lo
        (omega (arith, le, hi)) r8 in
    let same : u ≡ t = ap (λ o. o.1) (some-injective (tt, u) (tt, t) (sym run' ∙ run)) in
    let z = subst (Randomized k top r' info other x rsp q) same z' in
    (z.in_order, z.decoded slot le hi e8 ∙ e)

-- On a kernel that lets protections be changed, with the records in order at the beginning and a
-- slot of the call stack, whatever number of randomizations happen in between: the records are in
-- order, and the word that the shadow stack has for the slot, less the random value of the time,
-- is what it was at the beginning.
pub during-Keeps :
    (k : Kernel) (top slot r : ℕ) (p : Process) (r' : ℕ) (t : Process)
    → Promises k
    → Buddies k top r p
    → slot < top
    → slot % 8 ≡ 0
    → During k top slot r p r' t
    → Keeps k top slot r p r' t
during-Keeps k top slot r p r' t promises h hi e8 entry = (h, refl)
during-Keeps k top slot r p r' t promises h hi e8 (body {q} d z w) =
    let (_, e) = during-Keeps k top slot r p r' q promises h hi e8 d in
    (z, ap (λ v. sub64 v r') w ∙ e)
during-Keeps k top slot r p _ t promises h hi e8
      (randomized {r'} {q} info other cycles x rsp d pair lo le r8 ran) =
    randomized-Keeps k top slot r r' info other cycles x rsp p q t promises hi e8 pair lo le r8 ran
      (during-Keeps k top slot r p r' q promises h hi e8 d)

-- Where the epilogue goes.
epilogue_target :
    (e : Env) (b : Machine) (slot cell : ℕ)
    → add64 (neg def_ss_offset) b.rsp_ ≡ slot
    → add64 (neg def_local_storage_size) (bit_and b.rsp_ (neg def_ss_offset)) ≡ cell
    → (c : Machine) × (run e (epilogue buddy_stack_tls) b
        ≡ jump (sub64 (b.word slot) (b.word cell)) c)
      × (c.rsp_ ≡ add64 b.rsp_ 8)
epilogue_target e b slot cell es ec =
    (exited (run e (epilogue buddy_stack_tls) b) b, rw (sym es, sym ec), ground arith)

-- The record that the prologue and the epilogue read.
abbrev cell_of : ℕ → ℕ
cell_of rsp = rsp - rsp % def_ss_offset - def_local_storage_size

cell-random :
    (k : Kernel) (top r rsp : ℕ) (p : Process)
    → Buddies k top r p
    → rsp < top
    → top ≤ rsp + def_ss_offset
    → p.memory.word (cell_of rsp) ≡ r
cell-random k top r rsp p h hi lo =
    let s = h.stack in
    let l = h.lower.random_is in
    let u = h.upper.random_is in
    elim (Bool-cases (leb (top - top % def_ss_offset) rsp)) [
      | inl c ↦
          let e : upper_info top + random_val_field ≡ cell_of rsp =
            ground (arith, c, s.top_room, hi, lo) in
          rw e at u
      | inr c ↦
          let e : lower_info top + random_val_field ≡ cell_of rsp =
            ground (arith, c, s.top_room, hi, lo) in
          rw e at l
    ]

-- What the prologue stores.
entered_words :
    (e : Env) (m : Machine) (slot cell a : ℕ)
    → m.rsp_ < word_mod
    → add64 (neg def_ss_offset) m.rsp_ ≡ slot
    → add64 (neg def_local_storage_size) (bit_and m.rsp_ (neg def_ss_offset)) ≡ cell
    → (entered buddy_stack_tls e m).word a
      ≡ update m.word slot (add64 (m.word cell) (m.word m.rsp_)) a
entered_words e m slot cell a h es ec =
    let top : add64 0 m.rsp_ ≡ m.rsp_ = omega (arith, h) in rw (es, ec, top)

-- The address that is stored, and read again.
stored-read :
    (w r v c v' : ℕ) → w < word_mod → r < word_mod → c ≡ r → v ≡ add64 c w → v' ≡ sub64 v r → v' ≡ w
stored-read w r v c v' hw hr ec ev e = omega (arith, hw, hr, ec, ev, e)

-- On a kernel that lets protections be changed: a function of the scheme USE_SPA_BUDDY_STACK_TLS
-- is entered with a stack pointer in the call stack above its guard page and a multiple of 8. The
-- records are in order behind its prologue. Then its body spares the word that the shadow stack
-- has for its return address, and whatever number of randomizations happen in functions below it.
-- With the stack pointer back, its epilogue jumps to the address that lay on top of the call
-- stack at the entry and pops that word.
pub epilogue-randomize :
    (k : Kernel) (top r r' : ℕ) (e : Env) (m b : Machine) (p t : Process)
    → Promises k
    → Buddies k top r p
    → m.rsp_ < top
    → top + page_size ≤ m.rsp_ + def_ss_offset
    → m.rsp_ % 8 ≡ 0
    → AtEntry buddy_stack_tls e m
    → ((a : ℕ) → p.memory.word a ≡ (entered buddy_stack_tls e m).word a)
    → During k top m.rsp_ r p r' t
    → b.rsp_ ≡ (entered buddy_stack_tls e m).rsp_
    → ((a : ℕ) → b.word a ≡ t.memory.word a)
    → (c : Machine) × (run e (epilogue buddy_stack_tls) b ≡ jump (m.word m.rsp_) c)
      × (c.rsp_ ≡ add64 m.rsp_ 8)
epilogue-randomize k top r r' e m b p t promises h hi lo e8 at pw during er bw =
    let s = h.stack in
    let (h', same) = during-Keeps k top m.rsp_ r p r' t promises h hi e8 during in
    let z = bit_and_high23 m.rsp_ at.rsp_word in
    let slot : add64 (neg def_ss_offset) m.rsp_ ≡ m.rsp_ - def_ss_offset =
      omega (arith, hi, lo, s.top_room, s.top_user) in
    let cell : add64 (neg def_local_storage_size) (bit_and m.rsp_ (neg def_ss_offset))
        ≡ cell_of m.rsp_ =
      omega (arith, z, hi, lo, s.top_room, s.top_user) in
    let (c, goes, up) =
      epilogue_target e b (m.rsp_ - def_ss_offset) (cell_of m.rsp_) (rw er slot) (rw er cell) in
    let from = m.rsp_ - def_ss_offset in
    let to = cell_of m.rsp_ in
    let written = entered_words e m from to from at.rsp_word slot cell in
    let spared = entered_words e m from to to at.rsp_word slot cell in
    let stored = pw from ∙ written ∙ update-same m.word from _ in
    let apart : from ≢ to = omega (arith, hi, lo, s.top_room) in
    let random = sym (update-apart m.word from to _ apart) ∙ sym spared ∙ sym (pw to) in
    let old = cell-random k top r m.rsp_ p h hi (omega (arith, lo)) in
    let new = cell-random k top r' m.rsp_ t h' hi (omega (arith, lo)) in
    let read : sub64 (b.word from) (b.word to) ≡ sub64 (p.memory.word from) r =
      ap (λ v. sub64 v (b.word to)) (bw from)
      ∙ ap (sub64 (t.memory.word from)) (bw to ∙ new)
      ∙ same in
    let target =
      stored-read (m.word m.rsp_) r (p.memory.word from) (m.word to) _ (at.words m.rsp_)
        h.random_word (random ∙ old) stored read in
    (c, goes ∙ ap (λ v. jump v c) target, up ∙ ap (λ v. add64 v 8) er)
