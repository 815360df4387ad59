-- ===== src/Fsgs/During.antt =====
-- A function of the scheme USE_SPA_FS_GS_TLS, from its prologue to its epilogue, while
-- fsgs_runtime_rerandomize of FlashStack/fsgs.c is called by what it calls.
use mathlib.Core.Path.{subst}
use mathlib.Core.Option.{some-injective}
use flash_stack.Base.{ℕ, ◌+◌, ◌*◌, ◌^◌, ◌≤◌, ◌<◌, ◌≡◌, ◌≢◌, refl, sym, ap, ◌∙◌, some, false, arith}
use flash_stack.Asm.{word_mod, add64}
use flash_stack.Asm.Machine.{Machine, Env, jump, run, update, update-same, update-apart}
use flash_stack.Scheme.{fs_gs_tls, offset_diff, epilogue}
use flash_stack.Scheme.Return.{AtEntry, entered, exited}
use flash_stack.Fsgs.{
  Os, Thread, fsgs_runtime_rerandomize, stack_size, stack_field, gs_diff_field, max_attempts,
}
use flash_stack.Fsgs.Promises.{Promises, Serves, Spacious}
use flash_stack.Fsgs.Whole.{Ready, Survives}
use flash_stack.Fsgs.Call.{fsgs_runtime_rerandomize_lem}

-- What happens between the two, for the return address at `a` of the call stack: code that keeps
-- the thread in order and spares the slot that the shadow stack has for it, and moves.
pub data During (k : Os) (shift r a : ℕ) (w : Thread) : Thread → Type 0 where
  entry : During k shift r a w w
  body :
      {z t : Thread} (md base : ℕ)
      → During k shift r a w z
      → Ready md base shift r z
      → Ready md base shift r t
      → t.memory.word (base + add64 a shift) ≡ z.memory.word (base + add64 a shift)
      → During k shift r a w t
  moved :
      {z t : Thread} (c c' fuel rsp : ℕ)
      → During k shift r a w z
      → Spacious c c' z.memory.readable
      → max_attempts + 2 ≤ fuel
      → fsgs_runtime_rerandomize k fuel false rsp z ≡ some (tt, t)
      → During k shift r a w t

-- In order, somewhere, with the same word in the slot.
pub record Holds (md base shift r a v : ℕ) (t : Thread) : Type 0 where
  pub ready : Ready md base shift r t
  pub slot_is : t.memory.word (base + add64 a shift) ≡ v

moved-Holds :
    (k : Os) (c c' fuel rsp md base shift r a v : ℕ) (z t : Thread)
    → Promises k
    → Serves k
    → add64 a shift < stack_size
    → Spacious c c' z.memory.readable
    → max_attempts + 2 ≤ fuel
    → fsgs_runtime_rerandomize k fuel false rsp z ≡ some (tt, t)
    → Holds md base shift r a v z
    → (md' : ℕ) × (base' : ℕ) × Holds md' base' shift r a v t
moved-Holds k c c' fuel rsp md base shift r a v z t promises serves l room enough ran h =
    let (md', base', u, run, s, kept) =
      fsgs_runtime_rerandomize_lem k c c' fuel rsp md base shift r z promises serves room enough
        h.ready in
    let same : u ≡ t = ap (λ o. o.1) (some-injective (tt, u) (tt, t) (sym run ∙ ran)) in
    let s' = subst (Survives md base md' base' shift r z) same s in
    (
      md',
      base',
      record { ready = s'.ready; slot_is = s'.brought.stack_kept (add64 a shift) l ∙ h.slot_is },
    )

body-Holds :
    (md base md' base' shift r a v : ℕ) (z t : Thread)
    → Holds md base shift r a v z
    → Ready md' base' shift r z
    → Ready md' base' shift r t
    → t.memory.word (base' + add64 a shift) ≡ z.memory.word (base' + add64 a shift)
    → Holds md' base' shift r a v t
body-Holds md base md' base' shift r a v z t h p q e =
    let same_md : md' ≡ md = sym p.gs_is ∙ h.ready.gs_is in
    let same_base : base' ≡ base =
      sym p.says.stack_is
      ∙ ap (λ x. z.memory.word (x + stack_field)) same_md
      ∙ h.ready.says.stack_is in
    record {
      ready = q;
      slot_is = e ∙ ap (λ x. z.memory.word (x + add64 a shift)) same_base ∙ h.slot_is;
    }

pub during-Holds :
    (k : Os) (md base shift r a : ℕ) (w t : Thread)
    → Promises k
    → Serves k
    → add64 a shift < stack_size
    → Ready md base shift r w
    → During k shift r a w t
    → (md' : ℕ) × (base' : ℕ) × Holds md' base' shift r a (w.memory.word (base + add64 a shift)) t
during-Holds k md base shift r a w t promises serves l h entry =
    (md, base, record { ready = h; slot_is = refl })
during-Holds k md base shift r a w t promises serves l h (body {z} md' base' d p q e) =
    let (md1, base1, s) = during-Holds k md base shift r a w z promises serves l h d in
    (md', base', body-Holds md1 base1 md' base' shift r a _ z t s p q e)
during-Holds k md base shift r a w t promises serves l h
      (moved {z} c c' fuel rsp d room enough ran) =
    let (md1, base1, s) = during-Holds k md base shift r a w z promises serves l h d in
    moved-Holds k c c' fuel rsp md1 base1 shift r a _ z t promises serves l room enough ran s

-- Where the code of the function has the slot.
pub slot_lem :
    (base shift rsp d : ℕ)
    → base + stack_size ≤ 2 ^ 47
    → add64 rsp shift < stack_size
    → d ≡ add64 base shift
    → add64 0 (add64 rsp (d * 1)) ≡ base + add64 rsp shift
slot_lem base shift rsp d h l e = omega (arith, h, l, e)

-- Where the epilogue goes.
epilogue_target :
    (e : Env) (b : Machine) (cell slot : ℕ)
    → add64 b.gs_base offset_diff ≡ cell
    → add64 0 (add64 b.rsp_ (b.word cell * 1)) ≡ slot
    → (c : Machine) × (run e (epilogue (fs_gs_tls false)) b ≡ jump (b.word slot) c)
      × (c.rsp_ ≡ add64 b.rsp_ 8)
epilogue_target e b cell slot ec es =
    (exited (run e (epilogue (fs_gs_tls false)) b) b, rw (sym es, sym ec), ground arith)

entered_words :
    (e : Env) (m : Machine) (cell slot a : ℕ)
    → m.rsp_ < word_mod
    → add64 m.gs_base offset_diff ≡ cell
    → add64 0 (add64 m.rsp_ (m.word cell * 1)) ≡ slot
    → (entered (fs_gs_tls false) e m).word a ≡ update m.word slot (m.word m.rsp_) a
entered_words e m cell slot a h ec es =
    let top : add64 0 m.rsp_ ≡ m.rsp_ = omega (arith, h) in
    rw (ec, es) (ap (λ x. update m.word slot (m.word x) a) top)

-- On a system that keeps its promises and moves shadow stacks: a function of the scheme
-- USE_SPA_FS_GS_TLS, without SPA_ENABLE_GS_MSR, is entered by a thread whose slot for the return
-- address lies in its shadow stack. The thread is in order behind the prologue. Then its body
-- spares that slot, and whatever number of moves of the metadata and the shadow stack happen in
-- functions below it, each with room for two shadow stacks. With the stack pointer back, its
-- epilogue jumps to the address that lay on top of the call stack at the entry and pops it.
pub epilogue-moved :
    (k : Os) (md base shift r : ℕ) (e : Env) (m b : Machine) (w t : Thread)
    → Promises k
    → Serves k
    → add64 m.rsp_ shift < stack_size
    → AtEntry (fs_gs_tls false) e m
    → m.gs_base ≡ md
    → Ready md base shift r w
    → ((a : ℕ) → w.memory.word a ≡ (entered (fs_gs_tls false) e m).word a)
    → During k shift r m.rsp_ w t
    → b.rsp_ ≡ (entered (fs_gs_tls false) e m).rsp_
    → b.gs_base ≡ t.gs
    → ((a : ℕ) → b.word a ≡ t.memory.word a)
    → (c : Machine) × (run e (epilogue (fs_gs_tls false)) b ≡ jump (m.word m.rsp_) c)
      × (c.rsp_ ≡ add64 m.rsp_ 8)
epilogue-moved k md base shift r e m b w t promises serves l at g h pw during er eg bw =
    let (md', base', s) = during-Holds k md base shift r m.rsp_ w t promises serves l h during in
    let cell : add64 m.gs_base offset_diff ≡ md + gs_diff_field =
      ap (λ x. add64 x offset_diff) g ∙ omega (arith, h.place.md_user) in
    let slot = add64 0 (add64 m.rsp_ (m.word (md + gs_diff_field) * 1)) in
    let words =
      λ (a : ℕ). pw a ∙ entered_words e m (md + gs_diff_field) slot a at.rsp_word cell refl in
    let apart : slot ≢ md + gs_diff_field =
      subst (λ x. add64 0 (add64 m.rsp_ (m.word x * 1)) ≢ x) cell at.apart.0 in
    let diff =
      sym (update-apart m.word slot (md + gs_diff_field) (m.word m.rsp_) apart)
      ∙ sym (words (md + gs_diff_field))
      ∙ h.says.diff_is in
    let at_slot = slot_lem base shift m.rsp_ _ h.place.base_user l diff in
    let stored : w.memory.word (base + add64 m.rsp_ shift) ≡ m.word m.rsp_ =
      ap w.memory.word (sym at_slot) ∙ words slot ∙ update-same m.word slot (m.word m.rsp_) in
    let cell' : add64 b.gs_base offset_diff ≡ md' + gs_diff_field =
      ap (λ x. add64 x offset_diff) (eg ∙ s.ready.gs_is) ∙ omega (arith, s.ready.place.md_user) in
    let diff' = bw (md' + gs_diff_field) ∙ s.ready.says.diff_is in
    let slot' : add64 0 (add64 b.rsp_ (b.word (md' + gs_diff_field) * 1))
        ≡ base' + add64 m.rsp_ shift =
      ap (λ x. add64 0 (add64 x (b.word (md' + gs_diff_field) * 1))) er
      ∙ slot_lem base' shift m.rsp_ _ s.ready.place.base_user l diff' in
    let (c, goes, up) =
      epilogue_target e b (md' + gs_diff_field) (base' + add64 m.rsp_ shift) cell' slot' in
    (
      c,
      goes ∙ ap (λ v. jump v c) (bw (base' + add64 m.rsp_ shift) ∙ s.slot_is ∙ stored),
      up ∙ ap (λ v. add64 v 8) er,
    )
