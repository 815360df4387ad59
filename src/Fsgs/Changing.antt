-- ===== src/Fsgs/Changing.antt =====
-- A function of the scheme USE_SPA_FS_GS_TLS with SPA_ENABLE_GS_MSR, from its prologue to its
-- epilogue, while fsgs_runtime_rerandomize of FlashStack/fsgs.c is called by what it calls.
use mathlib.Core.Path.{subst}
use mathlib.Core.Option.{some-injective}
use flash_stack.Base.{ℕ, ◌+◌, ◌%◌, ◌≤◌, ◌<◌, ◌≡◌, inl, inr, refl, sym, ap, ◌∙◌, some, true, arith}
use flash_stack.Asm.{word_mod, sub64}
use flash_stack.Asm.Machine.{run}
use flash_stack.Runtime.{call_stack_size}
use flash_stack.Fsgs.{
  Os, Thread, fsgs_runtime_rerandomize, stack_field, r_field, call_stack_top_field, max_attempts,
}
use flash_stack.Fsgs.Promises.{Promises, Serves, Spacious}
use flash_stack.Fsgs.Whole.{Ready}
use flash_stack.Fsgs.Call.{slot_at}
use flash_stack.Fsgs.Decoded.{fsgs_runtime_rerandomize-Rerandomized}

-- A field of the metadata to which the gs register points.
abbrev pub field_of : ℕ → Thread → ℕ
field_of f z = z.memory.word (z.gs + f)

-- What happens between the two, for the return address at `a` of the call stack of a thread that
-- was prepared with the stack pointer `entry`: code that keeps the thread in order and spares the
-- slot, and calls that change the values and move.
pub data Changing (k : Os) (entry a : ℕ) (w : Thread) : Thread → Type 0 where
  begin : Changing k entry a w w
  body :
      {z t : Thread} (md base r : ℕ)
      → Changing k entry a w z
      → Ready md base (sub64 call_stack_size entry) r z
      → Ready md base (sub64 call_stack_size entry) r t
      → t.memory.word (slot_at md t a) ≡ z.memory.word (slot_at md z a)
      → Changing k entry a w t
  changed :
      {z t : Thread} (c c' fuel rsp : ℕ)
      → Changing k entry a w z
      → Spacious c c' z.memory.readable
      → max_attempts + 2 ≤ fuel
      → field_of stack_field z % 32 ≡ 0
      → rsp ≤ a
      → entry ≤ field_of call_stack_top_field z
      → field_of call_stack_top_field z < word_mod
      → field_of call_stack_top_field z ≤ rsp + call_stack_size
      → fsgs_runtime_rerandomize k fuel true rsp z ≡ some (tt, t)
      → Changing k entry a w t

-- In order, somewhere, with some random value, and the same address in the slot.
pub record Decodes (md base r entry a v : ℕ) (t : Thread) : Type 0 where
  pub ready : Ready md base (sub64 call_stack_size entry) r t
  pub r_word : r < word_mod
  pub address_is : sub64 (t.memory.word (slot_at md t a)) r ≡ v

body-Decodes :
    (md base r md' base' r' entry a v : ℕ) (z t : Thread)
    → Decodes md base r entry a v z
    → Ready md' base' (sub64 call_stack_size entry) r' z
    → Ready md' base' (sub64 call_stack_size entry) r' t
    → t.memory.word (slot_at md' t a) ≡ z.memory.word (slot_at md' z a)
    → Decodes md' base' r' entry a v t
body-Decodes md base r md' base' r' entry a v z t h p q e =
    let same_md : md' ≡ md = sym p.gs_is ∙ h.ready.gs_is in
    let same_r : r' ≡ r =
      sym p.says.r_is ∙ ap (λ x. z.memory.word (x + r_field)) same_md ∙ h.ready.says.r_is in
    record {
      ready = q;
      r_word = subst (λ x. x < word_mod) (sym same_r) h.r_word;
      address_is =
          ap (λ x. sub64 x r') e
          ∙ ap (λ x. sub64 (z.memory.word (slot_at md' z a)) x) same_r
          ∙ ap (λ x. sub64 (z.memory.word (slot_at x z a)) r) same_md
          ∙ h.address_is;
    }

changed-Decodes :
    (k : Os) (c c' fuel rsp md base r entry a v : ℕ) (z t : Thread)
    → Promises k
    → Serves k
    → entry % 8 ≡ 0
    → a < entry
    → a % 8 ≡ 0
    → Spacious c c' z.memory.readable
    → max_attempts + 2 ≤ fuel
    → field_of stack_field z % 32 ≡ 0
    → rsp ≤ a
    → entry ≤ field_of call_stack_top_field z
    → field_of call_stack_top_field z < word_mod
    → field_of call_stack_top_field z ≤ rsp + call_stack_size
    → fsgs_runtime_rerandomize k fuel true rsp z ≡ some (tt, t)
    → Decodes md base r entry a v z
    → (md' : ℕ) × (base' : ℕ) × (r' : ℕ) × Decodes md' base' r' entry a v t
changed-Decodes k c c' fuel rsp md base r entry a v z t promises serves e l m room enough eb le lt
      word deep ran h =
    let at_md = ap (λ x. z.memory.word (x + call_stack_top_field)) (sym h.ready.gs_is) in
    let aligned : base % 32 ≡ 0 =
      ap (λ x. x % 32)
        (sym h.ready.says.stack_is ∙ ap (λ x. z.memory.word (x + stack_field)) (sym h.ready.gs_is))
      ∙ eb in
    let (md', base', r', u, run, grown, s) =
      fsgs_runtime_rerandomize-Rerandomized k c c' fuel rsp md base entry r
        (field_of call_stack_top_field z) z promises serves room enough h.ready h.r_word aligned e
        at_md lt (omega (arith, le, l, lt)) word deep in
    let same : u ≡ t = ap (λ o. o.1) (some-injective (tt, u) (tt, t) (sym run ∙ ran)) in
    let word' : r' < word_mod = elim grown [
      | inl x ↦ subst (λ y. y < word_mod) (sym x) h.r_word
      | inr x ↦ omega (arith, x)
    ] in
    (
      md',
      base',
      r',
      subst (Decodes md' base' r' entry a v) same (record {
        ready = s.ready;
        r_word = word';
        address_is = s.decoded a le l m ∙ h.address_is;
      }),
    )

pub changing-Decodes :
    (k : Os) (md base r entry a : ℕ) (w t : Thread)
    → Promises k
    → Serves k
    → entry % 8 ≡ 0
    → a < entry
    → a % 8 ≡ 0
    → r < word_mod
    → Ready md base (sub64 call_stack_size entry) r w
    → Changing k entry a w t
    → (md' : ℕ) × (base' : ℕ) × (r' : ℕ) × Decodes md' base' r' entry a
        (sub64 (w.memory.word (slot_at md w a)) r)
        t
changing-Decodes k md base r entry a w t promises serves e l m rw' h begin =
    (md, base, r, record { ready = h; r_word = rw'; address_is = refl })
changing-Decodes k md base r entry a w t promises serves e l m rw' h
      (body {z} md' base' r' d p q s) =
    let (md1, base1, r1, i) =
      changing-Decodes k md base r entry a w z promises serves e l m rw' h d in
    (md', base', r', body-Decodes md1 base1 r1 md' base' r' entry a _ z t i p q s)
changing-Decodes k md base r entry a w t promises serves e l m rw' h
      (changed {z} c c' fuel rsp d room enough eb le lt word deep ran) =
    let (md1, base1, r1, i) =
      changing-Decodes k md base r entry a w z promises serves e l m rw' h d in
    changed-Decodes k c c' fuel rsp md1 base1 r1 entry a _ z t promises serves e l m room enough eb
      le lt word deep ran i
