-- ===== src/Fsgs/Returned.antt =====
-- A function of the scheme USE_SPA_FS_GS_TLS with SPA_ENABLE_GS_MSR of FlashStack/afl-as.c, from its
-- prologue to its epilogue, with the library of FlashStack/fsgs.c below it.
use mathlib.Core.Path.{subst}
use flash_stack.Base.{ℕ, ◌+◌, ◌*◌, ◌%◌, ◌≤◌, ◌<◌, ◌≡◌, ◌≢◌, refl, sym, ap, ◌∙◌, true, arith}
use flash_stack.Asm.{word_mod, add64, sub64}
use flash_stack.Asm.Machine.{Machine, Env, jump, run, update, update-same, update-apart}
use flash_stack.Runtime.{call_stack_size}
use flash_stack.Scheme.{fs_gs_tls, offset_diff, offset_r, epilogue}
use flash_stack.Scheme.Return.{AtEntry, entered, exited}
use flash_stack.Fsgs.{Os, Thread, stack_size, gs_diff_field, r_field}
use flash_stack.Fsgs.Promises.{Promises, Serves}
use flash_stack.Fsgs.Whole.{Ready}
use flash_stack.Fsgs.Call.{slot_at, slot_in_stack}
use flash_stack.Fsgs.During.{slot_lem}
use flash_stack.Fsgs.Changing.{Changing, Decodes, changing-Decodes}

-- Where the epilogue goes.
epilogue_target_msr :
    (e : Env) (b : Machine) (cell r_cell slot : ℕ)
    → add64 b.gs_base offset_diff ≡ cell
    → add64 b.gs_base offset_r ≡ r_cell
    → add64 0 (add64 b.rsp_ (b.word cell * 1)) ≡ slot
    → (c : Machine) × (run e (epilogue (fs_gs_tls true)) b
        ≡ jump (sub64 (b.word slot) (b.word r_cell)) c)
      × (c.rsp_ ≡ add64 b.rsp_ 8)
epilogue_target_msr e b cell r_cell slot ec er es =
    (exited (run e (epilogue (fs_gs_tls true)) b) b, rw (sym es, sym ec, sym er), ground arith)

entered_words_msr :
    (e : Env) (m : Machine) (cell r_cell slot a : ℕ)
    → m.rsp_ < word_mod
    → add64 m.gs_base offset_diff ≡ cell
    → add64 m.gs_base offset_r ≡ r_cell
    → add64 0 (add64 m.rsp_ (m.word cell * 1)) ≡ slot
    → (entered (fs_gs_tls true) e m).word a
      ≡ update m.word slot (add64 (m.word m.rsp_) (m.word r_cell)) a
entered_words_msr e m cell r_cell slot a h ec er es =
    let top : add64 0 m.rsp_ ≡ m.rsp_ = omega (arith, h) in
    rw (ec, er, es) (ap (λ x. update m.word slot (add64 (m.word x) (m.word r_cell)) a) top)

-- What the prologue stores is the return address with the random value added.
entered_saves :
    (md base shift r : ℕ) (e : Env) (m : Machine) (w : Thread)
    → add64 m.rsp_ shift < stack_size
    → AtEntry (fs_gs_tls true) e m
    → m.gs_base ≡ md
    → Ready md base shift r w
    → ((a : ℕ) → w.memory.word a ≡ (entered (fs_gs_tls true) e m).word a)
    → (r < word_mod) × (w.memory.word (slot_at md w m.rsp_) ≡ add64 (m.word m.rsp_) r)
entered_saves md base shift r e m w fits at g h pw =
    let cell : add64 m.gs_base offset_diff ≡ md + gs_diff_field =
      ap (λ x. add64 x offset_diff) g ∙ omega (arith, h.place.md_user) in
    let r_cell : add64 m.gs_base offset_r ≡ md + r_field =
      ap (λ x. add64 x offset_r) g ∙ omega (arith, h.place.md_user) in
    let slot = add64 0 (add64 m.rsp_ (m.word (md + gs_diff_field) * 1)) in
    let saved = add64 (m.word m.rsp_) (m.word (md + r_field)) in
    let words : (a : ℕ) → w.memory.word a ≡ update m.word slot saved a = λ a.
      pw a
      ∙ entered_words_msr e m (md + gs_diff_field) (md + r_field) slot a at.rsp_word cell r_cell
          refl in
    let at_place = λ (x : ℕ). add64 0 (add64 m.rsp_ (m.word x * 1)) in
    let apart : slot ≢ md + gs_diff_field = subst (λ x. at_place x ≢ x) cell at.apart.0 in
    let apart_r : slot ≢ md + r_field =
      subst (λ x. at_place x ≢ md + r_field) cell
        (subst (λ x. at_place (add64 m.gs_base offset_diff) ≢ x) r_cell at.apart.1.0) in
    let diff =
      sym (update-apart m.word slot (md + gs_diff_field) saved apart)
      ∙ sym (words (md + gs_diff_field))
      ∙ h.says.diff_is in
    let value : m.word (md + r_field) ≡ r =
      sym (update-apart m.word slot (md + r_field) saved apart_r)
      ∙ sym (words (md + r_field))
      ∙ h.says.r_is in
    let at_slot = slot_lem base shift m.rsp_ _ h.place.base_user fits diff in
    (
      subst (λ x. x < word_mod) value (at.words (md + r_field)),
      ap w.memory.word (slot_in_stack md base shift r m.rsp_ w h fits ∙ sym at_slot)
          ∙ words slot
          ∙ update-same m.word slot saved
          ∙ ap (add64 (m.word m.rsp_)) value,
    )

-- The epilogue goes to the address that the slot decodes to.
epilogue-Decodes :
    (md base r entry a v : ℕ) (e : Env) (b : Machine) (t : Thread)
    → add64 a (sub64 call_stack_size entry) < stack_size
    → Decodes md base r entry a v t
    → b.rsp_ ≡ a
    → b.gs_base ≡ t.gs
    → ((c : ℕ) → b.word c ≡ t.memory.word c)
    → (c : Machine) × (run e (epilogue (fs_gs_tls true)) b ≡ jump v c) × (c.rsp_ ≡ add64 a 8)
epilogue-Decodes md base r entry a v e b t fits s er eg bw =
    let shift = sub64 call_stack_size entry in
    let gs = eg ∙ s.ready.gs_is in
    let cell : add64 b.gs_base offset_diff ≡ md + gs_diff_field =
      ap (λ x. add64 x offset_diff) gs ∙ omega (arith, s.ready.place.md_user) in
    let r_cell : add64 b.gs_base offset_r ≡ md + r_field =
      ap (λ x. add64 x offset_r) gs ∙ omega (arith, s.ready.place.md_user) in
    let diff = bw (md + gs_diff_field) ∙ s.ready.says.diff_is in
    let slot : add64 0 (add64 b.rsp_ (b.word (md + gs_diff_field) * 1)) ≡ slot_at md t a =
      ap (λ x. add64 0 (add64 x (b.word (md + gs_diff_field) * 1))) er
      ∙ slot_lem base shift a _ s.ready.place.base_user fits diff
      ∙ sym (slot_in_stack md base shift r a t s.ready fits) in
    let (c, goes, up) =
      epilogue_target_msr e b (md + gs_diff_field) (md + r_field) (slot_at md t a) cell r_cell
        slot in
    let found : sub64 (b.word (slot_at md t a)) (b.word (md + r_field)) ≡ v =
      ap (sub64 (b.word (slot_at md t a))) (bw (md + r_field) ∙ s.ready.says.r_is)
      ∙ ap (λ x. sub64 x r) (bw (slot_at md t a))
      ∙ s.address_is in
    (c, goes ∙ ap (λ x. jump x c) found, up ∙ ap (λ x. add64 x 8) er)

-- On a system that keeps its promises and moves shadow stacks: a function of the scheme
-- USE_SPA_FS_GS_TLS, with SPA_ENABLE_GS_MSR, is entered by a thread that was prepared with the
-- stack pointer `entry`, a multiple of 8, with its own stack pointer, a multiple of 8, below it and
-- not the size of the call stack below. The thread is in order behind the prologue. Then its body
-- spares the slot of the return address, and whatever number of changes of the values and of moves
-- happen in functions below it, each with room for two shadow stacks, a shadow stack at a multiple
-- of 32, and a call_stack_top that is a word, not below `entry`, and at most the size of the call
-- stack above the stack pointer. With the stack pointer back, its epilogue jumps to the address
-- that lay on top of the call stack at the entry and pops it.
pub epilogue-changed :
    (k : Os) (md base r entry : ℕ) (e : Env) (m b : Machine) (w t : Thread)
    → Promises k
    → Serves k
    → entry % 8 ≡ 0
    → m.rsp_ < entry
    → m.rsp_ % 8 ≡ 0
    → entry ≤ m.rsp_ + call_stack_size
    → entry < word_mod
    → AtEntry (fs_gs_tls true) e m
    → m.gs_base ≡ md
    → Ready md base (sub64 call_stack_size entry) r w
    → ((a : ℕ) → w.memory.word a ≡ (entered (fs_gs_tls true) e m).word a)
    → Changing k entry m.rsp_ w t
    → b.rsp_ ≡ (entered (fs_gs_tls true) e m).rsp_
    → b.gs_base ≡ t.gs
    → ((a : ℕ) → b.word a ≡ t.memory.word a)
    → (c : Machine) × (run e (epilogue (fs_gs_tls true)) b ≡ jump (m.word m.rsp_) c)
      × (c.rsp_ ≡ add64 m.rsp_ 8)
epilogue-changed k md base r entry e m b w t promises serves e8 lt m8 near word at g h pw during er
      eg bw =
    let fits : add64 m.rsp_ (sub64 call_stack_size entry) < stack_size =
      omega (arith, lt, near, word) in
    let (r_word, stored) =
      entered_saves md base (sub64 call_stack_size entry) r e m w fits at g h pw in
    let (md', base', r', s) =
      changing-Decodes k md base r entry m.rsp_ w t promises serves e8 lt m8 r_word h during in
    let address : sub64 (w.memory.word (slot_at md w m.rsp_)) r ≡ m.word m.rsp_ =
      ap (λ x. sub64 x r) stored ∙ omega (arith, r_word, at.words m.rsp_) in
    let found = subst (λ v. Decodes md' base' r' entry m.rsp_ v t) address s in
    epilogue-Decodes md' base' r' entry m.rsp_ (m.word m.rsp_) e b t fits found er eg bw
