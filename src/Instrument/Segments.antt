-- ===== src/Instrument/Segments.antt =====
-- What add_instrumentation of FlashStack/afl-as.c prints for one line: the line as it stands, with
-- comments and code around it, or the code that stands for it.
use flash_stack.Base.{
  ℕ, ◌≡◌, ◌⊎◌, refl, Bool, not, ◌&&◌, true, false, ◌||◌, List, [], ◌∷◌, ◌++◌, map, ap, ◌∙◌, Bytes,
  Bool-cases, inl, inr, starts_with, drop,
}
use mathlib.Core.List.{append_assoc}
use flash_stack.Instrument.Pass.{step}
use flash_stack.Asm.{Out, Instr, copy, mark, ins, counts}
use flash_stack.Asm.Machine.{code_of}
use flash_stack.Scheme.{
  Scheme, shadow_stack, shadow_stack_via_reg, buddy_stack_tls, gs_rsp, shadesmar_gs, fs_gs_tls,
  buddy_tls_stk_size, global_randvar, Class, prologue, epilogue, function_entry, function_exit,
  entry_special,
}
use flash_stack.Scheme.Calls.{direct_call, indirect_call}
use flash_stack.Instrument.{
  Options, State, on_gs, stays_plain, cfi_startproc, fix_write_mask, is_ret, is_direct_call,
  is_indirect_call, answers_yes, strip_comment,
}

-- The input lines among what is printed.
abbrev pub copies : List Out → List Bytes
copies [] = []
copies (copy line ∷ os) = line ∷ copies os
copies (mark _ ∷ os) = copies os
copies (ins _ ∷ os) = copies os
copies (counts _ _ _ ∷ os) = copies os

-- Comments only.
pub record IsQuiet (os : List Out) : Type 0 where
  pub no_line : copies os ≡ []
  pub no_code : code_of os ≡ []

-- The code of an entry: the prologue, or what a function of a special class has in its place.
abbrev pub entry_code : Scheme → Class → List Instr
entry_code gs_rsp c = entry_special true c gs_rsp
entry_code (fs_gs_tls msr) c = entry_special true c (fs_gs_tls msr)
entry_code shadesmar_gs c = entry_special false c shadesmar_gs
entry_code s c = prologue s

-- Functions that go on with their `ret`.
abbrev pub keeps_ret : Scheme → Class → Bool
keeps_ret gs_rsp c = c.customized || c.no_instr || c.on_stack_handler
keeps_ret (fs_gs_tls msr) c = c.customized || c.no_instr || c.on_stack_handler
keeps_ret shadesmar_gs c = true
keeps_ret s c = false

-- Whether a `ret`, or a call, is looked at in this state.
abbrev pub exits_open : Options → State → Bool
exits_open o s = not o.pass_thru && not s.skip_intel && not s.skip_app && o.use_64bit && s.start2end

abbrev pub calls_open : Options → State → Bool
calls_open o s =
    o.calls_instrumented
    && on_gs o.scheme
    && not o.pass_thru
    && not s.skip_intel
    && not s.skip_app
    && not s.skip_csect
    && s.instr_ok
    && o.use_64bit
    && s.start2end
    && o.with_64_bit_cmd_option

abbrev pub wants_entry : Options → Bytes → Bool
wants_entry o line = starts_with line cfi_startproc && (not o.pass_thru && o.use_64bit)

abbrev pub wants_indirect : Bool → Bytes → Bool
wants_indirect calls line = calls && is_indirect_call line

abbrev pub wants_direct : Options → Bool → Bytes → Bool
wants_direct o calls line =
    calls
    && not (is_indirect_call line)
    && is_direct_call line
    && (not (stays_plain o line) && answers_yes o (drop 7 line))

-- No code is wanted at the line.
pub record Untouched (o : Options) (exits calls : Bool) (c : Class) (line : Bytes) : Type 0 where
  pub no_entry : wants_entry o line ≡ false
  pub no_indirect : wants_indirect calls line ≡ false
  pub no_direct : wants_direct o calls line ≡ false
  pub no_exit : ((exits && is_ret line) ≡ false) ⊎ (keeps_ret o.scheme c ≡ true)

-- What is printed for one line, in a function of the class `c`.
pub data Segment (o : Options) (exits calls : Bool) (c : Class) (line : Bytes) (os : List Out)
    : Type 0 where
  -- the line, with comments before and behind it
  plain :
      (pre post : List Out)
      → IsQuiet pre
      → IsQuiet post
      → Untouched o exits calls c line
      → os ≡ pre ++ (copy line ∷ post)
      → Segment o exits calls c line os
  -- the line, and behind it the code of the entry, with comments
  entry :
      (pre post : List Out)
      → IsQuiet pre
      → wants_entry o line ≡ true
      → copies post ≡ []
      → code_of post ≡ entry_code o.scheme c
      → os ≡ pre ++ (copy line ∷ post)
      → Segment o exits calls c line os
  -- comments and the epilogue, in place of a `ret`
  exit :
      (exits && is_ret line) ≡ true
      → keeps_ret o.scheme c ≡ false
      → copies os ≡ []
      → code_of os ≡ epilogue o.scheme
      → Segment o exits calls c line os
  -- comments and the code of a call, in place of a call
  indirect :
      wants_indirect calls line ≡ true
      → copies os ≡ []
      → code_of os ≡ indirect_call o.scheme (drop 8 (strip_comment line))
      → Segment o exits calls c line os
  direct :
      wants_direct o calls line ≡ true
      → copies os ≡ []
      → code_of os ≡ direct_call o.scheme (strip_comment line)
      → Segment o exits calls c line os

-- One segment for each line, in order, from the state of the pass.
pub data Rewritten (o : Options) : State → List (Bytes × ℕ) → List Out → Type 0 where
  done : {s : State} → Rewritten o s [] []
  next :
      {s : State} {text : Bytes} {draw : ℕ} {os : List Out} {lines : List (Bytes × ℕ)}
      {rest : List Out}
      → Segment o (exits_open o s) (calls_open o s) s.class (fix_write_mask text) os
      → Rewritten o (step o draw text s).1 lines rest
      → Rewritten o s ((text, draw) ∷ lines) (os ++ rest)

pub copies-append : (os ps : List Out) → copies (os ++ ps) ≡ copies os ++ copies ps
copies-append [] ps = refl
copies-append (copy line ∷ os) ps = ap (◌∷◌ line) (copies-append os ps)
copies-append (mark _ ∷ os) ps = copies-append os ps
copies-append (ins _ ∷ os) ps = copies-append os ps
copies-append (counts _ _ _ ∷ os) ps = copies-append os ps

pub code_of-append : (os ps : List Out) → code_of (os ++ ps) ≡ code_of os ++ code_of ps
code_of-append [] ps = refl
code_of-append (ins i ∷ os) ps = ap (◌∷◌ i) (code_of-append os ps)
code_of-append (mark _ ∷ os) ps = code_of-append os ps
code_of-append (copy _ ∷ os) ps = code_of-append os ps
code_of-append (counts _ _ _ ∷ os) ps = code_of-append os ps

pub code_of-ins : (is : List Instr) → code_of (map ins is) ≡ is
code_of-ins [] = refl
code_of-ins (i ∷ is) = ap (◌∷◌ i) (code_of-ins is)

pub copies-ins : (is : List Instr) → copies (map ins is) ≡ []
copies-ins [] = refl
copies-ins (i ∷ is) = copies-ins is

pub append-IsQuiet : (os ps : List Out) → IsQuiet os → IsQuiet ps → IsQuiet (os ++ ps)
append-IsQuiet os ps h g = record {
  no_line = rw (copies-append os ps, h.no_line, g.no_line);
  no_code = rw (code_of-append os ps, h.no_code, g.no_code);
}

pub Segment-IsQuiet :
    (o : Options) (exits calls : Bool) (c : Class) (line : Bytes) (pre os : List Out)
    → IsQuiet pre
    → Segment o exits calls c line os
    → Segment o exits calls c line (pre ++ os)
Segment-IsQuiet o exits calls c line pre os q s =
    let a : copies (pre ++ os) ≡ copies os = rw (copies-append pre os, q.no_line) in
    let b : code_of (pre ++ os) ≡ code_of os = rw (code_of-append pre os, q.no_code) in
    let further : (here post : List Out)
        → os ≡ here ++ (copy line ∷ post)
        → pre ++ os ≡ (pre ++ here) ++ (copy line ∷ post) =
      λ here post e. ap (◌++◌ pre) e ∙ rw append_assoc in
    elim s [
      | plain here post h g u e ↦
          plain (pre ++ here) post (append-IsQuiet pre here q h) g u (further here post e)
      | entry here post h w e f g ↦
          entry (pre ++ here) post (append-IsQuiet pre here q h) w e f (further here post g)
      | exit h k e f ↦ exit h k (a ∙ e) (b ∙ f)
      | indirect h e f ↦ indirect h (a ∙ e) (b ∙ f)
      | direct h e f ↦ direct h (a ∙ e) (b ∙ f)
    ]

-- An entry is the line and its code behind it.
abbrev pub EntryIs : Scheme → Class → Bytes → Type 0
EntryIs s c line =
    (post : List Out) × (function_entry s c line ≡ copy line ∷ post)
    × (copies post ≡ [])
    × (code_of post ≡ entry_code s c)

special_entry :
    (s : Scheme) (line : Bytes) (is : List Instr)
    → (post : List Out) × (copy line ∷ map ins is ≡ copy line ∷ post)
      × (copies post ≡ [])
      × (code_of post ≡ is)
special_entry s line is = (map ins is, refl, copies-ins is, code_of-ins is)

pub function_entry-EntryIs : (s : Scheme) (c : Class) (line : Bytes) → EntryIs s c line
unfolding function_entry
function_entry-EntryIs shadow_stack c line = (_, refl, refl, refl)
function_entry-EntryIs shadow_stack_via_reg c line = (_, refl, refl, refl)
function_entry-EntryIs buddy_stack_tls c line = (_, refl, refl, refl)
function_entry-EntryIs gs_rsp c line = special_entry gs_rsp line (entry_special true c gs_rsp)
function_entry-EntryIs shadesmar_gs c line =
    special_entry shadesmar_gs line (entry_special false c shadesmar_gs)
function_entry-EntryIs (fs_gs_tls msr) c line =
    special_entry (fs_gs_tls msr) line (entry_special true c (fs_gs_tls msr))
function_entry-EntryIs (buddy_tls_stk_size non_pie) c line = (
  _,
  refl,
  copies-ins (prologue (buddy_tls_stk_size non_pie)),
  code_of-ins (prologue (buddy_tls_stk_size non_pie)),
)
function_entry-EntryIs global_randvar c line = (_, refl, refl, refl)

-- An exit is the line itself, or has no line.
abbrev pub ExitIs : Scheme → Class → Bytes → Type 0
ExitIs s c line =
    ((keeps_ret s c ≡ true) × (function_exit s c line ≡ copy line ∷ []))
    ⊎ ((keeps_ret s c ≡ false)
        × (copies (function_exit s c line) ≡ [])
        × (code_of (function_exit s c line) ≡ epilogue s))

pub function_exit-ExitIs : (s : Scheme) (c : Class) (line : Bytes) → ExitIs s c line
unfolding function_exit
function_exit-ExitIs shadow_stack c line = inr (refl, refl, refl)
function_exit-ExitIs shadow_stack_via_reg c line = inr (refl, refl, refl)
function_exit-ExitIs buddy_stack_tls c line = inr (refl, refl, refl)
function_exit-ExitIs gs_rsp c line =
    elim (Bool-cases (c.customized || c.no_instr || c.on_stack_handler)) [
      | inl h ↦ inl (h, rw h)
      | inr h ↦ inr (h, rw h, rw h)
    ]
function_exit-ExitIs shadesmar_gs c line = inl (refl, refl)
function_exit-ExitIs (fs_gs_tls msr) c line =
    elim (Bool-cases (c.customized || c.no_instr || c.on_stack_handler)) [
      | inl h ↦ inl (h, rw h)
      | inr h ↦ inr (
        h,
        rw h (copies-ins (epilogue (fs_gs_tls msr))),
        rw h (code_of-ins (epilogue (fs_gs_tls msr))),
      )
    ]
function_exit-ExitIs (buddy_tls_stk_size non_pie) c line = inr (
  refl,
  copies-ins (epilogue (buddy_tls_stk_size non_pie)),
  code_of-ins (epilogue (buddy_tls_stk_size non_pie)),
)
function_exit-ExitIs global_randvar c line = inr (refl, refl, refl)
