-- ===== src/Scheme.antt =====
-- The code that add_instrumentation of FlashStack/afl-as.c prints at `.cfi_startproc` and in place
-- of `ret`, for each scheme that FlashStack/spa.h can select.
pub mod Return
pub mod Frame
pub mod Calls
use flash_stack.Base.{
  ℕ, Bool, true, false, ◌||◌, List, [], ◌∷◌, ◌++◌, map, if◌then◌else◌, Bytes, codes,
}
use flash_stack.Asm.{
  neg, rax, rdi, rsi, rdx, rsp, r10, r11, stack_size_mask, random_val, Operand, imm, reg, mem,
  mem_index, gs_index, gs_at, got, word_at, Instr, movq, addq, subq, andq, pushq, popq, callq_plt,
  jmpq_star, Out, copy, mark, ins,
}

-- The macros USE_SPA_SHADOW_STACK, USE_SPA_SHADOW_STACK_VIA_REG, USE_SPA_BUDDY_STACK_TLS,
-- USE_SPA_GS_RSP, USE_SHADESMAR_GS, USE_SPA_FS_GS_TLS (with SPA_ENABLE_GS_MSR or not),
-- USE_SPA_BUDDY_STACK_TLS_WITH_STK_SIZE (with NON_PIE_GLOBAL_VAR_FOR_STK_SIZE or not), and none.
pub data Scheme : Type 0 where
  shadow_stack shadow_stack_via_reg buddy_stack_tls gs_rsp shadesmar_gs : Scheme
  fs_gs_tls buddy_tls_stk_size : Bool → Scheme
  global_randvar : Scheme

-- What the label of a function says about it.
pub record Class : Type 0 where
  pub customized : Bool
  pub no_instr : Bool
  pub on_stack_handler : Bool

-- DEF_SPA_SS_OFFSET
abbrev pub def_ss_offset : ℕ
def_ss_offset = 0x800000

-- DEF_BUDDY_FUNCTION_LOCAL_STORAGE_SIZE
abbrev pub def_local_storage_size : ℕ
def_local_storage_size = 0x1000000

-- SPA_USER_SPACE_SIZE
abbrev pub user_space_size : ℕ
user_space_size = 0x800000000000

-- GET_GS_METADATA_FIELD_OFFSET of `diff` and of `R`
abbrev pub offset_diff : ℕ
offset_diff = 8

abbrev pub offset_r : ℕ
offset_r = 16

-- The call that takes the place of the prologue in functions that may run before the gs register
-- is set, or on another stack.
abbrev pub guarded_call : Bytes → List Instr
guarded_call f =
    pushq rdi
    ∷ pushq rsi
    ∷ pushq rdx
    ∷ callq_plt f
    ∷ popq (reg rdx)
    ∷ popq (reg rsi)
    ∷ popq (reg rdi)
    ∷ []

abbrev pub init_call : List Instr
init_call = guarded_call (codes "init_main_shadow_stack")

abbrev pub crash_call : List Instr
crash_call = guarded_call (codes "unsw_inc_asm_js_crash_cnt")

abbrev pub load_mask : Bool → List Instr
load_mask true = movq (word_at stack_size_mask) (reg r10) ∷ []
load_mask false = movq (got stack_size_mask) (reg r10) ∷ movq (mem 0 r10) (reg r10) ∷ []

-- The prologue of an ordinary function.
abbrev pub prologue : Scheme → List Instr
prologue shadow_stack = popq (mem (neg def_ss_offset) rsp) ∷ subq (imm 8) (reg rsp) ∷ []
prologue shadow_stack_via_reg =
    movq (mem 0 rsp) (reg rax) ∷ movq (reg rax) (mem (neg def_ss_offset) rsp) ∷ []
prologue buddy_stack_tls =
    movq (reg rsp) (reg r11)
    ∷ andq (imm (neg def_ss_offset)) (reg r11)
    ∷ movq (mem (neg def_local_storage_size) r11) (reg r11)
    ∷ addq (mem 0 rsp) (reg r11)
    ∷ movq (reg r11) (mem (neg def_ss_offset) rsp)
    ∷ []
prologue gs_rsp =
    movq (mem 0 rsp) (reg r11)
    ∷ movq (imm (neg user_space_size)) (reg r10)
    ∷ movq (reg r11) (gs_index 0 rsp r10 1)
    ∷ []
prologue shadesmar_gs = []
prologue (fs_gs_tls msr) =
    movq (mem 0 rsp) (reg r11)
    ∷ ((if msr then addq (gs_at offset_r) (reg r11) ∷ [] else [])
        ++ (movq (gs_at offset_diff) (reg r10) ∷ movq (reg r11) (mem_index 0 rsp r10 1) ∷ []))
prologue (buddy_tls_stk_size non_pie) =
    movq (reg rsp) (reg r11)
    ∷ (load_mask non_pie
        ++ (andq (reg r10) (reg r11)
            ∷ movq (mem_index 0 r11 r10 2) (reg r11)
            ∷ addq (mem 0 rsp) (reg r11)
            ∷ movq (reg r11) (mem_index 0 rsp r10 1)
            ∷ []))
prologue global_randvar =
    movq (got random_val) (reg rax)
    ∷ addq (mem 0 rsp) (reg rax)
    ∷ movq (reg rax) (mem (neg def_ss_offset) rsp)
    ∷ []

-- The code in place of `ret` in an ordinary function. Under USE_SHADESMAR_GS the line stays.
abbrev pub epilogue : Scheme → List Instr
epilogue shadow_stack =
    addq (imm 8) (reg rsp) ∷ movq (mem (neg def_ss_offset) rsp) (reg r11) ∷ jmpq_star (reg r11) ∷ []
epilogue shadow_stack_via_reg =
    movq (mem (neg def_ss_offset) rsp) (reg r11) ∷ addq (imm 8) (reg rsp) ∷ jmpq_star (reg r11) ∷ []
epilogue buddy_stack_tls =
    movq (reg rsp) (reg r10)
    ∷ andq (imm (neg def_ss_offset)) (reg r10)
    ∷ movq (mem (neg def_ss_offset) rsp) (reg r11)
    ∷ subq (mem (neg def_local_storage_size) r10) (reg r11)
    ∷ addq (imm 8) (reg rsp)
    ∷ jmpq_star (reg r11)
    ∷ []
epilogue gs_rsp =
    movq (imm (neg user_space_size)) (reg r10)
    ∷ addq (imm 8) (reg rsp)
    ∷ jmpq_star (gs_index (neg 8) rsp r10 1)
    ∷ []
epilogue shadesmar_gs = []
epilogue (fs_gs_tls msr) =
    movq (gs_at offset_diff) (reg r11)
    ∷ movq (mem_index 0 rsp r11 1) (reg r11)
    ∷ ((if msr then subq (gs_at offset_r) (reg r11) ∷ [] else [])
        ++ (addq (imm 8) (reg rsp) ∷ jmpq_star (reg r11) ∷ []))
epilogue (buddy_tls_stk_size non_pie) =
    movq (reg rsp) (reg r11)
    ∷ (load_mask non_pie
        ++ (andq (reg r10) (reg r11)
            ∷ movq (mem_index 0 r11 r10 2) (reg r11)
            ∷ movq (mem_index 0 rsp r10 1) (reg r10)
            ∷ subq (reg r11) (reg r10)
            ∷ addq (imm 8) (reg rsp)
            ∷ jmpq_star (reg r10)
            ∷ []))
epilogue global_randvar =
    movq (mem (neg def_ss_offset) rsp) (reg r11)
    ∷ subq (got random_val) (reg r11)
    ∷ addq (imm 8) (reg rsp)
    ∷ jmpq_star (reg r11)
    ∷ []

abbrev pub entry_mark : Scheme → List Out
entry_mark buddy_stack_tls = mark (codes "###SPA### FUNCTION_ENTRY\n") ∷ []
entry_mark (buddy_tls_stk_size _) = mark (codes "###SPA### FUNCTION_ENTRY\n") ∷ []
entry_mark _ = []

abbrev pub exit_mark : Scheme → List Out
exit_mark buddy_stack_tls = mark (codes "###SPA### FUNCTION_EXIT\n") ∷ []
exit_mark (buddy_tls_stk_size _) = mark (codes "###SPA### FUNCTION_EXIT\n") ∷ []
exit_mark _ = []

-- Which functions a scheme leaves without its prologue and epilogue.
abbrev pub entry_special : Bool → Class → Scheme → List Instr
entry_special handlers c s =
    if c.no_instr
    then []
    else if (if handlers then c.on_stack_handler else false)
    then crash_call
    else if c.customized
    then init_call
    else prologue s

-- What is printed at `.cfi_startproc` in a file that is instrumented.
unfoldable pub function_entry : Scheme → Class → Bytes → List Out
function_entry gs_rsp c line = copy line ∷ map ins (entry_special true c gs_rsp)
function_entry shadesmar_gs c line = copy line ∷ map ins (entry_special false c shadesmar_gs)
function_entry (fs_gs_tls msr) c line = copy line ∷ map ins (entry_special true c (fs_gs_tls msr))
function_entry s c line = copy line ∷ (entry_mark s ++ map ins (prologue s))

abbrev pub exit_special : Class → Scheme → Bytes → List Out
exit_special c s line =
    if c.customized || c.no_instr || c.on_stack_handler
    then copy line ∷ []
    else map ins (epilogue s)

-- What is printed for `ret` or `retq`.
unfoldable pub function_exit : Scheme → Class → Bytes → List Out
function_exit gs_rsp c line = exit_special c gs_rsp line
function_exit (fs_gs_tls msr) c line = exit_special c (fs_gs_tls msr) line
function_exit shadesmar_gs c line = copy line ∷ []
function_exit s c line = exit_mark s ++ map ins (epilogue s)
