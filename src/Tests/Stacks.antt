-- ===== src/Tests/Stacks.antt =====
-- A function of the instrumented program, called with one word on the call stack.
use flash_stack.Base.{
  ℕ, ◌%◌, ◌+◌, ◌≡◌, ◌≢◌, refl, inl, true, false, arith, ◌==◌, if◌then◌else◌, codes,
}
use flash_stack.Asm.{random_val, add64}
use flash_stack.Asm.Machine.{Machine, Env, next, jump, run, update}
use flash_stack.Scheme.{gs_rsp, global_randvar, epilogue, guarded_call}
use flash_stack.Scheme.Return.{entered, shadow_slot, Returns, epilogue-prologue}
use flash_stack.Scheme.Frame.{
  uses_rax, passed, entered_frame, global_randvar-ignores_value, with_value, guarded_call-restores,
}
use flash_stack.Scheme.Calls.{
  AtCall, CallsInto, plain_call, direct_call, indirect_call, is_protected, direct_call-entered,
  indirect_call-entered,
}

abbrev env : Env
env = record {
  symbol = λ s. 0x10000;
  label_at = λ n. 0x20000 + n % 16;
  function_at = λ f. 0x30000;
  value_of = λ text m. 0x30000;
  call_plt = λ f m. record m { rax_ = 7; rdi_ = 7; rsi_ = 7; rdx_ = 7 };
}

-- The return address is 0x1234, and the code at 0x30000 begins with the prologue of gs_rsp.
abbrev caller : Machine
caller = record {
  rax_ = 0;
  rdi_ = 1;
  rsi_ = 2;
  rdx_ = 3;
  rsp_ = 0x7000;
  r10_ = 0;
  r11_ = 0;
  gs_base = 0x800001000000;
  zero_flag = false;
  word = λ x.
      if x == 0x7000
      then 0x1234
      else if x == 0x30000
      then 0x0000ba49241c8b4c
      else if x == 0x800001000008
      then 0x1000000
      else 0;
}

-- The body overwrites the return address.
abbrev smashed : Machine
smashed =
    let m = entered gs_rsp env caller in record m { rax_ = 9; word = update m.word 0x7000 0x666 }

epilogue-prologue_example : Returns gs_rsp env caller smashed
epilogue-prologue_example =
    epilogue-prologue gs_rsp env caller smashed
      (record {
        instrumented = λ e. ground (arith, e);
        rsp_word = omega arith;
        words = λ a. ground arith;
        symbols = λ x. omega arith;
        apart = tt;
      })
      (record { rsp_same = refl; gs_same = refl; slot_same = refl; data_same = tt })

ready_to_call : AtCall gs_rsp env caller
ready_to_call = record {
  on_gs = inl refl;
  rsp_word = omega arith;
  gs_word = omega arith;
  labels = λ n. omega arith;
  push_spares_diff = omega arith;
  push_spares_r = omega arith;
  slot_apart = ground arith;
}

direct_call-entered_example :
    CallsInto env
      (direct_call gs_rsp (codes "f"))
      caller
      (add64 0x30000 19)
      (entered gs_rsp env (plain_call caller (env.label_at 1)))
      caller.rax_
direct_call-entered_example = direct_call-entered env caller gs_rsp (codes "f") ready_to_call

indirect_call-entered_example :
    (is_protected gs_rsp caller 0x30000 ≡ true
      → CallsInto env
          (indirect_call gs_rsp (codes "%rbx"))
          caller
          (add64 0x30000 19)
          (entered gs_rsp env (plain_call caller (env.label_at 2)))
          (add64 0x30000 19))
    × (is_protected gs_rsp caller 0x30000 ≡ false
        → CallsInto env
            (indirect_call gs_rsp (codes "%rbx"))
            caller
            0x30000
            (plain_call caller (env.label_at 2))
            0x30000)
indirect_call-entered_example = indirect_call-entered env caller gs_rsp (codes "%rbx") ready_to_call

at_target : is_protected gs_rsp caller 0x30000 ≡ true
at_target = refl

entered_frame_example :
    ((entered gs_rsp env caller).word 0x7000 ≡ 0x1234)
    × (passed (entered gs_rsp env caller) ≡ passed caller)
    × ((entered gs_rsp env caller).rax_ ≡ (
        if uses_rax gs_rsp
        then (entered gs_rsp env caller).word (shadow_slot gs_rsp env caller)
        else caller.rax_))
entered_frame_example =
    entered_frame gs_rsp env caller 0x7000 (omega arith) (omega arith) (ground arith)

global_randvar-ignores_value_example :
    ((entered global_randvar env (with_value env 77 caller)).rax_
      ≡ (entered global_randvar env caller).rax_)
    × ((a : ℕ)
        → a ≢ env.symbol random_val
        → (entered global_randvar env (with_value env 77 caller)).word a
          ≡ (entered global_randvar env caller).word a)
    × ((t : ℕ) × (c : Machine) × (c' : Machine) × (run env (epilogue global_randvar) caller
          ≡ jump t c)
        × (run env (epilogue global_randvar) (with_value env 77 caller) ≡ jump t c'))
global_randvar-ignores_value_example =
    global_randvar-ignores_value env caller 77 (ground arith) (ground arith)

guarded_call-restores_example :
    (c : Machine) × (run env (guarded_call (codes "init_main_shadow_stack")) caller ≡ next c)
    × (c.rsp_ ≡ 0x7000)
    × (c.rdi_ ≡ 1)
    × (c.rsi_ ≡ 2)
    × (c.rdx_ ≡ 3)
guarded_call-restores_example =
    guarded_call-restores env (codes "init_main_shadow_stack") caller (record {
      room = omega arith;
      rsp_word = omega arith;
      rsp_back = refl;
      first = refl;
      second = refl;
      third = refl;
    })
