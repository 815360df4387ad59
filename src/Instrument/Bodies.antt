-- ===== src/Instrument/Bodies.antt =====
-- The variables in_customized_func, in_no_instr_func and on_stack_handler of add_instrumentation
-- in FlashStack/afl-as.c, from the entry of a function to its `ret`.
use flash_stack.Base.{ℕ, ◌≡◌, Bool, false, List, [], ◌∷◌, Bytes, ◌⊎◌, starts_with}
use flash_stack.Asm.{Out, copy}
use flash_stack.Asm.Machine.{code_of}
use flash_stack.Scheme.{Scheme, Class, prologue, epilogue, init_call, crash_call}
use flash_stack.Instrument.{
  Options, State, Part, continue, fall, cfi_startproc, cfi_endproc, fix_write_mask,
}
use flash_stack.Instrument.Pass.{pass}
use flash_stack.Instrument.Region.{is_function_label}

-- Lines of the body of a function: no directive of another one, and no label but those that begin
-- with a dot. Comments and lines that begin with a tab may have colons.
abbrev pub InBody : List (Bytes × ℕ) → Type 0
InBody [] = Unit
InBody ((text, draw) ∷ lines) =
    (starts_with (fix_write_mask text) cfi_startproc ≡ false)
    × (starts_with (fix_write_mask text) cfi_endproc ≡ false)
    × (is_function_label (fix_write_mask text) ≡ false)
    × InBody lines

-- What a part prints.
abbrev pub printed : Part → List Out
printed (continue os s) = os
printed (fall s) = []

-- The entry and the exit of one function fit: prologue and epilogue, or no prologue and `ret`.
abbrev pub Agree : Scheme → Bytes → List Out → List Out → Type 0
Agree s line entry exit =
    ((code_of entry ≡ prologue s) × (code_of exit ≡ epilogue s))
    ⊎ (((code_of entry ≡ []) ⊎ (code_of entry ≡ init_call) ⊎ (code_of entry ≡ crash_call))
        × (exit ≡ copy line ∷ []))

-- From customized, no_instr and on_stack_handler.
abbrev class_from : Bool → Bool → Bool → Class
class_from a b d = record { customized = a; no_instr = b; on_stack_handler = d }

-- The state in which the `ret` of a function is met.
abbrev pub at_exit : Options → ℕ → List (Bytes × ℕ) → State → State
at_exit o draw body s = (pass o ((cfi_startproc, draw) ∷ body) s).1
