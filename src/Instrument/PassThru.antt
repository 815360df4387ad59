-- ===== src/Instrument/PassThru.antt =====
-- The mode pass_thru of add_instrumentation in FlashStack/afl-as.c.
use flash_stack.Base.{
  ℕ, ◌≡◌, refl, true, List, [], ◌∷◌, arith, Bytes, ap, ◌+◌, false, starts_with, if◌then◌else◌,
}
use flash_stack.Asm.{Out, copy}
use flash_stack.Instrument.{
  Options, State, cfi_startproc, cfi_endproc, fall, fix_write_mask, deferred, at_startproc,
  at_endproc, at_call, at_ret,
}
use flash_stack.Instrument.Pass.{rewrite, step, pass}

-- The lines with their write masks in the syntax of GNU as.
abbrev pub copied : List (Bytes × ℕ) → List Out
copied [] = []
copied ((text, draw) ∷ lines) = copy (fix_write_mask text) ∷ copied lines

abbrev started : Bytes → State → State
started line s =
    if starts_with line cfi_startproc
    then record s { start2end = true; n_start = s.n_start + 1 }
    else s

abbrev ended : Bytes → State → State
ended line s =
    if starts_with line cfi_endproc then record s { start2end = false; n_end = s.n_end + 1 } else s

module _ (o : Options) (passed : o.pass_thru ≡ true) where
  deferred-pass_thru : (s : State) (line : Bytes) → deferred o s line ≡ []
  unfolding deferred
  deferred-pass_thru s line = rw passed

  startproc-pass_thru : (line : Bytes) (s : State) → at_startproc o line s ≡ fall (started line s)
  unfolding at_startproc
  startproc-pass_thru line s = ground arith

  endproc-pass_thru : (line : Bytes) (s : State) → at_endproc o line s ≡ fall (ended line s)
  unfolding at_endproc
  endproc-pass_thru line s = ground arith

  call-pass_thru : (line : Bytes) (s : State) → at_call o line s ≡ fall s
  unfolding at_call
  call-pass_thru line s = ground arith

  ret-pass_thru : (line : Bytes) (s : State) → at_ret o line s ≡ fall s
  unfolding at_ret
  ret-pass_thru line s = ground arith

  rewrite-pass_thru :
      (line : Bytes) (s : State) → rewrite o line s ≡ fall (ended line (started line s))
  unfolding rewrite
  rewrite-pass_thru line s = rw (startproc-pass_thru line s) (
      rw (endproc-pass_thru line (started line s)) (
        rw (call-pass_thru line (ended line (started line s)))
          (ret-pass_thru line (ended line (started line s)))))

  step-pass_thru :
      (draw : ℕ) (text : Bytes) (s : State)
      → (step o draw text s).0 ≡ copy (fix_write_mask text) ∷ []
  unfolding step
  step-pass_thru draw text s =
      rw (deferred-pass_thru s (fix_write_mask text))
        (rw (rewrite-pass_thru (fix_write_mask text) s) (rw passed))

  -- In a file that is passed through, every line is printed, in order, with nothing between them
  -- and nothing replaced but the spelling of write masks.
  pub pass-copied : (lines : List (Bytes × ℕ)) (s : State) → (pass o lines s).0 ≡ copied lines
  unfolding pass
  pass-copied [] s = refl
  pass-copied ((text, draw) ∷ lines) s =
      rw (step-pass_thru draw text s)
        (ap (◌∷◌ (copy (fix_write_mask text))) (pass-copied lines (step o draw text s).1))
