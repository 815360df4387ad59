-- ===== src/Instrument/Pass.antt =====
-- The loop of add_instrumentation over the lines of the file, and what follows it.
use flash_stack.Base.{ℕ, not, ◌&&◌, List, [], ◌∷◌, ◌++◌, ◌==◌, if◌then◌else◌, codes, Bytes}
use flash_stack.Asm.{Out, copy, mark, counts}
use flash_stack.Scheme.{global_randvar, Scheme}
use flash_stack.Instrument.{
  Options, State, initial, Part, continue, fall, ◌>>=◌, fix_write_mask, deferred, after_deferred,
  at_startproc, at_endproc, at_call, at_ret,
}
use flash_stack.Instrument.Track.{track}

-- What is printed for the line itself.
unfoldable pub rewrite : Options → Bytes → State → Part
rewrite o line s = do
  s1 ← at_startproc o line s
  s2 ← at_endproc o line s1
  s3 ← at_call o line s2
  at_ret o line s3

-- The end of the loop body.
abbrev pub finish : Part → List Out × State
finish (continue os s) = (os, s)
finish (fall s) = ([], s)

abbrev pub behind : Options → ℕ → Bytes → State → List Out × State
behind o draw line s = if o.pass_thru then ([], s) else finish (track o draw line s)

abbrev pub written : Options → ℕ → Bytes → Part → List Out × State
written o draw line (continue os s) = (os, s)
written o draw line (fall s) = let (os, s') = behind o draw line s in (copy line ∷ os, s')

-- One round of the loop.
unfoldable pub step : Options → ℕ → Bytes → State → List Out × State
unfolding rewrite
step o draw text s =
    let line = fix_write_mask text in
    let pre = deferred o s line in
    let (os, s') = written o draw line (rewrite o line (after_deferred pre s)) in (pre ++ os, s')

-- The loop: each line with the random number that it may draw.
unfoldable pub pass : Options → List (Bytes × ℕ) → State → List Out × State
unfolding step
pass o [] s = ([], s)
pass o ((text, draw) ∷ lines) s =
    let (os, s') = step o draw text s in let (rest, s'') = pass o lines s' in (os ++ rest, s'')

abbrev randval_section : List Out
randval_section =
    mark (codes "\n\t.type\t.unsw.randomval, @object\n")
    ∷ mark (codes "\t.globl\t.unsw.randomval\n")
    ∷ mark (codes "\t.bss\n")
    ∷ mark (codes "\t.p2align\t12\n")
    ∷ mark (codes ".unsw.randomval:\n")
    ∷ mark (codes "\t.zero\t4096\n")
    ∷ mark (codes "\t.size\t.unsw.randomval, 4096\n")
    ∷ []

abbrev defines_randval : Options → Scheme → List Out
defines_randval o global_randvar = if not o.pass_thru then randval_section else []
defines_randval o _ = []

unfoldable pub trailer : Options → State → List Out
trailer o s =
    (if s.is_main_exe
      then mark (codes "###SPA### this module contains main().\n") ∷ defines_randval o o.scheme
      else [])
    ++ ((if s.ins_lines == 0
          then []
          else if o.use_64bit
          then mark (codes "###SPA### main_payload_64\n") ∷ []
          else mark (codes "###SPA### main_payload_32\n") ∷ [])
        ++ (counts s.n_start s.n_end o.pass_thru ∷ []))

-- FATAL, the warning that nothing was instrumented, the message of success, or silence.
pub data Verdict : Type 0 where
  fatal warned success quiet : Verdict

unfoldable pub verdict : Options → State → Verdict
verdict o s =
    if o.be_quiet
    then quiet
    else if not o.pass_thru && not (s.n_start == s.n_end)
    then fatal
    else if s.ins_lines == 0
    then warned
    else success

unfoldable pub add_instrumentation : Options → List (Bytes × ℕ) → List Out × Verdict
unfolding pass trailer verdict
add_instrumentation o lines = let (os, s) = pass o lines initial in (os ++ trailer o s, verdict o s)
