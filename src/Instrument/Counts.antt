-- ===== src/Instrument/Counts.antt =====
-- The variables n_start, n_end and start2end of add_instrumentation in FlashStack/afl-as.c, over
-- whole files.
use flash_stack.Base.{
  ◌↔◌, ◌≢◌, ℕ, ◌+◌, ◌≡◌, refl, true, false, List, [], ◌∷◌, arith, if◌then◌else◌, Bytes, ◌∙◌, ◌⊎◌,
  inl, starts_with,
}
use flash_stack.Asm.{Out}
use flash_stack.Instrument.{
  Options, State, initial, Part, continue, fall, ◌>>=◌, deferred, after_deferred, at_startproc,
  at_endproc, at_call, at_ret, cfi_startproc, cfi_endproc, fix_write_mask,
}
use flash_stack.Instrument.Track.{track, class_of}
use flash_stack.Instrument.Pass.{
  rewrite, behind, written, finish, step, pass, fatal, verdict, add_instrumentation,
}
use flash_stack.Instrument.Region.{
  region, state_of, tick, inside_after, region_after, startproc_same, endproc_same, call_same,
  ret_same, one_directive, track-Tracks, is_function_label,
}

-- A part that changes no state.
state_of-bind :
    (p : Part) (f : State → Part)
    → ((t : State) → state_of (f t) ≡ t)
    → state_of (p >>= f) ≡ state_of p
state_of-bind (continue os u) f h = refl
state_of-bind (fall u) f h = h u

module _ (o : Options) (line : Bytes) where
  abbrev tail : State → Part
  tail s = at_call o line s >>= at_ret o line

  tail_same : (s : State) → state_of (tail s) ≡ s
  tail_same s =
      state_of-bind (at_call o line s) (at_ret o line) (ret_same o line) ∙ call_same o line s

  end_same : (s : State) → state_of (at_endproc o line s >>= tail) ≡ state_of (at_endproc o line s)
  end_same s = state_of-bind (at_endproc o line s) tail tail_same

  continues_at_start :
      (s u : State) (os : List Out)
      → at_startproc o line s ≡ continue os u
      → starts_with line cfi_startproc ≡ true
  unfolding at_startproc
  continues_at_start s u os h = ground arith

  rewrite-region_from :
      (s : State) (p : Part)
      → at_startproc o line s ≡ p
      → (region (state_of (p >>= λ t. at_endproc o line t >>= tail)) ≡ region_after line s)
        × ((state_of (p >>= λ t. at_endproc o line t >>= tail)).class ≡ s.class)
  rewrite-region_from s (continue os u) e =
      let at_start = continues_at_start s u os e in
      let facts = rw e at (startproc_same o line s) in
      (ground (arith, facts.0, at_start, one_directive line at_start), facts.1)
  rewrite-region_from s (fall u) e =
      let facts = rw e at (startproc_same o line s) in
      rw (end_same u)
        (ground (arith, facts.0, (endproc_same o line u).0), (endproc_same o line u).1 ∙ facts.1)

  pub rewrite-region :
      (s : State)
      → (region (state_of (rewrite o line s)) ≡ region_after line s)
        × ((state_of (rewrite o line s)).class ≡ s.class)
  unfolding rewrite
  rewrite-region s = rewrite-region_from s (at_startproc o line s) refl

-- What a round may do to the class of the function.
pub record StepClass (line : Bytes) (s t : State) : Type 0 where
  pub either :
      (t.class ≡ s.class)
      ⊎ ((is_function_label line ≡ true)
          × (t.class ≡ class_of (inside_after line s.start2end) line))

abbrev Rounds : Bytes → State → State → Type 0
Rounds line s t = (region t ≡ region_after line s) × StepClass line s t

finish_state : (p : Part) → (finish p).1 ≡ state_of p
finish_state (continue os s) = refl
finish_state (fall s) = refl

module _ (o : Options) (draw : ℕ) where
  deferred_same :
      (os : List Out) (s : State)
      → (region (after_deferred os s) ≡ region s) × ((after_deferred os s).class ≡ s.class)
  deferred_same [] s = (refl, refl)
  deferred_same (x ∷ os) s = (refl, refl)

  behind_state :
      (line : Bytes) (u : State)
      → (behind o draw line u).1 ≡ (if o.pass_thru then u else state_of (track o draw line u))
  behind_state line u = ground (arith, finish_state (track o draw line u))

  written-Rounds :
      (line : Bytes) (s : State) (p : Part)
      → (region (state_of p) ≡ region_after line s) × ((state_of p).class ≡ s.class)
      → Rounds line s (written o draw line p).1
  written-Rounds line s (continue os u) h = (h.0, record { either = inl h.1 })
  written-Rounds line s (fall u) h =
      let t = track-Tracks o line draw u in
      rw (behind_state line u) (
        ground (arith, t.region_same, h.0),
        record { either = ground (arith, t.class_same, h.0, h.1) },
      )

  pub step-Rounds :
      (text : Bytes) (s : State) → Rounds (fix_write_mask text) s (step o draw text s).1
  unfolding step
  step-Rounds text s =
      let line = fix_write_mask text in
      let s' = after_deferred (deferred o s line) s in
      let d = deferred_same (deferred o s line) s in
      let r = rewrite-region o line s' in
      written-Rounds line s (rewrite o line s') (ground (arith, d.0, r.0), r.1 ∙ d.1)

-- How many lines carry the directive.
abbrev pub occurrences : Bytes → List (Bytes × ℕ) → ℕ
occurrences directive [] = 0
occurrences directive ((text, draw) ∷ lines) =
    tick (fix_write_mask text) directive + occurrences directive lines

-- In every mode, n_start and n_end go up by the numbers of lines that carry `.cfi_startproc` and
-- `.cfi_endproc`.
pub pass-occurrences :
    (o : Options) (lines : List (Bytes × ℕ)) (s : State)
    → ((pass o lines s).1.n_start ≡ s.n_start + occurrences cfi_startproc lines)
      × ((pass o lines s).1.n_end ≡ s.n_end + occurrences cfi_endproc lines)
unfolding pass
pass-occurrences o [] s = (omega arith, omega arith)
pass-occurrences o ((text, draw) ∷ lines) s =
    let h = (step-Rounds o draw text s).0 in
    let rest = pass-occurrences o lines (step o draw text s).1 in
    (ground (arith, h, rest.0), ground (arith, h, rest.1))

-- Unless it is quiet, the pass ends in the fatal message exactly if the file is instrumented and
-- its numbers of `.cfi_startproc` and `.cfi_endproc` lines differ.
pub add_instrumentation-fatal_iff :
    (o : Options) (lines : List (Bytes × ℕ))
    → o.be_quiet ≡ false
    → ((add_instrumentation o lines).1 ≡ fatal)
      ↔ ((o.pass_thru ≡ false) × (occurrences cfi_startproc lines ≢ occurrences cfi_endproc lines))
unfolding add_instrumentation verdict
add_instrumentation-fatal_iff o lines q =
    let h = pass-occurrences o lines initial in
    (λ e. ground (arith, h.0, h.1), λ d. ground (arith, h.0, h.1, d.1))
