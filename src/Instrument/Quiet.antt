-- ===== src/Instrument/Quiet.antt =====
-- What add_instrumentation of FlashStack/afl-as.c prints besides the line and the code of its
-- schemes: comments.
use flash_stack.Base.{ℕ, refl, Bool, true, false, List, [], ◌∷◌, Bytes, if◌then◌else◌}
use flash_stack.Asm.{Out, mark}
use flash_stack.Instrument.{Options, State, Part, continue, fall, ◌>>=◌, deferred, trampoline_mark}
use flash_stack.Instrument.Segments.{IsQuiet}
use flash_stack.Instrument.Track.{
  track, at_section, at_branch, at_label, at_skip, track_code, track_syntax, track_app,
}
use flash_stack.Instrument.Pass.{finish, behind}

pub nothing-IsQuiet : IsQuiet []
nothing-IsQuiet = record { no_line = refl; no_code = refl }

-- A part that prints, prints comments.
data Comments : Part → Type 0 where
  comments : {os : List Out} {s : State} → IsQuiet os → Comments (continue os s)
  silent : {s : State} → Comments (fall s)

Comments-bind :
    (p : Part) (f : State → Part) → Comments p → ((t : State) → Comments (f t)) → Comments (p >>= f)
Comments-bind (continue os s) f (comments h) k = comments h
Comments-bind (fall s) f silent k = k s

if-Comments : (b : Bool) (p q : Part) → Comments p → Comments q → Comments (if b then p else q)
if-Comments true p q h g = h
if-Comments false p q h g = g

trampoline-IsQuiet : (wide : Bool) (text : Bytes) → IsQuiet (trampoline_mark wide text ∷ [])
trampoline-IsQuiet true text = record { no_line = refl; no_code = refl }
trampoline-IsQuiet false text = record { no_line = refl; no_code = refl }

module _ (o : Options) (line : Bytes) where
  section-Comments : (s : State) → Comments (at_section o line s)
  unfolding at_section
  section-Comments s = search (if-Comments, comments, silent, nothing-IsQuiet)

  skip-Comments : (s : State) → Comments (at_skip line s)
  unfolding at_skip
  skip-Comments s = search (if-Comments, comments, silent, nothing-IsQuiet)

  branch-Comments : (draw : ℕ) (s : State) → Comments (at_branch o draw line s)
  unfolding at_branch
  branch-Comments draw s =
      search (if-Comments, comments, silent, nothing-IsQuiet, trampoline-IsQuiet)

  label-Comments : (draw : ℕ) (s : State) → Comments (at_label o draw line s)
  unfolding at_label
  label-Comments draw s = search (if-Comments, comments, silent, nothing-IsQuiet)

  track-Comments : (draw : ℕ) (s : State) → Comments (track o draw line s)
  unfolding track
  track-Comments draw s = Comments-bind (at_section o line s) _ (section-Comments s) λ s1.
      Comments-bind (at_skip line (track_app line (track_syntax line (track_code o line s1)))) _
        (skip-Comments _)
        λ s2.
          Comments-bind (at_branch o draw line s2) (at_label o draw line) (branch-Comments draw s2)
            (label-Comments draw)

  finish-IsQuiet : (p : Part) → Comments p → IsQuiet (finish p).0
  finish-IsQuiet (continue os s) (comments h) = h
  finish-IsQuiet (fall s) silent = nothing-IsQuiet

  if-IsQuiet :
      (b : Bool) (x y : List Out × State)
      → IsQuiet x.0
      → IsQuiet y.0
      → IsQuiet (if b then x else y).0
  if-IsQuiet true x y h g = h
  if-IsQuiet false x y h g = g

  pub behind-IsQuiet : (draw : ℕ) (s : State) → IsQuiet (behind o draw line s).0
  behind-IsQuiet draw s =
      if-IsQuiet o.pass_thru ([], s) (finish (track o draw line s)) nothing-IsQuiet
        (finish-IsQuiet (track o draw line s) (track-Comments draw s))

  outs-IsQuiet : (b : Bool) (os : List Out) → IsQuiet os → IsQuiet (if b then os else [])
  outs-IsQuiet true os h = h
  outs-IsQuiet false os h = nothing-IsQuiet

  mark-IsQuiet : (text : Bytes) (os : List Out) → IsQuiet os → IsQuiet (mark text ∷ os)
  mark-IsQuiet text os h = record { no_line = h.no_line; no_code = h.no_code }

  trampoline_outs-IsQuiet :
      (wide : Bool) (text : Bytes) (os : List Out)
      → IsQuiet os
      → IsQuiet (trampoline_mark wide text ∷ os)
  trampoline_outs-IsQuiet true text os h = mark-IsQuiet _ os h
  trampoline_outs-IsQuiet false text os h = mark-IsQuiet _ os h

  pub deferred-IsQuiet : (s : State) → IsQuiet (deferred o s line)
  unfolding deferred
  deferred-IsQuiet s = search (outs-IsQuiet, trampoline_outs-IsQuiet, mark-IsQuiet, nothing-IsQuiet)
