-- ===== src/Instrument/Kept.antt =====
-- What add_instrumentation of FlashStack/afl-as.c leaves of its input: each line as it stands,
-- with comments and code around it, or the code that stands for it.
use flash_stack.Base.{◌+◌, ◌≡◌, true, false, List, Bytes}
use flash_stack.Asm.{Out}
use flash_stack.Instrument.{
  Options, State, Part, continue, fall, is_ret, is_direct_call, is_indirect_call,
}
use flash_stack.Instrument.Segments.{Segment, Untouched, exits_open, calls_open}

-- A part that prints, prints a segment; one that does not, leaves a line at which no code is wanted.
data Prints (o : Options) (line : Bytes) (s : State) : Part → Type 0 where
  prints :
      {os : List Out} {t : State}
      → Segment o (exits_open o s) (calls_open o s) s.class line os
      → Prints o line s (continue os t)
  falls :
      {t : State}
      → Untouched o (exits_open o s) (calls_open o s) s.class line
      → Prints o line s (fall t)

-- A line that is no call and no `ret`.
abbrev Neither : Bytes → Type 0
Neither line =
    (is_ret line ≡ false) × (is_direct_call line ≡ false) × (is_indirect_call line ≡ false)

module _ (o : Options) (line : Bytes) where
  -- From the line on which the two directives are.
  abbrev opened : State → State
  opened s = record s { start2end = true; n_start = s.n_start + 1 }

  abbrev closed : State → State
  closed s = record s { start2end = false; n_end = s.n_end + 1 }
