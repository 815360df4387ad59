-- ===== src/Instrument/Region.antt =====
-- What each part of the loop of add_instrumentation in FlashStack/afl-as.c does to the counters,
-- to start2end and to the class of the function.
use flash_stack.Base.{
  ℕ, ◌+◌, ◌≡◌, refl, Bool, true, false, not, ◌&&◌, [], ◌∷◌, arith, if◌then◌else◌, Bytes, ◌==◌,
  char_at, ◌∙◌, ◌⊎◌, ◌||◌, inl, inr, Bool-cases, starts_with,
}
use flash_stack.Scheme.{Class}
use flash_stack.Instrument.{
  Options, State, Part, continue, fall, ◌>>=◌, at_startproc, at_endproc, at_call, at_ret,
  cfi_startproc, cfi_endproc,
}
use flash_stack.Instrument.Track.{
  at_section, track_code, track_syntax, track_app, at_skip, at_branch, is_label, branch_label,
  function_label, at_label, track, class_of,
}

-- A line that does not come to the search for labels: a comment, or an instruction or directive.
abbrev pub is_indented : Bytes → Bool
is_indented line = char_at line 0 == b'#' || char_at line 0 == b' ' || char_at line 0 == b'\t'

abbrev named_by : Bytes → Bool
named_by line = is_label line && not (char_at line 0 == b'.')

-- A label of a function, or of anything else that does not begin with a dot.
abbrev pub is_function_label : Bytes → Bool
is_function_label line = named_by line && not (is_indented line)

abbrev pub Region : Type 0
Region = ℕ × ℕ × Bool

abbrev pub region : State → Region
region s = (s.n_start, s.n_end, s.start2end)

abbrev pub state_of : Part → State
state_of (continue os s) = s
state_of (fall s) = s

abbrev pub tick : Bytes → Bytes → ℕ
tick line directive = if starts_with line directive then 1 else 0

abbrev pub inside_after : Bytes → Bool → Bool
inside_after line inside =
    if starts_with line cfi_endproc
    then false
    else if starts_with line cfi_startproc
    then true
    else inside

-- At `.cfi_startproc` and `.cfi_endproc` the counters go up and start2end is set or cleared.
abbrev pub region_after : Bytes → State → Region
region_after line s = (
  s.n_start + tick line cfi_startproc,
  s.n_end + tick line cfi_endproc,
  inside_after line s.start2end,
)

module _ (o : Options) (line : Bytes) (s : State) where
  section_same :
      (region (state_of (at_section o line s)) ≡ region s)
      × ((state_of (at_section o line s)).class ≡ s.class)
  unfolding at_section
  section_same = (ground arith, ground arith)

  code_same : (region (track_code o line s) ≡ region s) × ((track_code o line s).class ≡ s.class)
  unfolding track_code
  code_same = (ground arith, ground arith)

  syntax_same : (region (track_syntax line s) ≡ region s) × ((track_syntax line s).class ≡ s.class)
  unfolding track_syntax
  syntax_same = (ground arith, ground arith)

  app_same : (region (track_app line s) ≡ region s) × ((track_app line s).class ≡ s.class)
  unfolding track_app
  app_same = (ground arith, ground arith)

  skip_same :
      (region (state_of (at_skip line s)) ≡ region s)
      × ((state_of (at_skip line s)).class ≡ s.class)
  unfolding at_skip
  skip_same = (ground arith, ground arith)

  branch_same :
      (draw : ℕ)
      → (region (state_of (at_branch o draw line s)) ≡ region s)
        × ((state_of (at_branch o draw line s)).class ≡ s.class)
  unfolding at_branch
  branch_same draw = (ground arith, ground arith)

  label_same :
      (draw : ℕ)
      → (region (state_of (at_label o draw line s)) ≡ region s)
        × ((state_of (at_label o draw line s)).class
            ≡ (if named_by line then class_of s.start2end line else s.class))
  unfolding at_label branch_label function_label
  label_same draw = (ground arith, ground arith)

  pub startproc_same :
      (region (state_of (at_startproc o line s)) ≡ (
        s.n_start + tick line cfi_startproc,
        s.n_end,
        (if starts_with line cfi_startproc then true else s.start2end),
      ))
      × ((state_of (at_startproc o line s)).class ≡ s.class)
  unfolding at_startproc
  startproc_same = (ground arith, ground arith)

  pub endproc_same :
      (region (state_of (at_endproc o line s)) ≡ (
        s.n_start,
        s.n_end + tick line cfi_endproc,
        (if starts_with line cfi_endproc then false else s.start2end),
      ))
      × ((state_of (at_endproc o line s)).class ≡ s.class)
  unfolding at_endproc
  endproc_same = (ground arith, ground arith)

  pub call_same : state_of (at_call o line s) ≡ s
  unfolding at_call
  call_same = ground arith

  pub ret_same : state_of (at_ret o line s) ≡ s
  unfolding at_ret
  ret_same = ground arith

-- A line is not both directives: they differ in their seventh byte.
pub one_directive :
    (line : Bytes) → starts_with line cfi_startproc ≡ true → starts_with line cfi_endproc ≡ false
unfolding starts_with
one_directive [] h = refl
one_directive (a ∷ b ∷ c ∷ d ∷ e ∷ f ∷ g ∷ line) h = ground arith
one_directive _ h = ground arith

-- `t` may differ from `s` in the class, if the line has a name and a colon.
record Named (line : Bytes) (s t : State) : Type 0 where
  pub region_same : region t ≡ region s
  pub class_same :
      (t.class ≡ s.class) ⊎ ((named_by line ≡ true) × (t.class ≡ class_of s.start2end line))

Named-bind :
    (line : Bytes) {s : State} (p : Part) (f : State → Part)
    → (region (state_of p) ≡ region s) × ((state_of p).class ≡ s.class)
    → ((t : State) → Named line t (state_of (f t)))
    → Named line s (state_of (p >>= f))
Named-bind line (continue os u) f h k = record { region_same = h.0; class_same = inl h.1 }
Named-bind line (fall u) f h k = record {
  region_same = (k u).region_same ∙ h.0;
  class_same = ground (arith, (k u).class_same, h.0);
}

label-Named :
    (o : Options) (line : Bytes) (draw : ℕ) (s : State)
    → Named line s (state_of (at_label o draw line s))
label-Named o line draw s = record {
  region_same = (label_same o line s draw).0;
  class_same = ground (arith, (label_same o line s draw).1);
}

abbrev skipped : Options → Bytes → State → Part
skipped o line s = at_skip line (track_app line (track_syntax line (track_code o line s)))

skipped_same :
    (o : Options) (line : Bytes) (s : State)
    → (region (state_of (skipped o line s)) ≡ region s)
      × ((state_of (skipped o line s)).class ≡ s.class)
skipped_same o line s =
    let a = track_code o line s in
    let b = track_syntax line a in
    let c = track_app line b in
    (
      (skip_same o line c).0
          ∙ (app_same o line b).0
          ∙ (syntax_same o line a).0
          ∙ (code_same o line s).0,
      (skip_same o line c).1
          ∙ (app_same o line b).1
          ∙ (syntax_same o line a).1
          ∙ (code_same o line s).1,
    )

track-Named :
    (o : Options) (line : Bytes) (draw : ℕ) (s : State)
    → Named line s (state_of (track o draw line s))
unfolding track
track-Named o line draw s =
    Named-bind line (at_section o line s)
      (λ s1. skipped o line s1 >>= λ s2. at_branch o draw line s2 >>= at_label o draw line)
      (section_same o line s)
      λ s1.
        Named-bind line (skipped o line s1)
          (λ s2. at_branch o draw line s2 >>= at_label o draw line) (skipped_same o line s1)
          λ s2.
            Named-bind line (at_branch o draw line s2) (at_label o draw line)
              (branch_same o line s2 draw) (label-Named o line draw)

-- A comment is skipped, and behind an instruction the next line is fetched.
comment-class :
    (line : Bytes) (s : State) (f : State → Part)
    → (char_at line 0 == b'#' || char_at line 0 == b' ') ≡ true
    → (state_of (at_skip line s >>= f)).class ≡ s.class
unfolding at_skip
comment-class line s f h = ground (arith, h)

tab-class :
    (o : Options) (line : Bytes) (draw : ℕ) (s : State) (f : State → Part)
    → (char_at line 0 == b'\t') ≡ true
    → (state_of (at_branch o draw line s >>= f)).class ≡ s.class
unfolding at_branch
tab-class o line draw s f h = ground (arith, h)

class-bind :
    (p : Part) (f : State → Part) (c : Class)
    → (state_of p).class ≡ c
    → ((t : State) → t.class ≡ c → (state_of (f t)).class ≡ c)
    → (state_of (p >>= f)).class ≡ c
class-bind (continue os u) f c h k = h
class-bind (fall u) f c h k = k u h

indented-class :
    (o : Options) (line : Bytes) (draw : ℕ) (s : State)
    → is_indented line ≡ true
    → (state_of (track o draw line s)).class ≡ s.class
unfolding track
indented-class o line draw s h =
    class-bind (at_section o line s) _ s.class (section_same o line s).1 λ s1 e1.
      elim (Bool-cases (char_at line 0 == b'#' || char_at line 0 == b' ')) [
        | inl y ↦
            let a = track_code o line s1 in
            let b = track_syntax line a in
            comment-class line (track_app line b) _ y
            ∙ (app_same o line b).1
            ∙ (syntax_same o line a).1
            ∙ (code_same o line s1).1
            ∙ e1
        | inr n ↦
            class-bind (skipped o line s1) _ s.class ((skipped_same o line s1).1 ∙ e1)
              λ s2 e2. tab-class o line draw s2 (at_label o draw line) (ground (arith, h, n)) ∙ e2
      ]

-- `t` may differ from `s` in the class, if the line is the label of a function.
pub record Tracks (line : Bytes) (s t : State) : Type 0 where
  pub region_same : region t ≡ region s
  pub class_same :
      (t.class ≡ s.class)
      ⊎ ((is_function_label line ≡ true) × (t.class ≡ class_of s.start2end line))

pub track-Tracks :
    (o : Options) (line : Bytes) (draw : ℕ) (s : State)
    → Tracks line s (state_of (track o draw line s))
track-Tracks o line draw s =
    let named = track-Named o line draw s in
    record {
      region_same = named.region_same;
      class_same = elim (Bool-cases (is_indented line)) [
        | inl h ↦ inl (indented-class o line draw s h)
        | inr h ↦ elim named.class_same [
          | inl e ↦ inl e
          | inr (n, e) ↦ inr (ground (arith, n, h), e)
        ]
      ];
    }
