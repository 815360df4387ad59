-- ===== src/Threads/Started.antt =====
-- From pthread_create to the routine of the new thread, in the libraries that keep shadow stacks.
use flash_stack.Base.{
  ℕ, ◌≡◌, ◌≢◌, refl, sym, true, List, [], ◌∷◌, ◌++◌, Option, none, some, if◌then◌else◌, arith,
  Option-cases, inl, inr, ◌∙◌, ap,
}
use mathlib.Core.Option.{some-injective, none-ne-some}
use flash_stack.Base.Steps.{Steps, ◌>>=◌}
use flash_stack.Threads.{
  Attr, ArgInfo, Cells, Loader, Supplied, Call, cleaner, start, find_cell, free_cell, sized,
  new_arg_info, resolve, shadow_create, take_arg_info, shadow_start,
}

-- malloc succeeds, at an address that no object has.
pub record Allocates (p : Supplied) : Type 0 where
  pub gives : (cells : Cells) → (c : ℕ) × (p.malloc cells ≡ some c)
  pub fresh : (cells : Cells) (c : ℕ) → p.malloc cells ≡ some c → find_cell c cells ≡ none

-- What other threads do before the one whose object lies at `c` begins: they create threads, and
-- threads with other objects begin.
pub data Meanwhile (p : Supplied) (c : ℕ) (l : Loader) : Loader → Type 0 where
  here : Meanwhile p c l l
  created :
      {m n : Loader} (size : ℕ) (attr : Option Attr) (routine arg : ℕ) (calls : List Call)
      → Meanwhile p c l m
      → shadow_create p size attr routine arg m ≡ some (calls, n)
      → Meanwhile p c l n
  begun :
      {m : Loader} (c' : ℕ) (info : ArgInfo) (rest : Cells)
      → Meanwhile p c l m
      → c' ≢ c
      → take_arg_info c' m.cells ≡ some (info, rest)
      → Meanwhile p c l (record m { cells = rest })

find_cell-free_cell :
    (c c' : ℕ) (cells : Cells) → c' ≢ c → find_cell c (free_cell c' cells) ≡ find_cell c cells
find_cell-free_cell c c' [] n = refl
find_cell-free_cell c c' ((b, info) ∷ cells) n = ground (arith, n, find_cell-free_cell c c' cells n)

take_arg_info-other :
    (c c' : ℕ) (cells rest : Cells) (info : ArgInfo)
    → c' ≢ c
    → take_arg_info c' cells ≡ some (info, rest)
    → find_cell c rest ≡ find_cell c cells
take_arg_info-other c c' cells rest info n e = elim (Option-cases (find_cell c' cells)) [
  | inl h ↦ absurd (none-ne-some (info, rest) (rw (take_arg_info, h) at e))
  | inr (i, h) ↦
      let same = some-injective (i, free_cell c' cells) (info, rest) (rw (take_arg_info, h) at e) in
      sym (ap (λ o. find_cell c o.1) same) ∙ find_cell-free_cell c c' cells n
]

-- The state behind pthread_create, with the new object at `c`.
abbrev with_arg_info : ℕ → ℕ → ℕ → Loader → Loader
with_arg_info c routine arg l = record {
  resolved = true;
  cells = (c, record { start_routine = routine; arg = arg }) ∷ l.cells;
}

module _ (p : Supplied) (size : ℕ) (attr : Option Attr) (routine arg : ℕ) where
  shadow_create_runs :
      (c : ℕ) (l : Loader)
      → p.malloc l.cells ≡ some c
      → shadow_create p size attr routine arg l
        ≡ some (
          (if l.resolved then [] else cleaner ∷ []) ++ start (sized p size attr) c ∷ [],
          with_arg_info c routine arg l,
        )
  unfolding shadow_create new_arg_info resolve
  shadow_create_runs c l e = rw (◌>>=◌, e)

  -- An object that is there stays while others are made.
  shadow_create-other :
      (c : ℕ) (calls : List Call) (m n : Loader) (info : ArgInfo)
      → Allocates p
      → find_cell c m.cells ≡ some info
      → shadow_create p size attr routine arg m ≡ some (calls, n)
      → find_cell c n.cells ≡ some info
  shadow_create-other c calls m n info a h e =
      let (c', g) = a.gives m.cells in
      let same =
        ap (λ o. find_cell c o.1.cells)
          (some-injective (_, with_arg_info c' routine arg m) (calls, n)
            (sym (shadow_create_runs c' m g) ∙ e)) in
      let apart : c' ≢ c =
        λ z. none-ne-some info (sym (a.fresh m.cells c' g) ∙ ap (λ x. find_cell x m.cells) z ∙ h) in
      sym same ∙ ground (arith, apart) ∙ h

Meanwhile-kept :
    (p : Supplied) (c : ℕ) (info : ArgInfo) (l m : Loader)
    → Allocates p
    → find_cell c l.cells ≡ some info
    → Meanwhile p c l m
    → find_cell c m.cells ≡ some info
Meanwhile-kept p c info l m a h here = h
Meanwhile-kept p c info l _ a h (created {m} {n} size attr routine arg calls d e) =
    shadow_create-other p size attr routine arg c calls m n info a
      (Meanwhile-kept p c info l m a h d) e
Meanwhile-kept p c info l _ a h (begun {m} c' info' rest d n e) =
    take_arg_info-other c c' m.cells rest info' n e ∙ Meanwhile-kept p c info l m a h d

shadow_start_runs :
    {S A : Type 0} (prepare : Steps S A) (c : ℕ) (info : ArgInfo) (cells : Cells) (s t : S) (r : A)
    → prepare s ≡ some (r, t)
    → find_cell c cells ≡ some info
    → shadow_start prepare c cells s
      ≡ some (
        (
          record { routine = info.start_routine; argument = info.arg; key = some 1 },
          free_cell c cells,
        ),
        t,
      )
unfolding shadow_start
shadow_start_runs prepare c info cells s t r e h = rw (◌>>=◌, e, h)

-- Where malloc gives addresses that no object has: pthread_create of gs.rsp.c and of fsgs.c ends
-- without a fault. It calls the real function with the size that was set and do_start_routine, and
-- before that, in its first call only, for the thread that sweeps the table. Whatever other threads
-- are created and begin meanwhile, do_start_routine then prepares its thread, if its preparation
-- ends, frees its object and no other, sets the key to 1 and goes on to the routine and the
-- argument that pthread_create was given.
pub shadow_create-start :
    {S A : Type 0} (prepare : Steps S A) (p : Supplied) (size : ℕ) (attr : Option Attr)
    (routine arg : ℕ) (l : Loader)
    → Allocates p
    → (c : ℕ) × (l' : Loader) × (shadow_create p size attr routine arg l
        ≡ some ((if l.resolved then [] else cleaner ∷ []) ++ start (sized p size attr) c ∷ [], l'))
      × (l'.resolved ≡ true)
      × ((m : Loader) (s t : S) (r : A)
          → Meanwhile p c l' m
          → prepare s ≡ some (r, t)
          → shadow_start prepare c m.cells s
            ≡ some (
              (record { routine = routine; argument = arg; key = some 1 }, free_cell c m.cells),
              t,
            ))
shadow_create-start prepare p size attr routine arg l a =
    let (c, e) = a.gives l.cells in
    let l' = with_arg_info c routine arg l in
    let info : ArgInfo = record { start_routine = routine; arg = arg } in
    (
      c,
      l',
      shadow_create_runs p size attr routine arg c l e,
      refl,
      λ m s t r d run.
          shadow_start_runs prepare c info m.cells s t r run
            (Meanwhile-kept p c info l' m a (ground arith) d),
    )
