-- ===== src/Tests/Creations.antt =====
-- A program with a counting malloc, and a thread that it creates.
use flash_stack.Base.{ℕ, ◌+◌, ◌≤◌, ◌≡◌, refl, true, false, [], ◌∷◌, none, some, arith}
use flash_stack.Base.Steps.{Steps}
use flash_stack.Threads.{
  Cells, Loader, Supplied, cleaner, start, find_cell, free_cell, sized, shadow_create, shadow_start,
}
use flash_stack.Threads.Started.{Allocates, Meanwhile, shadow_create-start}

-- An address above all others.
above : Cells → ℕ
above [] = 0x1000
above ((c, info) ∷ cells) = c + above cells + 16

above-fresh : (cells : Cells) (c : ℕ) → above cells ≤ c → find_cell c cells ≡ none
unfolding above
above-fresh [] c h = refl
above-fresh ((b, info) ∷ cells) c h = ground (arith, h, above-fresh cells c (omega (arith, h)))

abbrev supplied : Supplied
supplied = record {
  init_attr = record { stacksize = 0x200000; other = 0 };
  set_stacksize = λ n attr. record attr { stacksize = n };
  malloc = λ cells. some (above cells);
}

supplied-Allocates : Allocates supplied
supplied-Allocates = record {
  gives = λ cells. (above cells, refl);
  fresh = λ cells c e. above-fresh cells c (ground (arith, e));
}

abbrev loader : Loader
loader = record { resolved = false; cells = [] }

-- A preparation that only counts.
abbrev prepare : Steps ℕ ℕ
prepare n = some (n, n + 1)

shadow_create-start_example :
    (c : ℕ) × (l' : Loader) × (shadow_create supplied 0x800000 none 0x401000 7 loader
      ≡ some (cleaner ∷ start (sized supplied 0x800000 none) c ∷ [], l'))
    × (l'.resolved ≡ true)
    × ((m : Loader) (s t : ℕ) (r : ℕ)
        → Meanwhile supplied c l' m
        → prepare s ≡ some (r, t)
        → shadow_start prepare c m.cells s
          ≡ some
              ((record { routine = 0x401000; argument = 7; key = some 1 }, free_cell c m.cells), t))
shadow_create-start_example =
    shadow_create-start prepare supplied 0x800000 none 0x401000 7 loader supplied-Allocates
