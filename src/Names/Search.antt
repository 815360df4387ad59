-- ===== src/Names/Search.antt =====
-- The binary search of is_protected_function in FlashStack/afl-as.c.
use flash_stack.Base.{
  ℕ, zero, suc, ◌+◌, ◌-◌, ◌/◌, ◌≤◌, ◌<◌, ◌≡◌, ◌≢◌, inl, inr, Bool, true, false, List, [], some,
  Ordering, arith, tests, sym, ltb, Bool-cases, length, get_or, Bytes, strcmp,
}
use flash_stack.Names.{symbol_of, bisect, is_protected_function}
use flash_stack.Names.Order.{
  strcmp_refl, eq_of_strcmp, gt_of_gt_of_le, lt_of_lt_of_le, Ordering-cases,
}

abbrev pub IsSorted : List Bytes → Type 0
IsSorted funcs =
    (i j : ℕ)
    → i ≤ j
    → j < length funcs
    → strcmp (get_or funcs i []) (get_or funcs j []) ≢ Ordering.gt

-- `name` stands in the table.
abbrev pub Listed : List Bytes → Bytes → Type 0
Listed funcs name = (i : ℕ) × (i < length funcs) × (get_or funcs i [] ≡ name)

abbrev pub Answers : List Bytes → Bytes → Bool → Type 0
Answers funcs name true = Listed funcs name
Answers funcs name false = ¬ Listed funcs name

module _ (funcs : List Bytes) (name : Bytes) (sorted : IsSorted funcs) where
  -- `name` lies above every entry before `low`, and below every entry from `end` on.
  record Between (low end : ℕ) : Type 0 where
    end_le : end ≤ length funcs
    above : (i : ℕ) → i < low → i < length funcs → strcmp name (get_or funcs i []) ≡ Ordering.gt
    below : (i : ℕ) → end ≤ i → i < length funcs → strcmp name (get_or funcs i []) ≡ Ordering.lt

  absent : {low end : ℕ} → Between low end → end ≤ low → ¬ Listed funcs name
  absent {low} {end} b h (i, lt, e) =
      let self : strcmp name (get_or funcs i []) ≡ Ordering.eq = rw e (strcmp_refl name) in
      elim (Bool-cases (ltb i low)) [
        | inl p ↦ cc (self, b.above i (omega tests) lt)
        | inr p ↦ cc (self, b.below i (ground arith) lt)
      ]

  move_end :
      {low end : ℕ} (mid : ℕ)
      → Between low end
      → mid < end
      → strcmp name (get_or funcs mid []) ≡ Ordering.lt
      → Between low mid
  move_end mid b h lt = record {
    end_le = omega (arith, b.end_le);
    above = b.above;
    below = λ i k within. lt_of_lt_of_le name _ _ lt (sorted mid i k within);
  }

  move_low :
      {low end : ℕ} (mid : ℕ)
      → Between low end
      → mid < end
      → strcmp name (get_or funcs mid []) ≡ Ordering.gt
      → Between (mid + 1) end
  move_low mid b h gt = record {
    end_le = b.end_le;
    above = λ i k within.
        gt_of_gt_of_le name _ _ gt (sorted i mid (omega arith) (omega (arith, b.end_le)));
    below = b.below;
  }

  search_total :
      (fuel low end : ℕ)
      → end - low < fuel
      → Between low end
      → (r : Bool) × (bisect fuel funcs name low end ≡ some r) × Answers funcs name r
  unfolding bisect
  search_total zero low end f b = absurd (omega arith)
  search_total (suc fuel) low end f b = elim (Bool-cases (ltb low end)) [
    | inr done ↦ (false, rw done, absent b (ground arith))
    | inl more ↦
        let mid = (low + (end - 1)) / 2 in
        elim (Ordering-cases (strcmp name (get_or funcs mid []))) [
          | inl lt ↦
              let (r, e, a) =
                search_total fuel low mid (omega tests) (move_end mid b (omega tests) lt) in
              (r, rw (more, lt) e, a)
          | inr (inl eq) ↦
              (true, rw (more, eq), (mid, omega (tests, b.end_le), sym (eq_of_strcmp _ _ eq)))
          | inr (inr gt) ↦
              let (r, e, a) =
                search_total fuel (mid + 1) end (omega tests) (move_low mid b (omega tests) gt) in
              (r, rw (more, gt) e, a)
        ]
  ]

-- With the table sorted by strcmp, is_protected_function ends for every call line that holds a
-- delimiter, and answers whether the symbol at its head is in the table.
pub is_protected_function_lem :
    (funcs : List Bytes) (line name : Bytes)
    → IsSorted funcs
    → symbol_of line ≡ some name
    → (r : Bool) × (is_protected_function funcs line ≡ some r) × Answers funcs name r
unfolding is_protected_function
is_protected_function_lem funcs line name sorted e =
    rw (e, is_protected_function)
      (search_total funcs name sorted (length funcs + 1) 0 (length funcs) (omega arith) (record {
        end_le = omega arith;
        above = λ i h _. absurd (omega arith);
        below = λ i h k. absurd (omega arith);
      }))
