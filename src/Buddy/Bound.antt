-- ===== src/Buddy/Bound.antt =====
-- buddy_get_stack_bound of FlashStack/buddy_tls.c, which searches for the end of the call stack page
-- by page. mincore is a parameter.
use flash_stack.Base.{
  ℕ, zero, suc, ◌+◌, ◌-◌, ◌*◌, ◌%◌, ◌≤◌, ◌<◌, ◌≡◌, ◌≢◌, refl, sym, ap, ◌⊎◌, inl, inr, ◌∙◌, Option,
  none, some, arith,
}
use flash_stack.Buddy.{page_size}

-- Zero, a failure with ENOMEM, and another failure.
data Answer : Type 0 where
  resident : Answer
  no_memory : Answer
  other_error : Answer

-- The two addresses, or SPA_ERROR.
data Bound : Type 0 where
  bound : ℕ → ℕ → Bound
  spa_error : Bound

Answer-cases : (a : Answer) → (a ≡ resident) ⊎ (a ≡ no_memory) ⊎ (a ≡ other_error)
Answer-cases resident = inl refl
Answer-cases no_memory = inr (inl refl)
Answer-cases other_error = inr (inr refl)

no_memory-fails : no_memory ≢ resident
no_memory-fails e = ground (arith, e)

other_error-fails : other_error ≢ resident
other_error-fails e = ground (arith, e)

-- What follows the loop.
abbrev behind_scan : Answer → ℕ → ℕ → Bound
behind_scan other_error low fptr = spa_error
behind_scan _ low fptr = bound low fptr

module _ (mincore : ℕ → Answer) where
  -- `none` without fuel
  unfoldable scan : ℕ → ℕ → ℕ → Option Bound
  scan zero low fptr = none
  scan (suc fuel) low fptr = elim (mincore fptr) [
    | resident ↦ scan fuel low (fptr + page_size)
    | no_memory ↦ some (behind_scan no_memory low fptr)
    | other_error ↦ some (behind_scan other_error low fptr)
  ]

  unfoldable buddy_get_stack_bound : ℕ → ℕ → Option Bound
  buddy_get_stack_bound fuel rsp =
      let fptr = rsp - rsp % page_size in scan fuel fptr (fptr + page_size)

  -- The search that starts at `fptr` ends at the i-th page from there.
  abbrev EndsAt : ℕ → ℕ → ℕ → ℕ → Type 0
  EndsAt fuel low fptr i =
      (scan fuel low fptr
        ≡ some (behind_scan (mincore (fptr + i * page_size)) low (fptr + i * page_size)))
      × (mincore (fptr + i * page_size) ≢ resident)
      × ((j : ℕ) → j < i → mincore (fptr + j * page_size) ≡ resident)

  ends_here : (fuel low fptr : ℕ) → mincore fptr ≢ resident → EndsAt (suc fuel) low fptr 0
  unfolding scan
  ends_here fuel low fptr fails =
      let here : fptr + 0 * page_size ≡ fptr = omega arith in
      elim (Answer-cases (mincore fptr)) [
        | inl e ↦ absurd (fails e)
        | inr (inl e) ↦ (rw (scan, here, e), rw here fails, λ j l. absurd (omega (arith, l)))
        | inr (inr e) ↦ (rw (scan, here, e), rw here fails, λ j l. absurd (omega (arith, l)))
      ]

  resident_before :
      (fptr i : ℕ)
      → mincore fptr ≡ resident
      → ((j : ℕ) → j < i → mincore (fptr + page_size + j * page_size) ≡ resident)
      → (j : ℕ) → j < suc i
      → mincore (fptr + j * page_size) ≡ resident
  resident_before fptr i e before zero l =
      let here : fptr + 0 * page_size ≡ fptr = omega arith in ap mincore here ∙ e
  resident_before fptr i e before (suc j) l =
      let there : fptr + suc j * page_size ≡ fptr + page_size + j * page_size = omega arith in
      ap mincore there ∙ before j (omega (arith, l))

  ends_later :
      (fuel low fptr i : ℕ)
      → mincore fptr ≡ resident
      → EndsAt fuel low (fptr + page_size) i
      → EndsAt (suc fuel) low fptr (suc i)
  unfolding scan
  ends_later fuel low fptr i e (run, fails, before) =
      let there : fptr + page_size + i * page_size ≡ fptr + suc i * page_size = omega arith in
      (
        rw (scan, e) (rw there at run),
        λ a. fails (ap mincore there ∙ a),
        resident_before fptr i e before,
      )

  scan-EndsAt :
      (n fuel low fptr : ℕ)
      → n < fuel
      → mincore (fptr + n * page_size) ≢ resident
      → (i : ℕ) × (i ≤ n) × EndsAt fuel low fptr i
  scan-EndsAt n zero low fptr h fails = absurd (omega (arith, h))
  scan-EndsAt zero (suc fuel) low fptr h fails =
      let here : fptr ≡ fptr + 0 * page_size = omega arith in
      (0, omega arith, ends_here fuel low fptr (λ a. fails (ap mincore (sym here) ∙ a)))
  scan-EndsAt (suc n) (suc fuel) low fptr h fails = elim (Answer-cases (mincore fptr)) [
    | inl e ↦
        let there : fptr + page_size + n * page_size ≡ fptr + suc n * page_size = omega arith in
        let (i, le, ends) =
          scan-EndsAt n fuel low (fptr + page_size) (omega (arith, h))
            (λ a. fails (ap mincore (sym there) ∙ a)) in
        (suc i, omega (arith, le), ends_later fuel low fptr i e ends)
    | inr (inl e) ↦ (0, omega arith, ends_here fuel low fptr (λ a. no_memory-fails (sym e ∙ a)))
    | inr (inr e) ↦ (0, omega arith, ends_here fuel low fptr (λ a. other_error-fails (sym e ∙ a)))
  ]

  -- With fuel for the pages up to the n-th above that of the stack pointer, where mincore fails, the
  -- search ends at the first page above it where mincore fails. If the failure is ENOMEM that page
  -- is the upper bound, and the page of the stack pointer the lower one.
  buddy_get_stack_bound_lem :
      (n fuel rsp : ℕ)
      → n < fuel
      → mincore (rsp - rsp % page_size + page_size + n * page_size) ≢ resident
      → (high : ℕ) × (high ≤ rsp - rsp % page_size + page_size + n * page_size)
        × (buddy_get_stack_bound fuel rsp
            ≡ some (behind_scan (mincore high) (rsp - rsp % page_size) high))
        × (mincore high ≢ resident)
        × ((j : ℕ)
            → rsp - rsp % page_size + page_size + j * page_size < high
            → mincore (rsp - rsp % page_size + page_size + j * page_size) ≡ resident)
  unfolding buddy_get_stack_bound
  buddy_get_stack_bound_lem n fuel rsp h fails =
      let low = rsp - rsp % page_size in
      let (i, le, (run, stops, before)) = scan-EndsAt n fuel low (low + page_size) h fails in
      (
        low + page_size + i * page_size,
        omega (arith, le),
        run,
        stops,
        λ j l. before j (omega (arith, l)),
      )
