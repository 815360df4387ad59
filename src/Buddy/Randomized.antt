-- ===== src/Buddy/Randomized.antt =====
-- au_edu_unsw_randomize of FlashStack/simd_rand.c on a stack in order.
use flash_stack.Base.{
  ℕ, ◌+◌, ◌-◌, ◌*◌, ◌%◌, ◌^◌, ◌≤◌, ◌<◌, ◌≡◌, ◌⊎◌, inl, inr, ◌∙◌, true, false, ◌||◌, some, ◌==◌,
  if◌then◌else◌, arith,
}
use flash_stack.Base.Steps.{◌>>=◌, ◌>>◌}
use flash_stack.Asm.{add64, sub64}
use flash_stack.Scheme.{def_ss_offset}
use flash_stack.Buddy.{
  Process, Kernel, page_size, avx2_64_x_4_add, random_val_field, randomizing_field, cycles_field,
}
use flash_stack.Buddy.Promises.{on_page, Promises}
use flash_stack.Buddy.Rounds.{shifted, Shifted, avx2_64_x_4_add_lem}
use flash_stack.Buddy.Randomize.{renew, settle, randomize_all}
use flash_stack.Buddy.Fields.{PageReadable, Renewed, Settled, renew-Renewed, settle-Settled}
use flash_stack.Buddy.Layout.{Pair, Stack}

-- Where the loop begins.
abbrev pub start_of : ℕ → ℕ
start_of rsp = let ss_ptr = rsp - def_ss_offset in ss_ptr - ss_ptr % 32

-- The two records are pages, apart from each other and from what the loop changes.
pub record Places (top info other rsp : ℕ) : Type 0 where
  pub info_page : info % page_size ≡ 0
  pub other_page : other % page_size ≡ 0
  pub apart : (info + page_size ≤ other) ⊎ (other + page_size ≤ info)
  pub info_below : info + page_size ≤ start_of rsp
  pub other_below : other + page_size ≤ start_of rsp
  pub start_shadow : top + page_size ≤ start_of rsp + 2 * def_ss_offset
  pub starts : start_of rsp ≤ top - def_ss_offset
  pub end_rounds : (top - def_ss_offset) % 32 ≡ 0

pub Pair-Places :
    (top info other rsp : ℕ)
    → Stack top
    → Pair top info other
    → top + page_size ≤ rsp + def_ss_offset
    → rsp < top
    → Places top info other rsp
Pair-Places top info other rsp s pair lo hi = record {
  info_page = ground (arith, s.top_aligned);
  other_page = ground (arith, s.top_aligned);
  apart = elim pair [
    | inl (e, e') ↦ inl (omega (arith, e, e', s.top_room))
    | inr (e, e') ↦ inr (omega (arith, e, e', s.top_room))
  ];
  info_below = ground (arith, s.top_aligned, s.top_room, lo);
  other_below = ground (arith, s.top_aligned, s.top_room, lo);
  start_shadow = ground (arith, s.top_aligned, lo, hi);
  starts = ground (arith, lo, hi);
  end_rounds = ground (arith, s.top_aligned, s.top_room);
}

-- The words behind the whole.
abbrev pub all_words : ℕ → ℕ → ℕ → ℕ → ℕ → ℕ → (ℕ → ℕ) → ℕ → ℕ
all_words top info other cycles x rsp f b =
    if b == info + random_val_field || b == other + random_val_field
    then add64 (f b) x
    else if b == info + randomizing_field || b == other + randomizing_field
    then 0
    else if b == info + cycles_field || b == other + cycles_field
    then cycles
    else shifted (start_of rsp) (top - def_ss_offset) x f b

-- The flag that the loop leaves is 0, and both pages are protected again.
pub record Done (top info other cycles x rsp : ℕ) (p q : Process) : Type 0 where
  pub words : (b : ℕ) → q.memory.word b ≡ all_words top info other cycles x rsp p.memory.word b
  pub readable_still : (b : ℕ) → p.memory.readable b ≡ true → q.memory.readable b ≡ true
  pub writable_now :
      (b : ℕ)
      → q.memory.writable b
        ≡ (if on_page info b || on_page other b then false else p.memory.writable b)
  pub counted : q.rand_cnt ≡ p.rand_cnt + 1

module _ (top info other cycles x rsp : ℕ) (l : Places top info other rsp) (p p1 p2 p3 p4 : Process)
    (c1 : Renewed info x cycles p p1) (c2 : Renewed other x cycles p1 p2) (c3 : Settled other p2 p3)
    (c4 : Shifted (start_of rsp) (top - def_ss_offset) x p3 p4) where
  pages_words :
      (b : ℕ)
      → p3.memory.word b ≡ (
          if b == info + random_val_field || b == other + random_val_field
          then add64 (p.memory.word b) x
          else if b == info + randomizing_field
          then 1
          else if b == other + randomizing_field
          then 0
          else if b == info + cycles_field || b == other + cycles_field
          then cycles
          else p.memory.word b)
  pages_words b =
      ground
        (arith, l.apart, c1.words b, c1.words (other + random_val_field), c2.words b, c3.words b)

  stages-Done :
      (p5 : Process)
      → Settled info p4 p5
      → Done top info other cycles x rsp p (record p5 { rand_cnt = p5.rand_cnt + 1 })
  stages-Done p5 c5 = record {
    words = λ b. ground (arith, l.info_below, l.other_below, pages_words b, c4.words b, c5.words b);
    readable_still = λ b r.
        c5.readable_still b
          (c4.readable_same b ∙ c3.readable_still b (c2.readable_still b (c1.readable_still b r)));
    writable_now = λ b. ground (
      arith,
      l.apart,
      c1.writable_now b,
      c2.writable_now b,
      c3.writable_now b,
      c4.writable_same b,
      c5.writable_now b,
    );
    counted =
        omega (arith, c1.count_same, c2.count_same, c3.count_same, c4.count_same, c5.count_same);
  }

  page_readable : PageReadable info p → PageReadable info p4
  page_readable h b o =
      c4.readable_same b ∙ c3.readable_still b (c2.readable_still b (c1.readable_still b (h b o)))

  page_writable : (b : ℕ) → on_page info b ≡ true → p4.memory.writable b ≡ true
  page_writable b o = ground (
    arith,
    l.apart,
    o,
    c1.writable_now b,
    c2.writable_now b,
    c3.writable_now b,
    c4.writable_same b,
  )

randomize_all-runs :
    (k : Kernel) (info other cycles x rsp size top from until : ℕ) (p p1 p2 p3 p4 p5 : Process)
    → sub64 rsp size ≡ from
    → sub64 top size ≡ until
    → renew k info x cycles p ≡ some (tt, p1)
    → renew k other x cycles p1 ≡ some (tt, p2)
    → settle k other p2 ≡ some (tt, p3)
    → avx2_64_x_4_add from until x p3 ≡ some (tt, p4)
    → settle k info p4 ≡ some (tt, p5)
    → randomize_all k info other cycles x rsp size top p
      ≡ some (tt, record p5 { rand_cnt = p5.rand_cnt + 1 })
unfolding randomize_all
randomize_all-runs k info other cycles x rsp size top from until p p1 p2 p3 p4 p5 ef eu r1 r2 r3 r4
      r5 =
    rw (◌>>◌, ◌>>=◌, r1, r2, r3, ef, eu, r4, r5)

pub randomize_all-Done :
    (k : Kernel) (top info other cycles x rsp : ℕ) (p : Process)
    → Promises k
    → Places top info other rsp
    → PageReadable info p
    → PageReadable other p
    → top < 2 ^ 47
    → rsp < top
    → 2 * def_ss_offset ≤ rsp
    → ((b : ℕ) → start_of rsp ≤ b → b < top - def_ss_offset → p.memory.writable b ≡ true)
    → (q : Process) × (randomize_all k info other cycles x rsp def_ss_offset top p ≡ some (tt, q))
      × Done top info other cycles x rsp p q
randomize_all-Done k top info other cycles x rsp p promises l ri ro user hi room w =
    let (p1, run1, c1) = renew-Renewed k promises info l.info_page x cycles p ri in
    let (p2, run2, c2) =
      renew-Renewed k promises other l.other_page x cycles p1
        (λ b o. c1.readable_still b (ro b o)) in
    let (p3, run3, c3) =
      settle-Settled k promises other l.other_page p2
        (λ b o. c2.readable_still b (c1.readable_still b (ro b o)))
        (λ b o. ground (arith, c2.writable_now b, o)) in
    let to : sub64 rsp def_ss_offset ≡ rsp - def_ss_offset = omega (arith, user, hi, room) in
    let e : sub64 top def_ss_offset ≡ top - def_ss_offset = omega (arith, user, hi, room) in
    let (p4, run4, c4) =
      avx2_64_x_4_add_lem (rsp - def_ss_offset) (top - def_ss_offset) x p3 (omega (arith, user, hi))
        (omega (arith, hi)) l.end_rounds
        (λ b lo up. ground (
          arith,
          c1.writable_now b,
          c2.writable_now b,
          c3.writable_now b,
          w b lo up,
          l.info_below,
          l.other_below,
        )) in
    let (p5, run5, c5) =
      settle-Settled k promises info l.info_page p4
        (page_readable top info other cycles x rsp l p p1 p2 p3 p4 c1 c2 c3 c4 ri)
        (page_writable top info other cycles x rsp l p p1 p2 p3 p4 c1 c2 c3 c4) in
    (
      record p5 { rand_cnt = p5.rand_cnt + 1 },
      randomize_all-runs k info other cycles x rsp def_ss_offset top _ _ p p1 p2 p3 p4 p5 to e run1
          run2 run3 run4 run5,
      stages-Done top info other cycles x rsp l p p1 p2 p3 p4 c1 c2 c3 c4 p5 c5,
    )
