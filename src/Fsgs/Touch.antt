-- ===== src/Fsgs/Touch.antt =====
-- Steps of FlashStack/fsgs.c that only touch one page of metadata.
use flash_stack.Base.{
  ℕ, zero, suc, ◌+◌, ◌-◌, ◌*◌, ◌%◌, ◌≤◌, ◌<◌, ◌≡◌, ◌⊎◌, inl, inr, ◌∙◌, refl, true, ◌&&◌, some, ltb,
  leb, ◌==◌, if◌then◌else◌, arith,
}
use flash_stack.Base.Steps.{◌>>=◌, ◌>>◌}
use flash_stack.Asm.Machine.{update}
use flash_stack.Buddy.{Memory, page_size}
use flash_stack.Buddy.Promises.{on_page}
use flash_stack.Fsgs.{Thread, set_word, store, copy_words}
use flash_stack.Fsgs.Ready.{Place, Brought, touched-Brought}

-- Every word of the page can be written.
abbrev pub IsOpen : ℕ → Memory → Type 0
IsOpen md m = (b : ℕ) → on_page md b ≡ true → m.writable b ≡ true

pub store-open :
    (md f v : ℕ) (w : Thread)
    → f < page_size
    → IsOpen md w.memory
    → store (md + f) v w ≡ some (tt, set_word (md + f) v w)
store-open md f v w h o = let writable = o (md + f) (ground (arith, h)) in rw writable

pub set_word-Brought :
    (md base f v : ℕ) (w : Thread)
    → f < page_size
    → Place md base w.memory
    → Brought md base md base w.memory (set_word (md + f) v w).memory
set_word-Brought md base f v w h p =
    touched-Brought md base w.memory _ p (λ b o. ground (arith, h, o)) (λ b r. r) (λ b o. refl)

-- With other words in memory.
abbrev pub with_words : (ℕ → ℕ) → Thread → Thread
with_words f w = record w { memory = record w.memory { word = f } }

-- `n` words from `from` on, at `to`.
abbrev pub copied : ℕ → ℕ → ℕ → (ℕ → ℕ) → ℕ → ℕ
copied n from to f b =
    if leb to b && ltb b (to + n * 8) && (b - to) % 8 == 0 then f (from + (b - to)) else f b

copied_step :
    (n from to : ℕ) (f : ℕ → ℕ) (b : ℕ)
    → (from + suc n * 8 ≤ to) ⊎ (to + suc n * 8 ≤ from)
    → copied n from to (update f (to + n * 8) (f (from + n * 8))) b ≡ copied (suc n) from to f b
copied_step n from to f b (inl h) = ground (arith, h)
copied_step n from to f b (inr h) = ground (arith, h)

pub copy_words-copied :
    (n from to : ℕ) (w : Thread)
    → (from + n * 8 ≤ to) ⊎ (to + n * 8 ≤ from)
    → ((i : ℕ) → i < n * 8 → w.memory.readable (from + i) ≡ true)
    → ((i : ℕ) → i < n * 8 → w.memory.writable (to + i) ≡ true)
    → (f : ℕ → ℕ) × (copy_words n from to w ≡ some (tt, with_words f w))
      × ((b : ℕ) → f b ≡ copied n from to w.memory.word b)
unfolding copy_words
copy_words-copied zero from to w apart r o = (w.memory.word, refl, λ b. ground arith)
copy_words-copied (suc n) from to w apart r o =
    let w1 = set_word (to + n * 8) (w.memory.word (from + n * 8)) w in
    let readable = r (n * 8) (omega arith) in
    let writable = o (n * 8) (omega arith) in
    let (f, run, e) =
      copy_words-copied n from to w1
        (elim apart [ inl h ↦ inl (omega (arith, h)) | inr h ↦ inr (omega (arith, h)) ])
        (λ i l. r i (omega (arith, l))) (λ i l. o i (omega (arith, l))) in
    (
      f,
      rw (◌>>=◌, ◌>>◌, readable, writable, run),
      λ b. e b ∙ copied_step n from to w.memory.word b apart,
    )
