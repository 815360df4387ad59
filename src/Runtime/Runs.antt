-- ===== src/Runtime/Runs.antt =====
-- Steps of the monad of FlashStack/gs.rsp.c's model.
use flash_stack.Base.{ℕ, ◌≡◌, true, Option, none, some, arith}
use flash_stack.Runtime.{World, M, load, store, set_word}

pub load-at :
    (a v : ℕ) (w : World) → w.space.mapped a ≡ true → w.space.word a ≡ v → load a w ≡ some (v, w)
load-at a v w h e = rw (h, e)

pub store-at :
    (a v : ℕ) (w : World) → w.space.mapped a ≡ true → store a v w ≡ some (tt, set_word a v w)
store-at a v w h = rw h

-- What follows a computation, given its outcome.
abbrev pub follow : {A B : Type 0} → (A → M B) → Option (A × World) → Option (B × World)
follow f none = none
follow f (some (a, w)) = f a w

pub word-set_word : (a v : ℕ) (w : World) → (set_word a v w).space.word a ≡ v
word-set_word a v w = ground arith
