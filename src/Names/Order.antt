-- ===== src/Names/Order.antt =====
-- The order of strcmp, on which the search in the table of protected functions rests.
use flash_stack.Base.{◌≡◌, ◌≢◌, ◌⊎◌, inl, inr, refl, [], ◌∷◌, Ordering, arith, Bytes, strcmp}

pub strcmp_refl : (a : Bytes) → strcmp a a ≡ Ordering.eq
unfolding strcmp
strcmp_refl [] = refl
strcmp_refl (c ∷ a) = ground (arith, strcmp_refl a)

pub eq_of_strcmp : (a b : Bytes) → strcmp a b ≡ Ordering.eq → a ≡ b
unfolding strcmp
eq_of_strcmp [] [] h = refl
eq_of_strcmp [] (d ∷ b) h = ground arith
eq_of_strcmp (c ∷ a) [] h = ground arith
eq_of_strcmp (c ∷ a) (d ∷ b) h = ground (arith, eq_of_strcmp a b)

-- What lies above `b` lies above all that is not above `b`.
pub gt_of_gt_of_le :
    (a b c : Bytes) → strcmp a b ≡ Ordering.gt → strcmp c b ≢ Ordering.gt → strcmp a c ≡ Ordering.gt
unfolding strcmp
gt_of_gt_of_le [] [] c h k = ground arith
gt_of_gt_of_le [] (y ∷ b) c h k = ground arith
gt_of_gt_of_le (x ∷ a) b [] h k = refl
gt_of_gt_of_le (x ∷ a) [] (z ∷ c) h k = ground arith
gt_of_gt_of_le (x ∷ a) (y ∷ b) (z ∷ c) h k = ground (arith, gt_of_gt_of_le a b c)

pub lt_of_lt_of_le :
    (a b c : Bytes) → strcmp a b ≡ Ordering.lt → strcmp b c ≢ Ordering.gt → strcmp a c ≡ Ordering.lt
unfolding strcmp
lt_of_lt_of_le [] [] c h k = ground arith
lt_of_lt_of_le (x ∷ a) [] c h k = ground arith
lt_of_lt_of_le [] (y ∷ b) [] h k = ground arith
lt_of_lt_of_le [] (y ∷ b) (z ∷ c) h k = refl
lt_of_lt_of_le (x ∷ a) (y ∷ b) [] h k = ground arith
lt_of_lt_of_le (x ∷ a) (y ∷ b) (z ∷ c) h k = ground (arith, lt_of_lt_of_le a b c)

pub Ordering-cases : (o : Ordering) → (o ≡ Ordering.lt) ⊎ ((o ≡ Ordering.eq) ⊎ (o ≡ Ordering.gt))
Ordering-cases Ordering.lt = inl refl
Ordering-cases Ordering.eq = inr (inl refl)
Ordering-cases Ordering.gt = inr (inr refl)
