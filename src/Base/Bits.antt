-- ===== src/Base/Bits.antt =====
-- `bit_and` with a mask of ones, low or high.
use Prim.Native.Nat.{
  ℕ, zero, suc, ◌+◌, ◌*◌, ◌-◌, ◌/◌, ◌%◌, ◌^◌, ◌≤◌, ◌<◌, min, bit_and, digits, bit_and-bitwise,
}
use mathlib.Core.Path.{◌≡◌, refl, sym, ap, ◌∙◌}
use native.Mathlib.Omega.{arith}

-- `bit_and` as it computes, on a count of digits that may be larger than is needed.
abbrev anded : ℕ → ℕ → ℕ → ℕ
anded = digits (λ _. 0) min

anded-nothing : (count y : ℕ) → anded count 0 y ≡ 0
anded-nothing zero y = refl
anded-nothing (suc count) y = refl

anded-no_mask : (count x : ℕ) → anded count x 0 ≡ 0
anded-no_mask zero x = refl
anded-no_mask (suc count) zero = refl
anded-no_mask (suc count) (suc x) = omega (arith, anded-no_mask count (suc x / 2))

any_count : (x y m k : ℕ) → x ≤ m → x ≤ k → anded m x y ≡ anded k x y
any_count zero y m k _ _ = anded-nothing m y ∙ sym (anded-nothing k y)
any_count (suc x) y zero k few _ = absurd (omega arith)
any_count (suc x) y (suc m) zero _ few = absurd (omega arith)
any_count (suc x) y (suc m) (suc k) le le' =
    ap (λ rest. rest * 2 + min (suc x % 2) (y % 2))
      (any_count (suc x / 2) (y / 2) m k (omega arith) (omega arith))

-- The lowest digit apart.
bit_and_step : (x y : ℕ) → bit_and x y ≡ bit_and (x / 2) (y / 2) * 2 + min (x % 2) (y % 2)
bit_and_step zero y = bit_and-bitwise 0 y ∙ omega (arith, bit_and-bitwise 0 (y / 2))
bit_and_step (suc x) y =
    let half = suc x / 2 in
    let fewer = any_count half (y / 2) x half (omega arith) (omega arith) in
    bit_and-bitwise (suc x) y ∙ omega (arith, bit_and-bitwise half (y / 2), fewer)

bit_and-zero : (x : ℕ) → bit_and x 0 ≡ 0
bit_and-zero x = bit_and-bitwise x 0 ∙ anded-no_mask x x

-- Multiplied by two, and halved, `k` times; the mask of `k` ones.
abbrev doubled : ℕ → ℕ → ℕ
doubled zero a = a
doubled (suc k) a = 2 * doubled k a

abbrev halved : ℕ → ℕ → ℕ
halved zero a = a
halved (suc k) a = halved k (a / 2)

abbrev ones : ℕ → ℕ
ones zero = 0
ones (suc k) = 2 * ones k + 1

bit_and-low :
    (k a : ℕ) → (a ≡ doubled k (halved k a) + bit_and a (ones k)) × (bit_and a (ones k) ≤ ones k)
bit_and-low zero a = let z = bit_and-zero a in (omega (arith, z), omega (arith, z))
bit_and-low (suc k) a =
    let (e, b) = bit_and-low k (a / 2) in
    let s = bit_and_step a (2 * ones k + 1) in
    let h : (2 * ones k + 1) / 2 ≡ ones k = omega arith in
    let s' = rw h at s in (omega (arith, e, s'), omega (arith, b, s'))

bit_and-doubled : (k a m : ℕ) → bit_and a (doubled k m) ≡ doubled k (bit_and (halved k a) m)
bit_and-doubled zero a m = refl
bit_and-doubled (suc k) a m =
    let h : (2 * doubled k m) / 2 ≡ doubled k m = omega arith in
    let s = rw h at (bit_and_step a (2 * doubled k m)) in
    omega (arith, s, bit_and-doubled k (a / 2) m)

bit_and-all : (k a : ℕ) → a ≤ ones k → bit_and a (ones k) ≡ a
bit_and-all zero a h = omega (arith, bit_and-zero a)
bit_and-all (suc k) a h =
    let e : (2 * ones k + 1) / 2 ≡ ones k = omega arith in
    let s = rw e at (bit_and_step a (2 * ones k + 1)) in
    omega (arith, s, bit_and-all k (a / 2) (omega arith))

-- The mask of 8 MB keeps the remainder by 8 MB.
pub bit_and_low23 : (a : ℕ) → bit_and a 0x7fffff ≡ a % 0x800000
bit_and_low23 a = let (e, b) = bit_and-low 23 a in omega (arith, e, b)

-- Its complement rounds a 64-bit word down to a multiple of 8 MB.
pub bit_and_high23 : (a : ℕ) → a < 2 ^ 64 → bit_and a (2 ^ 64 - 0x800000) ≡ a - a % 0x800000
bit_and_high23 a h =
    let (e, b) = bit_and-low 23 a in
    let d = bit_and-doubled 23 a (ones 41) in
    let all = bit_and-all 41 (halved 23 a) (omega (arith, e, b, h)) in omega (arith, e, b, d, all)

-- And to a multiple of 32.
pub bit_and_high5 : (a : ℕ) → a < 2 ^ 64 → bit_and a (2 ^ 64 - 32) ≡ a - a % 32
bit_and_high5 a h =
    let (e, b) = bit_and-low 5 a in
    let d = bit_and-doubled 5 a (ones 59) in
    let all = bit_and-all 59 (halved 5 a) (omega (arith, e, b, h)) in omega (arith, e, b, d, all)
