-- ===== src/Prelude/Bits.antt =====
-- `bit_and` with the two masks that the program uses: the lowest k bits, and three bits at k.
use native.Mathlib.Decide.{dec_lt}
use native.Mathlib.Omega.{arith}
use mathlib.Core.Path.{◌∙◌, ap, refl, ◌≡◌}
use Prim.Native.Nat.{bit_and, bit_and-bitwise, digits, min, ◌≤◌, ◌%◌, ◌/◌, ◌*◌, ◌+◌, suc, zero, ℕ}

-- What `bit_and` stands for: so many rounds, one binary digit each.
abbrev rounds : ℕ → ℕ → ℕ → ℕ
rounds = digits (λ _. zero) min

one_more_round : (n x y : ℕ) → x ≤ n → rounds (suc n) x y ≡ rounds n x y
one_more_round zero zero y h = refl
one_more_round (suc n) zero y h = refl
one_more_round zero (suc x) y h = absurd (omega arith)
one_more_round (suc n) (suc x) y h =
    omega (arith, one_more_round n (suc x / 2) (y / 2) (omega arith))

-- A number is its own bound on the rounds.
enough_rounds : (n x y : ℕ) → x ≤ n → rounds n x y ≡ rounds x x y
enough_rounds zero zero y h = refl
enough_rounds zero (suc x) y h = absurd (omega arith)
enough_rounds (suc n) x y h = elim (dec_lt n x) [
  | yes above ↦ let e : suc n ≡ x = omega arith in ap (λ k. rounds k x y) e
  | no below ↦ one_more_round n x y (omega arith) ∙ enough_rounds n x y (omega arith)
]

-- The law for the lowest binary digit.
pub bit_and_step : (x y : ℕ) → bit_and x y ≡ min (x % 2) (y % 2) + 2 * bit_and (x / 2) (y / 2)
bit_and_step zero y =
    let left : bit_and 0 y ≡ 0 = bit_and-bitwise 0 y in
    let right : bit_and 0 (y / 2) ≡ 0 = bit_and-bitwise 0 (y / 2) in omega arith
bit_and_step (suc x) y =
    let half = suc x / 2 in
    let whole = bit_and-bitwise (suc x) y in
    let part = enough_rounds x half (y / 2) (omega arith) in
    omega (arith, whole, part, bit_and-bitwise half (y / 2))

no_mask : (n x : ℕ) → rounds n x 0 ≡ 0
no_mask zero zero = refl
no_mask zero (suc x) = refl
no_mask (suc n) zero = refl
no_mask (suc n) (suc x) = omega (arith, no_mask n (suc x / 2))

bit_and-zero : (x : ℕ) → bit_and x 0 ≡ 0
bit_and-zero x = bit_and-bitwise x 0 ∙ no_mask x x

bit_and-one : (x : ℕ) → bit_and x 1 ≡ x % 2
bit_and-one x =
    let rest = bit_and-zero (x / 2) in let last = bit_and_step x 1 in omega (arith, rest, last)

-- `x & 3`, `x & 7`, `x & 15`, `x & 255`, `x & 32767`: the low bits.
bit_and-three : (x : ℕ) → bit_and x 3 ≡ x % 4
bit_and-three x = omega (arith, bit_and-one (x / 2), bit_and_step x 3)

pub bit_and_seven : (x : ℕ) → bit_and x 7 ≡ x % 8
bit_and_seven x = omega (arith, bit_and-three (x / 2), bit_and_step x 7)

pub bit_and_15 : (a : ℕ) → bit_and a 15 ≡ a % 16
bit_and_15 a = omega (arith, bit_and_step a 15, bit_and_seven (a / 2))

pub bit_and_63 : (a : ℕ) → bit_and a 63 ≡ a % 64
bit_and_63 a = omega (arith, bit_and_step a 63, bit_and_step (a / 2) 31, bit_and_15 (a / 2 / 2))

pub bit_and_255 : (a : ℕ) → bit_and a 255 ≡ a % 256
bit_and_255 a = omega (arith, bit_and_step a 255, bit_and_step (a / 2) 127, bit_and_63 (a / 2 / 2))

pub bit_and_511 : (a : ℕ) → bit_and a 511 ≡ a % 512
bit_and_511 a = omega (arith, bit_and_step a 511, bit_and_255 (a / 2))

pub bit_and_4095 : (a : ℕ) → bit_and a 4095 ≡ a % 4096
bit_and_4095 a = omega (
  arith,
  bit_and_step a 4095,
  bit_and_step (a / 2) 2047,
  bit_and_step (a / 2 / 2) 1023,
  bit_and_511 (a / 2 / 2 / 2),
)

pub bit_and_32767 : (a : ℕ) → bit_and a 32767 ≡ a % 32768
bit_and_32767 a = omega (
  arith,
  bit_and_step a 32767,
  bit_and_step (a / 2) 16383,
  bit_and_step (a / 2 / 2) 8191,
  bit_and_4095 (a / 2 / 2 / 2),
)

-- `a & (7 << k)`: three bits, left in their place.
pub bit_and_56 : (a : ℕ) → bit_and a 56 ≡ a / 8 % 8 * 8
bit_and_56 a = omega (
  arith,
  bit_and_step a 56,
  bit_and_step (a / 2) 28,
  bit_and_step (a / 2 / 2) 14,
  bit_and_seven (a / 2 / 2 / 2),
)

pub bit_and_448 : (a : ℕ) → bit_and a 448 ≡ a / 64 % 8 * 64
bit_and_448 a = omega (
  arith,
  bit_and_step a 448,
  bit_and_step (a / 2) 224,
  bit_and_step (a / 2 / 2) 112,
  bit_and_56 (a / 2 / 2 / 2),
)

pub bit_and_3584 : (a : ℕ) → bit_and a 3584 ≡ a / 512 % 8 * 512
bit_and_3584 a = omega (
  arith,
  bit_and_step a 3584,
  bit_and_step (a / 2) 1792,
  bit_and_step (a / 2 / 2) 896,
  bit_and_448 (a / 2 / 2 / 2),
)
