-- ===== src/Utils/FakeId/Digits.antt =====
-- utils/yl_hash_id.go: the number of octal digits, and of groups of five of them.
use native.Mathlib.Nat.{pow-suc, zero-add, pow-le-pow_right}
use zhiya.Prelude.{
  ℕ, zero, suc, ◌+◌, ◌*◌, ◌/◌, ◌^◌, ◌≤◌, ◌<◌, ◌≡◌, ◌⊎◌, refl, inl, inr, arith, ltb, Bool-cases,
  ltb→lt, dec_lt,
}
use zhiya.Utils.FakeId.Base36.{u64_mod}
use zhiya.Utils.FakeId.{count_digits, octal_digits, groups_of}

-- `k` is the number of octal digits of `n`.
pub record IsDigitCount (n k : ℕ) : Type 0 where
  pub below : n < 8 ^ k
  pub above : (k ≡ 0) ⊎ (8 ^ k ≤ 8 * n)

above_step : (n k : ℕ) → 0 < n → (k ≡ 0) ⊎ (8 ^ k ≤ 8 * (n / 8)) → 8 ^ suc k ≤ 8 * n
above_step n k pos (inl e) = rw e (omega arith)
above_step n k pos (inr h) = omega (arith, pow-suc 8 k)

IsDigitCount-suc : (n k : ℕ) → 0 < n → IsDigitCount (n / 8) k → IsDigitCount n (suc k)
IsDigitCount-suc n k pos c = record {
  below = omega (arith, pow-suc 8 k, c.below);
  above = inr (above_step n k pos c.above);
}

count_digits_lem :
    (fuel ret digit : ℕ)
    → ret < 8 ^ fuel
    → (k : ℕ) × (count_digits fuel ret digit ≡ digit + k) × IsDigitCount ret k
unfolding count_digits
count_digits_lem zero ret digit h = (0, omega arith, record { below = h; above = inl refl })
count_digits_lem (suc f) ret digit h = elim (Bool-cases (ltb 0 ret)) [
  | inl more ↦
      let (k, e, c) = count_digits_lem f (ret / 8) (digit + 1) (omega (arith, pow-suc 8 f)) in
      (suc k, rw more (omega (arith, e)), IsDigitCount-suc ret k (ltb→lt 0 ret more) c)
  | inr done ↦ (0, rw done (omega arith), record { below = ground arith; above = inl refl })
]

-- For every uint64 the loop counts exactly the octal digits: no more than its 22 rounds are needed.
pub octal_digits-IsDigitCount : (n : ℕ) → n < u64_mod → IsDigitCount n (octal_digits n)
unfolding octal_digits
octal_digits-IsDigitCount n h =
    let (k, e, c) = count_digits_lem 22 n 0 (omega arith) in rw (e, zero-add) c

module _ (n : ℕ) {k : ℕ} (c : IsDigitCount n k) where
  -- A number with more than `a` digits is at least 8 ^ a.
  digits-le : (a : ℕ) → n < 8 ^ a → k ≤ a
  digits-le a h = elim (dec_lt a k) [
    | yes more ↦ absurd (elim c.above [
      | inl z ↦ omega arith
      | inr big ↦ omega (arith, pow-le-pow_right {n = 8} (omega arith) more, pow-suc 8 a)
    ])
    | no less ↦ omega arith
  ]

  digits-lt : (a : ℕ) → 8 ^ a ≤ n → a < k
  digits-lt a h = elim (dec_lt a k) [
    | yes more ↦ more
    | no less ↦
        let q : 8 ^ k ≤ 8 ^ a = pow-le-pow_right (omega arith) (omega arith) in
        absurd (omega (arith, c.below))
  ]

-- The number of groups of 15 bits.
pub groups_of-octal_digits :
    (n a : ℕ)
    → n < u64_mod
    → 8 ^ (5 * a) ≤ n
    → n < 8 ^ (5 * a + 5)
    → groups_of (octal_digits n) ≡ a + 1
groups_of-octal_digits n a fits lo hi =
    let c = octal_digits-IsDigitCount n fits in
    omega (arith, digits-lt n c (5 * a) lo, digits-le n c (5 * a + 5) hi)

-- The digits lie in the same group.
pub octal_digits_range :
    (n a : ℕ)
    → n < u64_mod
    → 8 ^ (5 * a) ≤ n
    → n < 8 ^ (5 * a + 5)
    → (5 * a < octal_digits n) × (octal_digits n ≤ 5 * a + 5)
octal_digits_range n a fits lo hi =
    let c = octal_digits-IsDigitCount n fits in
    (digits-lt n c (5 * a) lo, digits-le n c (5 * a + 5) hi)
