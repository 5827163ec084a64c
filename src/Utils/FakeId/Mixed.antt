-- ===== src/Utils/FakeId/Mixed.antt =====
-- utils/yl_hash_id.go: `mix` keeps the 15 low bits of each group of 18.
use Prim.Native.Nat.{bit_and}
use zhiya.Prelude.{
  ℕ, zero, suc, ◌+◌, ◌-◌, ◌*◌, ◌/◌, ◌%◌, ◌^◌, ◌≤◌, ◌<◌, ◌≡◌, refl, ap, ◌∙◌, arith, lt→ltb, dec_lt,
}
use zhiya.Prelude.Bits.{bit_and_seven, bit_and_56, bit_and_448, bit_and_3584, bit_and_32767}
use zhiya.Utils.FakeId.Base36.{u64_mod}
use zhiya.Utils.FakeId.{shl, sub64, add64, mix_loop, group, mix, octal_digits, groups_of}
use zhiya.Utils.FakeId.Digits.{groups_of-octal_digits, octal_digits_range}

-- A group, without overflow.
abbrev group_value : ℕ → ℕ → ℕ → ℕ
group_value md number check = number % 32768 + check / 8 ^ md % 8 * 32768

group_lem : (md number check : ℕ) → md < 4 → group md number check ≡ group_value md number check
unfolding group
group_lem zero number check h = omega (arith, bit_and_seven check, bit_and_32767 number)
group_lem (suc zero) number check h = omega (arith, bit_and_56 check, bit_and_32767 number)
group_lem (suc (suc zero)) number check h = omega (arith, bit_and_448 check, bit_and_32767 number)
group_lem (suc (suc (suc zero))) number check h =
    omega (arith, bit_and_3584 check, bit_and_32767 number)
group_lem (suc (suc (suc (suc n)))) number check h = absurd (omega arith)

-- One round of the loop over the groups, and its end.
mix_loop_step :
    (fuel md number check digit i ret : ℕ)
    → md < 4
    → 0 < digit
    → mix_loop (suc fuel) (suc md) number check digit i ret
      ≡ mix_loop fuel md
          (number / 32768)
          check
          (digit - 5)
          (i + 18)
          (add64 ret (shl (group_value md number check) i))
unfolding mix_loop
mix_loop_step fuel md number check digit i ret small more =
    let e : sub64 (suc md) 1 ≡ md = omega arith in
    rw (lt→ltb 0 digit more, e, group_lem md number check small) refl

mix_loop_done :
    (fuel md number check digit i ret : ℕ)
    → digit ≡ 0
    → mix_loop fuel md number check digit i ret ≡ ret
unfolding mix_loop
mix_loop_done zero md number check digit i ret e = refl
mix_loop_done (suc fuel) md number check digit i ret e = rw e

-- The value that an entry of the loop has, after all rounds.
abbrev placed : ℕ → ℕ → ℕ → ℕ → ℕ
placed md number check i = shl (group_value md number check) i

module _ (n check d : ℕ) where
  loop_one : 0 < d → d ≤ 5 → mix_loop 5 1 n check d 0 0 ≡ add64 0 (placed 0 n check 0)
  loop_one p q =
      mix_loop_step 4 0 n check d 0 0 (omega arith) p
      ∙ mix_loop_done 4 0 _ _ (d - 5) 18 _ (omega arith)

  loop_two :
      5 < d
      → d ≤ 10
      → mix_loop 5 2 n check d 0 0
        ≡ add64 (add64 0 (placed 1 n check 0)) (placed 0 (n / 32768) check 18)
  loop_two p q =
      mix_loop_step 4 1 n check d 0 0 (omega arith) (omega arith)
      ∙ mix_loop_step 3 0 _ check (d - 5) 18 _ (omega arith) (omega arith)
      ∙ mix_loop_done 3 0 _ _ (d - 5 - 5) 36 _ (omega arith)

  loop_three :
      10 < d
      → d ≤ 15
      → mix_loop 5 3 n check d 0 0
        ≡ add64
            (add64 (add64 0 (placed 2 n check 0)) (placed 1 (n / 32768) check 18))
            (placed 0 (n / 32768 / 32768) check 36)
  loop_three p q =
      mix_loop_step 4 2 n check d 0 0 (omega arith) (omega arith)
      ∙ mix_loop_step 3 1 _ check (d - 5) 18 _ (omega arith) (omega arith)
      ∙ mix_loop_step 2 0 _ check (d - 5 - 5) 36 _ (omega arith) (omega arith)
      ∙ mix_loop_done 2 0 _ _ (d - 5 - 5 - 5) 54 _ (omega arith)

  loop_four :
      15 < d
      → d ≤ 20
      → mix_loop 5 4 n check d 0 0
        ≡ add64
            (add64
              (add64 (add64 0 (placed 3 n check 0)) (placed 2 (n / 32768) check 18))
              (placed 1 (n / 32768 / 32768) check 36))
            (placed 0 (n / 32768 / 32768 / 32768) check 54)
  loop_four p q =
      mix_loop_step 4 3 n check d 0 0 (omega arith) (omega arith)
      ∙ mix_loop_step 3 2 _ check (d - 5) 18 _ (omega arith) (omega arith)
      ∙ mix_loop_step 2 1 _ check (d - 5 - 5) 36 _ (omega arith) (omega arith)
      ∙ mix_loop_step 1 0 _ check (d - 5 - 5 - 5) 54 _ (omega arith) (omega arith)
      ∙ mix_loop_done 1 0 _ _ (d - 5 - 5 - 5 - 5) 72 _ (omega arith)

-- `m` has the data bits of `n`, 15 in each group of 18.
pub record IsMixed (n m : ℕ) : Type 0 where
  pub fits : m < 2 ^ 59
  pub low : m % 32768 ≡ n % 32768
  pub second : m / 2 ^ 18 % 32768 ≡ n / 2 ^ 15 % 32768
  pub third : m / 2 ^ 36 % 32768 ≡ n / 2 ^ 30 % 32768
  pub top : m / 2 ^ 54 ≡ n / 2 ^ 45

IsMixed-one : (n check : ℕ) → n < 2 ^ 15 → IsMixed n (add64 0 (placed 0 n check 0))
IsMixed-one n check h = omega arith

IsMixed-two :
    (n check : ℕ)
    → n < 2 ^ 30
    → IsMixed n (add64 (add64 0 (placed 1 n check 0)) (placed 0 (n / 32768) check 18))
IsMixed-two n check h = omega arith

IsMixed-three :
    (n check : ℕ)
    → n < 2 ^ 45
    → IsMixed n (
        add64
          (add64 (add64 0 (placed 2 n check 0)) (placed 1 (n / 32768) check 18))
          (placed 0 (n / 32768 / 32768) check 36))
IsMixed-three n check h = omega arith

-- The check digit of the fourth group is shifted out of the 64 bits.
IsMixed-four :
    (n check : ℕ)
    → n < 2 ^ 50
    → IsMixed n (
        add64
          (add64
            (add64 (add64 0 (placed 3 n check 0)) (placed 2 (n / 32768) check 18))
            (placed 1 (n / 32768 / 32768) check 36))
          (placed 0 (n / 32768 / 32768 / 32768) check 54))
IsMixed-four n check h = omega arith

abbrev check_of : ℕ → ℕ
check_of n = bit_and n (sub64 (shl 1 (3 * groups_of (octal_digits n))) 1)

-- What `mix` returns, once the number of groups is known.
mix-mix_loop :
    (n a : ℕ)
    → n < u64_mod
    → 8 ^ (5 * a) ≤ n
    → n < 8 ^ (5 * a + 5)
    → mix n ≡ mix_loop 5 (a + 1) n (check_of n) (octal_digits n) 0 0
unfolding mix
mix-mix_loop n a fits lo hi =
    ap (λ md. mix_loop 5 md n (check_of n) (octal_digits n) 0 0)
      (groups_of-octal_digits n a fits lo hi)

-- The data bits of every number below 2 ^ 50 survive in `mix`.
pub mix-IsMixed : (n : ℕ) → 0 < n → n < 2 ^ 50 → IsMixed n (mix n)
mix-IsMixed n pos h = elim (dec_lt n (2 ^ 15)) [
  | yes b ↦
      let (p, q) = octal_digits_range n 0 (omega arith) pos b in
      rw (mix-mix_loop n 0 (omega arith) pos b, loop_one n (check_of n) (octal_digits n) p q)
        (IsMixed-one n (check_of n) b)
  | no b ↦ elim (dec_lt n (2 ^ 30)) [
    | yes c ↦
        let (p, q) = octal_digits_range n 1 (omega arith) (omega arith) c in
        rw
          (
            mix-mix_loop n 1 (omega arith) (omega arith) c,
            loop_two n (check_of n) (octal_digits n) p q,
          )
          (IsMixed-two n (check_of n) c)
    | no c ↦ elim (dec_lt n (2 ^ 45)) [
      | yes d ↦
          let (p, q) = octal_digits_range n 2 (omega arith) (omega arith) d in
          rw
            (
              mix-mix_loop n 2 (omega arith) (omega arith) d,
              loop_three n (check_of n) (octal_digits n) p q,
            )
            (IsMixed-three n (check_of n) d)
      | no d ↦
          let (p, q) = octal_digits_range n 3 (omega arith) (omega arith) (omega arith) in
          rw
            (
              mix-mix_loop n 3 (omega arith) (omega arith) (omega arith),
              loop_four n (check_of n) (octal_digits n) p q,
            )
            (IsMixed-four n (check_of n) h)
    ]
  ]
]
