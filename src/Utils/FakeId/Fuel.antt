-- ===== src/Utils/FakeId/Fuel.antt =====
-- utils/yl_hash_id.go: the loops of `mix` and `demix` end.
use native.Mathlib.Nat.{pow-suc, pow-le-pow_right}
use zhiya.Prelude.{
  ℕ, zero, suc, ◌+◌, ◌-◌, ◌*◌, ◌^◌, ◌≤◌, ◌<◌, ◌≡◌, refl, true, false, inl, inr, arith, dec_lt, ltb,
}
use zhiya.Utils.FakeId.Base36.{u64_mod}
use zhiya.Utils.FakeId.Digits.{octal_digits-IsDigitCount}
use zhiya.Utils.FakeId.{
  mix_loop, demix_loop, octal_digits, group, shl, shr, sub64, add64, count_digits,
}
use Prim.Native.Nat.{bit_and}

-- The loops of the source, without fuel: a loop on these variables ends, and with this result.
pub data CountEnds : ℕ → ℕ → ℕ → Type 0 where
  stops : {ret digit r : ℕ} → ret ≡ 0 → r ≡ digit → CountEnds ret digit r
  goes_on :
      {ret digit r : ℕ} → 0 < ret → CountEnds (shr ret 3) (digit + 1) r → CountEnds ret digit r

pub data MixEnds (mix : ℕ) : ℕ → ℕ → ℕ → ℕ → ℕ → ℕ → Type 0 where
  stops : {md number digit i ret r : ℕ} → digit ≡ 0 → r ≡ ret → MixEnds mix md number digit i ret r
  goes_on :
      {md number digit i ret r : ℕ}
      → 0 < digit
      → MixEnds mix
          (sub64 md 1)
          (shr number 15)
          (digit - 5)
          (i + 18)
          (add64 ret (shl (group (sub64 md 1) number mix) i))
          r
      → MixEnds mix md number digit i ret r

pub data DemixEnds : ℕ → ℕ → ℕ → ℕ → Type 0 where
  stops : {number dig ret r : ℕ} → number ≡ 0 → r ≡ ret → DemixEnds number dig ret r
  goes_on :
      {number dig ret r : ℕ}
      → 0 < number
      → DemixEnds (shr number 18) (dig + 15) (add64 ret (shl (bit_and number 32767) dig)) r
      → DemixEnds number dig ret r

count_digits-CountEnds :
    (f ret digit : ℕ) → ret < 8 ^ f → CountEnds ret digit (count_digits f ret digit)
unfolding count_digits
count_digits-CountEnds zero ret digit h = CountEnds.stops (omega (arith, h)) refl
count_digits-CountEnds (suc f) ret digit h = elim (dec_lt 0 ret) [
  | yes p ↦
      let b : ltb 0 ret ≡ true = ground (arith, p) in
      rw (count_digits, b)
        (CountEnds.goes_on p
          (count_digits-CountEnds f (shr ret 3) (digit + 1) (omega (arith, h, pow-suc 8 f))))
  | no n ↦
      let b : ltb 0 ret ≡ false = ground (arith, n) in
      CountEnds.stops (omega (arith, n)) (rw (count_digits, b) refl)
]

mix_loop-MixEnds :
    (f md number mix digit i ret : ℕ)
    → digit ≤ 5 * f
    → MixEnds mix md number digit i ret (mix_loop f md number mix digit i ret)
unfolding mix_loop
mix_loop-MixEnds zero md number mix digit i ret h = MixEnds.stops (omega (arith, h)) refl
mix_loop-MixEnds (suc f) md number mix digit i ret h = elim (dec_lt 0 digit) [
  | yes p ↦
      let b : ltb 0 digit ≡ true = ground (arith, p) in
      rw (mix_loop, b)
        (MixEnds.goes_on p (
          mix_loop-MixEnds f (sub64 md 1) (shr number 15) mix (digit - 5) (i + 18)
            (add64 ret (shl (group (sub64 md 1) number mix) i)) (omega (arith, h))))
  | no n ↦
      let b : ltb 0 digit ≡ false = ground (arith, n) in
      MixEnds.stops (omega (arith, n)) (rw (mix_loop, b) refl)
]

demix_loop-DemixEnds :
    (f number dig ret : ℕ)
    → number < 262144 ^ f
    → DemixEnds number dig ret (demix_loop f number dig ret)
unfolding demix_loop
demix_loop-DemixEnds zero number dig ret h = DemixEnds.stops (omega (arith, h)) refl
demix_loop-DemixEnds (suc f) number dig ret h = elim (dec_lt 0 number) [
  | yes p ↦
      let b : ltb 0 number ≡ true = ground (arith, p) in
      rw (demix_loop, b)
        (DemixEnds.goes_on p (
          demix_loop-DemixEnds f (shr number 18) (dig + 15)
            (add64 ret (shl (bit_and number 32767) dig)) (omega (arith, h, pow-suc 262144 f))))
  | no n ↦
      let b : ltb 0 number ≡ false = ground (arith, n) in
      DemixEnds.stops (omega (arith, n)) (rw (demix_loop, b) refl)
]

digits_le : (n : ℕ) → n < u64_mod → octal_digits n ≤ 22
digits_le n h = elim (octal_digits-IsDigitCount n h).above [
  | inl none' ↦ omega arith
  | inr many ↦ elim (dec_lt 22 (octal_digits n)) [
    | yes more ↦ absurd (omega (arith, many, pow-le-pow_right {n = 8} (omega arith) more))
    | no few ↦ omega arith
  ]
]

-- For every uint64 the three loops of the source end: the one that counts the octal digits, that
-- over the groups, for any number of groups and check value, and that of the decoding. Their
-- results are those of the definitions, with 22, five and four rounds.
pub loops_end :
    (n md check : ℕ)
    → n < u64_mod
    → CountEnds n 0 (octal_digits n)
      × MixEnds check md n (octal_digits n) 0 0 (mix_loop 5 md n check (octal_digits n) 0 0)
      × DemixEnds n 0 0 (demix_loop 4 n 0 0)
unfolding octal_digits
loops_end n md check h =
    let few = digits_le n h in
    (
      count_digits-CountEnds 22 n 0 (omega (arith, h)),
      mix_loop-MixEnds 5 md n check (octal_digits n) 0 0 (omega (arith, few)),
      demix_loop-DemixEnds 4 n 0 0 (omega (arith, h)),
    )
