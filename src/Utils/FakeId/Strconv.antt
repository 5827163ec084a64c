-- ===== src/Utils/FakeId/Strconv.antt =====
-- utils/yl_hash_id.go: the text of a number reads back as the number.
use mathlib.Core.List.{map}
use native.Mathlib.Nat.{pow-suc}
use zhiya.Prelude.{
  ℕ, zero, suc, ◌+◌, ◌*◌, ◌/◌, ◌%◌, ◌^◌, ◌<◌, ◌≡◌, refl, some, ap, ◌∙◌, if◌then◌else◌, List, [],
  ◌∷◌, inl, inr, arith, ltb, Bool-cases, ltb→lt,
}
use zhiya.Utils.FakeId.Base36.{
  u64_mod, int64_min, digit_char, format_bits, format_int, to_upper, digit_value, parse_digits,
  parse_uint,
}

digit_value-digit_char : (d : ℕ) → d < 36 → digit_value (to_upper (digit_char d)) ≡ some d
unfolding digit_value to_upper digit_char
digit_value-digit_char d h = ground arith

-- One digit read: the value so far stays in the range of a uint64.
parse_digits-digit :
    (n d : ℕ) (cs : List ℕ)
    → d < 36
    → n * 36 + d < u64_mod
    → parse_digits n (to_upper (digit_char d) ∷ cs) ≡ parse_digits (n * 36 + d) cs
unfolding parse_digits
parse_digits-digit n d cs h fits = rw (digit_value-digit_char d h, parse_digits) (ground arith)

div_below : (f n : ℕ) → n < 36 ^ suc f → n / 36 < 36 ^ f
div_below f n h = omega (arith, pow-suc 36 f)

parse_digits-format_bits :
    (f n : ℕ) (acc : List ℕ)
    → n < 36 ^ f
    → n < u64_mod
    → parse_digits 0 (map to_upper (format_bits f n acc)) ≡ parse_digits n (map to_upper acc)
unfolding format_bits
parse_digits-format_bits zero n acc h fits = let e : n ≡ 0 = omega arith in rw e
parse_digits-format_bits (suc f) n acc h fits = elim (Bool-cases (ltb n 36)) [
  | inl small ↦ rw small (
      parse_digits-digit 0 n (map to_upper acc) (ltb→lt n 36 small) (omega arith)
      ∙ ap (λ k. parse_digits k (map to_upper acc)) (omega arith))
  | inr large ↦ rw large (
      parse_digits-format_bits f (n / 36) (digit_char (n % 36) ∷ acc) (div_below f n h)
        (omega arith)
      ∙ parse_digits-digit (n / 36) (n % 36) (map to_upper acc) (omega arith) (omega arith)
      ∙ ap (λ k. parse_digits k (map to_upper acc)) (omega arith))
]

parse_uint-parse_digits : (cs : List ℕ) → parse_uint cs ≡ parse_digits 0 cs
unfolding parse_uint
parse_uint-parse_digits [] = refl
parse_uint-parse_digits (c ∷ cs) = refl

-- A nonnegative int64 reads back; `-` is no digit of a uint64, and a negative one reads as 0.
pub parse_uint-format_int :
    (u : ℕ)
    → u < u64_mod
    → parse_uint (map to_upper (format_int u)) ≡ (if ltb u int64_min then u else 0)
unfolding format_int parse_digits
parse_uint-format_int u h = elim (Bool-cases (ltb u int64_min)) [
  | inl low ↦ rw (parse_uint-parse_digits, low) (parse_digits-format_bits 13 u [] (omega arith) h)
  | inr high ↦ rw (parse_uint-parse_digits, high) (unfold parse_digits to_upper in refl)
]
