-- ===== src/Utils/FakeId/RoundTrip.antt =====
-- utils/yl_hash_id.go: `FakeIdDecode` inverts `FakeIdEncode` on the numbers below 2 ^ 50, and on no
-- other.
use mathlib.Core.List.{map}
use zhiya.Prelude.{
  ℕ, zero, suc, ◌+◌, ◌*◌, ◌/◌, ◌%◌, ◌^◌, ◌<◌, ◌≡◌, ◌↔◌, refl, ap, ap₂, ◌∙◌, List, [], ◌∷◌, arith,
  ltb, lt→ltb, ltb→lt, inl, inr, if◌then◌else◌, ◌==◌, Bool-cases,
}
use zhiya.Prelude.Bits.{bit_and_255, bit_and_15, bit_and_32767}
use zhiya.Utils.FakeId.Base36.{u64_mod, int64_min, format_int, to_upper, parse_uint}
use zhiya.Utils.FakeId.Mixed.{IsMixed, mix-IsMixed}
use zhiya.Utils.FakeId.Strconv.{parse_uint-format_int}
use zhiya.Utils.FakeId.{
  shr, mix, version, set_version, get_version, demix_loop, demix, seventy_four, fake_id_encode,
  fake_id_decode,
}

-- `set_version` of a number that fits, without overflow: an int64 that is not negative.
set_version_lem : (m : ℕ) → m < 2 ^ 59 → set_version version m ≡ m / 256 * 4096 + 256 + m % 256
unfolding set_version
set_version_lem m h = omega (arith, bit_and_255 m)

get_version-version : (m : ℕ) → m < 2 ^ 59 → (get_version (m / 256 * 4096 + 256 + m % 256)).0 ≡ 1
unfolding get_version
get_version-version m h = omega (arith, bit_and_15 (shr (m / 256 * 4096 + 256 + m % 256) 8))

get_version-mixed : (m : ℕ) → m < 2 ^ 59 → (get_version (m / 256 * 4096 + 256 + m % 256)).1 ≡ m
unfolding get_version
get_version-mixed m h = omega (arith, bit_and_255 (m / 256 * 4096 + 256 + m % 256))

-- The loop of `demix` over the four groups of a 60-bit number.
demix_groups : ℕ → ℕ
demix_groups m =
    m % 32768
    + m / 2 ^ 18 % 32768 * 2 ^ 15
    + m / 2 ^ 36 % 32768 * 2 ^ 30
    + m / 2 ^ 54 % 32768 * 2 ^ 45

demix_loop-demix_groups : (m : ℕ) → m < 2 ^ 60 → demix_loop 4 m 0 0 ≡ demix_groups m
unfolding demix_loop demix_groups
demix_loop-demix_groups m h = ground (
  arith,
  bit_and_32767 m,
  bit_and_32767 (m / 2 ^ 18),
  bit_and_32767 (m / 2 ^ 18 / 2 ^ 18),
  bit_and_32767 (m / 2 ^ 18 / 2 ^ 18 / 2 ^ 18),
)

demix_lem : (v m : ℕ) → m < 2 ^ 60 → get_version v ≡ (1, m) → demix v ≡ demix_groups m
unfolding demix
demix_lem v m h e = rw (e, demix) (demix_loop-demix_groups m h)

IsMixed-demix_groups : (n m : ℕ) → n < 2 ^ 50 → IsMixed n m → demix_groups m ≡ n
unfolding demix_groups
IsMixed-demix_groups n m h x = omega (arith, x.low, x.second, x.third, x.top)

-- `demix` undoes `mix` and `setVersion` below 2 ^ 50.
demix-mix : (n : ℕ) → 0 < n → n < 2 ^ 50 → demix (set_version version (mix n)) ≡ n
demix-mix n pos h =
    let x = mix-IsMixed n pos h in
    rw (set_version_lem (mix n) x.fits) (
      demix_lem _ (mix n) (omega (arith, x.fits)) (
        ap₂ (λ a b. (a, b)) (get_version-version (mix n) x.fits) (get_version-mixed (mix n) x.fits))
      ∙ IsMixed-demix_groups n (mix n) h x)

-- Whatever the number, what is encoded has version 1.
set_version-lt : (m : ℕ) → set_version version m < u64_mod
unfolding set_version
set_version-lt m = omega arith

version_read : (m : ℕ) → (get_version (set_version version m)).0 ≡ 1
unfolding set_version get_version
version_read m = omega (arith, bit_and_255 m, bit_and_15 (shr (set_version version m) 8))

mixed_read-lt : (v : ℕ) → v < int64_min → (get_version v).1 < 2 ^ 59
unfolding get_version
mixed_read-lt v h = omega (arith, bit_and_255 v)

demix_groups-lt : (m : ℕ) → m < 2 ^ 59 → demix_groups m < 2 ^ 50
unfolding demix_groups
demix_groups-lt m h = omega arith

demix-lt : (m : ℕ) → set_version version m < int64_min → demix (set_version version m) < 2 ^ 50
demix-lt m h =
    let v = set_version version m in
    let fits = mixed_read-lt v h in
    rw
      (demix_lem v (get_version v).1 (omega (arith, fits))
        (ap (λ a. (a, (get_version v).1)) (version_read m)))
      (demix_groups-lt (get_version v).1 fits)

seventy_four-zero : demix (parse_uint seventy_four) ≡ 0
unfolding demix get_version parse_uint demix_loop
seventy_four-zero = refl

-- The texts that `FakeIdDecode` treats apart are those that stand for 0 anyway.
decode-demix : (s : List ℕ) → fake_id_decode s ≡ demix (parse_uint s)
unfolding fake_id_decode
decode-demix [] = unfold demix get_version parse_uint in refl
decode-demix (a ∷ b ∷ []) = ground (arith, seventy_four-zero)
decode-demix s = refl

-- What comes back from the encoding of a number other than 0.
decode-encode :
    (n : ℕ)
    → 0 < n
    → fake_id_decode (fake_id_encode n)
      ≡ demix
          (if ltb (set_version version (mix n)) int64_min then set_version version (mix n) else 0)
unfolding fake_id_encode
decode-encode n pos = elim (Bool-cases (n == 0)) [
  | inl z ↦ absurd (ground arith)
  | inr nonzero ↦ rw nonzero (
      decode-demix (map to_upper (format_int (set_version version (mix n))))
      ∙ ap demix (parse_uint-format_int (set_version version (mix n)) (set_version-lt (mix n))))
]

module _ (n : ℕ) (pos : 0 < n) where
  decoded-lt : fake_id_decode (fake_id_encode n) < 2 ^ 50
  decoded-lt =
      rw (decode-encode n pos) (elim (Bool-cases (ltb (set_version version (mix n)) int64_min)) [
        | inl low ↦ rw low (demix-lt (mix n) (ltb→lt _ _ low))
        | inr high ↦ rw high (unfold demix get_version demix_loop in omega arith)
      ])

  decoded-eq : n < 2 ^ 50 → fake_id_decode (fake_id_encode n) ≡ n
  decoded-eq h =
      let x = mix-IsMixed n pos h in
      let low =
        lt→ltb (set_version version (mix n)) int64_min
          (omega (arith, set_version_lem (mix n) x.fits, x.fits)) in
      rw (decode-encode n pos, low) (demix-mix n pos h)

decode-encode-zero : fake_id_decode (fake_id_encode 0) ≡ 0
unfolding fake_id_decode fake_id_encode
decode-encode-zero = refl

-- For every number, as a 64-bit pattern: decoding its encoding gives it back exactly when it is
-- below 2 ^ 50.
pub decode-encode_iff : (n : ℕ) → (fake_id_decode (fake_id_encode n) ≡ n) ↔ (n < 2 ^ 50)
decode-encode_iff zero = (λ _. omega arith, λ _. decode-encode-zero)
decode-encode_iff (suc n) =
    (λ e. omega (arith, e, decoded-lt (suc n) (omega arith)), decoded-eq (suc n) (omega arith))
