-- ===== src/Utils/FakeId/Base36.antt =====
-- What utils/yl_hash_id.go uses of strconv and strings, at base 36, over the bytes of a text.
use zhiya.Prelude.{
  ℕ, zero, suc, ◌+◌, ◌-◌, ◌*◌, ◌/◌, ◌%◌, ◌^◌, Option, none, some, List, [], ◌∷◌, ltb, leb, ◌&&◌,
  if◌then◌else◌,
}

abbrev pub u64_mod : ℕ
u64_mod = 2 ^ 64

abbrev pub int64_min : ℕ
int64_min = 2 ^ 63

unfoldable pub digit_char : ℕ → ℕ
digit_char d = if ltb d 10 then b'0' + d else b'a' + (d - 10)

-- The digits of a number in front of `acc`. A uint64 has at most 13.
unfoldable pub format_bits : ℕ → ℕ → List ℕ → List ℕ
format_bits zero n acc = acc
format_bits (suc fuel) n acc =
    let more = format_bits fuel (n / 36) (digit_char (n % 36) ∷ acc) in
    if ltb n 36 then digit_char n ∷ acc else more

-- strconv.FormatInt of the int64 with this pattern.
unfoldable pub format_int : ℕ → List ℕ
unfolding format_bits digit_char
format_int u =
    if ltb u int64_min then format_bits 13 u [] else b'-' ∷ format_bits 13 (u64_mod - u) []

-- strings.ToUpper on an ASCII byte.
unfoldable pub to_upper : ℕ → ℕ
to_upper c = if leb b'a' c && leb c b'z' then c - 32 else c

unfoldable pub digit_value : ℕ → Option ℕ
digit_value c =
    if leb b'0' c && leb c b'9'
    then some (c - b'0')
    else if leb b'a' c && leb c b'z'
    then some (c - b'a' + 10)
    else if leb b'A' c && leb c b'Z'
    then some (c - b'A' + 10)
    else none

abbrev pub cutoff : ℕ
cutoff = (u64_mod - 1) / 36 + 1

-- The number that strconv.ParseUint returns beside its error: 0 at a byte that is no digit, the
-- largest uint64 past the range.
unfoldable pub parse_digits : ℕ → List ℕ → ℕ
unfolding digit_value
parse_digits n [] = n
parse_digits n (c ∷ cs) = elim (digit_value c) [
  | none ↦ 0
  | some v ↦
      if leb cutoff n
      then u64_mod - 1
      else if leb u64_mod (n * 36 + v)
      then u64_mod - 1
      else parse_digits (n * 36 + v) cs
]

unfoldable pub parse_uint : List ℕ → ℕ
unfolding parse_digits
parse_uint [] = 0
parse_uint (c ∷ cs) = parse_digits 0 (c ∷ cs)
