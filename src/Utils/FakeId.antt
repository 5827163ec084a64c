-- ===== src/Utils/FakeId.antt =====
-- utils/yl_hash_id.go: the obfuscated base-36 ids of products and merchants.
-- An int64 and a uint64 are their 64-bit pattern, a number below `u64_mod`.
pub mod Base36
pub mod Digits
pub mod Mixed
pub mod Strconv
pub mod RoundTrip
pub mod Fuel
mod Examples
use Prim.Native.Nat.{bit_and}
use mathlib.Core.List.{map}
use zhiya.Prelude.{
  ℕ, zero, suc, ◌+◌, ◌-◌, ◌*◌, ◌/◌, ◌%◌, ◌^◌, Bool, true, false, ◌||◌, List, [], ◌∷◌, ltb, ◌==◌,
  if◌then◌else◌,
}
use Base36.{u64_mod, format_int, to_upper, parse_uint}

-- uint64 `x << k`, `x >> k`, `a - b` and `a + b`.
abbrev pub shl : ℕ → ℕ → ℕ
shl x k = x * 2 ^ k % u64_mod

abbrev pub shr : ℕ → ℕ → ℕ
shr x k = x / 2 ^ k

abbrev pub sub64 : ℕ → ℕ → ℕ
sub64 a b = (a + u64_mod - b) % u64_mod

abbrev pub add64 : ℕ → ℕ → ℕ
add64 a b = (a + b) % u64_mod

-- The loop that counts the octal digits: `for ret > 0 { digit++; ret = ret >> 3 }`.
unfoldable pub count_digits : ℕ → ℕ → ℕ → ℕ
count_digits zero ret digit = digit
count_digits (suc fuel) ret digit =
    let rest = count_digits fuel (shr ret 3) (digit + 1) in if ltb 0 ret then rest else digit

-- A uint64 has at most 22 octal digits.
unfoldable pub octal_digits : ℕ → ℕ
unfolding count_digits
octal_digits number = count_digits 22 number 0

-- 15 bits of the number, with one octal digit of the check value above them.
unfoldable pub group : ℕ → ℕ → ℕ → ℕ
group md number mix =
    add64 (bit_and number 32767) (shl (bit_and mix (shl 7 (3 * md))) (sub64 15 (3 * md)))

-- The loop over the groups; it is entered at most five times, since a number has at most 22
-- octal digits and each round takes five of them. `digit` is an int: where the source goes below
-- zero, it stops at zero here, and the test `digit > 0` fails in both.
unfoldable pub mix_loop : ℕ → ℕ → ℕ → ℕ → ℕ → ℕ → ℕ → ℕ
mix_loop zero md number mix digit i ret = ret
mix_loop (suc fuel) md number mix digit i ret =
    let md' = sub64 md 1 in
    let rest =
      mix_loop fuel md' (shr number 15) mix (digit - 5) (i + 18)
        (add64 ret (shl (group md' number mix) i)) in
    if ltb 0 digit then rest else ret

abbrev pub groups_of : ℕ → ℕ
groups_of digit = (digit - 1) / 5 + 1

-- The second component of what `mix` returns; the first is the version, 1.
unfoldable pub mix : ℕ → ℕ
mix number =
    let digit = octal_digits number in
    let md = groups_of digit in
    let check = bit_and number (sub64 (shl 1 (3 * md)) 1) in mix_loop 5 md number check digit 0 0

abbrev pub version : ℕ
version = 1

unfoldable pub set_version : ℕ → ℕ → ℕ
set_version ver mixed = add64 (add64 (shl (shr mixed 8) 12) (shl ver 8)) (bit_and mixed 255)

-- What `getVersion` returns: the version and the mixed number.
unfoldable pub get_version : ℕ → ℕ × ℕ
get_version number = (bit_and (shr number 8) 15, add64 (shl (shr number 12) 8) (bit_and number 255))

-- `for number > 0`: each round takes 18 bits of the 64.
unfoldable pub demix_loop : ℕ → ℕ → ℕ → ℕ → ℕ
demix_loop zero number dig ret = ret
demix_loop (suc fuel) number dig ret =
    let rest =
      demix_loop fuel (shr number 18) (dig + 15) (add64 ret (shl (bit_and number 32767) dig)) in
    if ltb 0 number then rest else ret

unfoldable pub demix : ℕ → ℕ
demix number =
    let (ver, mixed) = get_version number in if ver == 1 then demix_loop 4 mixed 0 0 else mixed

-- `strings.ToUpper(strconv.FormatInt(setVersion(a), 36))`
unfoldable pub fake_id_encode : ℕ → List ℕ
fake_id_encode number =
    if number == 0 then [] else map to_upper (format_int (set_version version (mix number)))

-- The text "74".
abbrev pub seventy_four : List ℕ
seventy_four = b'7' ∷ b'4' ∷ []

abbrev is_seventy_four : List ℕ → Bool
is_seventy_four (a ∷ b ∷ []) = if a == b'7' then b == b'4' else false
is_seventy_four _ = false

abbrev is_empty : List ℕ → Bool
is_empty [] = true
is_empty _ = false

unfoldable pub fake_id_decode : List ℕ → ℕ
fake_id_decode str = if is_empty str || is_seventy_four str then 0 else demix (parse_uint str)
