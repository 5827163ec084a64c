-- ===== src/Utils/FakeId/Examples.antt =====
-- Runs of utils/yl_hash_id.go.
use zhiya.Prelude.{◌-◌, ◌^◌, ◌≡◌, ◌<◌, ◌↔◌, refl, arith, map}
use zhiya.Utils.FakeId.Base36.{format_int, to_upper, parse_uint}
use zhiya.Utils.FakeId.RoundTrip.{decode-encode_iff}
use zhiya.Utils.FakeId.Digits.{IsDigitCount, octal_digits-IsDigitCount}
use zhiya.Utils.FakeId.Strconv.{parse_uint-format_int}
use zhiya.Utils.FakeId.Fuel.{CountEnds, MixEnds, DemixEnds, loops_end}
use zhiya.Utils.FakeId.{
  mix, octal_digits, mix_loop, group, set_version, get_version, demix, demix_loop, fake_id_encode,
  fake_id_decode,
}

program : Unit {0}
unfolding mix octal_digits mix_loop group set_version get_version demix demix_loop fake_id_encode
    fake_id_decode format_int to_upper parse_uint
program = tt

back : fake_id_decode (fake_id_encode 123456) ≡ 123456
unfolding program
back = refl

lost : fake_id_decode (fake_id_encode (2 ^ 50)) ≡ 0
unfolding program
lost = refl

big : fake_id_decode (fake_id_encode (2 ^ 50 - 1)) ≡ 2 ^ 50 - 1
unfolding program
big = refl

decode-encode_example : (fake_id_decode (fake_id_encode 123456) ≡ 123456) ↔ (123456 < 2 ^ 50)
decode-encode_example = decode-encode_iff 123456

octal_digits_example : IsDigitCount 511 (octal_digits 511)
octal_digits_example = octal_digits-IsDigitCount 511 (omega arith)

parse_uint-format_int_example : parse_uint (map to_upper (format_int 1295)) ≡ 1295
parse_uint-format_int_example = parse_uint-format_int 1295 (omega arith)

loops_end_example :
    CountEnds 123456 0 (octal_digits 123456)
    × MixEnds 7 1 123456 (octal_digits 123456) 0 0 (mix_loop 5 1 123456 7 (octal_digits 123456) 0 0)
    × DemixEnds 123456 0 0 (demix_loop 4 123456 0 0)
loops_end_example = loops_end 123456 1 7 (omega arith)
