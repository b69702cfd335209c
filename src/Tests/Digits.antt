-- ===== src/Tests/Digits.antt =====
-- Hexadecimal digits.
use simple_dns.Common.{[], ◌∷◌, ◌++◌, Bytes, ◌≡◌, refl, arith}
use simple_dns.Common.Memory.{ok, ◌>>=◌, patch, write}
use simple_dns.Common.Text.{c_string}
use simple_dns.Common.Text.Decimal.{bytes}
use simple_dns.Hex.{hex_enc, hex_digit, strtol_digits, strtol_sign, strtol, hex_dec_loop, hex_dec}
use simple_dns.Hex.RoundTrip.{hex_of, hex_enc_lem, hex_dec-hex_enc}
use simple_dns.Tests.{blank}

abbrev key : Bytes
key = 0 ∷ 171 ∷ 255 ∷ []

hex_enc_lem_example : hex_enc key 3 blank ≡ ok (patch blank 0 (hex_of key ++ 0 ∷ []))
hex_enc_lem_example =
    hex_enc_lem key blank (omega arith, (omega arith, (omega arith, tt))) (omega arith)

hex_dec-hex_enc_example :
    (hex_enc key 3 blank >>= λ t. hex_dec (c_string t) blank 5) ≡ ok (patch blank 0 key, 3)
hex_dec-hex_enc_example =
    hex_dec-hex_enc key blank blank 5 (omega arith, (omega arith, (omega arith, tt))) (omega arith)
      (omega arith) (omega arith)

-- Signs, letters that are no digits, spaces and an odd byte at the end.
abbrev odd_text : Bytes
odd_text = bytes "-1zz a0xABc"

odd_text_reads :
    hex_dec odd_text (7 ∷ 7 ∷ 7 ∷ 7 ∷ 7 ∷ 7 ∷ []) 6 ≡ ok (255 ∷ 0 ∷ 10 ∷ 0 ∷ 171 ∷ 7 ∷ [], 5)
unfolding hex_dec hex_dec_loop strtol strtol_sign strtol_digits hex_digit bytes write
odd_text_reads = refl
