-- ===== src/Parsers/Base64/Tests.antt =====
-- Base64, run on a concrete text.
use tv_now.Common.{◌+◌, ◌≤◌, ◌≡◌, ◌≢◌, refl, ap, some, [], ◌∷◌, Bytes, codes, All, arith, length}
use tv_now.Parsers.Base64.{base64_encode, base64_decode, Block}
use tv_now.Parsers.Base64.Bounds.{base64_encode_size}
use tv_now.Parsers.Base64.RoundTrip.{IsByte, base64_decode-base64_encode}

abbrev four : Bytes
four = 0 ∷ 127 ∷ 128 ∷ 255 ∷ []

abbrev zeros : Block
zeros = record { in0 = 0; in1 = 0; in2 = 0; in3 = 0 }

base64_encode_test : base64_encode (codes "ABCDE") 0 ≡ (some (codes "QUJDREU="), 8)
unfolding base64_encode
base64_encode_test = refl

four_lem : four ≢ []
four_lem e = let n : 4 ≡ 0 = ap length e in omega (arith, n)

four-IsByte : All IsByte four
four-IsByte = (omega arith, (omega arith, (omega arith, (omega arith, tt))))

base64_decode-base64_encode_example :
    (t : Bytes) × (base64_encode four 0 ≡ (some t, length t))
    × (base64_decode t 0 zeros ≡ (some four, 4))
base64_decode-base64_encode_example =
    base64_decode-base64_encode four 0 0 zeros four_lem four-IsByte (omega arith)

base64_encode_size_run : ((base64_encode four 0).1 ≡ 8) × ((base64_encode four 0).1 + 1 ≤ 10)
base64_encode_size_run = base64_encode_size four 0
