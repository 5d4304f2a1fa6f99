-- ===== src/Parsers/Base64/Bounds.antt =====
-- The size of what the encoder writes.
use tv_now.Common.{ℕ, ◌+◌, ◌*◌, ◌/◌, ◌≤◌, ◌≡◌, refl, [], ◌∷◌, Bytes, arith, length, length-append}
use tv_now.Parsers.Base64.{encode_block, encode_loop, base64_encode}

length-encode_loop : (s : Bytes) (x : ℕ) → length (encode_loop s x) ≡ (length s + 2) / 3 * 4
unfolding encode_loop
length-encode_loop [] x = omega arith
length-encode_loop (a ∷ []) x = unfold encode_block in omega arith
length-encode_loop (a ∷ b ∷ []) x = unfold encode_block in omega arith
length-encode_loop (a ∷ b ∷ c ∷ s) x =
    let four : length (encode_block a b c 3) ≡ 4 = unfold encode_block in refl in
    omega
      (arith, four, length-encode_loop s x, length-append (encode_block a b c 3) (encode_loop s x))

-- `ILibBase64Encode` returns 4 for every 3 bytes begun, and this, with the closing NUL, fits the
-- buffer that it allocates, for every input.
pub base64_encode_size :
    (s : Bytes) (x : ℕ)
    → ((base64_encode s x).1 ≡ (length s + 2) / 3 * 4)
      × ((base64_encode s x).1 + 1 ≤ length s * 4 / 3 + 5)
unfolding base64_encode
base64_encode_size [] x = (omega arith, omega arith)
base64_encode_size (a ∷ s) x = let e = length-encode_loop (a ∷ s) x in (e, omega (arith, e))
