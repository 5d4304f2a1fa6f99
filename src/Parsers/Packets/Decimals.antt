-- ===== src/Parsers/Packets/Decimals.antt =====
-- How many bytes the decimals of `sprintf` have.
use tv_now.Common.{ℕ, zero, suc, ◌+◌, ◌/◌, ◌%◌, ◌≤◌, [], ◌∷◌, Bytes, length, arith}
use tv_now.Common.Int.{ℤ, pos, negsuc}
use tv_now.Parsers.Packets.{decimal, decimal_onto}

-- The digits that `sprintf` writes are at most as many as it has rounds.
pub decimal_onto_size : (f n : ℕ) (s : Bytes) → length (decimal_onto f n s) ≤ f + length s
unfolding decimal_onto
decimal_onto_size zero n s = omega arith
decimal_onto_size (suc f) n s = ground (arith, decimal_onto_size f (n / 10) ((b'0' + n % 10) ∷ s))

pub decimal_size : (n : ℕ) → length (decimal (pos n)) ≤ 10
decimal_size n = omega (arith, decimal_onto_size 10 n [])

-- `sprintf` writes at most 11 bytes for an `int`.
pub int_size : (z : ℤ) → length (decimal z) ≤ 11
int_size (pos n) = omega (arith, decimal_size n)
int_size (negsuc n) = omega (arith, decimal_size (n + 1))
