-- ===== src/Common/Masks.antt =====
-- What the native `bit_and` and `bit_or` do to masks.
use Prim.Native.Nat.{
  ℕ, zero, suc, ◌+◌, ◌*◌, ◌/◌, ◌%◌, ◌≤◌, min, max, digits, bitwise, bit_and, bit_or,
  bit_and-bitwise, bit_or-bitwise,
}
use mathlib.Core.Path.{◌≡◌, refl, ap}
use native.Mathlib.Omega.{arith}

module _ (z : ℕ → ℕ) (f : ℕ → ℕ → ℕ) where
  -- More rounds than the first number needs change nothing.
  rounds_enough : (n m a b : ℕ) → a ≤ n → a ≤ m → digits z f n a b ≡ digits z f m a b
  rounds_enough n m zero b p q = at_zero n m b
    where
      at_zero : (n m b : ℕ) → digits z f n 0 b ≡ digits z f m 0 b
      at_zero zero zero b = refl
      at_zero zero (suc m) b = refl
      at_zero (suc n) zero b = refl
      at_zero (suc n) (suc m) b = refl
  rounds_enough zero m (suc a) b p q = absurd (omega arith)
  rounds_enough (suc n) zero (suc a) b p q = absurd (omega arith)
  rounds_enough (suc n) (suc m) (suc a) b p q =
      omega (arith, rounds_enough n m (suc a / 2) (b / 2) (omega arith) (omega arith))

  -- The lowest digit and the rest.
  bitwise_halves :
      (a b : ℕ)
      → z b ≡ z (b / 2) * 2 + f 0 (b % 2)
      → bitwise z f a b ≡ bitwise z f (a / 2) (b / 2) * 2 + f (a % 2) (b % 2)
  bitwise_halves zero b base = base
  bitwise_halves (suc a) b base =
      omega (arith, rounds_enough a (suc a / 2) (suc a / 2) (b / 2) (omega arith) (omega arith))

pub and_halves : (a b : ℕ) → bit_and a b ≡ bit_and (a / 2) (b / 2) * 2 + min (a % 2) (b % 2)
and_halves a b = omega (
  arith,
  bit_and-bitwise a b,
  bit_and-bitwise (a / 2) (b / 2),
  bitwise_halves (λ b. zero) min a b (omega arith),
)

or_halves : (a b : ℕ) → bit_or a b ≡ bit_or (a / 2) (b / 2) * 2 + max (a % 2) (b % 2)
or_halves a b = omega (
  arith,
  bit_or-bitwise a b,
  bit_or-bitwise (a / 2) (b / 2),
  bitwise_halves (λ b. b) max a b (omega arith),
)

disjoint_rounds :
    (n p q b : ℕ)
    → p ≤ n
    → q ≤ n
    → b ≤ n
    → bit_and p b ≡ 0
    → bit_and q b ≡ 0
    → bit_and (bit_or p q) b ≡ 0
disjoint_rounds zero zero zero zero hp hq hb e f = refl
disjoint_rounds zero (suc p) q b hp hq hb e f = absurd (omega arith)
disjoint_rounds zero zero (suc q) b hp hq hb e f = absurd (omega arith)
disjoint_rounds zero zero zero (suc b) hp hq hb e f = absurd (omega arith)
disjoint_rounds (suc n) p q b hp hq hb e f =
    let ep = and_halves p b in
    let eq = and_halves q b in
    let o = or_halves p q in
    let half : bit_or p q / 2 ≡ bit_or (p / 2) (q / 2) = omega arith in
    let next =
      disjoint_rounds n (p / 2) (q / 2) (b / 2) (omega arith) (omega arith) (omega arith)
        (omega arith) (omega arith) in
    let digit : bit_or p q % 2 ≡ max (p % 2) (q % 2) = omega arith in
    let low : min (max (p % 2) (q % 2)) (b % 2) ≡ 0 = omega arith in
    omega (arith, and_halves (bit_or p q) b, ap (λ h. bit_and h (b / 2)) half)

-- A mask that shares no digit with two numbers shares none with both together.
pub bit_or-disjoint : (p q b : ℕ) → bit_and p b ≡ 0 → bit_and q b ≡ 0 → bit_and (bit_or p q) b ≡ 0
bit_or-disjoint p q b e f =
    disjoint_rounds (p + q + b) p q b (omega arith) (omega arith) (omega arith) e f

pub zero-bit_and : (b : ℕ) → bit_and 0 b ≡ 0
zero-bit_and b = bit_and-bitwise 0 b

-- The two lowest digits, alone.
pub bit_and-1 : (a : ℕ) → bit_and a 1 ≡ a % 2
bit_and-1 a = omega (arith, and_halves a 1, bit_and-0 (a / 2) (a / 2) (omega arith))
  where
    bit_and-0 : (n a : ℕ) → a ≤ n → bit_and a 0 ≡ 0
    bit_and-0 zero zero h = refl
    bit_and-0 zero (suc a) h = absurd (omega arith)
    bit_and-0 (suc n) a h = omega (arith, and_halves a 0, bit_and-0 n (a / 2) (omega arith))

pub bit_and-2 : (a : ℕ) → bit_and a 2 ≡ a / 2 % 2 * 2
bit_and-2 a = omega (arith, and_halves a 2, bit_and-1 (a / 2))
