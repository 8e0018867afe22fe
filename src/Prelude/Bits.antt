-- ===== src/Prelude/Bits.antt =====
-- Laws of `&` and `|` at variables: masks of low bits, joined fields, single bits.
use Prim.Native.Nat.{
  ℕ, zero, suc, ◌+◌, ◌-◌, ◌*◌, ◌/◌, ◌%◌, ◌^◌, ◌≤◌, ◌<◌, min, max, bit_and, bit_or, digits,
  bit_and-bitwise, bit_or-bitwise,
}
use mathlib.Core.Path.{◌≡◌, refl, ap, ◌∙◌}
use mathlib.Core.Logic.{◌≢◌}
use native.Mathlib.Nat.{pow-suc, one-le-pow}
use native.Mathlib.Omega.{arith}

-- The native operations recur on a count of digits; any count that is large enough gives the same.
enough_digits :
    (z : ℕ → ℕ) (f : ℕ → ℕ → ℕ) (n m a b : ℕ) → a ≤ n → a ≤ m → digits z f n a b ≡ digits z f m a b
enough_digits z f zero zero zero b p q = refl
enough_digits z f zero (suc m) zero b p q = refl
enough_digits z f (suc n) zero zero b p q = refl
enough_digits z f (suc n) (suc m) zero b p q = refl
enough_digits z f zero m (suc a) b p q = absurd (omega arith)
enough_digits z f (suc n) zero (suc a) b p q = absurd (omega arith)
enough_digits z f (suc n) (suc m) (suc a) b p q =
    ap (λ d. d * 2 + f (suc a % 2) (b % 2))
      (enough_digits z f n m (suc a / 2) (b / 2) (omega arith) (omega arith))

-- Halving both operands: the lowest digits, and twice the operation on the rest.
pub bit_and_halves : (x y : ℕ) → bit_and x y ≡ min (x % 2) (y % 2) + 2 * bit_and (x / 2) (y / 2)
bit_and_halves zero y = omega (arith, bit_and-bitwise (0 / 2) (y / 2), bit_and-bitwise 0 y)
bit_and_halves (suc x) y =
    let rest =
      enough_digits (λ _. 0) min x (suc x / 2) (suc x / 2) (y / 2) (omega arith) (omega arith) in
    omega (arith, rest, bit_and-bitwise (suc x / 2) (y / 2), bit_and-bitwise (suc x) y)

pub bit_or_halves : (x y : ℕ) → bit_or x y ≡ max (x % 2) (y % 2) + 2 * bit_or (x / 2) (y / 2)
bit_or_halves zero y = omega (arith, bit_or-bitwise (0 / 2) (y / 2), bit_or-bitwise 0 y)
bit_or_halves (suc x) y =
    let rest =
      enough_digits (λ n. n) max x (suc x / 2) (suc x / 2) (y / 2) (omega arith) (omega arith) in
    omega (arith, rest, bit_or-bitwise (suc x / 2) (y / 2), bit_or-bitwise (suc x) y)

pub zero-bit_and : (b : ℕ) → bit_and 0 b ≡ 0
zero-bit_and b = omega (arith, bit_and-bitwise 0 b)

-- Halving reaches 0: by rounds, as many as the number itself.
and_comm_rounds : (n a b : ℕ) → a ≤ n → b ≤ n → bit_and a b ≡ bit_and b a
and_comm_rounds zero zero zero p q = refl
and_comm_rounds zero (suc a) b p q = absurd (omega arith)
and_comm_rounds zero zero (suc b) p q = absurd (omega arith)
and_comm_rounds (suc n) a b p q = omega (
  arith,
  bit_and_halves a b,
  bit_and_halves b a,
  and_comm_rounds n (a / 2) (b / 2) (omega arith) (omega arith),
)

pub bit_and_comm : (a b : ℕ) → bit_and a b ≡ bit_and b a
bit_and_comm a b = and_comm_rounds (a + b) a b (omega arith) (omega arith)

pub bit_and-zero : (a : ℕ) → bit_and a 0 ≡ 0
bit_and-zero a = omega (arith, bit_and_comm a 0, zero-bit_and a)

-- The laws below carry their masks and fields as numbers `m` with an equation, which halves with
-- them.
and_mask : (k q r a m : ℕ) → a ≡ q * 2 ^ k + r → m + 1 ≡ 2 ^ k → r < 2 ^ k → bit_and a m ≡ r
and_mask zero q r a m e f h =
    let z : m ≡ 0 = omega arith in omega (arith, ap (bit_and a) z, bit_and-zero a)
and_mask (suc k) q r a m e f h = omega (
  arith,
  pow-suc 2 k,
  one-le-pow k 2,
  ap (λ (t : ℕ). q * t) (pow-suc 2 k),
  bit_and_halves a m,
  and_mask k q (r / 2) (a / 2) (m / 2)
      (omega (arith, pow-suc 2 k, ap (λ (t : ℕ). q * t) (pow-suc 2 k)))
      (omega (arith, pow-suc 2 k, one-le-pow k 2)) (omega (arith, pow-suc 2 k)),
)

-- A mask of `k` ones takes the remainder by `2 ^ k`.
pub bit_and_mask : (k a : ℕ) → bit_and a (2 ^ k - 1) ≡ a % 2 ^ k
bit_and_mask k a =
    and_mask k (a / 2 ^ k) (a % 2 ^ k) a (2 ^ k - 1) (grind (arith, one-le-pow k 2))
      (omega (arith, one-le-pow k 2)) (omega (arith, one-le-pow k 2))

-- Fields that do not overlap are joined by `|` as by `+`.
pub bit_or_fields : (k q r m : ℕ) → m ≡ q * 2 ^ k → r < 2 ^ k → bit_or r m ≡ r + m
bit_or_fields zero q zero m e h = omega (arith, bit_or-bitwise 0 m)
bit_or_fields zero q (suc r) m e h = absurd (omega arith)
bit_or_fields (suc k) q r m e h =
    let twice = ap (λ (t : ℕ). q * t) (pow-suc 2 k) in
    omega (
      arith,
      twice,
      bit_or_halves r m,
      bit_or_fields k q (r / 2) (m / 2) (omega (arith, twice)) (omega (arith, pow-suc 2 k)),
    )

and_single : (i j a b : ℕ) → a ≡ 2 ^ i → b ≡ 2 ^ j → i ≢ j → bit_and a b ≡ 0
and_single zero zero a b p q h = absurd (h refl)
and_single zero (suc j) a b p q h =
    let low : a ≡ 1 = omega arith in
    let none_left : bit_and (a / 2) (b / 2) ≡ 0 =
      ap (λ t. bit_and t (b / 2)) (omega arith) ∙ zero-bit_and (b / 2) in
    omega (arith, bit_and_halves a b, none_left, pow-suc 2 j)
and_single (suc i) zero a b p q h =
    let none_left : bit_and (a / 2) (b / 2) ≡ 0 =
      ap (bit_and (a / 2)) (omega arith) ∙ bit_and-zero (a / 2) in
    omega (arith, bit_and_halves a b, none_left, pow-suc 2 i)
and_single (suc i) (suc j) a b p q h = omega (
  arith,
  bit_and_halves a b,
  pow-suc 2 i,
  pow-suc 2 j,
  and_single i j (a / 2) (b / 2) (omega (arith, pow-suc 2 i)) (omega (arith, pow-suc 2 j))
      (λ e. h (ap suc e)),
)

-- Two different single bits share nothing.
pub bit_and_single : (i j : ℕ) → i ≢ j → bit_and (2 ^ i) (2 ^ j) ≡ 0
bit_and_single i j = and_single i j (2 ^ i) (2 ^ j) refl refl

and_self_rounds : (n a : ℕ) → a ≤ n → bit_and a a ≡ a
and_self_rounds zero zero p = refl
and_self_rounds zero (suc a) p = absurd (omega arith)
and_self_rounds (suc n) a p =
    omega (arith, bit_and_halves a a, and_self_rounds n (a / 2) (omega arith))

pub bit_and_self : (a : ℕ) → bit_and a a ≡ a
bit_and_self a = and_self_rounds a a (omega arith)
