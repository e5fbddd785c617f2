-- ===== src/Prelude/Bits.antt =====
-- Exclusive or at variables, from its definition by binary digits, and tables over small ranges.
use Prim.Native.Nat.{
  ℕ, zero, suc, ◌+◌, ◌*◌, ◌/◌, ◌%◌, ◌^◌, ◌≤◌, ◌<◌, bit_xor, digits, differ, bit_xor-bitwise,
}
use mathlib.Core.Path.{◌≡◌, refl, ap}
use mathlib.Core.Bool.{Bool, true, false}
use tungstenite_rs.Prelude.Tests.{if◌then◌else◌}
use native.Mathlib.Omega.{arith}
use native.Mathlib.Nat.{pow-suc}

-- A test that every number under a small bound passes, run on all of them.
unfoldable pub every : (ℕ → Bool) → ℕ → Bool
every test zero = true
every test (suc top) = if test top then every test top else false

pub every-lt :
    (test : ℕ → Bool) (bound value : ℕ)
    → value < bound
    → every test bound ≡ true
    → test value ≡ true
unfolding every
every-lt test zero value below passes = absurd (omega arith)
every-lt test (suc top) value below passes = ground (arith, every-lt test top value)

abbrev xor_digits : ℕ → ℕ → ℕ → ℕ
xor_digits rounds a b = digits (λ d. d) differ rounds a b

-- Beyond what the first number needs, the count of rounds does not matter.
xor_digits-enough :
    (x y rounds rounds' : ℕ)
    → x ≤ rounds'
    → x ≤ rounds
    → xor_digits rounds x y ≡ xor_digits rounds' x y
xor_digits-enough zero y zero zero fits' fits = refl
xor_digits-enough zero y (suc rounds) zero fits' fits = refl
xor_digits-enough zero y zero (suc rounds') fits' fits = refl
xor_digits-enough zero y (suc rounds) (suc rounds') fits' fits = refl
xor_digits-enough (suc x) y zero rounds' fits' fits = absurd (omega arith)
xor_digits-enough (suc x) y (suc rounds) zero fits' fits = absurd (omega arith)
xor_digits-enough (suc x) y (suc rounds) (suc rounds') fits' fits =
    let halves = xor_digits-enough (suc x / 2) (y / 2) rounds rounds' (omega arith) (omega arith) in
    omega (arith, halves)

-- The lowest digit of an exclusive or, and the rest.
pub bit_xor_step : (a b : ℕ) → bit_xor a b ≡ bit_xor (a / 2) (b / 2) * 2 + differ (a % 2) (b % 2)
bit_xor_step zero b = omega (arith, bit_xor-bitwise 0 b, bit_xor-bitwise (0 / 2) (b / 2))
bit_xor_step (suc a) b = omega (
  arith,
  bit_xor-bitwise (suc a) b,
  bit_xor-bitwise (suc a / 2) (b / 2),
  xor_digits-enough (suc a / 2) (b / 2) a (suc a / 2) (omega arith) (omega arith),
)

pub differ-lt : (a b : ℕ) → a < 2 → b < 2 → differ a b < 2
differ-lt zero b h k = k
differ-lt (suc a) zero h k = h
differ-lt (suc zero) (suc zero) h k = omega arith
differ-lt (suc zero) (suc (suc b)) h k = absurd (omega arith)
differ-lt (suc (suc a)) (suc b) h k = absurd (omega arith)

pub differ-differ : (a b : ℕ) → a < 2 → b < 2 → differ (differ a b) b ≡ a
differ-differ zero zero h k = refl
differ-differ zero (suc zero) h k = refl
differ-differ zero (suc (suc b)) h k = absurd (omega arith)
differ-differ (suc a) zero h k = refl
differ-differ (suc zero) (suc zero) h k = refl
differ-differ (suc zero) (suc (suc b)) h k = absurd (omega arith)
differ-differ (suc (suc a)) (suc b) h k = absurd (omega arith)

-- An exclusive or with the same number twice changes nothing.
bit_xor_undo_fuel : (n x k : ℕ) → x ≤ n → k ≤ n → bit_xor (bit_xor x k) k ≡ x
bit_xor_undo_fuel zero zero zero p q = refl
bit_xor_undo_fuel zero (suc x) k p q = absurd (omega arith)
bit_xor_undo_fuel zero zero (suc k) p q = absurd (omega arith)
bit_xor_undo_fuel (suc n) x k p q =
    rw (bit_xor_step (bit_xor x k) k, half, low)
      (omega (
        arith,
        bit_xor_undo_fuel n (x / 2) (k / 2) (omega arith) (omega arith),
        differ-differ (x % 2) (k % 2) (omega arith) (omega arith),
      ))
  where
    half : bit_xor x k / 2 ≡ bit_xor (x / 2) (k / 2)
    half = omega (arith, bit_xor_step x k, differ-lt (x % 2) (k % 2) (omega arith) (omega arith))

    low : bit_xor x k % 2 ≡ differ (x % 2) (k % 2)
    low = omega (arith, bit_xor_step x k, differ-lt (x % 2) (k % 2) (omega arith) (omega arith))

pub bit_xor_undo : (x k : ℕ) → bit_xor (bit_xor x k) k ≡ x
bit_xor_undo x k = bit_xor_undo_fuel (x + k) x k (omega arith) (omega arith)

-- Numbers of `w` digits have an exclusive or of `w` digits.
pub bit_xor-lt : (w x k : ℕ) → x < 2 ^ w → k < 2 ^ w → bit_xor x k < 2 ^ w
bit_xor-lt zero zero zero p q = p
bit_xor-lt zero (suc x) k p q = absurd (omega arith)
bit_xor-lt zero zero (suc k) p q = absurd (omega arith)
bit_xor-lt (suc w) x k p q = omega (
  arith,
  pow-suc 2 w,
  bit_xor_step x k,
  differ-lt (x % 2) (k % 2) (omega arith) (omega arith),
  bit_xor-lt w (x / 2) (k / 2) (omega (arith, pow-suc 2 w)) (omega (arith, pow-suc 2 w)),
)

-- The exclusive or of two numbers is that of their low and of their high digits.
pub bit_xor-split :
    (w a b c d : ℕ)
    → a < 2 ^ w
    → c < 2 ^ w
    → bit_xor (a + 2 ^ w * b) (c + 2 ^ w * d) ≡ bit_xor a c + 2 ^ w * bit_xor b d
bit_xor-split zero zero b zero d p q = rw (unit b, unit d) (omega arith)
  where
    unit : (n : ℕ) → 0 + 2 ^ 0 * n ≡ n
    unit n = omega arith
bit_xor-split zero (suc a) b c d p q = absurd (omega arith)
bit_xor-split zero zero b (suc c) d p q = absurd (omega arith)
bit_xor-split (suc w) a b c d p q =
    rw (bit_xor_step (a + 2 ^ suc w * b) (c + 2 ^ suc w * d), ha, hc, la, lc)
      (omega (
        arith,
        pow-suc 2 w,
        bit_xor_step a c,
        ap (λ (t : ℕ). t * bit_xor b d) (pow-suc 2 w),
        bit_xor-split w (a / 2) b (c / 2) d (omega (arith, pow-suc 2 w))
            (omega (arith, pow-suc 2 w)),
      ))
  where
    ha : (a + 2 ^ suc w * b) / 2 ≡ a / 2 + 2 ^ w * b
    ha = omega (arith, ap (λ (t : ℕ). t * b) (pow-suc 2 w))

    hc : (c + 2 ^ suc w * d) / 2 ≡ c / 2 + 2 ^ w * d
    hc = omega (arith, ap (λ (t : ℕ). t * d) (pow-suc 2 w))

    la : (a + 2 ^ suc w * b) % 2 ≡ a % 2
    la = omega (arith, ap (λ (t : ℕ). t * b) (pow-suc 2 w))

    lc : (c + 2 ^ suc w * d) % 2 ≡ c % 2
    lc = omega (arith, ap (λ (t : ℕ). t * d) (pow-suc 2 w))
