-- ===== src/Base/Bits.antt =====
-- Unsigned words as bit patterns. `&` and `|` are the native operations; a shift and a complement
-- keep their wrap. `test_bit` is the description of a word that the theorems use.
mod Step
use Prim.Native.Nat.{ℕ, zero, suc, ◌+◌, ◌-◌, ◌*◌, ◌/◌, ◌%◌, ◌^◌, ◌≤◌, ◌<◌, bit_and, bit_or}
use mathlib.Core.Path.{◌≡◌, refl, sym, ap, ap₂, ◌∙◌}
use mathlib.Core.Logic.{◌⊎◌, inl, inr}
use mathlib.Core.Bool.{Bool, true, false, not, ◌&&◌, ◌||◌}
use native.Mathlib.Omega.{arith}
use native.Mathlib.Nat.{pow-suc, mul_comm, div-add-mod, div-div-eq-div-mul}
use neof5client.Base.Tests.{◌==◌, ltb, leb, if◌then◌else◌}
use Step.{bit_or_step, bit_and_step}

-- `x << k` in a uint64_t.
unfoldable pub shl64 : ℕ → ℕ → ℕ
shl64 x k = (x * 2 ^ k) % 2 ^ 64

-- `~x` in a uint64_t.
unfoldable pub not64 : ℕ → ℕ
not64 x = 2 ^ 64 - 1 - x

-- Bit `i` of `x`.
unfoldable pub test_bit : ℕ → ℕ → Bool
test_bit x zero = x % 2 == 1
test_bit x (suc i) = test_bit (x / 2) i

pub test_bit-or : (a b i : ℕ) → test_bit (bit_or a b) i ≡ (test_bit a i || test_bit b i)
unfolding test_bit
test_bit-or a b zero = ground (arith, bit_or_step a b)
test_bit-or a b (suc i) =
    let halved : bit_or a b / 2 ≡ bit_or (a / 2) (b / 2) = omega (arith, bit_or_step a b) in
    ap (λ t. test_bit t i) halved ∙ test_bit-or (a / 2) (b / 2) i

pub test_bit-and : (a b i : ℕ) → test_bit (bit_and a b) i ≡ (test_bit a i && test_bit b i)
unfolding test_bit
test_bit-and a b zero = ground (arith, bit_and_step a b)
test_bit-and a b (suc i) =
    let halved : bit_and a b / 2 ≡ bit_and (a / 2) (b / 2) = omega (arith, bit_and_step a b) in
    ap (λ t. test_bit t i) halved ∙ test_bit-and (a / 2) (b / 2) i

pub test_bit-zero : (i : ℕ) → test_bit 0 i ≡ false
unfolding test_bit
test_bit-zero zero = refl
test_bit-zero (suc i) = test_bit-zero i

pub test_bit-pow : (k i : ℕ) → test_bit (2 ^ k) i ≡ (k == i)
unfolding test_bit
test_bit-pow zero zero = refl
test_bit-pow zero (suc i) = test_bit-zero i ∙ ground arith
test_bit-pow (suc k) zero = ground (arith, pow-suc 2 k)
test_bit-pow (suc k) (suc i) =
    let halved : 2 ^ suc k / 2 ≡ 2 ^ k = omega (arith, pow-suc 2 k) in
    ap (λ t. test_bit t i) halved ∙ test_bit-pow k i ∙ ground arith

-- The low `n` bits all set, less `x`: the complement within `n` bits.
pub test_bit-not :
    (n x i : ℕ) → x < 2 ^ n → test_bit (2 ^ n - 1 - x) i ≡ (ltb i n && not (test_bit x i))
unfolding test_bit
test_bit-not zero x i h = ap (λ t. test_bit t i) (omega arith) ∙ test_bit-zero i ∙ ground arith
test_bit-not (suc n) x zero h = ground (arith, pow-suc 2 n)
test_bit-not (suc n) x (suc i) h =
    let halved : (2 ^ suc n - 1 - x) / 2 ≡ 2 ^ n - 1 - x / 2 = omega (arith, pow-suc 2 n) in
    ap (λ t. test_bit t i) halved
    ∙ test_bit-not n (x / 2) i (omega (arith, pow-suc 2 n))
    ∙ ground arith

-- A word below `2 ^ n` has no bit from `n` on, and the other way round.
pub test_bit_above : (n x i : ℕ) → x < 2 ^ n → n ≤ i → test_bit x i ≡ false
unfolding test_bit
test_bit_above zero x i h le = ap (λ t. test_bit t i) (omega arith) ∙ test_bit-zero i
test_bit_above (suc n) x zero h le = absurd (omega arith)
test_bit_above (suc n) x (suc i) h le =
    test_bit_above n (x / 2) i (omega (arith, pow-suc 2 n)) (omega arith)

pub bits_ext : (n a b : ℕ) → a ≤ n → b ≤ n → ((i : ℕ) → test_bit a i ≡ test_bit b i) → a ≡ b
unfolding test_bit
bits_ext zero a b p q h = omega arith
bits_ext (suc n) a b p q h =
    let rest : a / 2 ≡ b / 2 =
      bits_ext n (a / 2) (b / 2) (omega arith) (omega arith) (λ i. h (suc i)) in
    ground (arith, h 0)

pub pow_lt : (k n : ℕ) → k < n → 2 ^ k < 2 ^ n
pow_lt k zero h = absurd (omega arith)
pow_lt zero (suc zero) h = omega arith
pow_lt zero (suc (suc n)) h = omega (arith, pow_lt zero (suc n) (omega arith), pow-suc 2 (suc n))
pow_lt (suc k) (suc n) h = omega (arith, pow_lt k n (omega arith), pow-suc 2 k, pow-suc 2 n)

-- A shift by `k` moves each bit up by `k`.
pub test_bit-shift : (x k i : ℕ) → test_bit (x * 2 ^ k) i ≡ (leb k i && test_bit x (i - k))
unfolding test_bit
test_bit-shift x zero i =
    let same : x * 2 ^ zero ≡ x = omega arith in
    let here : i - zero ≡ i = omega arith in rw (same, here) (ground arith)
test_bit-shift x (suc k) zero = ground (arith, ap (λ t. x * t) (pow-suc 2 k))
test_bit-shift x (suc k) (suc i) =
    let halved : x * 2 ^ suc k / 2 ≡ x * 2 ^ k = omega (arith, ap (λ t. x * t) (pow-suc 2 k)) in
    let same : suc i - suc k ≡ i - k = omega arith in
    ap (λ t. test_bit t i) halved ∙ test_bit-shift x k i ∙ rw same (ground arith)

digits_of_wrap : (n x : ℕ) → x % 2 ^ suc n ≡ 2 * (x / 2 % 2 ^ n) + x % 2
digits_of_wrap n x =
    rw (pow-suc 2 n, mul_comm (2 ^ n) 2)
      (omega (
        arith,
        div-add-mod x (2 * 2 ^ n),
        div-add-mod (x / 2) (2 ^ n),
        div-div-eq-div-mul x 2 (2 ^ n),
        ap (λ t. 2 ^ n * t) (div-div-eq-div-mul x 2 (2 ^ n)),
      ))

-- The wrap to `n` bits keeps the bits below `n`.
pub test_bit-wrap : (n x i : ℕ) → test_bit (x % 2 ^ n) i ≡ (ltb i n && test_bit x i)
unfolding test_bit
test_bit-wrap zero x i = ap (λ t. test_bit t i) (omega arith) ∙ test_bit-zero i ∙ ground arith
test_bit-wrap (suc n) x zero =
    let lowest : x % 2 ^ suc n % 2 ≡ x % 2 = omega (arith, digits_of_wrap n x) in
    ap (λ t. t == 1) lowest ∙ ground arith
test_bit-wrap (suc n) x (suc i) =
    let halved : x % 2 ^ suc n / 2 ≡ x / 2 % 2 ^ n = omega (arith, digits_of_wrap n x) in
    ap (λ t. test_bit t i) halved ∙ test_bit-wrap n (x / 2) i ∙ ground arith

-- A word whose bits all lie below `n` is below `2 ^ n`.
pub lt_of_bits : (n x : ℕ) → ((i : ℕ) → n ≤ i → test_bit x i ≡ false) → x < 2 ^ n
unfolding test_bit
lt_of_bits zero x h = omega (
  arith,
  bits_ext x x 0 (omega arith) (omega arith) (λ i. h i (omega arith) ∙ sym (test_bit-zero i)),
)
lt_of_bits (suc n) x h =
    omega (arith, lt_of_bits n (x / 2) (λ i le. h (suc i) (omega arith)), pow-suc 2 n)

pub bit_and-low : (b : ℕ) → bit_and b 1 ≡ b % 2
bit_and-low b = omega (arith, bit_and_step b 1, none_left (b / 2))
  where
    none_left : (x : ℕ) → bit_and x 0 ≡ 0
    none_left x =
        bits_ext (bit_and x 0) (bit_and x 0) 0 (omega arith) (omega arith)
          (λ i. test_bit-and x 0 i ∙ ground (arith, test_bit-zero i))

pub test_bit_lowest : (x : ℕ) → test_bit x 0 ≡ (x % 2 == 1)
unfolding test_bit
test_bit_lowest x = refl

pub test_bit_next : (x i : ℕ) → test_bit x (suc i) ≡ test_bit (x / 2) i
unfolding test_bit
test_bit_next x i = refl
