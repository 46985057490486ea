-- ===== src/Common/Bits.antt =====
-- Exclusive or on numbers of any width, from the digit recursion that the native operation means.
use Prim.Native.Nat.{
  ℕ, zero, suc, ◌+◌, ◌-◌, ◌*◌, ◌/◌, ◌%◌, ◌^◌, ◌≤◌, ◌<◌, bit_xor, digits, bit_xor-bitwise, differ,
}
use mathlib.Core.Path.{◌≡◌, refl, sym, ap, ap₂, ◌∙◌}
use native.Mathlib.Nat.{pow-suc, div-add-mod, pow-succ', div-div-eq-div-mul}
use native.Mathlib.Decide.{ℕ_discrete}
use native.Mathlib.Omega.{arith}

-- One unit of fuel beyond the first number is not used, so none is.
spare_unit : (n x y : ℕ) → x ≤ n → digits (λ d. d) differ (suc n) x y ≡ digits (λ d. d) differ n x y
spare_unit (suc n) (suc x) y small = omega (arith, spare_unit n (suc x / 2) (y / 2) (omega arith))
spare_unit (suc n) zero y small = refl
spare_unit zero (suc x) y small = absurd (omega arith)
spare_unit zero zero y small = refl

spare_fuel :
    (k n m x y : ℕ)
    → x ≤ n
    → m ≡ n + k
    → digits (λ d. d) differ m x y ≡ digits (λ d. d) differ n x y
spare_fuel zero n m x y small e = ap (λ (f : ℕ). digits (λ d. d) differ f x y) (omega arith)
spare_fuel (suc k) n m x y small e =
    spare_fuel k (suc n) m x y (omega arith) (omega arith) ∙ spare_unit n x y small

zero-bit_xor : (y : ℕ) → bit_xor 0 y ≡ y
zero-bit_xor = bit_xor-bitwise 0

differ_sum : (d e : ℕ) → d < 2 → e < 2 → differ d e ≡ (d + e) % 2
differ_sum zero e hd he = omega arith
differ_sum (suc (suc d)) e hd he = absurd (omega arith)
differ_sum (suc zero) (suc (suc e)) hd he = absurd (omega arith)
differ_sum (suc zero) (suc zero) hd he = refl
differ_sum (suc zero) zero hd he = refl

-- The lowest digit, and the others.
bit_xor_step : (a b : ℕ) → bit_xor a b ≡ bit_xor (a / 2) (b / 2) * 2 + (a % 2 + b % 2) % 2
bit_xor_step zero b = omega (arith, zero-bit_xor (b / 2), zero-bit_xor b)
bit_xor_step (suc a) b =
    let half = suc a / 2 in
    omega (
      arith,
      differ_sum (suc a % 2) (b % 2) (omega arith) (omega arith),
      spare_fuel (a - half) half a half (b / 2) (omega arith) (omega arith),
      bit_xor-bitwise half (b / 2),
      bit_xor-bitwise (suc a) b,
    )

pub bit_xor-lt : (k a b : ℕ) → a < 2 ^ k → b < 2 ^ k → bit_xor a b < 2 ^ k
bit_xor-lt zero a b h l =
    omega (arith, ap (λ (x : ℕ). bit_xor x b) {x = a} {y = 0} (omega arith), zero-bit_xor b)
bit_xor-lt (suc k) a b h l = omega (
  arith,
  bit_xor_step a b,
  pow-suc 2 k,
  bit_xor-lt k (a / 2) (b / 2) (omega (arith, pow-suc 2 k)) (omega (arith, pow-suc 2 k)),
)

-- Each side of an exclusive or can be cancelled; the fuel bounds all the numbers.
cancel_right : (n a b c : ℕ) → a + b + c ≤ n → bit_xor a c ≡ bit_xor b c → a ≡ b
cancel_right zero a b c h e = omega arith
cancel_right (suc n) zero zero c h e = refl
cancel_right (suc n) a b c h e = elim (ℕ_discrete (a + b) 0) [
  | yes z ↦ omega arith
  | no z ↦ omega (
    arith,
    bit_xor_step a c,
    bit_xor_step b c,
    cancel_right n (a / 2) (b / 2) (c / 2) (omega arith)
        (omega (arith, bit_xor_step a c, bit_xor_step b c)),
  )
]

pub bit_xor-cancel_right : (a b c : ℕ) → bit_xor a c ≡ bit_xor b c → a ≡ b
bit_xor-cancel_right a b c e = cancel_right (a + b + c) a b c (omega arith) e

xor_comm_fuel : (n a b : ℕ) → a + b ≤ n → bit_xor a b ≡ bit_xor b a
xor_comm_fuel zero a b h =
    ap (λ (x : ℕ). bit_xor x b) {x = a} {y = b} (omega arith)
    ∙ ap (bit_xor b) {x = b} {y = a} (omega arith)
xor_comm_fuel (suc n) a b h = elim (ℕ_discrete (a + b) 0) [
  | yes z ↦
      ap (λ (x : ℕ). bit_xor x b) {x = a} {y = b} (omega arith)
      ∙ ap (bit_xor b) {x = b} {y = a} (omega arith)
  | no z ↦
      omega
        (arith, bit_xor_step a b, bit_xor_step b a, xor_comm_fuel n (a / 2) (b / 2) (omega arith))
]

pub bit_xor_comm : (a b : ℕ) → bit_xor a b ≡ bit_xor b a
bit_xor_comm a b = xor_comm_fuel (a + b) a b (omega arith)

pub bit_xor-zero : (a : ℕ) → bit_xor a 0 ≡ a
bit_xor-zero a = bit_xor_comm a 0 ∙ zero-bit_xor a

pub bit_xor-cancel_left : (a b c : ℕ) → bit_xor a b ≡ bit_xor a c → b ≡ c
bit_xor-cancel_left a b c e = bit_xor-cancel_right b c a (bit_xor_comm b a ∙ e ∙ bit_xor_comm a c)

xor_half : (a b : ℕ) → bit_xor a b / 2 ≡ bit_xor (a / 2) (b / 2)
xor_half a b = omega (arith, bit_xor_step a b)

div_pow_suc : (k a : ℕ) → a / 2 ^ suc k ≡ a / 2 / 2 ^ k
div_pow_suc k a = ap (λ (m : ℕ). a / m) (pow-succ' 2 k) ∙ sym (div-div-eq-div-mul a 2 (2 ^ k))

-- The digits above the lowest `k` are those of the parts, and so are the lowest `k`.
pub bit_xor-shift : (k a b : ℕ) → bit_xor a b / 2 ^ k ≡ bit_xor (a / 2 ^ k) (b / 2 ^ k)
bit_xor-shift zero a b =
    omega (arith, ap₂ bit_xor {x = a / 1} {y = a} {u = b / 1} {v = b} (omega arith) (omega arith))
bit_xor-shift (suc k) a b =
    rw (div_pow_suc k (bit_xor a b), div_pow_suc k a, div_pow_suc k b, xor_half a b)
      (bit_xor-shift k (a / 2) (b / 2))

mod_pow_suc : (k a : ℕ) → a % 2 ^ suc k ≡ a / 2 % 2 ^ k * 2 + a % 2
mod_pow_suc k a =
    let q = a / 2 / 2 ^ k in
    omega (
      arith,
      div-add-mod a (2 ^ suc k),
      div-add-mod (a / 2) (2 ^ k),
      ap (λ (t : ℕ). t * 2 ^ suc k) (div_pow_suc k a),
      ap (λ (t : ℕ). q * t) (pow-suc 2 k),
    )

pub bit_xor-mod : (k a b : ℕ) → bit_xor a b % 2 ^ k ≡ bit_xor (a % 2 ^ k) (b % 2 ^ k)
bit_xor-mod zero a b = omega (
  arith,
  ap₂ bit_xor {x = a % 1} {y = 0} {u = b % 1} {v = 0} (omega arith) (omega arith),
  zero-bit_xor 0,
)
bit_xor-mod (suc k) a b =
    let x = a % 2 ^ suc k in
    let y = b % 2 ^ suc k in
    omega (
      arith,
      mod_pow_suc k (bit_xor a b),
      bit_xor_step a b,
      ap (λ (t : ℕ). t % 2 ^ k) (xor_half a b),
      bit_xor_step x y,
      ap₂ bit_xor {x = x / 2} {y = a / 2 % 2 ^ k} {u = y / 2} {v = b / 2 % 2 ^ k}
          (omega (arith, mod_pow_suc k a)) (omega (arith, mod_pow_suc k b)),
      bit_xor-mod k (a / 2) (b / 2),
      mod_pow_suc k a,
      mod_pow_suc k b,
    )
