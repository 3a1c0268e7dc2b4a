-- ===== src/Netip/Ranges.antt =====
-- IPv4 prefixes as ranges of addresses: what `contains` and `masked` mean in numbers.
use nephos.Base.{
  ℕ, zero, suc, ◌+◌, ◌-◌, ◌*◌, ◌/◌, ◌^◌, ◌≤◌, ◌<◌, ◌≡◌, sym, ap, ◌∙◌, ◌↔◌, arith, ◌==◌,
}
use native.Mathlib.Nat.{
  add-mul-div_right, div-eq_of_lt, mul-div-mul_left, pow-suc, mul-div_left, div-div-eq-div-mul,
  div-add-mod', mul_comm, mul_assoc, mod-lt,
}
use nephos.Netip.Defs.{v4, Prefix, masked, contains}

-- the IPv4 prefix a/n
abbrev pub net4 : ℕ → ℕ → Prefix
net4 a n = record { addr = v4 a; bits_plus_one = n + 1 }

pub pow_pos : (k : ℕ) → 0 < 2 ^ k
pow_pos zero = omega arith
pow_pos (suc k) = rw pow-suc (omega (arith, pow_pos k))

pub pow-add : (m k : ℕ) → 2 ^ (m + k) ≡ 2 ^ m * 2 ^ k
pow-add m zero = let e : m + 0 ≡ m = omega arith in rw e (omega arith)
pow-add m (suc k) =
    let e : m + suc k ≡ suc (m + k) = omega arith in
    ap (λ t. 2 ^ t) e
    ∙ pow-suc 2 (m + k)
    ∙ ap (λ t. t * 2) (pow-add m k)
    ∙ mul_assoc (2 ^ m) (2 ^ k) 2
    ∙ ap (λ t. 2 ^ m * t) (sym (pow-suc 2 k))

-- the first address of the block of size 2 ^ k around a
abbrev pub floor : ℕ → ℕ → ℕ
floor a k = a / 2 ^ k * 2 ^ k

pub floor-div : (a k : ℕ) → floor a k / 2 ^ k ≡ a / 2 ^ k
floor-div a k = mul-div_left (a / 2 ^ k) (pow_pos k)

pub floor_bounds : (a k : ℕ) → (floor a k ≤ a) × (a < floor a k + 2 ^ k)
floor_bounds a k =
    let e = div-add-mod' a (2 ^ k) in let m = mod-lt a (pow_pos k) in (omega arith, omega arith)

-- The block of a coarser mask sees only the block of a finer one.
pub floor-div_coarse : (a k d : ℕ) → floor a k / 2 ^ (k + d) ≡ a / 2 ^ (k + d)
floor-div_coarse a k d = rw pow-add (
    ap (λ t. t / (2 ^ k * 2 ^ d)) (mul_comm (a / 2 ^ k) (2 ^ k))
    ∙ mul-div-mul_left (a / 2 ^ k) (2 ^ d) (pow_pos k)
    ∙ div-div-eq-div-mul a (2 ^ k) (2 ^ d))

block_of_bounds : (q m x : ℕ) → 0 < m → q * m ≤ x → x < q * m + m → q ≡ x / m
block_of_bounds q m x p l u =
    let r = x - q * m in
    let e : x ≡ r + q * m = omega arith in
    let z : r / m ≡ 0 = div-eq_of_lt (omega arith) in
    sym (ap (λ t. t / m) e ∙ add-mul-div_right r q p ∙ ap (λ t. t + q) z ∙ omega arith)

-- Addresses of one fine block are of one coarse block.
pub coarser : (x y k d : ℕ) → x / 2 ^ k ≡ y / 2 ^ k → x / 2 ^ (k + d) ≡ y / 2 ^ (k + d)
coarser x y k d h = rw pow-add (
    sym (div-div-eq-div-mul x (2 ^ k) (2 ^ d))
    ∙ ap (λ t. t / 2 ^ d) h
    ∙ div-div-eq-div-mul y (2 ^ k) (2 ^ d))

-- Being in the block of a is lying between its ends.
pub same_block_iff :
    (a x k : ℕ) → (a / 2 ^ k ≡ x / 2 ^ k) ↔ ((floor a k ≤ x) × (x < floor a k + 2 ^ k))
same_block_iff a x k = (
  λ h. let b = floor_bounds x k in let e = ap (λ t. t * 2 ^ k) h in (omega arith, omega arith),
  λ b. block_of_bounds (a / 2 ^ k) (2 ^ k) x (pow_pos k) b.0 b.1,
)

module _ (a n : ℕ) where
  pub masked-net4 : masked (net4 a n) ≡ net4 (floor a (32 - n)) n
  unfolding masked
  masked-net4 = let e : n + 1 - 1 ≡ n = omega arith in rw e (ground arith)

  pub contains-net4 : (x : ℕ) → contains (net4 a n) (v4 x) ≡ (a / 2 ^ (32 - n) == x / 2 ^ (32 - n))
  unfolding contains
  contains-net4 x = let e : n + 1 - 1 ≡ n = omega arith in rw e (ground arith)
