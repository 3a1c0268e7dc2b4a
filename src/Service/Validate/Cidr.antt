-- ===== src/Service/Validate/Cidr.antt =====
-- ParseCIDR's results, and the addresses that a subnet reserves.
use nephos.Base.{
  ℕ, ◌+◌, ◌-◌, ◌*◌, ◌%◌, ◌^◌, ◌≤◌, ◌<◌, ◌≡◌, sym, ap, ◌∙◌, ◌↔◌, ◌⊎◌, inl, inr, true, ◌&&◌, ◌||◌,
  some, arith, leb, ◌==◌, Bool-cases, Option-cases, &&-split, Str, ok, err,
}
use mathlib.Core.Path.{subst}
use nephos.Netip.{v4, Prefix, masked, contains}
use nephos.Netip.Text.{parse_prefix, print_prefix}
use nephos.Netip.Text.RoundTrip.{parse_prefix-print_prefix, parse_prefix-bound}
use nephos.Netip.Ranges.{
  net4, floor, floor_bounds, pow_pos, pow-add, same_block_iff, floor-div, masked-net4,
}
use nephos.Errors.{Error, invalid_parameter}
use nephos.Service.Validate.{check_size, size_in_range, parse_cidr, reserved_address}
use nephos.Service.Validate.Ranges.{Holds, Holds-iff}

-- The sizes of the blocks from /16 to /28.
pub size_bounds : (n : ℕ) → 16 ≤ n → n ≤ 28 → (16 ≤ 2 ^ (32 - n)) × (2 ^ (32 - n) ≤ 65536)
size_bounds n l u =
    let k = 32 - n in
    let low : 4 + (k - 4) ≡ k = omega arith in
    let high : k + (16 - k) ≡ 16 = omega arith in
    let p = pow_pos (k - 4) in
    let q = pow_pos (16 - k) in
    let e : 2 ^ k ≡ 16 * 2 ^ (k - 4) = sym (ap (λ i. 2 ^ i) low) ∙ pow-add 4 (k - 4) in
    let f : 65536 ≡ 2 ^ k * 2 ^ (16 - k) = sym (ap (λ i. 2 ^ i) high) ∙ pow-add k (16 - k) in
    (omega arith, grind arith)

-- A canonical IPv4 block of the sizes that the service takes.
pub record IsCanonical (p : Prefix) : Type 0 where
  pub base : ℕ
  pub len : ℕ
  pub shape : p ≡ net4 base len
  pub at_least : 16 ≤ len
  pub at_most : len ≤ 28
  pub clear : floor base (32 - len) ≡ base
  pub word : base < 2 ^ 32

floor-floor : (a k : ℕ) → floor (floor a k) k ≡ floor a k
floor-floor a k = ap (λ q. q * 2 ^ k) (floor-div a k)

canonical_net4 : (a n : ℕ) → a < 2 ^ 32 → 16 ≤ n → n ≤ 28 → IsCanonical (masked (net4 a n))
canonical_net4 a n h l u = record {
  base = floor a (32 - n);
  len = n;
  shape = masked-net4 a n;
  at_least = l;
  at_most = u;
  clear = floor-floor a (32 - n);
  word = let b = floor_bounds a (32 - n) in omega arith;
}

sized : (a n : ℕ) → size_in_range (net4 a n) ≡ true → (16 ≤ n) × (n ≤ 28)
unfolding size_in_range
sized a n h = ground arith

fitting : (a n : ℕ) → 16 ≤ n → n ≤ 28 → size_in_range (net4 a n) ≡ true
unfolding size_in_range
fitting a n l u = ground arith

check_size-some :
    (q p : Prefix) → check_size (some q) ≡ ok p → (size_in_range q ≡ true) × (p ≡ masked q)
check_size-some q p h = elim (Bool-cases (size_in_range q)) [
  | inl e ↦ (e, ground arith)
  | inr e ↦ absurd (ground arith)
]

-- What ParseCIDR returns is an IPv4 block from /16 to /28 whose base is below 2 ^ 32 and has no
-- host bits.
pub parse_cidr-IsCanonical : (raw : Str) (p : Prefix) → parse_cidr raw ≡ ok p → IsCanonical p
unfolding parse_cidr
parse_cidr-IsCanonical raw p h = elim (Option-cases (parse_prefix raw)) [
  | inl e ↦ absurd (ground arith)
  | inr (q, e) ↦
      let (a, n, shape, word, _) = parse_prefix-bound raw q e in
      let (fits, result) = check_size-some q p (ap check_size (sym e) ∙ h) in
      let (l, u) = sized a n (subst (λ r. size_in_range r ≡ true) shape fits) in
      subst IsCanonical (sym (result ∙ ap masked shape)) (canonical_net4 a n word l u)
]

-- Any refusal of ParseCIDR is InvalidParameterValue.
pub parse_cidr-refusal : (raw : Str) (e : Error) → parse_cidr raw ≡ err e → e ≡ invalid_parameter
unfolding parse_cidr
parse_cidr-refusal raw e h = ground arith

-- For a base below 2 ^ 32 and a mask from 16 to 28, ParseCIDR reads the text of the IPv4 block,
-- host bits or not, as the block without its host bits.
pub parse_cidr-print_prefix :
    (a n : ℕ)
    → a < 2 ^ 32
    → 16 ≤ n
    → n ≤ 28
    → parse_cidr (print_prefix (net4 a n)) ≡ ok (net4 (floor a (32 - n)) n)
unfolding parse_cidr
parse_cidr-print_prefix a n h l u =
    ap check_size (parse_prefix-print_prefix a n h (omega arith)) ∙ small ∙ ap ok (masked-net4 a n)
  where
    small : check_size (some (net4 a n)) ≡ ok (masked (net4 a n))
    small = let fits = fitting a n l u in ground arith

-- The numbers that reservedAddress compares, for an address of the block.
offset_of :
    (f p x : ℕ)
    → f ≤ x
    → x < 2 ^ 32
    → p ≤ 65536
    → 16 ≤ p
    → ((x + 2 ^ 32 - f) % 2 ^ 32 ≡ x - f) × ((p + 2 ^ 32 - 1) % 2 ^ 32 ≡ p - 1)
offset_of f p x h k u l = (omega arith, omega arith)

reserved_test :
    (a n x : ℕ)
    → 16 ≤ n
    → n ≤ 28
    → reserved_address (net4 a n) (v4 x) ≡ (
        contains (net4 a n) (v4 x)
        && (leb ((x + 2 ^ 32 - floor a (32 - n)) % 2 ^ 32) 3
            || ((x + 2 ^ 32 - floor a (32 - n)) % 2 ^ 32 == (2 ^ (32 - n) + 2 ^ 32 - 1) % 2 ^ 32)))
unfolding reserved_address
reserved_test a n x l u =
    let e : n + 1 - 1 ≡ n = omega arith in rw (masked-net4 a n, e) (ground arith)

-- For a mask from 16 to 28 and an address below 2 ^ 32, the address is reserved in the block
-- exactly when the block holds it and it is one of the first four or the last.
pub reserved_iff :
    (a n x : ℕ)
    → 16 ≤ n
    → n ≤ 28
    → x < 2 ^ 32
    → (reserved_address (net4 a n) (v4 x) ≡ true) ↔ (
        Holds (net4 a n) x
        × ((x ≤ floor a (32 - n) + 3) ⊎ (x + 1 ≡ floor a (32 - n) + 2 ^ (32 - n))))
reserved_iff a n x l u k = (to, from)
  where
    within : Holds (net4 a n) x → (floor a (32 - n) ≤ x) × (x < floor a (32 - n) + 2 ^ (32 - n))
    within h = (same_block_iff a x (32 - n)).0 ((Holds-iff a n x).0 h)

    to :
        reserved_address (net4 a n) (v4 x) ≡ true
        → Holds (net4 a n) x
          × ((x ≤ floor a (32 - n) + 3) ⊎ (x + 1 ≡ floor a (32 - n) + 2 ^ (32 - n)))
    to h =
        let (c, t) = &&-split _ _ (sym (reserved_test a n x l u) ∙ h) in
        let (low, up) = within c in
        let (p, q) = size_bounds n l u in
        let (off, last) = offset_of (floor a (32 - n)) (2 ^ (32 - n)) x low k q p in
        (c, ground (arith, t, off, last, low, up, p, q))

    from :
        Holds (net4 a n) x
          × ((x ≤ floor a (32 - n) + 3) ⊎ (x + 1 ≡ floor a (32 - n) + 2 ^ (32 - n)))
        → reserved_address (net4 a n) (v4 x) ≡ true
    from (c, t) =
        let (low, up) = within c in
        let (p, q) = size_bounds n l u in
        let (off, last) = offset_of (floor a (32 - n)) (2 ^ (32 - n)) x low k q p in
        reserved_test a n x l u ∙ ground (arith, t, c, off, last, low, up, p, q)
