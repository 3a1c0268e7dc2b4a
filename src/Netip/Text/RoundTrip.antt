-- ===== src/Netip/Text/RoundTrip.antt =====
-- Reading back the text of addresses and prefixes.
use nephos.Base.{
  ℕ, suc, ◌+◌, ◌-◌, ◌*◌, ◌/◌, ◌%◌, ◌^◌, ◌≤◌, ◌<◌, ◌≡◌, refl, sym, ap, ◌∙◌, ◌⊎◌, inl, inr, true,
  false, Option, none, some, [], ◌∷◌, ◌++◌, arith, leb, Bool-cases, Option-cases, Str, codes,
}
use native.Mathlib.Nat.{pow-suc}
use mathlib.Core.Path.{ap₂, subst}
use mathlib.Core.List.{append-nil}
use nephos.Netip.Defs.{Addr, v4, Prefix}
use nephos.Netip.Text.{
  is_digit, is_empty, scan_v4, split_slash, parse_bits, print_u8, print_v4, print_addr,
  print_prefix, parse_addr, parse_prefix, as_v4, both_parts, make_prefix,
}

parse_test :
    parse_prefix (codes "10.0.12.0/22") ≡ some (record { addr = v4 167775232; bits_plus_one = 23 })
unfolding parse_prefix
parse_test = refl

print_test :
    print_prefix (record { addr = v4 167775232; bits_plus_one = 23 }) ≡ codes "10.0.12.0/22"
unfolding print_prefix
print_test = refl

bad_test : parse_prefix (codes "10.0.012.0/22") ≡ none
unfolding parse_prefix
bad_test = refl

-- One more digit of an octet that is not a lone zero and stays in range.
scan-digit :
    (d val dig pos acc : ℕ) (s : Str)
    → d < 10
    → val * 10 + d < 256
    → (dig ≡ 0) ⊎ (0 < val)
    → scan_v4 ((b'0' + d) ∷ s) val dig pos acc ≡ scan_v4 s (val * 10 + d) (dig + 1) pos acc
unfolding scan_v4
scan-digit d val dig pos acc s h k free =
    let e : b'0' + d - b'0' ≡ d = omega arith in rw e (ground arith)

three :
    (n : ℕ)
    → n < 256
    → 100 ≤ n
    → (rest : Str) (pos acc : ℕ)
    → scan_v4 (print_u8 n ++ rest) 0 0 pos acc ≡ scan_v4 rest n 3 pos acc
unfolding print_u8
three n h k rest pos acc =
    let big : leb 100 n ≡ true = ground arith in
    rw big (
      scan-digit (n / 100) 0 0 pos acc _ (omega arith) (omega arith) (inl refl)
      ∙ scan-digit (n / 10 % 10) _ _ pos acc _ (omega arith) (omega arith) (inr (omega arith))
      ∙ scan-digit (n % 10) _ _ pos acc _ (omega arith) (omega arith) (inr (omega arith))
      ∙ ap (λ v. scan_v4 rest v 3 pos acc) (omega arith))

two :
    (n : ℕ)
    → n < 100
    → 10 ≤ n
    → (rest : Str) (pos acc : ℕ)
    → scan_v4 (print_u8 n ++ rest) 0 0 pos acc ≡ scan_v4 rest n 2 pos acc
unfolding print_u8
two n h k rest pos acc =
    let small : leb 100 n ≡ false = ground arith in
    let big : leb 10 n ≡ true = ground arith in
    rw (small, big)
      (scan-digit (n / 10 % 10) 0 0 pos acc _ (omega arith) (omega arith) (inl refl)
        ∙ scan-digit (n % 10) _ _ pos acc _ (omega arith) (omega arith) (inr (omega arith))
        ∙ ap (λ v. scan_v4 rest v 2 pos acc) (omega arith))

one :
    (n : ℕ)
    → n < 10
    → (rest : Str) (pos acc : ℕ)
    → scan_v4 (print_u8 n ++ rest) 0 0 pos acc ≡ scan_v4 rest n 1 pos acc
unfolding print_u8
one n h rest pos acc =
    let small : leb 100 n ≡ false = ground arith in
    let low : leb 10 n ≡ false = ground arith in
    rw (small, low)
      (scan-digit (n % 10) 0 0 pos acc _ (omega arith) (omega arith) (inl refl)
        ∙ ap (λ v. scan_v4 rest v 1 pos acc) (omega arith))

-- The scan of a printed octet leaves its value as the current octet.
scan-print_u8 :
    (n : ℕ)
    → n < 256
    → (rest : Str) (pos acc : ℕ)
    → (k : ℕ) × (scan_v4 (print_u8 n ++ rest) 0 0 pos acc ≡ scan_v4 rest n (suc k) pos acc)
scan-print_u8 n h rest pos acc = elim (Bool-cases (leb 100 n)) [
  | inl big ↦ (2, three n h (ground arith) rest pos acc)
  | inr small ↦ elim (Bool-cases (leb 10 n)) [
    | inl mid ↦ (1, two n (ground arith) (ground arith) rest pos acc)
    | inr low ↦ (0, one n (ground arith) rest pos acc)
  ]
]

print_u8-nonempty : (n : ℕ) (s : Str) → is_empty (print_u8 n ++ s) ≡ false
unfolding print_u8
print_u8-nonempty n s = ground arith

scan-dot :
    (s : Str) (val k pos acc : ℕ)
    → pos < 3
    → is_empty s ≡ false
    → scan_v4 (b'.' ∷ s) val (suc k) pos acc ≡ scan_v4 s 0 0 (pos + 1) (acc * 256 + val)
unfolding scan_v4
scan-dot s val k pos acc h e = ground arith

-- One octet and its dot.
scan-field :
    (n : ℕ)
    → n < 256
    → (s : Str) (pos acc : ℕ) → pos < 3
    → is_empty s ≡ false
    → scan_v4 (print_u8 n ++ b'.' ∷ s) 0 0 pos acc ≡ scan_v4 s 0 0 (pos + 1) (acc * 256 + n)
scan-field n h s pos acc p e =
    let (k, q) = scan-print_u8 n h (b'.' ∷ s) pos acc in q ∙ scan-dot s n k pos acc p e

scan-end : (n k acc : ℕ) → scan_v4 [] n (suc k) 3 acc ≡ some (acc * 256 + n)
unfolding scan_v4
scan-end n k acc = refl

scan-last : (n : ℕ) → n < 256 → (acc : ℕ) → scan_v4 (print_u8 n) 0 0 3 acc ≡ some (acc * 256 + n)
scan-last n h acc =
    let (k, q) = scan-print_u8 n h [] 3 acc in
    ap (λ s. scan_v4 s 0 0 3 acc) (sym (append-nil (print_u8 n))) ∙ q ∙ scan-end n k acc

print_u8-ne : (n : ℕ) → is_empty (print_u8 n) ≡ false
unfolding print_u8
print_u8-ne n = ground arith

octets_sum :
    (a : ℕ)
    → a < 4294967296
    → (((0 * 256 + a / 16777216) * 256 + a / 65536 % 256) * 256 + a / 256 % 256) * 256 + a % 256 ≡ a
octets_sum a h = omega arith

scan-print_v4 : (a : ℕ) → a < 4294967296 → scan_v4 (print_v4 a) 0 0 0 0 ≡ some a
unfolding print_v4
scan-print_v4 a h =
    scan-field (a / 16777216) (omega arith) _ 0 0 (omega arith) (
      print_u8-nonempty (a / 65536 % 256)
        (b'.' ∷ (print_u8 (a / 256 % 256) ++ b'.' ∷ print_u8 (a % 256))))
    ∙ scan-field (a / 65536 % 256) (omega arith) _ 1 _ (omega arith)
        (print_u8-nonempty (a / 256 % 256) (b'.' ∷ print_u8 (a % 256)))
    ∙ scan-field (a / 256 % 256) (omega arith) _ 2 _ (omega arith) (print_u8-ne (a % 256))
    ∙ scan-last (a % 256) (omega arith) _
    ∙ ap some (octets_sum a h)

-- An IPv4 address is read back from its text.
pub parse_addr-print_addr : (a : ℕ) → a < 2 ^ 32 → parse_addr (print_addr (v4 a)) ≡ some (v4 a)
unfolding parse_addr print_addr
parse_addr-print_addr a h = ap as_v4 (scan-print_v4 a h)

-- The last slash splits text whose second part has none.
split-slash : (s t : Str) → split_slash t ≡ none → split_slash (s ++ b'/' ∷ t) ≡ some (s, t)
unfolding split_slash
split-slash [] t h = rw h
split-slash (c ∷ s) t h = rw (split-slash s t h)

print_u8_two : (n : ℕ) → n < 100 → 10 ≤ n → print_u8 n ≡ (b'0' + n / 10 % 10) ∷ (b'0' + n % 10) ∷ []
unfolding print_u8
print_u8_two n h k = ground arith

print_u8_one : (n : ℕ) → n < 10 → print_u8 n ≡ (b'0' + n % 10) ∷ []
unfolding print_u8
print_u8_one n h = ground arith

length_two :
    (n : ℕ)
    → n < 100
    → 10 ≤ n
    → (split_slash (print_u8 n) ≡ none) × (parse_bits (print_u8 n) ≡ some n)
unfolding split_slash parse_bits
length_two n h k = rw (print_u8_two n h k) (ground arith, ground arith)

length_one :
    (n : ℕ) → n < 10 → (split_slash (print_u8 n) ≡ none) × (parse_bits (print_u8 n) ≡ some n)
unfolding split_slash parse_bits
length_one n h = rw (print_u8_one n h) (ground arith, ground arith)

-- A printed length has no slash and is read back.
length_back :
    (n : ℕ) → n ≤ 32 → (split_slash (print_u8 n) ≡ none) × (parse_bits (print_u8 n) ≡ some n)
length_back n h = elim (Bool-cases (leb 10 n)) [
  | inl two ↦ length_two n (omega arith) (ground arith)
  | inr one ↦ length_one n (ground arith)
]

make_prefix-short :
    (a : Addr) (n : ℕ)
    → n ≤ 32
    → make_prefix (some a) (some n) ≡ some (record { addr = a; bits_plus_one = n + 1 })
make_prefix-short a n k = ground arith

-- An IPv4 prefix is read back from its text.
pub parse_prefix-print_prefix :
    (a n : ℕ)
    → a < 2 ^ 32
    → n ≤ 32
    → parse_prefix (print_prefix (record { addr = v4 a; bits_plus_one = n + 1 }))
      ≡ some (record { addr = v4 a; bits_plus_one = n + 1 })
unfolding parse_prefix print_prefix
parse_prefix-print_prefix a n h k =
    let e : n + 1 - 1 ≡ n = omega arith in
    ap (λ m. both_parts (split_slash (print_v4 a ++ b'/' ∷ print_u8 m))) e
    ∙ ap both_parts (split-slash (print_v4 a) (print_u8 n) (length_back n k).0)
    ∙ ap₂ make_prefix (ap as_v4 (scan-print_v4 a h)) (length_back n k).1
    ∙ make_prefix-short (v4 a) n k

pow-suc_one : (k : ℕ) → 256 ^ (k + 1) ≡ 256 ^ k * 256
pow-suc_one k = let e : k + 1 ≡ suc k = omega arith in rw (e, pow-suc)

-- Four octets stay below 2 ^ 32.
scan-bound :
    (s : Str) (val dig pos acc a : ℕ)
    → val < 256
    → pos ≤ 3
    → acc < 256 ^ pos
    → scan_v4 s val dig pos acc ≡ some a
    → a < 256 ^ 3 * 256
unfolding scan_v4
scan-bound [] val dig pos acc a v p b h =
    let e : pos ≡ 3 = ground arith in
    let b' : acc < 256 ^ 3 = subst (λ k. acc < 256 ^ k) e b in
    let r : a ≡ acc * 256 + val = ground arith in omega arith
scan-bound (c ∷ s) val dig pos acc a v p b h = elim (Bool-cases (is_digit c)) [
  | inl d ↦
      scan-bound s (val * 10 + (c - b'0')) (dig + 1) pos acc a (ground arith) p b (ground arith)
  | inr d ↦
      scan-bound s 0 0 (pos + 1) (acc * 256 + val) a (omega arith) (ground arith)
        (rw pow-suc_one (omega arith)) (ground arith)
]

-- What ParseAddr reads as IPv4 is a uint32.
pub parse_addr-bound :
    (s : Str) (x : Addr) → parse_addr s ≡ some x → (a : ℕ) × (x ≡ v4 a) × (a < 2 ^ 32)
unfolding parse_addr
parse_addr-bound s x h = elim (Option-cases (scan_v4 s 0 0 0 0)) [
  | inl e ↦ absurd (ground arith)
  | inr (a, e) ↦
      (a, ground arith, scan-bound s 0 0 0 0 a (omega arith) (omega arith) (omega arith) e)
]

make_prefix-parts :
    (x : Option Addr) (m : Option ℕ) (p : Prefix)
    → make_prefix x m ≡ some p
    → (a : Addr) × (n : ℕ) × (x ≡ some a)
      × (p ≡ record { addr = a; bits_plus_one = n + 1 })
      × (n ≤ 32)
make_prefix-parts (some a) (some n) p h = (a, n, refl, ground arith, ground arith)
make_prefix-parts (some a) none p h = cc
make_prefix-parts none m p h = cc

-- What ParsePrefix reads as IPv4 is a uint32 and a length of at most 32.
pub parse_prefix-bound :
    (s : Str) (p : Prefix)
    → parse_prefix s ≡ some p
    → (a : ℕ) × (n : ℕ) × (p ≡ record { addr = v4 a; bits_plus_one = n + 1 })
      × (a < 2 ^ 32)
      × (n ≤ 32)
unfolding parse_prefix
parse_prefix-bound s p h = elim (Option-cases (split_slash s)) [
  | inl e ↦ absurd (ground arith)
  | inr ((ip, len), e) ↦
      let (x, n, read, shape, short) =
        make_prefix-parts (parse_addr ip) (parse_bits len) p (ap both_parts (sym e) ∙ h) in
      let (a, four, bound) = parse_addr-bound ip x read in
      (a, n, shape ∙ ap (λ y. record { addr = y; bits_plus_one = n + 1 }) four, bound, short)
]
