-- ===== src/Service/Ipam/Free.antt =====
-- internal/service/ipam.go: the search of nextPrivateIP.
use nephos.Base.{
  ℕ, zero, suc, ◌+◌, ◌-◌, ◌*◌, ◌/◌, ◌^◌, ◌≤◌, ◌<◌, ◌≡◌, sym, ap, ◌∙◌, inl, inr, true, false, List,
  arith, ltb, ◌==◌, Bool-cases, Result, ok, err,
}
use native.Mathlib.Nat.{le_refl, mul-le-mul_right}
use mathlib.Core.Path.{subst}
use nephos.Netip.{Addr, v4, Prefix, masked, next, addr_eq, prefix_eq}
use nephos.Netip.Ranges.{net4, floor, pow-add, masked-net4}
use nephos.Service.Validate.Cidr.{IsCanonical, size_bounds}
use nephos.Service.Ipam.{IpamError, address_exhausted, is_used, search_free, next_private_ip}

next-v4 : (x : ℕ) → x + 1 < 2 ^ 32 → next (v4 x) ≡ v4 (x + 1)
unfolding next
next-v4 x h = ground arith

search-end :
    (f x : ℕ) (used : List Addr) → search_free (suc f) (v4 x) (v4 x) used ≡ err address_exhausted
unfolding search_free addr_eq
search-end f x used = ground arith

search-take :
    (f x last : ℕ) (used : List Addr)
    → x < last
    → is_used (v4 x) used ≡ false
    → search_free (suc f) (v4 x) (v4 last) used ≡ ok (v4 x)
unfolding search_free addr_eq
search-take f x last used h e = rw e (ground arith)

search-skip :
    (f x last : ℕ) (used : List Addr)
    → x < last
    → last < 2 ^ 32
    → is_used (v4 x) used ≡ true
    → search_free (suc f) (v4 x) (v4 last) used ≡ search_free f (v4 (x + 1)) (v4 last) used
unfolding search_free addr_eq
search-skip f x last used h w e = rw (next-v4 x (omega arith), e) (ground arith)

-- The addresses from x up to, but without, y are all in use.
abbrev pub AllUsed : ℕ → ℕ → List Addr → Type 0
AllUsed x y used = (z : ℕ) → x ≤ z → z < y → is_used (v4 z) used ≡ true

-- What a search from x to last may return: the first free address, or the report that there is none.
pub data Outcome (x last : ℕ) (used : List Addr) (r : Result IpamError Addr) : Type 0 where
  found :
      (y : ℕ)
      → r ≡ ok (v4 y)
      → x ≤ y
      → y < last
      → is_used (v4 y) used ≡ false
      → AllUsed x y used
      → Outcome x last used r
  full : r ≡ err address_exhausted → AllUsed x last used → Outcome x last used r

AllUsed-cons :
    (x y : ℕ) (used : List Addr)
    → is_used (v4 x) used ≡ true
    → AllUsed (x + 1) y used
    → AllUsed x y used
AllUsed-cons x y used e h z l u = elim (Bool-cases (x == z)) [
  | inl same ↦ let p : x ≡ z = ground arith in subst (λ i. is_used (v4 i) used ≡ true) p e
  | inr other ↦ h z (ground arith) u
]

Outcome-cons :
    (x last : ℕ) (used : List Addr) (r : Result IpamError Addr)
    → is_used (v4 x) used ≡ true
    → Outcome (x + 1) last used r
    → Outcome x last used r
Outcome-cons x last used r e (found y p l u free before) =
    found y p (omega arith) u free (AllUsed-cons x y used e before)
Outcome-cons x last used r e (full p before) = full p (AllUsed-cons x last used e before)

search-Outcome :
    (f x last : ℕ) (used : List Addr)
    → x ≤ last
    → last < 2 ^ 32
    → last < x + f
    → Outcome x last used (search_free f (v4 x) (v4 last) used)
search-Outcome zero x last used h w b = absurd (omega arith)
search-Outcome (suc f) x last used h w b = elim (Bool-cases (x == last)) [
  | inl same ↦
      let p : x ≡ last = ground arith in
      subst (λ y. Outcome x y used (search_free (suc f) (v4 x) (v4 y) used)) p
        (full (search-end f x used) (λ z l u. absurd (omega arith)))
  | inr other ↦
      let h' : x < last = ground arith in
      elim (Bool-cases (is_used (v4 x) used)) [
        | inl busy ↦ subst (Outcome x last used) (sym (search-skip f x last used h' w busy)) (
            Outcome-cons x last used _ busy
              (search-Outcome f (x + 1) last used (omega arith) w (omega arith)))
        | inr free ↦
            found x (search-take f x last used h' free) (le_refl x) h' free
              (λ z l u. absurd (omega arith))
      ]
]

canonical_test : (a n : ℕ) → floor a (32 - n) ≡ a → prefix_eq (net4 a n) (masked (net4 a n)) ≡ true
unfolding prefix_eq addr_eq
canonical_test a n c = rw (masked-net4 a n) (ground arith)

four_on : (x : ℕ) → x + 4 < 2 ^ 32 → next (next (next (next (v4 x)))) ≡ v4 (x + 4)
four_on x h =
    ap (λ a. next (next (next a))) (next-v4 x (omega arith))
    ∙ ap (λ a. next (next a)) (next-v4 (x + 1) (omega arith))
    ∙ ap next (next-v4 (x + 1 + 1) (omega arith))
    ∙ next-v4 (x + 1 + 1 + 1) (omega arith)
    ∙ ap v4 (omega arith)

-- On a canonical block the search runs from the fifth address to the last.
next_private_ip-search :
    (a n : ℕ) (used : List Addr)
    → a + 4 < 2 ^ 32
    → 16 ≤ n
    → n ≤ 28
    → floor a (32 - n) ≡ a
    → next_private_ip (net4 a n) used
      ≡ search_free (2 ^ (32 - n)) (v4 (a + 4)) (v4 (a + (2 ^ (32 - n) - 1))) used
unfolding next_private_ip
next_private_ip-search a n used h l u c =
    let e : n + 1 - 1 ≡ n = omega arith in rw (canonical_test a n c, four_on a h, e) (ground arith)

room : (q m p x w : ℕ) → q * p ≡ x → w ≡ m * p → x < w → x + p ≤ w
room q m p x w i j k = elim (Bool-cases (ltb q m)) [
  | inl less ↦ let h : q + 1 ≤ m = ground arith in let t = mul-le-mul_right p h in omega arith
  | inr more ↦ let h : m ≤ q = ground arith in let t = mul-le-mul_right p h in absurd (omega arith)
]

-- A canonical block ends within the address space.
pub block_fits : (a n : ℕ) → n ≤ 32 → floor a (32 - n) ≡ a → a < 2 ^ 32 → a + 2 ^ (32 - n) ≤ 2 ^ 32
block_fits a n u c h =
    let k = 32 - n in
    let e : n + k ≡ 32 = omega arith in
    let f : 2 ^ 32 ≡ 2 ^ n * 2 ^ k = sym (ap (λ i. 2 ^ i) e) ∙ pow-add n k in
    room (a / 2 ^ k) (2 ^ n) (2 ^ k) a (2 ^ 32) c f h

-- In a canonical subnet nextPrivateIP either returns the lowest address that is not in use among
-- those from the base plus four up to, but without, the last one, or reports exhaustion, and
-- then all of these are in use. In particular it never runs out of fuel.
pub next_private_ip-Outcome :
    (p : Prefix) (used : List Addr) (c : IsCanonical p)
    → Outcome (c.base + 4) (c.base + (2 ^ (32 - c.len) - 1)) used (next_private_ip p used)
next_private_ip-Outcome p used c =
    let (low, high) = size_bounds c.len c.at_least c.at_most in
    let fits = block_fits c.base c.len (omega arith) c.clear c.word in
    subst (Outcome (c.base + 4) (c.base + (2 ^ (32 - c.len) - 1)) used)
      (sym (
        ap (λ q. next_private_ip q used) c.shape
        ∙ next_private_ip-search c.base c.len used (omega arith) c.at_least c.at_most c.clear))
      (search-Outcome (2 ^ (32 - c.len)) (c.base + 4) (c.base + (2 ^ (32 - c.len) - 1)) used
        (omega arith) (omega arith) (omega arith))
