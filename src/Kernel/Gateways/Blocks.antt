-- ===== src/Kernel/Gateways/Blocks.antt =====
-- internal/network/topology/vpc_linux.go: its tests on canonical blocks.
use nephos.Base.{
  ℕ, ◌+◌, ◌-◌, ◌/◌, ◌^◌, ◌≤◌, ◌≡◌, refl, sym, ap, ◌∙◌, inl, inr, true, false, ◌==◌, ==_iff,
  Bool-cases, ltb, leb, arith, str_eq, str_eq_refl, ok,
}
use mathlib.Core.Path.{subst}
use Prim.Native.Nat.{min}
use nephos.Netip.{
  v4, Prefix, masked, contains, prefix_eq, prefix_valid, is4, bits, next, addr_eq, prefix_overlaps,
}
use nephos.Netip.Ranges.{net4, masked-net4}
use nephos.Model.{Vpc, Subnet}
use nephos.Service.Validate.{overlaps, validate_subnet_range, gateway}
use nephos.Service.Validate.Ranges.{Holds, Holds-iff, overlaps_iff}
use nephos.Service.Validate.Containment.{range_iff}
use nephos.Service.Validate.Cidr.{IsCanonical}
use nephos.Kernel.Gateways.{valid_block, valid_range}

masked-canonical : (p : Prefix) → IsCanonical p → masked p ≡ p
masked-canonical p c =
    ap masked c.shape ∙ masked-net4 c.base c.len ∙ ap (λ a. net4 a c.len) c.clear ∙ sym c.shape

prefix_eq_refl : (a n : ℕ) → prefix_eq (net4 a n) (net4 a n) ≡ true
unfolding prefix_eq addr_eq
prefix_eq_refl a n = ground arith

valid_block-net4 :
    (a n : ℕ) → masked (net4 a n) ≡ net4 a n → 16 ≤ n → n ≤ 28 → valid_block (net4 a n) ≡ true
unfolding valid_block prefix_valid is4 bits
valid_block-net4 a n m low high =
    let same : prefix_eq (masked (net4 a n)) (net4 a n) ≡ true =
      ap (λ q. prefix_eq q (net4 a n)) m ∙ prefix_eq_refl a n in
    ground arith

pub valid_block-canonical : (p : Prefix) → IsCanonical p → valid_block p ≡ true
valid_block-canonical p c =
    subst (λ q. valid_block q ≡ true) (sym c.shape)
      (valid_block-net4 c.base c.len (subst (λ q. masked q ≡ q) c.shape (masked-canonical p c))
        c.at_least c.at_most)

-- Overlapping is tested on the network bits of the coarser block.
coarser_test :
    (a n b m k : ℕ)
    → 1 ≤ k
    → min n m ≡ k
    → prefix_overlaps (net4 a n) (net4 b m) ≡ true
    → a / 2 ^ (32 - k) ≡ b / 2 ^ (32 - k)
unfolding prefix_overlaps prefix_valid is4 bits prefix_eq addr_eq
coarser_test a n b m k low least h = elim (Bool-cases (a == b)) [
  | inl e ↦ ap (λ x. x / 2 ^ (32 - k)) ((==_iff a b).0 e)
  | inr e ↦
      let f : min (n + 1 - 1) (m + 1 - 1) ≡ k = omega (arith, least) in
      let g : (k == 0) ≡ false = ground arith in
      let p : ltb 0 (n + 1) ≡ true = ground arith in
      let q : ltb 0 (m + 1) ≡ true = ground arith in
      let t : (a / 2 ^ (32 - k) == b / 2 ^ (32 - k)) ≡ true = rw (e, f, g, p, q) at h in
      (==_iff (a / 2 ^ (32 - k)) (b / 2 ^ (32 - k))).0 t
]

common :
    (a n b m : ℕ)
    → 1 ≤ n
    → 1 ≤ m
    → prefix_overlaps (net4 a n) (net4 b m) ≡ true
    → (x : ℕ) × Holds (net4 a n) x × Holds (net4 b m) x
common a n b m low low' h = elim (Bool-cases (leb n m)) [
  | inl e ↦ (
    b,
    (Holds-iff a n b).1 (coarser_test a n b m n low (ground arith) h),
    (Holds-iff b m b).1 refl,
  )
  | inr e ↦ (
    a,
    (Holds-iff a n a).1 refl,
    (Holds-iff b m a).1 (sym (coarser_test a n b m m low' (ground arith) h)),
  )
]

prefix_overlaps-net4 :
    (a n b m : ℕ)
    → 1 ≤ n
    → 1 ≤ m
    → overlaps (net4 a n) (net4 b m) ≡ false
    → prefix_overlaps (net4 a n) (net4 b m) ≡ false
prefix_overlaps-net4 a n b m low low' h =
    elim (Bool-cases (prefix_overlaps (net4 a n) (net4 b m))) [
      | inl e ↦
          let t = (overlaps_iff a n b m).1 (common a n b m low low' e) in absurd (ground arith)
      | inr e ↦ e
    ]

-- Blocks that the service takes to be disjoint do not overlap for netip either.
pub prefix_overlaps-canonical :
    (p q : Prefix)
    → IsCanonical p
    → IsCanonical q
    → overlaps p q ≡ false
    → prefix_overlaps p q ≡ false
prefix_overlaps-canonical p q c d h =
    ap (λ x. prefix_overlaps x q) c.shape
    ∙ ap (prefix_overlaps (net4 c.base c.len)) d.shape
    ∙ prefix_overlaps-net4 c.base c.len d.base d.len (omega (arith, c.at_least))
        (omega (arith, d.at_least))
        (ap (λ x. overlaps x (net4 d.base d.len)) (sym c.shape) ∙ ap (overlaps p) (sym d.shape) ∙ h)

module _ (v : Vpc) (s : Subnet) where
  valid_range-net4 :
      (a n b m : ℕ)
      → v.cidr_block ≡ net4 a n
      → s.cidr_block ≡ net4 b m
      → str_eq s.vpc_id v.id ≡ true
      → masked (net4 b m) ≡ net4 b m
      → n ≤ m
      → m ≤ 28
      → contains (net4 a n) (v4 b) ≡ true
      → valid_range v s ≡ true
  unfolding valid_range prefix_valid is4 bits
  valid_range-net4 a n b m e f own fixed narrow high held =
      let same : prefix_eq (masked (net4 b m)) (net4 b m) ≡ true =
        ap (λ q. prefix_eq q (net4 b m)) fixed ∙ prefix_eq_refl b m in
      simp (e, f) (ground arith)

  pub valid_range-canonical :
      s.vpc_id ≡ v.id
      → IsCanonical v.cidr_block
      → IsCanonical s.cidr_block
      → validate_subnet_range v.cidr_block s.cidr_block ≡ ok tt
      → valid_range v s ≡ true
  valid_range-canonical own c d h =
      let short : d.len ≤ 32 = omega (arith, d.at_most) in
      let inside = (range_iff c.base c.len d.base d.len short).0 (
        ap (λ x. validate_subnet_range x (net4 d.base d.len)) (sym c.shape)
        ∙ ap (validate_subnet_range v.cidr_block) (sym d.shape)
        ∙ h) in
      valid_range-net4 c.base c.len d.base d.len c.shape d.shape
        (ap (λ x. str_eq x v.id) own ∙ str_eq_refl v.id)
        (subst (λ q. masked q ≡ q) d.shape (masked-canonical s.cidr_block d)) inside.0 d.at_most
        (inside.1 d.base ((Holds-iff d.base d.len d.base).1 refl))

gateway-net4 : (a n : ℕ) → gateway (net4 a n) ≡ next (masked (net4 a n)).addr
unfolding gateway prefix_valid is4
gateway-net4 a n = ground arith

pub gateway-canonical : (p : Prefix) → IsCanonical p → gateway p ≡ next p.addr
gateway-canonical p c =
    ap gateway c.shape
    ∙ gateway-net4 c.base c.len
    ∙ ap (λ q. next (masked q).addr) (sym c.shape)
    ∙ ap (λ q. next q.addr) (masked-canonical p c)
