-- ===== src/Service/Validate/Ranges.antt =====
-- internal/service/validate.go in terms of sets of addresses.
use nephos.Base.{
  ℕ, ◌+◌, ◌-◌, ◌/◌, ◌^◌, ◌≤◌, ◌≡◌, sym, ◌∙◌, ◌↔◌, ◌⊎◌, inl, inr, Bool, true, ◌||◌, arith, ==_iff,
}
use mathlib.Core.Path.{subst}
use nephos.Netip.{v4, Prefix, contains}
use nephos.Netip.Ranges.{
  net4, floor, floor-div, floor-div_coarse, coarser, masked-net4, contains-net4,
}
use nephos.Service.Validate.{overlaps}

abbrev pub Holds : Prefix → ℕ → Type 0
Holds p x = contains p (v4 x) ≡ true

pub Holds-iff : (a n x : ℕ) → Holds (net4 a n) x ↔ (a / 2 ^ (32 - n) ≡ x / 2 ^ (32 - n))
Holds-iff a n x = rw contains-net4 (==_iff _ _)

module _ (a n b m : ℕ) where
  overlaps-net4 : overlaps (net4 a n) (net4 b m) ≡ (
      contains (net4 (floor a (32 - n)) n) (v4 (floor b (32 - m)))
      || contains (net4 (floor b (32 - m)) m) (v4 (floor a (32 - n))))
  unfolding overlaps
  overlaps-net4 = rw (masked-net4 a n, masked-net4 b m) (ground arith)

-- An address of both blocks puts the base of the finer one into the coarser one.
base_inside :
    (a b x k d : ℕ)
    → a / 2 ^ (k + d) ≡ x / 2 ^ (k + d)
    → b / 2 ^ k ≡ x / 2 ^ k
    → a / 2 ^ (k + d) ≡ floor b k / 2 ^ (k + d)
base_inside a b x k d p q = p ∙ sym (coarser b x k d q) ∙ sym (floor-div_coarse b k d)

base_inside_le :
    (a b x j k : ℕ)
    → k ≤ j
    → a / 2 ^ j ≡ x / 2 ^ j
    → b / 2 ^ k ≡ x / 2 ^ k
    → floor a j / 2 ^ j ≡ floor b k / 2 ^ j
base_inside_le a b x j k h p q =
    let e : j ≡ k + (j - k) = omega arith in
    floor-div a j
    ∙ subst (λ i. a / 2 ^ i ≡ floor b k / 2 ^ i) (sym e)
        (base_inside a b x k (j - k) (subst (λ i. a / 2 ^ i ≡ x / 2 ^ i) e p) q)

or_left : (p q : Bool) → p ≡ true → (p || q) ≡ true
or_left p q h = ground arith

or_right : (p q : Bool) → q ≡ true → (p || q) ≡ true
or_right p q h = ground arith

or_split : (p q : Bool) → (p || q) ≡ true → (p ≡ true) ⊎ (q ≡ true)
or_split p q h = ground arith

le_total : (j k : ℕ) → (k ≤ j) ⊎ (j ≤ k)
le_total j k = grind arith

-- Two IPv4 prefixes overlap, as the code tests it on their bases, exactly when some address lies
-- in both.
pub overlaps_iff :
    (a n b m : ℕ)
    → (overlaps (net4 a n) (net4 b m) ≡ true) ↔ ((x : ℕ) × Holds (net4 a n) x × Holds (net4 b m) x)
overlaps_iff a n b m = (to, from)
  where
    j : ℕ
    j = 32 - n

    k : ℕ
    k = 32 - m

    to : overlaps (net4 a n) (net4 b m) ≡ true → (x : ℕ) × Holds (net4 a n) x × Holds (net4 b m) x
    to h = elim (or_split _ _ (sym (overlaps-net4 a n b m) ∙ h)) [
      | inl p ↦ (
        floor b k,
        (Holds-iff a n _).1 (sym (floor-div a j) ∙ (Holds-iff (floor a j) n _).0 p),
        (Holds-iff b m _).1 (sym (floor-div b k)),
      )
      | inr p ↦ (
        floor a j,
        (Holds-iff a n _).1 (sym (floor-div a j)),
        (Holds-iff b m _).1 (sym (floor-div b k) ∙ (Holds-iff (floor b k) m _).0 p),
      )
    ]

    from :
        ((x : ℕ) × Holds (net4 a n) x × Holds (net4 b m) x) → overlaps (net4 a n) (net4 b m) ≡ true
    from (x, p, q) = overlaps-net4 a n b m ∙ elim (le_total j k) [
      | inl h ↦ or_left _ _ (
          (Holds-iff (floor a j) n (floor b k)).1
            (base_inside_le a b x j k h ((Holds-iff a n x).0 p) ((Holds-iff b m x).0 q)))
      | inr h ↦ or_right _ _ (
          (Holds-iff (floor b k) m (floor a j)).1
            (base_inside_le b a x k j h ((Holds-iff b m x).0 q) ((Holds-iff a n x).0 p)))
    ]

-- Overlapping is symmetric.
pub overlaps_comm : (p q : Prefix) → overlaps p q ≡ overlaps q p
unfolding overlaps
overlaps_comm p q = ground arith
