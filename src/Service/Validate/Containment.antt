-- ===== src/Service/Validate/Containment.antt =====
-- internal/service/validate.go: ValidateSubnetRange and ValidateSubnetDisjoint on sets of
-- addresses.
use nephos.Base.{
  ℕ, ◌+◌, ◌-◌, ◌/◌, ◌^◌, ◌≤◌, ◌≡◌, refl, sym, ◌∙◌, ◌↔◌, true, false, not, ◌||◌, List, [], ◌∷◌,
  arith, ltb, if◌then◌else◌, All, ok, err,
}
use mathlib.Core.Path.{subst}
use nephos.Netip.{v4, Prefix, contains}
use nephos.Netip.Ranges.{net4, floor, floor-div, floor-div_coarse, coarser, masked-net4}
use nephos.Errors.{Error, api, subnet_range, subnet_conflict}
use nephos.Service.Validate.{overlaps, validate_subnet_range, validate_subnet_disjoint}
use nephos.Service.Validate.Ranges.{Holds, Holds-iff}

range_test :
    (a n b m : ℕ)
    → validate_subnet_range (net4 a n) (net4 b m) ≡ (
        if ltb m n || not (contains (net4 (floor a (32 - n)) n) (v4 (floor b (32 - m))))
        then err (api (record { code = subnet_range; resource_id = []; status = 400 }))
        else ok tt)
unfolding validate_subnet_range
range_test a n b m = rw (masked-net4 a n, masked-net4 b m) (ground arith)

accepted :
    (a n b m : ℕ)
    → validate_subnet_range (net4 a n) (net4 b m) ≡ ok tt
    → (n ≤ m) × (contains (net4 (floor a (32 - n)) n) (v4 (floor b (32 - m))) ≡ true)
accepted a n b m h = ground (arith, range_test a n b m)

-- What a base address shows about the whole blocks.
base_shows :
    (a n b m : ℕ)
    → n ≤ m
    → m ≤ 32
    → (contains (net4 (floor a (32 - n)) n) (v4 (floor b (32 - m))) ≡ true)
      ↔ (a / 2 ^ (32 - n) ≡ b / 2 ^ (32 - n))
base_shows a n b m p q =
    let e : 32 - n ≡ 32 - m + (m - n) = omega arith in
    let c : floor b (32 - m) / 2 ^ (32 - n) ≡ b / 2 ^ (32 - n) =
      subst (λ k. floor b (32 - m) / 2 ^ k ≡ b / 2 ^ k) (sym e)
        (floor-div_coarse b (32 - m) (m - n)) in
    (
      λ h. sym (floor-div a (32 - n)) ∙ (Holds-iff _ n _).0 h ∙ c,
      λ h. (Holds-iff _ n _).1 (floor-div a (32 - n) ∙ h ∙ sym c),
    )

coarser_le :
    (x y n m : ℕ)
    → n ≤ m
    → m ≤ 32
    → x / 2 ^ (32 - m) ≡ y / 2 ^ (32 - m)
    → x / 2 ^ (32 - n) ≡ y / 2 ^ (32 - n)
coarser_le x y n m p q h =
    let e : 32 - n ≡ 32 - m + (m - n) = omega arith in
    subst (λ k. x / 2 ^ k ≡ y / 2 ^ k) (sym e) (coarser x y (32 - m) (m - n) h)

-- For IPv4 prefixes, the subnet's mask being at most 32, a subnet range is accepted exactly when
-- its mask is at least as long as the VPC's and each of its addresses is an address of the VPC.
pub range_iff :
    (a n b m : ℕ)
    → m ≤ 32
    → (validate_subnet_range (net4 a n) (net4 b m) ≡ ok tt)
      ↔ ((n ≤ m) × ((x : ℕ) → Holds (net4 b m) x → Holds (net4 a n) x))
range_iff a n b m q = (
  λ h.
      let (p, c) = accepted a n b m h in
      (
        p,
        λ x i.
            (Holds-iff a n x).1
              ((base_shows a n b m p q).0 c ∙ coarser_le b x n m p q ((Holds-iff b m x).0 i)),
      ),
  λ (p, f).
      let c = (base_shows a n b m p q).1 ((Holds-iff a n b).0 (f b ((Holds-iff b m b).1 refl))) in
      ground (arith, range_test a n b m),
)

abbrev pub ClearOf : Prefix → List Prefix → Type 0
ClearOf p = All (λ s. overlaps p s ≡ false)

abbrev pub conflict : Error
conflict = api (record { code = subnet_conflict; resource_id = []; status = 409 })

-- A subnet's block is accepted beside a list of siblings exactly when it overlaps none of them.
pub disjoint_iff :
    (p : Prefix) (siblings : List Prefix)
    → (validate_subnet_disjoint p siblings ≡ ok tt) ↔ ClearOf p siblings
unfolding validate_subnet_disjoint
disjoint_iff p [] = (λ h. tt, λ h. refl)
disjoint_iff p (s ∷ siblings) =
    let (to, from) = disjoint_iff p siblings in
    (λ h. (ground arith, to (ground arith)), λ (c, r). rw c (from r))

-- Any refusal is the conflict error.
pub disjoint_refusal :
    (p : Prefix) (siblings : List Prefix) (e : Error)
    → validate_subnet_disjoint p siblings ≡ err e
    → e ≡ conflict
unfolding validate_subnet_disjoint
disjoint_refusal p [] e h = cc
disjoint_refusal p (s ∷ siblings) e h = ground (arith, disjoint_refusal p siblings e)
