-- ===== src/Base/Members.antt =====
-- The members of what take, drop and keep leave of a list.
use Prim.Native.Nat.{ℕ, zero, suc, ◌≤◌, ◌<◌}
use mathlib.Core.Path.{subst, ◌≡◌, sym, ap, ◌∙◌}
use mathlib.Core.Logic.{◌⊎◌, inl, inr}
use mathlib.Core.Bool.{Bool, true, false}
use mathlib.Core.List.{List, [], ◌∷◌, Memᴰ}
use mathlib.Core.List.Memᴰ.{head, tail}
use native.Mathlib.Omega.{arith}
use nephos.Base.Tests.{Bool-cases}
use nephos.Base.Lists.{length, take, drop, keep, All}

module _ {A : Type 0} where
  pub Mem-take_drop :
      (n : ℕ) (xs : List A) {x : A} → Memᴰ x xs → Memᴰ x (take n xs) ⊎ Memᴰ x (drop n xs)
  Mem-take_drop zero xs m = inr m
  Mem-take_drop (suc n) [] m = elim m [ ]
  Mem-take_drop (suc n) (y ∷ xs) (head e) = inl (head e)
  Mem-take_drop (suc n) (y ∷ xs) (tail m) = elim (Mem-take_drop n xs m) [
    | inl p ↦ inl (tail p)
    | inr p ↦ inr p
  ]

  pub Mem-take : (n : ℕ) (xs : List A) {x : A} → Memᴰ x (take n xs) → Memᴰ x xs
  Mem-take zero xs m = elim m [ ]
  Mem-take (suc n) [] m = elim m [ ]
  Mem-take (suc n) (y ∷ xs) (head e) = head e
  Mem-take (suc n) (y ∷ xs) (tail m) = tail (Mem-take n xs m)

  pub Mem-drop : (n : ℕ) (xs : List A) {x : A} → Memᴰ x (drop n xs) → Memᴰ x xs
  Mem-drop zero xs m = m
  Mem-drop (suc n) [] m = elim m [ ]
  Mem-drop (suc n) (y ∷ xs) m = tail (Mem-drop n xs m)

  pub All-member : (P : A → Type 0) (xs : List A) {x : A} → All P xs → Memᴰ x xs → P x
  All-member P [] hs m = elim m [ ]
  All-member P (y ∷ xs) hs (head e) = subst P (sym e) hs.0
  All-member P (y ∷ xs) hs (tail m) = All-member P xs hs.1 m

  -- a kept element is one of the list that passes the test
  pub Mem-keep :
      (p : A → Bool) (xs : List A) {x : A} → Memᴰ x (keep p xs) → Memᴰ x xs × (p x ≡ true)
  Mem-keep p [] m = elim m [ ]
  Mem-keep p (y ∷ xs) {x} m = split (Bool-cases (p y)) m (λ k. Mem-keep p xs k)
    where
      first :
          p y ≡ true
          → Memᴰ x (y ∷ keep p xs)
          → (Memᴰ x (keep p xs) → Memᴰ x xs × (p x ≡ true))
          → Memᴰ x (y ∷ xs) × (p x ≡ true)
      first e (head f) ih = (head f, ap p f ∙ e)
      first e (tail k) ih = let (m', t) = ih k in (tail m', t)

      split :
          (p y ≡ true) ⊎ (p y ≡ false)
          → Memᴰ x (keep p (y ∷ xs))
          → (Memᴰ x (keep p xs) → Memᴰ x xs × (p x ≡ true))
          → Memᴰ x (y ∷ xs) × (p x ≡ true)
      split (inl e) k ih = first e (rw e at k) ih
      split (inr e) k ih = let (m', t) = ih (rw e at k) in (tail m', t)

  -- an element that passes the test is kept
  pub Mem-kept : (p : A → Bool) (xs : List A) {x : A} → Memᴰ x xs → p x ≡ true → Memᴰ x (keep p xs)
  Mem-kept p [] m h = elim m [ ]
  Mem-kept p (y ∷ xs) (head e) h = let t : p y ≡ true = ap p (sym e) ∙ h in rw t (head e)
  Mem-kept p (y ∷ xs) (tail m) h = elim (Bool-cases (p y)) [
    | inl e ↦ rw e (tail (Mem-kept p xs m h))
    | inr e ↦ rw e (Mem-kept p xs m h)
  ]

  -- a stricter test keeps no more, and less if it loses an element
  pub keep-weaken :
      (p q : A → Bool) (xs : List A)
      → ((x : A) → p x ≡ true → q x ≡ true)
      → length (keep p xs) ≤ length (keep q xs)
  keep-weaken p q [] h = omega arith
  keep-weaken p q (x ∷ xs) h = ground (arith, h x, keep-weaken p q xs h)

  pub keep-lost :
      (p q : A → Bool) (xs : List A) {x : A}
      → ((y : A) → p y ≡ true → q y ≡ true)
      → Memᴰ x xs
      → q x ≡ true
      → p x ≡ false
      → length (keep p xs) < length (keep q xs)
  keep-lost p q [] h m a b = elim m [ ]
  keep-lost p q (y ∷ xs) h (head e) a b =
      let a' : q y ≡ true = ap q (sym e) ∙ a in
      let b' : p y ≡ false = ap p (sym e) ∙ b in ground (arith, keep-weaken p q xs h)
  keep-lost p q (y ∷ xs) {x} h (tail m) a b = ground (arith, h y, keep-lost p q xs {x = x} h m a b)
