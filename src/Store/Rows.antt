-- ===== src/Store/Rows.antt =====
-- Laws of the table operations: insertion in order, UPDATE, DELETE and lookup.
use nephos.Base.{
  ◌≡◌, refl, inl, inr, Bool, true, false, none, some, List, [], ◌∷◌, arith, if◌then◌else◌,
  Bool-cases, keep, find_first, any, update_where, All, Str, str_lt,
}
use mathlib.Core.Option
use nephos.Store.Tables.{insert_by}

module _ {ℓ κ} {A : Type ℓ} (P : A → Type κ) where
  pub All-const : (xs : List A) → ((x : A) → P x) → All P xs
  All-const [] f = tt
  All-const (x ∷ xs) f = (f x, All-const xs f)

  pub All-insert : (id : A → Str) (x : A) (xs : List A) → P x → All P xs → All P (insert_by id x xs)
  All-insert id x [] h hs = (h, tt)
  All-insert id x (y ∷ ys) h hs = elim (Bool-cases (str_lt (id x) (id y))) [
    | inl e ↦ rw e (h, hs)
    | inr e ↦ rw e (hs.0, All-insert id x ys h hs.1)
  ]

  pub All-keep : (q : A → Bool) (xs : List A) → All P xs → All P (keep q xs)
  All-keep q [] hs = tt
  All-keep q (x ∷ xs) hs = elim (Bool-cases (q x)) [
    | inl e ↦ rw e (hs.0, All-keep q xs hs.1)
    | inr e ↦ rw e (All-keep q xs hs.1)
  ]

  pub All-update :
      (q : A → Bool) (f : A → A) (xs : List A)
      → ((x : A) → P x → P (f x))
      → All P xs
      → All P (update_where q f xs)
  All-update q f [] step hs = tt
  All-update q f (x ∷ xs) step hs = elim (Bool-cases (q x)) [
    | inl e ↦ rw e (step x hs.0, All-update q f xs step hs.1)
    | inr e ↦ rw e (hs.0, All-update q f xs step hs.1)
  ]

  pub All-found : (p : A → Bool) (xs : List A) {x : A} → All P xs → find_first p xs ≡ some x → P x
  All-found p [] hs e = absurd (ground arith)
  All-found p (y ∷ ys) {x} hs e = elim (Bool-cases (p y)) [
    | inl t ↦ let same : y ≡ x = ground arith in rw (← same) hs.0
    | inr t ↦ All-found p ys hs.1 (ground arith)
  ]

module _ {ℓ κ κ'} {A : Type ℓ} (P : A → Type κ) (Q : A → Type κ') where
  pub All-map : (xs : List A) → ((x : A) → P x → Q x) → All P xs → All Q xs
  All-map [] f hs = tt
  All-map (x ∷ xs) f hs = (f x hs.0, All-map xs f hs.1)

  pub All-zip : (xs : List A) → All P xs → All Q xs → All (λ x. P x × Q x) xs
  All-zip [] hs ks = tt
  All-zip (x ∷ xs) hs ks = ((hs.0, ks.0), All-zip xs hs.1 ks.1)

module _ {ℓ κ} {A : Type ℓ} (R : A → A → Type κ) where
  -- every two rows are related, the earlier to the later
  abbrev pub Pairwise : List A → Type κ
  Pairwise [] = Unit
  Pairwise (x ∷ xs) = All (R x) xs × Pairwise xs

module _ {ℓ κ} {A : Type ℓ} (R : A → A → Type κ) where
  pub Pairwise-insert :
      (id : A → Str) (x : A) (xs : List A)
      → ((y z : A) → R y z → R z y)
      → All (R x) xs
      → Pairwise R xs
      → Pairwise R (insert_by id x xs)
  Pairwise-insert id x [] symm hs ps = (tt, tt)
  Pairwise-insert id x (y ∷ ys) symm hs ps = elim (Bool-cases (str_lt (id x) (id y))) [
    | inl e ↦ rw e (hs, ps)
    | inr e ↦
        rw e (All-insert (R y) id x ys (symm x y hs.0) ps.0, Pairwise-insert id x ys symm hs.1 ps.1)
  ]

  pub Pairwise-keep : (q : A → Bool) (xs : List A) → Pairwise R xs → Pairwise R (keep q xs)
  Pairwise-keep q [] ps = tt
  Pairwise-keep q (x ∷ xs) ps = elim (Bool-cases (q x)) [
    | inl e ↦ rw e (All-keep (R x) q xs ps.0, Pairwise-keep q xs ps.1)
    | inr e ↦ rw e (Pairwise-keep q xs ps.1)
  ]

  pub Pairwise-update :
      (q : A → Bool) (f : A → A) (xs : List A)
      → ((x y : A) → R x y → R (f x) y)
      → ((x y : A) → R x y → R x (f y))
      → Pairwise R xs
      → Pairwise R (update_where q f xs)
  Pairwise-update q f [] left right ps = tt
  Pairwise-update q f (x ∷ xs) left right ps = elim (Bool-cases (q x)) [
    | inl e ↦ rw e (
      All-map (R x) (R (f x)) (update_where q f xs) (left x)
          (All-update (R x) q f xs (right x) ps.0),
      Pairwise-update q f xs left right ps.1,
    )
    | inr e ↦ rw e (All-update (R x) q f xs (right x) ps.0, Pairwise-update q f xs left right ps.1)
  ]

module _ {ℓ} {A : Type ℓ} where
  pub find_first_sound :
      (p : A → Bool) (xs : List A) {x : A} → find_first p xs ≡ some x → p x ≡ true
  find_first_sound p [] e = absurd (ground arith)
  find_first_sound p (y ∷ ys) {x} e = elim (Bool-cases (p y)) [
    | inl t ↦ let same : y ≡ x = ground arith in rw (← same) t
    | inr t ↦ find_first_sound p ys (ground arith)
  ]

  pub find_first-none : (p : A → Bool) (xs : List A) → any p xs ≡ false → find_first p xs ≡ none
  find_first-none p [] h = refl
  find_first-none p (x ∷ xs) h = ground (arith, find_first-none p xs)

  pub find_first-insert :
      (p : A → Bool) (id : A → Str) (x : A) (xs : List A)
      → p x ≡ false
      → find_first p (insert_by id x xs) ≡ find_first p xs
  find_first-insert p id x [] h = ground arith
  find_first-insert p id x (y ∷ ys) h = ground (arith, find_first-insert p id x ys)

  pub find_first-insert_self :
      (p : A → Bool) (id : A → Str) (x : A) (xs : List A)
      → p x ≡ true
      → any p xs ≡ false
      → find_first p (insert_by id x xs) ≡ some x
  find_first-insert_self p id x [] h k = ground arith
  find_first-insert_self p id x (y ∷ ys) h k = ground (arith, find_first-insert_self p id x ys)

  abbrev pub updated : (A → Bool) → (A → A) → A → A
  updated q f x = if q x then f x else x

  pub find_first-update :
      (p q : A → Bool) (f : A → A) (xs : List A)
      → ((x : A) → p (f x) ≡ p x)
      → find_first p (update_where q f xs) ≡ Option.map (updated q f) (find_first p xs)
  find_first-update p q f [] h = refl
  find_first-update p q f (x ∷ xs) h = ground (arith, h x, find_first-update p q f xs h)

  pub find_first-keep :
      (p q : A → Bool) (xs : List A)
      → ((x : A) → p x ≡ true → q x ≡ true)
      → find_first p (keep q xs) ≡ find_first p xs
  find_first-keep p q [] h = refl
  find_first-keep p q (x ∷ xs) h = ground (arith, h x, find_first-keep p q xs h)

  pub keep_nil : (q : A → Bool) (xs : List A) → keep q xs ≡ [] → All (λ x. q x ≡ false) xs
  keep_nil q [] h = tt
  keep_nil q (x ∷ xs) h = elim (Bool-cases (q x)) [
    | inl e ↦ absurd (ground arith)
    | inr e ↦ (e, keep_nil q xs (ground arith))
  ]

  pub any-weaken :
      (p q : A → Bool) (xs : List A)
      → ((x : A) → p x ≡ true → q x ≡ true)
      → any q xs ≡ false
      → any p xs ≡ false
  any-weaken p q [] f h = refl
  any-weaken p q (x ∷ xs) f h = elim (Bool-cases (p x)) [
    | inl e ↦ let t = f x e in absurd (ground arith)
    | inr e ↦ rw e (any-weaken p q xs f (ground arith))
  ]
