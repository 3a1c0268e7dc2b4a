-- ===== src/Base/Maps.antt =====
-- A Go map with strings for keys: its entries, in the order in which a range visits them.
use Prim.Native.Nat.{suc, ◌≤◌, ◌<◌}
use mathlib.Core.Path.{◌≡◌, refl}
use mathlib.Core.Bool.{Bool, true, false}
use mathlib.Core.Option.{Option, none, some}
use mathlib.Core.List.{List, [], ◌∷◌}
use native.Mathlib.Omega.{arith}
use nephos.Base.Tests.{if◌then◌else◌}
use nephos.Base.Lists.{length}
use nephos.Base.Text.{Str, str_eq, str_eq_refl, str_eq_iff}

abbrev pub Map : Type 0 → Type 0
Map A = List (Str × A)

module _ {A : Type 0} where
  -- `m[k]`
  unfoldable pub lookup : Str → Map A → Option A
  lookup k [] = none
  lookup k ((j, a) ∷ m) = let rest = lookup k m in if str_eq k j then some a else rest

  -- `_, ok := m[k]`
  unfoldable pub has : Str → Map A → Bool
  has k [] = false
  has k ((j, a) ∷ m) = let rest = has k m in if str_eq k j then true else rest

  -- `m[k] = a`
  unfoldable pub put : Str → A → Map A → Map A
  put k a [] = (k, a) ∷ []
  put k a ((j, b) ∷ m) = let rest = put k a m in if str_eq k j then (k, a) ∷ m else (j, b) ∷ rest

  -- `delete(m, k)`
  unfoldable pub remove : Str → Map A → Map A
  remove k [] = []
  remove k ((j, a) ∷ m) = let rest = remove k m in if str_eq k j then rest else (j, a) ∷ rest

  pub has-put :
      (j k : Str) (a : A) (m : Map A) → has j (put k a m) ≡ (if str_eq j k then true else has j m)
  unfolding has put
  has-put j k a [] = refl
  has-put j k a ((i, b) ∷ m) =
      ground (arith, has-put j k a m, str_eq_iff k i, str_eq_iff j i, str_eq_iff j k)

  pub has-lookup : (k : Str) (a : A) (m : Map A) → lookup k m ≡ some a → has k m ≡ true
  unfolding lookup has
  has-lookup k a [] h = ground arith
  has-lookup k a ((j, b) ∷ m) h = ground (arith, has-lookup k a m)

  pub lookup-put :
      (j k : Str) (a : A) (m : Map A)
      → lookup j (put k a m) ≡ (if str_eq j k then some a else lookup j m)
  unfolding lookup put
  lookup-put j k a [] = refl
  lookup-put j k a ((i, b) ∷ m) =
      ground (arith, lookup-put j k a m, str_eq_iff k i, str_eq_iff j i, str_eq_iff j k)

  pub lookup-put_self : (k : Str) (a : A) (m : Map A) → lookup k (put k a m) ≡ some a
  lookup-put_self k a m = ground (arith, lookup-put k k a m, str_eq_refl k)

  pub lookup-remove :
      (j k : Str) (m : Map A) → lookup j (remove k m) ≡ (if str_eq j k then none else lookup j m)
  unfolding lookup remove
  lookup-remove j k [] = ground arith
  lookup-remove j k ((i, b) ∷ m) =
      ground (arith, lookup-remove j k m, str_eq_iff k i, str_eq_iff j i, str_eq_iff j k)

  pub has-remove :
      (j k : Str) (m : Map A) → has j (remove k m) ≡ (if str_eq j k then false else has j m)
  unfolding has remove
  has-remove j k [] = ground arith
  has-remove j k ((i, b) ∷ m) =
      ground (arith, has-remove j k m, str_eq_iff k i, str_eq_iff j i, str_eq_iff j k)

  pub length-put :
      (k : Str) (a : A) (m : Map A)
      → length (put k a m) ≡ (if has k m then length m else suc (length m))
  unfolding has put
  length-put k a [] = refl
  length-put k a ((i, b) ∷ m) = ground (arith, length-put k a m)

  pub length-remove : (k : Str) (m : Map A) → length (remove k m) ≤ length m
  unfolding remove
  length-remove k [] = omega arith
  length-remove k ((i, b) ∷ m) = ground (arith, length-remove k m)

  pub length-remove-has : (k : Str) (m : Map A) → has k m ≡ true → length (remove k m) < length m
  unfolding remove has
  length-remove-has k [] h = ground arith
  length-remove-has k ((i, b) ∷ m) h = ground (arith, length-remove k m, length-remove-has k m)
