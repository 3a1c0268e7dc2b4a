-- ===== src/Kernel/Decimals/RoundTrip.antt =====
-- What FormatInt prints, ParseInt reads, and how long it is.
use nephos.Base.{
  ℕ, zero, suc, ◌+◌, ◌-◌, ◌*◌, ◌/◌, ◌%◌, ◌^◌, ◌≤◌, ◌<◌, ◌≡◌, refl, ap, ◌∙◌, arith, [], ◌∷◌, ◌++◌,
  Option, none, some, Str, length, All, All-append, length-append, ltb, true, false, Bool-cases,
  inl, inr,
}
use native.Mathlib.Nat.{pow-suc}
use nephos.Netip.Text.{is_digit}
use nephos.Kernel.Decimals.{pos, format_digits, format_int, parse_digits, parse_int}

abbrev then_digits : Option ℕ → Str → Option ℕ
then_digits none t = none
then_digits (some n) t = parse_digits t n

parse_digits-append :
    (s t : Str) (n : ℕ) → parse_digits (s ++ t) n ≡ then_digits (parse_digits s n) t
unfolding parse_digits
parse_digits-append [] t n = refl
parse_digits-append (c ∷ s) t n = ground (arith, parse_digits-append s t (n * 10 + (c - b'0')))

step_value :
    (digits n : ℕ)
    → n < 10 ^ suc (suc digits)
    → ltb n 10 ≡ false
    → parse_digits (format_digits (suc digits) (n / 10)) 0 ≡ some (n / 10)
    → parse_digits (format_digits (suc (suc digits)) n) 0 ≡ some n
unfolding format_digits
step_value digits n h e ih =
    let high = format_digits (suc digits) (n / 10) in
    rw e (
      parse_digits-append high ((b'0' + n % 10) ∷ []) 0
      ∙ ap (λ o. then_digits o ((b'0' + n % 10) ∷ [])) ih
      ∙ last (n / 10) refl)
  where
    last : (m : ℕ) → m ≡ n / 10 → parse_digits ((b'0' + n % 10) ∷ []) m ≡ some n
    last m f = unfold parse_digits in ground arith

pub parse_digits-format_digits :
    (digits n : ℕ) → n < 10 ^ suc digits → parse_digits (format_digits (suc digits) n) 0 ≡ some n
parse_digits-format_digits zero n h = unfold format_digits parse_digits in ground arith
parse_digits-format_digits (suc digits) n h = elim (Bool-cases (ltb n 10)) [
  | inl e ↦ unfold format_digits in rw e (unfold parse_digits in ground arith)
  | inr e ↦
      let below : n / 10 < 10 ^ suc digits = omega (arith, pow-suc 10 (suc digits)) in
      step_value digits n h e (parse_digits-format_digits digits (n / 10) below)
]

pub length-format_digits :
    (k digits n : ℕ) → n < 10 ^ suc k → length (format_digits digits n) ≤ suc k
unfolding format_digits
length-format_digits k zero n h = omega arith
length-format_digits zero (suc digits) n h = ground arith
length-format_digits (suc k) (suc digits) n h =
    let below : n / 10 < 10 ^ suc k = omega (arith, pow-suc 10 (suc k)) in
    let high = format_digits digits (n / 10) in
    ground (
      arith,
      length-append high ((b'0' + n % 10) ∷ []),
      length-format_digits k digits (n / 10) below,
    )

abbrev pub IsDigit : ℕ → Type 0
IsDigit c = is_digit c ≡ true

pub format_digits-IsDigit : (digits n : ℕ) → All IsDigit (format_digits digits n)
unfolding format_digits
format_digits-IsDigit zero n = tt
format_digits-IsDigit (suc digits) n = elim (Bool-cases (ltb n 10)) [
  | inl e ↦ rw e (ground arith, tt)
  | inr e ↦ rw e (
      All-append IsDigit (format_digits digits (n / 10)) ((b'0' + n % 10) ∷ [])
        (format_digits-IsDigit digits (n / 10)) (ground arith, tt))
]

pub format_digits-nonempty : (digits n : ℕ) → 0 < length (format_digits (suc digits) n)
unfolding format_digits
format_digits-nonempty digits n =
    ground (arith, length-append (format_digits digits (n / 10)) ((b'0' + n % 10) ∷ []))

-- Digits carry no sign.
parse_int_digits :
    (s : Str) (n : ℕ)
    → All IsDigit s
    → 0 < length s
    → n < 9223372036854775808
    → parse_digits s 0 ≡ some n
    → parse_int s ≡ some (pos n)
unfolding parse_int
parse_int_digits [] n d l h e = absurd (ground arith)
parse_int_digits (c ∷ s) n d l h e = let first = d.0 in ground arith

pub parse_int-format_int :
    (n : ℕ) → n < 9223372036854775808 → parse_int (format_int (pos n)) ≡ some (pos n)
unfolding format_int
parse_int-format_int n h =
    parse_int_digits (format_digits 20 n) n (format_digits-IsDigit 20 n)
      (format_digits-nonempty 19 n) h (parse_digits-format_digits 19 n (omega arith))
