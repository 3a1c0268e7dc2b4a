-- ===== src/Controller/Queue/Backoff.antt =====
-- internal/reconcile/controller.go: the delays of retry.
use nephos.Base.{
  Str, List, [], ◌∷◌, ◌++◌, map, none, some, length, ap, lookup, lookup-put_self, ◌&&◌, leb, ◌==◌,
  ℕ, zero, suc, ◌+◌, ◌*◌, ◌-◌, ◌^◌, ◌≤◌, ◌<◌, ◌≡◌, refl, ◌∙◌, arith, ltb, Bool-cases, inl, inr,
  false,
}
use Prim.Native.Nat.{min}
use native.Mathlib.Nat.{pow-suc, mul-le-mul_right}
use nephos.Netip.Ranges.{pow_pos}
use nephos.Controller.Queue.{
  backoff, retry_delay, retry_base, retry_max, doubled, RetryEntry, Controller, entry_or_zero,
  retry, retried, handle, handle_all, failed_at, queue_limit,
}

doubled_lem :
    (d q : ℕ) → 0 < q → d < retry_max → min (doubled d * q) retry_max ≡ min (d * (q * 2)) retry_max
doubled_lem d q hq h = elim (Bool-cases (ltb retry_max (d * 2))) [
  | inl e ↦
      let big : retry_max ≤ d * 2 = ground arith in
      rw e (omega (arith, mul-le-mul_right q big, mul-le-mul_right retry_max hq))
  | inr e ↦ rw e (omega arith)
]

backoff_lem : (n d : ℕ) → d ≤ retry_max → backoff n d ≡ min (d * 2 ^ n) retry_max
unfolding backoff
backoff_lem zero d h = omega arith
backoff_lem (suc n) d h = elim (Bool-cases (ltb d retry_max)) [
  | inl e ↦
      let below : d < retry_max = ground arith in
      let capped : doubled d ≤ retry_max = ground arith in
      rw (e, pow-suc) (backoff_lem n (doubled d) capped ∙ doubled_lem d (2 ^ n) (pow_pos n) below)
  | inr e ↦
      let top : d ≡ retry_max = ground arith in
      rw e (omega (arith, mul-le-mul_right d (pow_pos (suc n))))
]

pub retry_delay_lem : (n : ℕ) → retry_delay (suc n) ≡ min (retry_base * 2 ^ n) retry_max
unfolding retry_delay
retry_delay_lem n =
    let e : suc n - 1 ≡ n = omega arith in rw e (backoff_lem n retry_base (omega arith))

-- the entry of an ID that failed `n + 1` times in a row, the last time at `now`
abbrev pub scheduled : ℕ → ℕ → RetryEntry
scheduled n now = record { attempt = suc n; due = now + min (retry_base * 2 ^ n) retry_max }

abbrev pub attempt_of : Str → Controller → ℕ
attempt_of id c = (entry_or_zero (lookup id c.retries)).attempt

pub retry_again :
    (id : Str) (n now : ℕ) (c : Controller)
    → attempt_of id c ≡ n
    → (leb queue_limit (length c.retries) && n == 0) ≡ false
    → lookup id (retry id now c).retries ≡ some (scheduled n now)
unfolding retry
retry_again id n now c same room =
    let e = entry_or_zero (lookup id c.retries) in
    let taken : retry id now c ≡ retried id now e c = rw (same, room) refl in
    let next : n + 1 ≡ suc n = omega arith in
    ap (λ d. lookup id d.retries) taken
    ∙ lookup-put_self id
        (record { attempt = e.attempt + 1; due = now + retry_delay (e.attempt + 1) }) c.retries
    ∙ rw (same, next, retry_delay_lem) refl

failures :
    (id : Str) (n last : ℕ) (times : List ℕ) (now : ℕ) (c : Controller)
    → lookup id c.retries ≡ some (scheduled n last)
    → lookup id (handle_all (map (failed_at id) (times ++ now ∷ [])) c).retries
      ≡ some (scheduled (suc n + length times) now)
unfolding handle_all handle
failures id n last [] now c h =
    retry_again id (suc n) now c (ap (λ o. (entry_or_zero o).attempt) h) (ground arith)
    ∙ ap (λ k. some (scheduled k now)) (omega arith)
failures id n last (t ∷ times) now c h =
    failures id (suc n) t times now (retry id t c)
      (retry_again id (suc n) t c (ap (λ o. (entry_or_zero o).attempt) h) (ground arith))
    ∙ ap (λ k. some (scheduled k now)) (omega arith)

-- When an ID without a retry fails and then fails again each time, with room for one more retry
-- at first, the retry kept after n + 1 failures has that number of attempts and is due 100 ms
-- times 2 ^ n after the last failure, but at most 30 s after it.
pub retry_schedule :
    (id : Str) (times : List ℕ) (now : ℕ) (c : Controller)
    → lookup id c.retries ≡ none
    → length c.retries < queue_limit
    → lookup id (handle_all (map (failed_at id) (times ++ now ∷ [])) c).retries
      ≡ some (scheduled (length times) now)
unfolding handle_all handle
retry_schedule id [] now c h room =
    retry_again id 0 now c (ap (λ o. (entry_or_zero o).attempt) h) (ground arith)
retry_schedule id (t ∷ times) now c h room =
    failures id 0 t times now (retry id t c)
      (retry_again id 0 t c (ap (λ o. (entry_or_zero o).attempt) h) (ground arith))
    ∙ ap (λ k. some (scheduled k now)) (omega arith)
