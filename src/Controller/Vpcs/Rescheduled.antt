-- ===== src/Controller/Vpcs/Rescheduled.antt =====
-- internal/reconcile/controller.go: what becomes of the retry of a VPC after the engine's work.
use nephos.Base.{
  ℕ, suc, sym, ap, ◌∙◌, &&-split, ==_iff, ◌+◌, ◌*◌, ◌^◌, ◌≤◌, ◌<◌, ◌≡◌, refl, ◌⊎◌, inl, inr, arith,
  false, ◌&&◌, ◌==◌, leb, Option, none, some, Bool-cases, length, Str, str_eq_refl, lookup,
  lookup-remove,
}
use Prim.Native.Nat.{min}
use mathlib.Core.Path.{subst}
use nephos.Controller.Queue.{RetryEntry, Controller, queue_limit, entry_or_zero, retry, clear_retry}
use nephos.Controller.Queue.Backoff.{retry_again, scheduled}
use nephos.Controller.Vpcs.{after_effect}

-- how often a VPC has failed in a row
abbrev pub attempts : Option RetryEntry → ℕ
attempts none = 0
attempts (some e) = e.attempt

-- A success leaves no retry. A failure leaves one, in nanoseconds 100 ms times 2 ^ n after the time
-- `now`, but at most 30 s after it, n being the failures before; unless it is the first one and
-- 1024 retries are kept, when nothing changes.
abbrev pub Rescheduled : Str → ℕ → Option Str → Controller → Controller → Type 0
Rescheduled id now none before after =
    (lookup id after.retries ≡ none) × (after.pending ≡ before.pending) × (after.wake ≡ before.wake)
Rescheduled id now (some reason) before after =
    let n = attempts (lookup id before.retries) in
    ((n ≡ 0) × (1024 ≤ length before.retries) × (after ≡ before))
    ⊎ (((1 ≤ n) ⊎ (length before.retries < 1024))
        × (lookup id after.retries
            ≡ some (record { attempt = n + 1; due = now + min (100000000 * 2 ^ n) 30000000000 }))
        × (after.pending ≡ before.pending)
        × (after.wake ≡ before.wake))

attempts_lem : (o : Option RetryEntry) → (entry_or_zero o).attempt ≡ attempts o
attempts_lem none = refl
attempts_lem (some e) = refl

cleared : (id : Str) (now : ℕ) (c : Controller) → Rescheduled id now none c (clear_retry id c)
unfolding clear_retry
cleared id now c = (ground (arith, lookup-remove id id c.retries, str_eq_refl id), refl, refl)

room_left : (kept n : ℕ) → (leb queue_limit kept && n == 0) ≡ false → (1 ≤ n) ⊎ (kept < 1024)
room_left kept n h = elim (Bool-cases (leb queue_limit kept)) [
  | inl e ↦ inl (ground arith)
  | inr e ↦ inr (ground arith)
]

failed :
    (id : Str) (now : ℕ) (reason : Str) (c : Controller)
    → Rescheduled id now (some reason) c (retry id now c)
unfolding retry
failed id now reason c =
    let e = entry_or_zero (lookup id c.retries) in
    let same : e.attempt ≡ attempts (lookup id c.retries) = attempts_lem (lookup id c.retries) in
    elim (Bool-cases (leb queue_limit (length c.retries) && e.attempt == 0)) [
      | inl full ↦
          let (many, first) = &&-split (leb queue_limit (length c.retries)) (e.attempt == 0) full in
          inl (sym same ∙ (==_iff e.attempt 0).0 first, ground arith, rw full refl)
      | inr room ↦
          let next : e.attempt + 1 ≡ suc e.attempt = omega arith in
          inr (
            subst (λ k. (1 ≤ k) ⊎ (length c.retries < 1024)) same
                (room_left (length c.retries) e.attempt room),
            retry_again id e.attempt now c refl room ∙ scheduled_at same,
            rw room refl,
            rw room refl,
          )
    ]
  where
    scheduled_at :
        {a b : ℕ}
        → a ≡ b
        → some (scheduled a now)
          ≡ some (record { attempt = b + 1; due = now + min (100000000 * 2 ^ b) 30000000000 })
    scheduled_at {a} {b} e = rw e (
        ap (λ k. some (record { attempt = k; due = now + min (100000000 * 2 ^ b) 30000000000 }))
          (omega arith))

pub after_effect-Rescheduled :
    (id : Str) (now : ℕ) (effect : Option Str) (c : Controller)
    → Rescheduled id now effect c (after_effect id now effect c)
after_effect-Rescheduled id now none c = cleared id now c
after_effect-Rescheduled id now (some reason) c = failed id now reason c
