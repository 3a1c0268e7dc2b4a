-- ===== src/Service/Idempotency/Repeat.antt =====
-- internal/service/network.go: a keyed CreateVPC that is repeated.
use nephos.Base.{
  ℕ, ◌+◌, ◌<◌, ◌≡◌, refl, Bool, true, false, Option, none, some, List, [], ◌∷◌, arith, Str, codes,
  Result, ok, err,
}
use nephos.Netip.{Prefix}
use nephos.Netip.Text.{print_prefix}
use nephos.Model.{Vpc}
use nephos.Errors.{Error}
use nephos.Store.Tables.{Db}
use nephos.Store.Tx.{Tx, with_tx, settle}
use nephos.Service.Idempotency.{Codec, load_replay}
use nephos.Service.Network.{create_vpc_tx}
use nephos.Service.Validate.{parse_cidr}
use nephos.Service.Names.{validate_name, validate_idempotency_key}
use nephos.Service.Ids.{new_id}
use nephos.Service.Network.{CreateVpcInput}
use nephos.Service.Requests.{create_vpc}
use nephos.Service.Idempotency.{Reply, reply_of, checked_reply}
use nephos.Service.Idempotency.Replay.{create_vpc_tx-replay}

module _ {A : Type 0} (P : Reply A → Type 0) {i : Str} where
  -- a reply that enqueues an ID comes from a call that all checks let through
  checked_case :
      {B : Type 0} (r : Result Error B) (k : B → Db → Reply A) (db : Db)
      → ((b : B) → r ≡ ok b → (k b db).enqueued ≡ some i → P (k b db))
      → (checked_reply r k db).enqueued ≡ some i
      → P (checked_reply r k db)
  checked_case (ok b) k db f h = f b refl h
  checked_case (err e) k db f h = absurd (ground arith)

  reply_case :
      (hint : A → Str) (m : Tx (A × Bool)) (db : Db)
      → ((a : A) (db' : Db)
          → m db ≡ ok ((a, true), db')
          → P (record { result = ok a; db = db'; enqueued = some (hint a) }))
      → (reply_of hint (with_tx m db)).enqueued ≡ some i
      → P (reply_of hint (with_tx m db))
  unfolding with_tx
  reply_case hint m db f h = go (m db) refl h
    where
      go :
          (r : Result Error ((A × Bool) × Db))
          → m db ≡ r
          → (reply_of hint (settle db r)).enqueued ≡ some i
          → P (reply_of hint (settle db r))
      go (ok ((a, true), db')) e h = f a db' e
      go (ok ((a, false), db')) e h = absurd (ground arith)
      go (err x) e h = absurd (ground arith)

-- the reply of a repeated call, from what the checks and the lookup of the key return
repeated :
    (hash : List Str → Str) (codec : Codec Vpc) (input : CreateVpcInput) (key : Str)
    (random : Option Str) (later : ℕ) (db : Db) {name : Str} {cidr : Prefix} {u : Unit {0}}
    {id : Str} {v : Vpc}
    → validate_name input.name ≡ ok name
    → parse_cidr input.cidr_block ≡ ok cidr
    → validate_idempotency_key key ≡ ok u
    → new_id (codes "vpc-") random ≡ ok id
    → load_replay codec (codes "create-vpc") key (hash (name ∷ print_prefix cidr ∷ [])) later db
      ≡ ok (some v, db)
    → create_vpc hash codec input key random later db
      ≡ record { result = ok v; db = db; enqueued = none }
unfolding create_vpc create_vpc_tx with_tx
repeated hash codec input key random later db n p k q r = rw (n, p, k, q, r) refl

-- When a CreateVPC with an idempotency key has enqueued an ID, the same call less than a day
-- later, on the database that it left, returns the same result, leaves the database as it is and
-- enqueues nothing, whatever ID it drew.
pub create_vpc-repeat :
    (hash : List Str → Str) (codec : Codec Vpc) (input : CreateVpcInput) (c : ℕ) (key : Str)
    (random again : Option Str) (now later : ℕ) (db : Db) (i id : Str)
    → (create_vpc hash codec input (c ∷ key) random now db).enqueued ≡ some i
    → new_id (codes "vpc-") again ≡ ok id
    → later < now + 86400
    → create_vpc hash codec input
        (c ∷ key)
        again
        later
        (create_vpc hash codec input (c ∷ key) random now db).db
      ≡ record {
        result = (create_vpc hash codec input (c ∷ key) random now db).result;
        db = (create_vpc hash codec input (c ∷ key) random now db).db;
        enqueued = none;
      }
unfolding create_vpc
create_vpc-repeat hash codec input c key random again now later db i id h q l =
    let second = λ (first : Reply Vpc).
      create_vpc hash codec input (c ∷ key) again later first.db
      ≡ record { result = first.result; db = first.db; enqueued = none } in
    checked_case second (validate_name input.name) _ db
      (λ name n. checked_case second (parse_cidr input.cidr_block) _ db λ cidr p.
        checked_case second (validate_idempotency_key (c ∷ key)) _ db λ u k.
          checked_case second (new_id (codes "vpc-") random) _ db λ made _.
            reply_case second (λ v. v.id) _ db
              λ v db' e.
                repeated hash codec input (c ∷ key) again later db' n p k q
                  (create_vpc_tx-replay codec made name cidr c key _ now later db e l))
      h
