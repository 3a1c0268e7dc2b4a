-- ===== src/Api/Resources/Effects.antt =====
-- internal/apiserver/network.go and instance.go: what a request has done, by its response.
use nephos.Base.{
  ℕ, ◌≡◌, refl, Bool, true, false, not, Option, none, some, List, Str, codes, str_eq, any,
  if◌then◌else◌, Result, ok, err,
}
use nephos.Model.{Vpc, Subnet, Instance}
use nephos.Errors.{Error}
use nephos.Store.Tables.{Db}
use nephos.Service.Idempotency.{Codec, Reply}
use nephos.Service.Names.{validate_name, validate_idempotency_key}
use nephos.Service.Ids.{new_id}
use nephos.Service.Validate.{parse_cidr}
use nephos.Service.Network.{CreateVpcInput, CreateSubnetInput}
use nephos.Service.Requests.{create_vpc, delete_vpc, delete_subnet}
use nephos.Service.Instances.{RunInstanceInput, run, terminate_snapshot}
use nephos.Service.Guards.{Refused, reply-Refused, checked-Refused, create_subnet-refusal}
use nephos.Api.Replies.{
  Http, api_error, json, Handled, Body, or_empty, is_blank, no_workspace, not_ready, bad_request,
  respond, unchanged, checked, decode_body, answered, with_required,
}
use nephos.Api.Resources.{
  vpc_fields, subnet_fields, instance_fields, vpc_response, subnet_response, instance_response,
  http_create_vpc, http_create_subnet, http_run_instance, http_delete_vpc, http_delete_subnet,
  http_terminate_instance,
}

-- After an error response the database is as it was and no ID is enqueued; any other response has
-- the given status, for the workspace `default` and a server that has the service.
abbrev pub HasEffect : {A : Type 0} → Str → Bool → ℕ → Db → Http A → Db → Option Str → Type 0
HasEffect workspace ready status db (api_error s body) db' q = (db' ≡ db) × (q ≡ none)
HasEffect workspace ready status db (json s a) db' q =
    (s ≡ status) × ((str_eq workspace (codes "default") ≡ true) × (ready ≡ true))

-- HasEffect of the parts of what a handler yields
abbrev pub EffectOf : {A : Type 0} → Str → Bool → ℕ → Db → Handled A → Type 0
EffectOf workspace ready status db h =
    HasEffect workspace ready status db h.response h.db h.enqueued

module _ {B : Type 0} (workspace : Str) (ready : Bool) (status : ℕ) (db : Db) where
  EffectOf-checked :
      (h : Handled B)
      → (str_eq workspace (codes "default") ≡ true
          → ready ≡ true
          → EffectOf workspace ready status db h)
      → EffectOf workspace ready status db (checked (unchanged db) workspace ready h)
  unfolding checked
  EffectOf-checked h f = go (str_eq workspace (codes "default")) refl ready refl
    where
      go :
          (w : Bool)
          → str_eq workspace (codes "default") ≡ w
          → (t : Bool) → ready ≡ t
          → EffectOf workspace ready status db (
              if not w
              then unchanged db (no_workspace workspace)
              else if not t
              then unchanged db not_ready
              else h)
      go false p t q = (refl, refl)
      go true p false q = (refl, refl)
      go true p true q = f p q

  module _ {A : Type 0} (w : str_eq workspace (codes "default") ≡ true) (t : ready ≡ true)
      (view : A → B) where
    EffectOf-answered :
        (r : Reply A) → Refused db r → EffectOf workspace ready status db (answered status view r)
    EffectOf-answered r f = go r.result f
      where
        go :
            (result : Result Error A)
            → ((e : Error) → result ≡ err e → (r.db ≡ db) × (r.enqueued ≡ none))
            → HasEffect workspace ready status db (respond status view result) r.db r.enqueued
        go (ok a) g = (refl, (w, t))
        go (err e) g = g e refl

  module _ {A : Type 0} where
    EffectOf-with_required :
        (fields : A → List Str) (rest : A → Handled B) (o : Option A)
        → ((a : A) → EffectOf workspace ready status db (rest a))
        → EffectOf workspace ready status db (with_required fields rest db o)
    EffectOf-with_required fields rest none f = (refl, refl)
    EffectOf-with_required fields rest (some a) f = go (any is_blank (fields a))
      where
        go :
            (b : Bool)
            → EffectOf workspace ready status db (if b then unchanged db bad_request else rest a)
        go true = (refl, refl)
        go false = f a

create_vpc-Refused :
    (hash : List Str → Str) (codec : Codec Vpc) (input : CreateVpcInput) (key : Str)
    (random : Option Str) (now : ℕ) (db : Db)
    → Refused db (create_vpc hash codec input key random now db)
unfolding create_vpc
create_vpc-Refused hash codec input key random now db =
    checked-Refused (validate_name input.name) _ db λ name.
      checked-Refused (parse_cidr input.cidr_block) _ db λ cidr.
        checked-Refused (validate_idempotency_key key) _ db λ _.
          checked-Refused (new_id (codes "vpc-") random) _ db λ id. reply-Refused (λ v. v.id) _ db

run-Refused :
    (hash : List Str → Str) (digest : Str → Str) (codec : Codec Instance) (input : RunInstanceInput)
    (key : Str) (random eni_random : Option Str) (now : ℕ) (db : Db)
    → Refused db (run hash digest codec input key random eni_random now db)
unfolding run
run-Refused hash digest codec input key random eni_random now db =
    checked-Refused (validate_name input.name) _ db λ name.
      checked-Refused (validate_idempotency_key key) _ db λ _.
        checked-Refused (new_id (codes "i-") random) _ db λ id.
          checked-Refused (new_id (codes "eni-") eni_random) _ db
            λ eni_id. reply-Refused (λ i. i.id) _ db

delete_vpc-Refused : (id : Str) (now : ℕ) (db : Db) → Refused db (delete_vpc id now db)
unfolding delete_vpc
delete_vpc-Refused id now db = reply-Refused (λ v. id) _ db

delete_subnet-Refused : (id : Str) (now : ℕ) (db : Db) → Refused db (delete_subnet id now db)
unfolding delete_subnet
delete_subnet-Refused id now db = reply-Refused (λ s. s.vpc_id) _ db

terminate_snapshot-Refused :
    (id : Str) (now : ℕ) (db : Db) → Refused db (terminate_snapshot id now db)
unfolding terminate_snapshot
terminate_snapshot-Refused id now db = reply-Refused (λ i. id) _ db

module _ (workspace : Str) (ready : Bool) (now : ℕ) (db : Db) where
  -- An API request that creates, runs, deletes or terminates a VPC, a subnet or an instance and
  -- is answered with an error has left the database as it was and enqueued nothing, and any
  -- other answer is given only for the workspace `default` by a server that has the service,
  -- with status 201 when the request creates or runs the resource and 202 when it deletes or
  -- terminates it.
  pub resource_effects :
      (hash : List Str → Str) (digest : Str → Str) (vpc_codec : Codec Vpc)
      (subnet_codec : Codec Subnet) (instance_codec : Codec Instance)
      (vpc_body : Body CreateVpcInput) (subnet_body : Body CreateSubnetInput)
      (instance_body : Body RunInstanceInput) (key random eni_random : Option Str) (id : Str)
      → EffectOf workspace ready 201 db
          (http_create_vpc workspace ready hash vpc_codec vpc_body key random now db)
        × EffectOf workspace ready 201 db
            (http_create_subnet workspace ready hash subnet_codec subnet_body key random now db)
        × EffectOf workspace ready 201 db (
            http_run_instance workspace ready hash digest instance_codec instance_body key random
              eni_random now db)
        × EffectOf workspace ready 202 db (http_delete_vpc workspace ready id now db)
        × EffectOf workspace ready 202 db (http_delete_subnet workspace ready id now db)
        × EffectOf workspace ready 202 db (http_terminate_instance workspace ready id now db)
  unfolding http_create_vpc http_create_subnet http_run_instance http_delete_vpc http_delete_subnet
      http_terminate_instance
  resource_effects hash digest vpc_codec subnet_codec instance_codec vpc_body subnet_body
        instance_body key random eni_random id =
      (
        EffectOf-checked workspace ready 201 db _ (λ w t.
            EffectOf-with_required workspace ready 201 db vpc_fields _ (decode_body vpc_body) λ b.
              EffectOf-answered workspace ready 201 db w t vpc_response _
                (create_vpc-Refused hash vpc_codec b (or_empty key) random now db)),
        EffectOf-checked workspace ready 201 db _ (λ w t.
            EffectOf-with_required workspace ready 201 db subnet_fields _ (decode_body subnet_body)
              λ b.
                EffectOf-answered workspace ready 201 db w t subnet_response _
                  (create_subnet-refusal hash subnet_codec b (or_empty key) random now db)),
        EffectOf-checked workspace ready 201 db _ (λ w t.
            EffectOf-with_required workspace ready 201 db instance_fields _
              (decode_body instance_body)
              λ b.
                EffectOf-answered workspace ready 201 db w t instance_response _ (
                  run-Refused hash digest instance_codec b (or_empty key) random eni_random now
                    db)),
        EffectOf-checked workspace ready 202 db _ (λ w t.
            EffectOf-answered workspace ready 202 db w t vpc_response _
              (delete_vpc-Refused id now db)),
        EffectOf-checked workspace ready 202 db _ (λ w t.
            EffectOf-answered workspace ready 202 db w t subnet_response _
              (delete_subnet-Refused id now db)),
        EffectOf-checked workspace ready 202 db _ (λ w t.
            EffectOf-answered workspace ready 202 db w t instance_response _
              (terminate_snapshot-Refused id now db)),
      )
