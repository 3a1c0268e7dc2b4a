-- ===== src/Reach/Network.antt =====
-- The network tables along a history of operations.
use nephos.Base.{
  ℕ, ◌≡◌, refl, sym, Bool, true, false, Option, List, [], ◌∷◌, Str, codes, Result, ok, err,
}
use mathlib.Core.Path.{subst}
use nephos.Model.{InstanceState, Vpc, Subnet, Instance}
use nephos.Errors.{Error}
use nephos.Store.Tables.{Db}
use nephos.Store.Tx.{Tx, with_tx}
use nephos.Store.Tx.Kept.{Kept, Kept-with_tx}
use nephos.Store.Topology.{IsTopology, IsTopology-nil}
use nephos.Store.Instances.{record_runtime_id_rows, retain_terminating_runtime_id_rows}
use nephos.Store.Leases.{record_runtime_id, retain_terminating_runtime_id}
use nephos.Store.Lifecycle.{record_instance, finish_instance_termination, record_instance_tx}
use nephos.Store.Reconcile.{record_topology}
use nephos.Service.Validate.{parse_cidr}
use nephos.Service.Validate.Cidr.{parse_cidr-IsCanonical}
use nephos.Service.Names.{validate_name, validate_idempotency_key}
use nephos.Service.Ids.{new_id}
use nephos.Service.Idempotency.{Codec, Reply, reply_of, checked_reply}
use nephos.Service.Network.{CreateVpcInput, CreateSubnetInput}
use nephos.Service.Network.Effects.{Top}
use nephos.Service.Network.Invariant.{create_vpc_tx-Top, delete_vpc_tx-Top, delete_subnet_tx-Top}
use nephos.Service.Network.Admission.{create_subnet_tx-Top}
use nephos.Service.Network.Observed.{record_topology_tx-Top}
use nephos.Service.Requests.{create_vpc, create_subnet, delete_vpc, delete_subnet}
use nephos.Service.Instances.{RunInstanceInput, run, terminate_snapshot}
use nephos.Service.Instances.Network.{
  record_instance_tx-Top, finish_instance_termination_tx-Top, terminate_tx-Top,
}
use nephos.Service.Instances.Launch.{run_tx-Top}
use nephos.Reach.{
  Step, create_vpc_step, create_subnet_step, delete_vpc_step, delete_subnet_step, run_step,
  terminate_step, record_topology_step, record_instance_step, record_runtime_id_step,
  retain_runtime_id_step, finish_termination_step, Reach, start, step,
}
use nephos.Store.Subnets.{known_zone}
use nephos.Errors.{failure, invalid_parameter}
use nephos.Model.{instance_state_eq}
use nephos.Store.Lifecycle.{is_empty}
use nephos.Base.{require, if◌then◌else◌, not, ◌&&◌, ◌||◌}

module _ {A : Type 0} where
  reply_lem : (hint : A → Str) (r : Result Error (A × Bool) × Db) → (reply_of hint r).db ≡ r.1
  reply_lem hint (err e, db) = refl
  reply_lem hint (ok (a, true), db) = refl
  reply_lem hint (ok (a, false), db) = refl

  reply-Top :
      (hint : A → Str) (m : Tx (A × Bool)) (db : Db)
      → Top db
      → Kept Top (m db)
      → Top (reply_of hint (with_tx m db)).db
  reply-Top hint m db t k =
      subst Top (sym (reply_lem hint (with_tx m db))) (Kept-with_tx Top m db t k)

module _ {A B : Type 0} where
  checked-Top :
      (r : Result Error B) (k : B → Db → Reply A) (db : Db)
      → Top db
      → ((b : B) → r ≡ ok b → Top (k b db).db)
      → Top (checked_reply r k db).db
  checked-Top (ok b) k db t f = f b refl
  checked-Top (err e) k db t f = t

create_vpc-Top :
    (hash : List Str → Str) (codec : Codec Vpc) (input : CreateVpcInput) (key : Str)
    (random : Option Str) (now : ℕ) (db : Db)
    → Top db
    → Top (create_vpc hash codec input key random now db).db
unfolding create_vpc
create_vpc-Top hash codec input key random now db t =
    checked-Top (validate_name input.name) _ db t λ name _.
      checked-Top (parse_cidr input.cidr_block) _ db t λ cidr c.
        checked-Top (validate_idempotency_key key) _ db t λ _ _.
          checked-Top (new_id (codes "vpc-") random) _ db t λ id _.
            reply-Top (λ v. v.id) _ db t
              (create_vpc_tx-Top codec id name cidr key _ now db
                (parse_cidr-IsCanonical input.cidr_block cidr c) t)

create_subnet-Top :
    (hash : List Str → Str) (codec : Codec Subnet) (input : CreateSubnetInput) (key : Str)
    (random : Option Str) (now : ℕ) (db : Db)
    → Top db
    → Top (create_subnet hash codec input key random now db).db
unfolding create_subnet
create_subnet-Top hash codec input key random now db t =
    checked-Top (validate_name input.name) _ db t λ name _.
      checked-Top (parse_cidr input.cidr_block) _ db t λ cidr c.
        checked-Top (require (known_zone input.availability_zone) invalid_parameter) _ db t λ _ _.
          checked-Top (validate_idempotency_key key) _ db t λ _ _.
            checked-Top (new_id (codes "subnet-") random) _ db t λ id _.
              reply-Top (λ v. v.vpc_id) _ db t
                (create_subnet_tx-Top codec input id name cidr key _ now db
                  (parse_cidr-IsCanonical input.cidr_block cidr c) t)

run-Top :
    (hash : List Str → Str) (digest : Str → Str) (codec : Codec Instance) (input : RunInstanceInput)
    (key : Str) (random eni_random : Option Str) (now : ℕ) (db : Db)
    → Top db
    → Top (run hash digest codec input key random eni_random now db).db
unfolding run
run-Top hash digest codec input key random eni_random now db t =
    checked-Top (validate_name input.name) _ db t λ name _.
      checked-Top (validate_idempotency_key key) _ db t λ _ _.
        checked-Top (new_id (codes "i-") random) _ db t λ id _.
          checked-Top (new_id (codes "eni-") eni_random) _ db t λ eni_id _.
            reply-Top (λ i. i.id) _ db t
              (run_tx-Top digest codec id eni_id input name key _ now db t)

record_instance-Top :
    (i : Instance) (status : InstanceState) (reason : Str) (observed : Bool) (now : ℕ) (db : Db)
    → Top db
    → Top (record_instance i status reason observed now db).1
unfolding record_instance
record_instance-Top i status reason observed now db t =
    guarded
      (not (instance_state_eq status InstanceState.running)
        && not (instance_state_eq status InstanceState.failed))
      _ failure
      (guarded
        (observed
          && (not (instance_state_eq status InstanceState.running)
              || (is_empty i.runtime_id || i.deletion_requested)))
        (with_tx (record_instance_tx i status reason observed now) db) failure
        (Kept-with_tx Top (record_instance_tx i status reason observed now) db t
          (record_instance_tx-Top i status reason observed now db t)))
  where
    guarded :
        (b : Bool) (r : Result Error (Unit {0}) × Db) (e : Error)
        → Top r.1
        → Top (if b then (err e, db) else r).1
    guarded true r e h = t
    guarded false r e h = h

record_runtime_id-Top :
    (id : Str) (generation : ℕ) (runtime : Str) (db : Db)
    → Top db
    → Top (record_runtime_id id generation runtime db).1
unfolding record_runtime_id record_runtime_id_rows
record_runtime_id-Top id generation [] db t = t
record_runtime_id-Top id generation (c ∷ runtime) db t = t

retain_runtime_id-Top :
    (id runtime : Str) (db : Db) → Top db → Top (retain_terminating_runtime_id id runtime db).1
unfolding retain_terminating_runtime_id retain_terminating_runtime_id_rows
retain_runtime_id-Top id [] db t = t
retain_runtime_id-Top id (c ∷ runtime) db t = t

module _ (hash : List Str → Str) (digest : Str → Str) where
  Step-Top : {db db' : Db} → Step hash digest db db' → Top db → Top db'
  unfolding delete_vpc delete_subnet terminate_snapshot record_topology finish_instance_termination
  Step-Top {db} (create_vpc_step codec input key random now) t =
      create_vpc-Top hash codec input key random now db t
  Step-Top {db} (create_subnet_step codec input key random now) t =
      create_subnet-Top hash codec input key random now db t
  Step-Top {db} (delete_vpc_step id now) t = reply-Top _ _ db t (delete_vpc_tx-Top id now db t)
  Step-Top {db} (delete_subnet_step id now) t =
      reply-Top _ _ db t (delete_subnet_tx-Top id now db t)
  Step-Top {db} (run_step codec input key random eni_random now) t =
      run-Top hash digest codec input key random eni_random now db t
  Step-Top {db} (terminate_step id now) t = reply-Top _ _ db t (terminate_tx-Top id now db t)
  Step-Top {db} (record_topology_step v subnets effect now) t =
      Kept-with_tx Top _ db t (record_topology_tx-Top v subnets effect now db t)
  Step-Top {db} (record_instance_step i status reason observed now) t =
      record_instance-Top i status reason observed now db t
  Step-Top {db} (record_runtime_id_step id generation runtime) t =
      record_runtime_id-Top id generation runtime db t
  Step-Top {db} (retain_runtime_id_step id runtime) t = retain_runtime_id-Top id runtime db t
  Step-Top {db} (finish_termination_step i now) t =
      Kept-with_tx Top _ db t (finish_instance_termination_tx-Top i now db t)

  -- In every database that a history of operations reaches from the migrated one, every stored
  -- CIDR block is canonical, IPv4 and from /16 to /28; every subnet has its VPC, which is not
  -- marked for deletion and whose block accepts the subnet's; and two subnets of one VPC do not
  -- overlap.
  pub Reach-IsTopology : (db : Db) → Reach hash digest db → IsTopology db.vpcs db.subnets
  Reach-IsTopology db start = IsTopology-nil
  Reach-IsTopology db (step {db = before} r s) = Step-Top s (Reach-IsTopology before r)
