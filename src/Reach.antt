-- ===== src/Reach.antt =====
-- Histories of the database: the operations of internal/service and internal/store that write to
-- it, one after another, from what the migrations leave.
pub mod Network
use nephos.Base.{ℕ, Bool, Option, List, Str}
use nephos.Model.{InstanceState, Vpc, Subnet, Instance}
use nephos.Store.Tables.{Db, new_db}
use nephos.Store.Leases.{record_runtime_id, retain_terminating_runtime_id}
use nephos.Store.Lifecycle.{record_instance, finish_instance_termination}
use nephos.Store.Reconcile.{record_topology}
use nephos.Service.Idempotency.{Codec}
use nephos.Service.Network.{CreateVpcInput, CreateSubnetInput}
use nephos.Service.Requests.{create_vpc, create_subnet, delete_vpc, delete_subnet}
use nephos.Service.Instances.{RunInstanceInput, run, terminate_snapshot}

module _ (hash : List Str → Str) (digest : Str → Str) where
  -- one committed or refused operation
  pub data Step (db : Db) : Db → Type 0 where
    create_vpc_step :
        (codec : Codec Vpc) (input : CreateVpcInput) (key : Str) (random : Option Str) (now : ℕ)
        → Step db (create_vpc hash codec input key random now db).db
    create_subnet_step :
        (codec : Codec Subnet) (input : CreateSubnetInput) (key : Str) (random : Option Str)
        (now : ℕ)
        → Step db (create_subnet hash codec input key random now db).db
    delete_vpc_step : (id : Str) (now : ℕ) → Step db (delete_vpc id now db).db
    delete_subnet_step : (id : Str) (now : ℕ) → Step db (delete_subnet id now db).db
    run_step :
        (codec : Codec Instance) (input : RunInstanceInput) (key : Str)
        (random eni_random : Option Str) (now : ℕ)
        → Step db (run hash digest codec input key random eni_random now db).db
    terminate_step : (id : Str) (now : ℕ) → Step db (terminate_snapshot id now db).db
    record_topology_step :
        (v : Vpc) (subnets : List Subnet) (effect : Option Str) (now : ℕ)
        → Step db (record_topology v subnets effect now db).1
    record_instance_step :
        (i : Instance) (status : InstanceState) (reason : Str) (observed : Bool) (now : ℕ)
        → Step db (record_instance i status reason observed now db).1
    record_runtime_id_step :
        (id : Str) (generation : ℕ) (runtime : Str)
        → Step db (record_runtime_id id generation runtime db).1
    retain_runtime_id_step :
        (id runtime : Str) → Step db (retain_terminating_runtime_id id runtime db).1
    finish_termination_step :
        (i : Instance) (now : ℕ) → Step db (finish_instance_termination i now db).1

  pub data Reach : Db → Type 0 where
    start : Reach new_db
    step : {db db' : Db} → Reach db → Step db db' → Reach db'
