-- ===== src/Service/Instances/Launch.antt =====
-- internal/service/instance.go: Run beside the tables of VPCs and subnets.
use nephos.Base.{ℕ, sym, ◌∙◌, Option, none, some, [], Str, codes}
use mathlib.Core.Path.{subst}
use nephos.Netip.{Addr}
use nephos.Netmac.{print_mac}
use nephos.Model.{Instance, Subnet}
use nephos.Store.Tables.{Db}
use nephos.Store.Tx.{reading, absent, found_or}
use nephos.Store.Tx.Kept.{Kept, Kept-bind, Unchanged-ok, reading_lem, absent_lem, on_error-ok}
use nephos.Store.Leases.{insert_instance_with_eni, get_instance_by_name, eni_addresses}
use nephos.Store.Lifecycle.{instance_event, instance_state_text}
use nephos.Store.Resources.{allocate_index, get_subnet}
use nephos.Service.Ipam.{next_private_ip}
use nephos.Service.Idempotency.{Codec, default_workspace, load_replay, or_replay}
use nephos.Service.Network.{name_conflict, no_subnet}
use nephos.Service.Network.Marks.{load_replay_lem, get_subnet_lem}
use nephos.Service.Network.Effects.{Top, SameNet-Top, allocate_index-net}
use nephos.Service.Network.Invariant.{recorded-Top}
use nephos.Service.Network.Observed.{either}
use nephos.Service.Instances.{
  insert_pending_instance, lease_and_insert, launch, run_tx, pending_eni, pending_instance,
  local_mac, lease_result, RunInstanceInput,
}
use nephos.Service.Instances.Network.{insert_instance_with_eni-Top, eni_addresses_lem}

module _ (digest : Str → Str) where
  insert_pending_instance-Top :
      (codec : Codec Instance) (id eni_id subnet name : Str) (a : Addr) (key hash : Str) (now : ℕ)
      (db : Db)
      → Top db
      → Kept Top (insert_pending_instance digest codec id eni_id subnet name a key hash now db)
  unfolding insert_pending_instance
  insert_pending_instance-Top codec id eni_id subnet name a key hash now db t =
      Kept-bind Top (allocate_index (codes "instance") id) _ db λ index db1 e1.
        Kept-bind Top (allocate_index (codes "eni") eni_id) _ db1 λ eni_index db2 e2.
          let eni =
            pending_eni eni_id id subnet eni_index a (print_mac (local_mac (digest eni_id))) in
          let result = pending_instance id subnet name index eni in
          let t2 =
            SameNet-Top db1 db2 (allocate_index-net db1 (codes "eni") eni_id e2)
              (SameNet-Top db db1 (allocate_index-net db (codes "instance") id e1) t) in
          Kept-bind Top (insert_instance_with_eni result eni now) _ db2 λ _ db3 e3.
            recorded-Top
              (instance_event result (codes "created") (instance_state_text result.state) 1 [] now)
              codec (codes "run-instance") key hash id result now db3
              (subst (Kept Top) e3 (insert_instance_with_eni-Top result eni now db2 t2))

  lease_and_insert-Top :
      (codec : Codec Instance) (id eni_id : Str) (subnet : Subnet) (name key hash : Str) (now : ℕ)
      (db : Db)
      → Top db
      → Kept Top (lease_and_insert digest codec id eni_id subnet name key hash now db)
  unfolding lease_and_insert
  lease_and_insert-Top codec id eni_id subnet name key hash now db t =
      let lookup = absent (get_instance_by_name default_workspace name) name_conflict in
      Kept-bind Top lookup _ db λ _ db1 e1.
        Kept-bind Top (eni_addresses subnet.id) _ db1 λ used db2 e2.
          let lease = reading (lease_result subnet.id (next_private_ip subnet.cidr_block used)) in
          Kept-bind Top lease _ db2 λ a db3 e3.
            let p =
              Unchanged-ok lookup db
                (absent_lem (get_instance_by_name default_workspace name) name_conflict db) e1 in
            let q =
              Unchanged-ok (eni_addresses subnet.id) db1 (eni_addresses_lem subnet.id db1) e2 in
            let r = Unchanged-ok lease db2 (reading_lem _ db2) e3 in
            insert_pending_instance-Top codec id eni_id subnet.id name a key hash now db3
              (subst Top (sym (r ∙ q ∙ p)) t)

  launch-Top :
      (codec : Codec Instance) (id eni_id : Str) (input : RunInstanceInput) (name key hash : Str)
      (now : ℕ) (db : Db)
      → Top db
      → Kept Top (launch digest codec id eni_id input name key hash now db)
  unfolding launch
  launch-Top codec id eni_id input name key hash now db t =
      let lookup = get_subnet default_workspace input.subnet_id in
      Kept-bind Top (found_or lookup (no_subnet input.subnet_id)) _ db λ subnet db1 e1.
        let same =
          Unchanged-ok lookup db (get_subnet_lem default_workspace input.subnet_id db)
            (on_error-ok lookup _ db e1) in
        either subnet.deletion_requested _ _ db1 tt (
          lease_and_insert-Top codec id eni_id subnet name key hash now db1
            (subst Top (sym same) t))

  pub run_tx-Top :
      (codec : Codec Instance) (id eni_id : Str) (input : RunInstanceInput) (name key hash : Str)
      (now : ℕ) (db : Db)
      → Top db
      → Kept Top (run_tx digest codec id eni_id input name key hash now db)
  unfolding run_tx
  run_tx-Top codec id eni_id input name key hash now db t =
      let lookup = load_replay codec (codes "run-instance") key hash now in
      Kept-bind Top lookup _ db λ replay db1 e1. replayed replay db1 (
        subst Top
          (sym (
            Unchanged-ok lookup db (load_replay_lem codec (codes "run-instance") key hash now db)
              e1))
          t)
    where
      replayed :
          (r : Option Instance) (d : Db)
          → Top d
          → Kept Top (or_replay r (launch digest codec id eni_id input name key hash now) d)
      replayed (some i) d t = t
      replayed none d t = launch-Top codec id eni_id input name key hash now d t
