-- ===== src/Examples/Controllers.antt =====
-- Runs of the VPC controller with a small engine, whose kernel is the list of the indexes of the
-- namespaces that exist.
use nephos.Base.{
  drop, ℕ, ◌+◌, ◌<◌, ◌≤◌, ◌≡◌, ◌≢◌, ◌↔◌, refl, inl, Bool, true, false, not, ◌==◌, none, some, List,
  [], ◌∷◌, arith, keep, any, find_first, length, lookup, has, Str, codes, Result, ok, err,
  if◌then◌else◌, Bool-cases,
}
use mathlib.Core.List.Memᴰ.{head}
use nephos.Model.{Vpc}
use nephos.Store.Tables.{Db, VpcRow, new_db}
use nephos.Store.Vpcs.{vpc_key}
use nephos.Store.Resources.{get_vpc, list_subnets_by_vpc}
use nephos.Kernel.Decimals.{pos}
use nephos.Kernel.Names.{
  vpc_name, owned_index, validate_vpc_name, eni_link_name, canonical_eni_link,
}
use nephos.Kernel.Names.RoundTrip.{
  owned_index_iff, names-fit, validate_vpc_name_iff, canonical_eni_link_iff,
}
use nephos.Controller.Queue.{Controller, new_controller, handle_all, enqueued, failed_at, ticked}
use nephos.Controller.Queue.Bounds.{IsBounded, handle_all-IsBounded}
use nephos.Controller.Queue.Backoff.{scheduled, retry_schedule}
use nephos.Controller.Vpcs.{NetworkEngine, World, Round, drain, reconcile_locked}
use nephos.Controller.Vpcs.Drained.{IsQuiet, Drained, drain-Drained}
use nephos.Controller.Vpcs.Progress.{IsRemoved, reconcile_locked-IsRemoved}
use nephos.Controller.Vpcs.Observed.{Outcome, reconcile_locked-Outcome}
use nephos.Controller.Vpcs.Overtaken.{IsRequeued, reconcile_locked-IsRequeued}
use nephos.Controller.Sweep.{sweep, gather, remove_orphans}
use nephos.Controller.Sweep.Pages.{sweep-ends}
use nephos.Controller.Sweep.Spared.{sweep-spares}
use nephos.Examples.Data.{vpc_id, vpc_row, net, front, one_vpc, one_subnet}

abbrev exists : ℕ → List ℕ → Bool
exists i kernel = any (λ n. n == i) kernel

abbrev engine : NetworkEngine (List ℕ)
engine = record {
  ensure_vpc = λ v subnets k. (none, v.short_index ∷ k);
  delete_vpc = λ v k. (none, keep (λ n. not (n == v.short_index)) k);
  list_vpc_names = λ k. ok (codes "nx-vpc-1" ∷ codes "nx-vpc-7" ∷ codes "eth0" ∷ []);
}

abbrev quiet_round : Round
quiet_round = record {
  between_reads = λ db. db;
  during_effect = λ db. db;
  recorded_at = 20;
  retried_at = 20000;
}

quiet : IsQuiet quiet_round
quiet = record { reads_quiet = λ db. refl; effect_quiet = λ db. refl }

abbrev hinted : Controller
hinted = record new_controller { pending = (vpc_id, tt) ∷ [] }

abbrev world : World (List ℕ)
world = record { controller = hinted; db = one_subnet; kernel = [] }

abbrev leaving_row : VpcRow
leaving_row = record vpc_row { deletion_requested = true; generation = 2 }

abbrev leaving : Vpc
leaving = record net { deletion_requested = true; generation = 2 }

abbrev leaving_db : Db
leaving_db = record new_db { vpcs = leaving_row ∷ [] }

abbrev leaving_world : World (List ℕ)
leaving_world = record { controller = hinted; db = leaving_db; kernel = 1 ∷ [] }

handle_all-IsBounded_example :
    IsBounded
      (handle_all (enqueued vpc_id ∷ failed_at vpc_id 5 ∷ ticked 200000000 ∷ []) new_controller)
handle_all-IsBounded_example =
    handle_all-IsBounded (enqueued vpc_id ∷ failed_at vpc_id 5 ∷ ticked 200000000 ∷ [])

retry_schedule_example :
    lookup vpc_id (handle_all (failed_at vpc_id 5 ∷ failed_at vpc_id 9 ∷ []) hinted).retries
    ≡ some (scheduled 1 9)
unfolding lookup
retry_schedule_example = retry_schedule vpc_id (5 ∷ []) 9 hinted refl (omega arith)

drain-Drained_example : Drained (drain engine (λ n. n) (λ n. quiet_round) 2 0 world)
unfolding has nephos.Base.str_eq
drain-Drained_example =
    drain-Drained engine (λ n. n) (λ n. quiet_round) (λ n. quiet) 2 0 world refl (omega arith)

leaving_read : get_vpc (codes "default") vpc_id leaving_db ≡ ok (leaving, leaving_db)
unfolding get_vpc nephos.Store.Vpcs.get_vpc_row nephos.Base.str_eq
    nephos.Store.Resources.vpc_from_row nephos.Netip.is4 nephos.Netip.Text.parse_prefix
leaving_read = refl

leaving_listed : list_subnets_by_vpc vpc_id leaving_db ≡ ok ([], leaving_db)
unfolding list_subnets_by_vpc nephos.Store.Resources.read_rows
    nephos.Store.Subnets.list_subnet_rows_by_vpc nephos.Base.str_eq
    nephos.Store.Resources.subnet_from_row nephos.Netip.is4 nephos.Netip.Text.parse_prefix
leaving_listed = refl

known : nephos.Store.Vpcs.workspace_exists (codes "default") leaving_db ≡ true
unfolding nephos.Base.str_eq
known = refl

reconcile_locked-IsRemoved_example :
    IsRemoved vpc_id (reconcile_locked engine quiet_round vpc_id leaving_world)
reconcile_locked-IsRemoved_example =
    reconcile_locked-IsRemoved engine quiet_round vpc_id leaving leaving_world quiet leaving_read
      leaving_listed refl known refl

net_read : get_vpc (codes "default") vpc_id one_subnet ≡ ok (net, one_subnet)
unfolding get_vpc nephos.Store.Vpcs.get_vpc_row nephos.Base.str_eq
    nephos.Store.Resources.vpc_from_row nephos.Netip.is4 nephos.Netip.Text.parse_prefix
net_read = refl

net_listed : list_subnets_by_vpc vpc_id one_subnet ≡ ok (front ∷ [], one_subnet)
unfolding list_subnets_by_vpc nephos.Store.Resources.read_rows
    nephos.Store.Subnets.list_subnet_rows_by_vpc nephos.Base.str_eq
    nephos.Store.Resources.subnet_from_row nephos.Netip.is4 nephos.Netip.Text.parse_prefix
net_listed = refl

reconcile_locked-Outcome_example :
    Outcome vpc_id 20000 none net one_subnet hinted
      (reconcile_locked engine quiet_round vpc_id world)
reconcile_locked-Outcome_example =
    reconcile_locked-Outcome engine quiet_round quiet vpc_id net (front ∷ []) world net_read
      net_listed refl

-- the VPC is deleted while the engine works on it
abbrev overtaken_round : Round
overtaken_round = record quiet_round { during_effect = λ db. record db { vpcs = leaving_row ∷ [] } }

abbrev overtaken_db : Db
overtaken_db = record one_vpc { vpcs = leaving_row ∷ [] }

abbrev childless_world : World (List ℕ)
childless_world = record { controller = new_controller; db = one_vpc; kernel = [] }

childless_read : get_vpc (codes "default") vpc_id one_vpc ≡ ok (net, one_vpc)
unfolding get_vpc nephos.Store.Vpcs.get_vpc_row nephos.Base.str_eq
    nephos.Store.Resources.vpc_from_row nephos.Netip.is4 nephos.Netip.Text.parse_prefix
childless_read = refl

childless_listed : list_subnets_by_vpc vpc_id one_vpc ≡ ok ([], one_vpc)
unfolding list_subnets_by_vpc nephos.Store.Resources.read_rows
    nephos.Store.Subnets.list_subnet_rows_by_vpc nephos.Base.str_eq
    nephos.Store.Resources.subnet_from_row nephos.Netip.is4 nephos.Netip.Text.parse_prefix
childless_listed = refl

overtaken_read : get_vpc (codes "default") vpc_id overtaken_db ≡ ok (leaving, overtaken_db)
unfolding get_vpc nephos.Store.Vpcs.get_vpc_row nephos.Base.str_eq
    nephos.Store.Resources.vpc_from_row nephos.Netip.is4 nephos.Netip.Text.parse_prefix
overtaken_read = refl

reconcile_locked-IsRequeued_example :
    IsRequeued vpc_id new_controller overtaken_db
      (reconcile_locked engine overtaken_round vpc_id childless_world)
reconcile_locked-IsRequeued_example =
    reconcile_locked-IsRequeued engine overtaken_round b'v' (drop 1 vpc_id) net leaving []
      childless_world childless_read childless_listed (inl refl) overtaken_read (omega arith)
      (omega arith)

sweep-ends_example :
    (r : Result nephos.Errors.Error (Unit {0}) × World (List ℕ)) × (sweep engine
        (λ _. one_vpc)
        (λ n. quiet_round)
        2
        world
      ≡ some r)
sweep-ends_example = sweep-ends engine one_vpc (λ n. quiet_round) 2 world (omega arith)

gathered : gather (λ _. one_vpc) 2 0 [] ≡ some (ok (net ∷ [], codes "nx-vpc-1" ∷ []))
unfolding gather nephos.Store.Resources.list_vpc_page nephos.Store.Vpcs.list_vpc_page_rows
    nephos.Store.Resources.read_rows nephos.Store.Resources.vpc_from_row nephos.Base.str_eq
    nephos.Base.str_lt nephos.Netip.is4 nephos.Netip.Text.parse_prefix
    nephos.Controller.Sweep.add_page nephos.Controller.Sweep.last_vpc
    nephos.Kernel.Names.indexed_name nephos.Kernel.Decimals.format_int
    nephos.Kernel.Decimals.format_digits
gathered = refl

kept_index :
    (v : Vpc) (k : List ℕ)
    → v.short_index ≢ 1
    → exists 1 k ≡ true
    → exists 1 (engine.delete_vpc v k).1 ≡ true
kept_index v [] other h = h
kept_index v (n ∷ k) other h = ground (arith, kept_index v k other)

sweep-spares_example :
    exists 1 (remove_orphans engine (codes "nx-vpc-1" ∷ []) (codes "nx-vpc-7" ∷ []) (1 ∷ 7 ∷ [])).1
    ≡ true
sweep-spares_example =
    sweep-spares engine one_vpc (λ k. exists 1 k ≡ true) 2 (net ∷ [], codes "nx-vpc-1" ∷ [])
      (codes "nx-vpc-7" ∷ []) (1 ∷ 7 ∷ []) vpc_row (tt, tt) gathered (head refl) refl
      (λ e. ground arith) kept_index refl

owned_index_iff_example :
    (owned_index (codes "nx-vpc-7") ≡ some (pos 7)) ↔ (vpc_name (pos 7) ≡ some (codes "nx-vpc-7"))
owned_index_iff_example = owned_index_iff (codes "nx-vpc-7") (pos 7)

seventh : vpc_name (pos 7) ≡ some (codes "nx-vpc-7")
unfolding nephos.Kernel.Names.indexed_name nephos.Kernel.Decimals.format_int
    nephos.Kernel.Decimals.format_digits
seventh = refl

names-fit_example : length (codes "nx-vpc-7") ≤ 15
names-fit_example = names-fit (pos 7) (codes "nx-vpc-7") (inl seventh)

validate_vpc_name_iff_example :
    (validate_vpc_name (codes "nx-vpc-07") ≡ true)
    ↔ ((i : nephos.Kernel.Decimals.ℤ) × (vpc_name i ≡ some (codes "nx-vpc-07")))
validate_vpc_name_iff_example = validate_vpc_name_iff (codes "nx-vpc-07")

canonical_eni_link_iff_example :
    (canonical_eni_link (codes "ve12") ≡ true)
    ↔ ((i : nephos.Kernel.Decimals.ℤ) × (eni_link_name i ≡ some (codes "ve12")))
canonical_eni_link_iff_example = canonical_eni_link_iff (codes "ve12")
