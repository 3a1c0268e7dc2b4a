-- ===== src/Kernel/Gateways/Provided.antt =====
-- internal/network/topology/vpc_linux.go: the gateways of the subnets that the database holds.
use nephos.Base.{
  ◌≡◌, refl, sym, ap, ◌∙◌, Bool, false, not, List, [], ◌∷◌, ◌++◌, map, arith, any, All, Str, codes,
  ok,
}
use nephos.Netip.{Addr, Prefix, prefix_overlaps}
use nephos.Model.{Vpc, Subnet}
use nephos.Store.Tables.{Db}
use nephos.Store.Rows.{All-keep, All-const, All-map, All-zip, Pairwise, Pairwise-keep}
use nephos.Store.Resources.{get_vpc, list_subnets_by_vpc}
use nephos.Service.Validate.{gateway}
use nephos.Service.Validate.Ranges.{overlaps_comm}
use nephos.Service.Validate.Cidr.{IsCanonical}
use nephos.Service.Network.Effects.{Top}
use nephos.Controller.Vpcs.{active}
use nephos.Kernel.Gateways.{collect_gateways, sorted_gateways, sort_addrs, desired_gateways}
use nephos.Kernel.Gateways.Blocks.{
  valid_block-canonical, prefix_overlaps-canonical, valid_range-canonical, gateway-canonical,
}
use nephos.Kernel.Gateways.Snapshot.{
  Within, Disjoint, read-canonical, listed-Disjoint, listed-Within,
}

abbrev gateways_of : List Subnet → List Addr
gateways_of = map (λ s. gateway s.cidr_block)

-- the block overlaps none of those before
abbrev Clear : List Prefix → Subnet → Type 0
Clear seen s = any (prefix_overlaps s.cidr_block) seen ≡ false

any_snoc :
    (p : Prefix → Bool) (xs : List Prefix) (x : Prefix)
    → any p xs ≡ false
    → p x ≡ false
    → any p (xs ++ x ∷ []) ≡ false
any_snoc p [] x h k = ground arith
any_snoc p (y ∷ xs) x h k = ground (arith, any_snoc p xs x)

Clear-snoc :
    (seen : List Prefix) (s t : Subnet)
    → IsCanonical s.cidr_block
    → IsCanonical t.cidr_block
    → Clear seen t
    → Disjoint s t
    → Clear (seen ++ s.cidr_block ∷ []) t
Clear-snoc seen s t c d clear apart =
    any_snoc (prefix_overlaps t.cidr_block) seen s.cidr_block clear (
      prefix_overlaps-canonical t.cidr_block s.cidr_block d c
        (overlaps_comm t.cidr_block s.cidr_block ∙ apart))

collect_gateways-ok :
    (v : Vpc) (seen : List Prefix) (subnets : List Subnet)
    → IsCanonical v.cidr_block
    → All (Within v) subnets
    → Pairwise Disjoint subnets
    → All (Clear seen) subnets
    → collect_gateways v seen subnets ≡ ok (gateways_of subnets)
unfolding collect_gateways
collect_gateways-ok v seen [] c ws ds cs = refl
collect_gateways-ok v seen (s ∷ subnets) c (w, ws) (d, ds) (k, ks) =
    let fits = valid_range-canonical v s w.own c w.canonical w.inside in
    let later =
      All-map (λ t. Within v t × (Clear seen t × Disjoint s t)) (Clear (seen ++ s.cidr_block ∷ []))
        subnets (λ t (x, (y, z)). Clear-snoc seen s t w.canonical x.canonical y z)
        (All-zip (Within v) (λ t. Clear seen t × Disjoint s t) subnets ws
          (All-zip (Clear seen) (Disjoint s) subnets ks d)) in
    let rest = collect_gateways-ok v (seen ++ s.cidr_block ∷ []) subnets c ws ds later in
    rw (fits, k, rest)
      (ap (λ a. ok (a ∷ gateways_of subnets)) (sym (gateway-canonical s.cidr_block w.canonical)))

-- On a database whose network tables satisfy the topology invariant and whose subnets are of the
-- default workspace, desiredGateways does not refuse what the controller hands to it, a VPC with
-- its subnets that are not being deleted: it returns, sorted, exactly the addresses that Gateway
-- of the services gives for the blocks of these subnets.
pub desired_gateways-active :
    (db : Db) (id : Str) (v : Vpc) (subnets : List Subnet) {db1 db2 : Db}
    → Top db
    → All (λ s. s.workspace_id ≡ codes "default") db.subnets
    → get_vpc (codes "default") id db ≡ ok (v, db1)
    → list_subnets_by_vpc id db ≡ ok (subnets, db2)
    → desired_gateways v (active subnets)
      ≡ ok (sort_addrs (map (λ s. gateway s.cidr_block) (active subnets)))
unfolding desired_gateways
desired_gateways-active db id v subnets top shared found listed =
    let c = read-canonical db top id v found in
    let lives = λ (s : Subnet). not s.deletion_requested in
    rw (valid_block-canonical v.cidr_block c) (
      ap sorted_gateways (
        collect_gateways-ok v [] (active subnets) c
          (All-keep (Within v) lives subnets
            (listed-Within db top id v subnets shared found listed))
          (Pairwise-keep Disjoint lives subnets (listed-Disjoint db top id subnets listed))
          (All-const (Clear []) (active subnets) (λ s. refl))))
