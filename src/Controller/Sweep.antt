-- ===== src/Controller/Sweep.antt =====
-- internal/reconcile/network.go: the sweep over all VPCs.
pub mod Pages
pub mod Covered
pub mod Spared
use nephos.Base.{
  ℕ, zero, suc, Bool, true, false, Option, none, some, List, [], ◌∷◌, ◌++◌, any, if◌then◌else◌, Str,
  codes, str_eq, Result, ok, err,
}
use nephos.Netip.{Prefix, invalid}
use nephos.Model.{State, Vpc}
use nephos.Errors.{Error, failure}
use nephos.Store.Tables.{Db}
use nephos.Store.Resources.{list_vpc_page}
use nephos.Kernel.Decimals.{ℤ, pos, negsuc}
use nephos.Kernel.Names.{vpc_name, owned_index}
use nephos.Controller.Vpcs.{NetworkEngine, World, Round, reconcile_locked}

-- the VPCs and the names of their namespaces
abbrev pub Inventory : Type 0
Inventory = List Vpc × List Str

-- one VPC of a page, before what follows it
abbrev pub add_named : Vpc → Option Str → Result Error Inventory → Result Error Inventory
add_named v none rest = err failure
add_named v (some name) (err e) = err e
add_named v (some name) (ok (vpcs, wanted)) = ok (v ∷ vpcs, name ∷ wanted)

-- `for i := range page`
unfoldable pub add_page : List Vpc → Result Error Inventory → Result Error Inventory
add_page [] rest = rest
add_page (v ∷ page) rest = add_named v (vpc_name (pos v.short_index)) (add_page page rest)

-- `page[len(page)-1].ID` of the page that begins with `v`
unfoldable pub last_vpc : Vpc → List Vpc → Str
last_vpc v [] = v.id
last_vpc v (w ∷ page) = last_vpc w page

abbrev pub before_rest :
    List Vpc → Option (Result Error Inventory) → Option (Result Error Inventory)
before_rest page none = none
before_rest page (some rest) = some (add_page page rest)

abbrev pub page_read :
    (Str → Option (Result Error Inventory))
    → Result Error (List Vpc × Db)
    → Option (Result Error Inventory)
page_read next (err e) = some (err e)
page_read next (ok ([], db)) = some (ok ([], []))
page_read next (ok (v ∷ page, db)) = before_rest (v ∷ page) (next (last_vpc v page))

-- the loop that reads the pages. The n-th page is read from `seen n`, since others may commit
-- between the pages; `none` is the end of the fuel.
unfoldable pub gather : (ℕ → Db) → ℕ → ℕ → Str → Option (Result Error Inventory)
gather seen zero n after = none
gather seen (suc fuel) n after =
    page_read (gather seen fuel (suc n)) (list_vpc_page (codes "default") after 100 (seen n))

abbrev pub index_of : ℤ → ℕ
index_of (pos n) = n
index_of (negsuc n) = 0

-- model.VPC{ID: name, ShortIndex: index}
abbrev pub orphan : Str → ℤ → Vpc
orphan name index = record {
  id = name;
  workspace_id = [];
  name = [];
  cidr_block = record { addr = invalid; bits_plus_one = 0 };
  short_index = index_of index;
  state = State.pending;
  state_reason = [];
  deletion_requested = false;
  generation = 0;
  observed_generation = 0;
}

module _ {K : Type 0} where
  abbrev pub removed_orphan :
      (K → Result Error (Unit {0}) × K) → Option Str × K → Result Error (Unit {0}) × K
  removed_orphan next (none, k) = next k
  removed_orphan next (some reason, k) = (err failure, k)

  abbrev pub converged_one :
      (World K → Result Error (Unit {0}) × World K)
      → Result Error (Unit {0}) × World K
      → Result Error (Unit {0}) × World K
  converged_one next (err e, w) = (err e, w)
  converged_one next (ok u, w) = next w

module _ {K : Type 0} (engine : NetworkEngine K) where
  -- an existing namespace that no VPC wants, if its name has an index
  abbrev pub remove_owned :
      (K → Result Error (Unit {0}) × K) → Str → Option ℤ → K → Result Error (Unit {0}) × K
  remove_owned next name none k = next k
  remove_owned next name (some index) k =
      removed_orphan next (engine.delete_vpc (orphan name index) k)

  -- `for _, name := range names`
  unfoldable pub remove_orphans : List Str → List Str → K → Result Error (Unit {0}) × K
  remove_orphans wanted [] k = (ok tt, k)
  remove_orphans wanted (name ∷ names) k =
      let next = remove_orphans wanted names in
      if any (str_eq name) wanted then next k else remove_owned next name (owned_index name) k

  -- `for i := range vpcs`
  unfoldable pub converge_all :
      (ℕ → Round) → ℕ → List Vpc → World K → Result Error (Unit {0}) × World K
  converge_all round n [] w = (ok tt, w)
  converge_all round n (v ∷ vpcs) w =
      converged_one (converge_all round (suc n) vpcs) (reconcile_locked engine (round n) v.id w)

  abbrev pub orphans_removed :
      (ℕ → Round)
      → List Vpc
      → World K
      → Result Error (Unit {0}) × K
      → Result Error (Unit {0}) × World K
  orphans_removed round vpcs w (err e, k) = (err e, record w { kernel = k })
  orphans_removed round vpcs w (ok u, k) = converge_all round 0 vpcs (record w { kernel = k })

  abbrev pub names_listed :
      (ℕ → Round)
      → Inventory
      → World K
      → Result Error (List Str)
      → Result Error (Unit {0}) × World K
  names_listed round inventory w (err e) = (err e, w)
  names_listed round (vpcs, wanted) w (ok names) =
      orphans_removed round vpcs w (remove_orphans wanted names w.kernel)

  abbrev pub inventory_read :
      (ℕ → Round) → World K → Result Error Inventory → Result Error (Unit {0}) × World K
  inventory_read round w (err e) = (err e, w)
  inventory_read round w (ok inventory) =
      names_listed round inventory w (engine.list_vpc_names w.kernel)

  abbrev pub swept :
      (ℕ → Round)
      → World K
      → Option (Result Error Inventory)
      → Option (Result Error (Unit {0}) × World K)
  swept round w none = none
  swept round w (some r) = some (inventory_read round w r)

  -- Sweep, on the database `seen 0`, `seen 1`, … for its pages and `w.db` after them
  unfoldable pub sweep :
      (ℕ → Db) → (ℕ → Round) → ℕ → World K → Option (Result Error (Unit {0}) × World K)
  sweep seen round fuel w = swept round w (gather seen fuel 0 [])
