-- ===== src/Controller/Sweep/Spared.antt =====
-- internal/reconcile/network.go: the namespaces that the sweep removes as orphans.
use nephos.Base.{
  ℕ, ◌≡◌, ◌≢◌, refl, sym, ap, ◌∙◌, inl, inr, true, false, Option, none, some, List, [], ◌∷◌,
  Bool-cases, arith, any, Str, codes, str_eq, str_eq_refl, str_lt, Result, ok, Memᴰ, Mem-kept,
}
use nephos.Model.{Vpc}
use nephos.Errors.{Error}
use nephos.Store.Tables.{Db, VpcRow}
use nephos.Store.Rows.{Pairwise}
use nephos.Kernel.Decimals.{ℤ, pos, negsuc}
use nephos.Kernel.Names.{indexed_name, vpc_name, owned_index}
use nephos.Kernel.Names.RoundTrip.{owned_index_iff}
use nephos.Controller.Vpcs.{NetworkEngine}
use nephos.Controller.Sweep.{
  Inventory, gather, orphan, removed_orphan, remove_owned, remove_orphans,
}
use nephos.Controller.Sweep.Pages.{is_after}
use nephos.Controller.Sweep.Covered.{Before, IsWanted, gather-IsWanted}

-- An orphan's index is not that of a wanted name.
orphan-elsewhere :
    (name : Str) (index : ℤ) (i : ℕ) (wanted : List Str)
    → owned_index name ≡ some index
    → any (str_eq name) wanted ≡ false
    → IsWanted i wanted
    → (orphan name index).short_index ≢ i
orphan-elsewhere name (pos n) i wanted owned foreign w same =
    let own = (owned_index_iff name (pos n)).0 owned in
    let both : some name ≡ some w.name = sym own ∙ ap (λ x. vpc_name (pos x)) same ∙ w.named in
    let one : name ≡ w.name = cc in
    absurd (cc (ap (λ x. any (str_eq x) wanted) one, foreign, w.listed))
orphan-elsewhere name (negsuc n) i wanted owned foreign w same =
    let own = (owned_index_iff name (negsuc n)).0 owned in
    absurd (unfold indexed_name in ground arith)

module _ {K : Type 0} (engine : NetworkEngine K) (i : ℕ) (P : K → Type 0)
    (spared : (v : Vpc) (k : K) → v.short_index ≢ i → P k → P (engine.delete_vpc v k).1) where
  removed_orphan-spares :
      (next : K → Result Error (Unit {0}) × K) (p : Option Str × K)
      → P p.1
      → ((k : K) → P k → P (next k).1)
      → P (removed_orphan next p).1
  removed_orphan-spares next (none, k) h ih = ih k h
  removed_orphan-spares next (some reason, k) h ih = h

  remove_owned-spares :
      (wanted : List Str) (next : K → Result Error (Unit {0}) × K) (name : Str) (o : Option ℤ)
      (k : K)
      → owned_index name ≡ o
      → any (str_eq name) wanted ≡ false
      → IsWanted i wanted
      → P k
      → ((k' : K) → P k' → P (next k').1)
      → P (remove_owned engine next name o k).1
  remove_owned-spares wanted next name none k owned foreign w h ih = ih k h
  remove_owned-spares wanted next name (some index) k owned foreign w h ih =
      removed_orphan-spares next (engine.delete_vpc (orphan name index) k)
        (spared (orphan name index) k (orphan-elsewhere name index i wanted owned foreign w) h) ih

  remove_orphans-spares :
      (wanted names : List Str) (k : K)
      → IsWanted i wanted
      → P k
      → P (remove_orphans engine wanted names k).1
  unfolding remove_orphans
  remove_orphans-spares wanted [] k w h = h
  remove_orphans-spares wanted (name ∷ names) k w h = elim (Bool-cases (any (str_eq name) wanted)) [
    | inl e ↦ rw e (remove_orphans-spares wanted names k w h)
    | inr e ↦ rw e (
        remove_owned-spares wanted (remove_orphans engine wanted names) name (owned_index name) k
          refl e w h (λ k' h'. remove_orphans-spares wanted names k' w h'))
  ]

after_start : (s : Str) → s ≢ [] → str_lt [] s ≡ true
unfolding str_lt
after_start [] h = absurd (h refl)
after_start (c ∷ s) h = refl

module _ {K : Type 0} (engine : NetworkEngine K) (db : Db) (P : K → Type 0) where
  -- When the VPC rows stand in the order of their IDs and the sweep has read its pages from one
  -- database, removing the orphans calls DeleteVPC with the index of no VPC of the default
  -- workspace whose ID is not empty: what holds of the kernel and is kept by each DeleteVPC with
  -- another index still holds after it.
  pub sweep-spares :
      (fuel : ℕ) (inventory : Inventory) (names : List Str) (k : K) (r : VpcRow)
      → Pairwise Before db.vpcs
      → gather (λ _. db) fuel 0 [] ≡ some (ok inventory)
      → Memᴰ r db.vpcs
      → r.workspace_id ≡ codes "default"
      → r.id ≢ []
      → ((v : Vpc) (k' : K) → v.short_index ≢ r.short_index → P k' → P (engine.delete_vpc v k').1)
      → P k
      → P (remove_orphans engine inventory.1 names k).1
  sweep-spares fuel inventory names k r sorted gathered stored own named spared h =
      let passes : is_after [] r ≡ true =
        rw own (rw (str_eq_refl (codes "default")) (after_start r.id named)) in
      remove_orphans-spares engine r.short_index P spared inventory.1 names k
        (gather-IsWanted db sorted fuel 0 [] gathered
          (Mem-kept (is_after []) db.vpcs stored passes))
        h
