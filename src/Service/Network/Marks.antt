-- ===== src/Service/Network/Marks.antt =====
-- The reads of the network transactions, and the statements that set a deletion flag.
use nephos.Base.{
  ℕ, ◌≡◌, refl, sym, ◌∙◌, inl, inr, false, not, ◌&&◌, Option, none, some, [], ◌∷◌, Bool-cases,
  &&-split, find_first, All, Str, str_eq, str_eq_sound, str_eq_iff, Result, ok, err,
}
use mathlib.Core.Path.{subst}
use nephos.Errors.{Error, no_rows}
use nephos.Store.Tables.{Db, VpcRow, SubnetRow, IdempotencyRow}
use nephos.Store.Tx.{reading, one_row, ◌>>=◌}
use nephos.Store.Tx.Kept.{Kept, Unchanged, reading_lem}
use nephos.Store.Topology.{update_vpcs-IsTopology, update_subnets-IsTopology}
use nephos.Store.Vpcs.{get_vpc_row, vpc_key, mark_vpc_deleting_row}
use nephos.Store.Subnets.{subnet_key, mark_subnet_deleting_row, get_subnet_row}
use nephos.Store.Log.{get_idempotency}
use nephos.Store.Resources.{
  mark_vpc_deleting, mark_subnet_deleting, get_subnet, get_vpc, vpc_from_row, subnet_from_row,
}
use nephos.Service.Idempotency.{Codec, load_replay, replay_result, replay_of, default_workspace}
use nephos.Service.Network.Effects.{Top}
use nephos.Store.Rows.{All-map}
use nephos.Store.Topology.{SameFlag}

module _ {A : Type 0} (codec : Codec A) (operation key hash : Str) (now : ℕ) where
  replay_result_lem :
      (db : Db) (r : Result Error (IdempotencyRow × Db))
      → Unchanged db (replay_result codec hash now db r)
  replay_result_lem db (ok (r, _)) = reading_lem (replay_of codec hash now r) db
  replay_result_lem db (err no_rows) = refl
  replay_result_lem db (err _) = tt

module _ {A : Type 0} (codec : Codec A) (operation : Str) where
  -- loadReplay only reads.
  pub load_replay_lem :
      (key hash : Str) (now : ℕ) (db : Db)
      → Unchanged db (load_replay codec operation key hash now db)
  unfolding load_replay
  load_replay_lem [] hash now db = refl
  load_replay_lem (c ∷ key) hash now db =
      replay_result_lem codec operation (c ∷ key) hash now db
        (get_idempotency default_workspace operation (c ∷ key) db)

pub get_vpc_lem : (w id : Str) (db : Db) → Unchanged db (get_vpc w id db)
unfolding get_vpc get_vpc_row
get_vpc_lem w id db = go (find_first (vpc_key id w) db.vpcs)
  where
    go : (o : Option VpcRow) → Unchanged db ((one_row o >>= λ row. reading (vpc_from_row row)) db)
    go none = tt
    go (some row) = reading_lem (vpc_from_row row) db

pub get_subnet_lem : (w id : Str) (db : Db) → Unchanged db (get_subnet w id db)
unfolding get_subnet get_subnet_row
get_subnet_lem w id db = go (find_first (subnet_key id w) db.subnets)
  where
    go :
        (o : Option SubnetRow)
        → Unchanged db ((one_row o >>= λ row. reading (subnet_from_row row)) db)
    go none = tt
    go (some row) = reading_lem (subnet_from_row row) db

module _ {A : Type 0} (P : Db → Type 0) where
  pub Kept-Unchanged : (db : Db) (r : Result Error (A × Db)) → P db → Unchanged db r → Kept P r
  Kept-Unchanged db (ok (a, db')) h u = subst P (sym u) h
  Kept-Unchanged db (err e) h u = tt

-- The flag of deletion may be set where no subnet is.
flag_elsewhere :
    (w id : Str) (f : VpcRow → VpcRow) (s : SubnetRow)
    → str_eq id s.vpc_id ≡ false
    → SameFlag (λ r. vpc_key id w r && not r.deletion_requested) f s
flag_elsewhere w id f s other v k = elim (Bool-cases (vpc_key id w v && not v.deletion_requested)) [
  | inl e ↦
      let a = str_eq_sound id v.id (&&-split _ _ (&&-split _ _ e).0).0 in
      let b = str_eq_sound s.vpc_id v.id (&&-split _ _ k).0 in
      absurd (cc (other, (str_eq_iff id s.vpc_id).1 (a ∙ sym b)))
  | inr e ↦ rw e refl
]

pub mark_vpc_deleting-Top :
    (w id : Str) (now : ℕ) (db : Db)
    → All (λ s. str_eq id s.vpc_id ≡ false) db.subnets
    → Top db
    → Kept Top (mark_vpc_deleting w id now db)
unfolding mark_vpc_deleting mark_vpc_deleting_row
mark_vpc_deleting-Top w id now db none_there t =
    Kept-Unchanged Top _ (get_vpc w id _)
      (update_vpcs-IsTopology (λ r. vpc_key id w r && not r.deletion_requested) _ (λ v. refl)
        (λ v. refl) (λ v. refl)
        (All-map (λ s. str_eq id s.vpc_id ≡ false)
          (SameFlag (λ r. vpc_key id w r && not r.deletion_requested) _) db.subnets
          (flag_elsewhere w id _) none_there)
        t)
      (get_vpc_lem w id _)

pub mark_subnet_deleting-Top :
    (w id : Str) (now : ℕ) (db : Db) → Top db → Kept Top (mark_subnet_deleting w id now db)
unfolding mark_subnet_deleting mark_subnet_deleting_row
mark_subnet_deleting-Top w id now db t =
    Kept-Unchanged Top _ (get_subnet w id _)
      (update_subnets-IsTopology (λ r. subnet_key id w r && not r.deletion_requested) _ (λ v. refl)
        (λ v. refl) (λ v. refl) t)
      (get_subnet_lem w id _)
