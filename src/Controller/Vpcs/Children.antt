-- ===== src/Controller/Vpcs/Children.antt =====
-- internal/store/reconcile.go: what RecordTopology writes of the subnets leaves the VPCs alone.
use nephos.Base.{ℕ, ◌≡◌, ◌∙◌, Bool, true, false, List, [], ◌∷◌, if◌then◌else◌, arith, Str, ok}
use nephos.Model.{State, Subnet}
use nephos.Store.Tables.{Db}
use nephos.Store.Tx.{Tx, pure, ◌>>=◌}
use nephos.Store.Tx.Kept.{bind-ok}
use nephos.Store.Subnets.{update_subnet_status, delete_subnet_row}
use nephos.Store.Log.{Event, append_event}
use nephos.Store.Reconcile.{record_subnet_status, record_child, record_children}
use nephos.Service.Network.Effects.{append_event-net}

-- the transaction leaves the table of VPCs as it was
pub record KeepsVpcs {A : Type 0} (m : Tx A) : Type 0 where
  pub kept : (db : Db) (a : A) (db' : Db) → m db ≡ ok (a, db') → db'.vpcs ≡ db.vpcs

module _ {A B : Type 0} {m : Tx A} {f : A → Tx B} where
  KeepsVpcs-bind : KeepsVpcs m → ((a : A) → KeepsVpcs (f a)) → KeepsVpcs (m >>= f)
  KeepsVpcs-bind h k = record {
    kept = λ db b db' e.
        let (a, db1, e1, e2) = bind-ok m f db e in (k a).kept db1 b db' e2 ∙ h.kept db a db1 e1;
  }

module _ {A : Type 0} {m n : Tx A} where
  KeepsVpcs-if : (b : Bool) → KeepsVpcs m → KeepsVpcs n → KeepsVpcs (if b then m else n)
  KeepsVpcs-if true h k = h
  KeepsVpcs-if false h k = k

append_event-KeepsVpcs : (e : Event) → KeepsVpcs (append_event e)
append_event-KeepsVpcs e = record { kept = λ db u db' p. (append_event-net db e p).0 }

pure-KeepsVpcs : KeepsVpcs (pure (tt {0}))
pure-KeepsVpcs = record { kept = λ db u db' p. ground arith }

delete_subnet_row-KeepsVpcs : (id w : Str) → KeepsVpcs (delete_subnet_row id w)
unfolding delete_subnet_row
delete_subnet_row-KeepsVpcs id w = record { kept = λ db u db' p. ground arith }

module _ (state : State) (reason : Str) where
  update_subnet_status-KeepsVpcs :
      (observed now : ℕ) (id w : Str)
      → KeepsVpcs (update_subnet_status state reason observed now id w)
  unfolding update_subnet_status
  update_subnet_status-KeepsVpcs observed now id w = record { kept = λ db u db' p. ground arith }

  record_child-KeepsVpcs :
      (applied : Bool) (now : ℕ) (s : Subnet) → KeepsVpcs (record_child state reason applied now s)
  unfolding record_child record_subnet_status
  record_child-KeepsVpcs applied now s =
      KeepsVpcs-if _
        (KeepsVpcs-bind (delete_subnet_row-KeepsVpcs s.id s.workspace_id)
          (λ _. append_event-KeepsVpcs _))
        (KeepsVpcs-if _ pure-KeepsVpcs (
          KeepsVpcs-bind (update_subnet_status-KeepsVpcs _ now s.id s.workspace_id)
            (λ _. append_event-KeepsVpcs _)))

  pub record_children-KeepsVpcs :
      (applied : Bool) (now : ℕ) (children : List Subnet)
      → KeepsVpcs (record_children state reason applied now children)
  unfolding record_children
  record_children-KeepsVpcs applied now [] = pure-KeepsVpcs
  record_children-KeepsVpcs applied now (c ∷ children) =
      KeepsVpcs-bind (record_child-KeepsVpcs applied now c)
        (λ _. record_children-KeepsVpcs applied now children)
