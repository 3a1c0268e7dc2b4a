-- ===== src/Store/Instances/Runtime.antt =====
-- internal/store/instances.go and instance_reconcile.go: the runtime IDs of instance rows.
use nephos.Base.{
  ℕ, ◌≡◌, refl, ap, ◌⊎◌, inl, inr, Bool, true, Option, none, some, List, [], ◌∷◌, Bool-cases,
  &&-split, update_where, Str, str_eq_sound,
}
use nephos.Store.Tables.{Db, InstanceRow}
use nephos.Store.Instances.{
  records_runtime, retains_runtime, set_runtime, unset_or, is_unset, record_runtime_id_rows,
  retain_terminating_runtime_id_rows,
}
use nephos.Store.Leases.{record_runtime_id, retain_terminating_runtime_id}

-- each row has the same id as before, and its runtime ID if it had one
abbrev pub RuntimeKept : List InstanceRow → List InstanceRow → Type 0
RuntimeKept [] [] = Unit
RuntimeKept [] (r ∷ after) = ⊥
RuntimeKept (r ∷ before) [] = ⊥
RuntimeKept (r ∷ before) (s ∷ after) =
    (r.id ≡ s.id)
    × ((is_unset r.runtime_id ≡ true) ⊎ (s.runtime_id ≡ r.runtime_id))
    × RuntimeKept before after

RuntimeKept-refl : (rows : List InstanceRow) → RuntimeKept rows rows
RuntimeKept-refl [] = tt
RuntimeKept-refl (r ∷ rows) = (refl, inr refl, RuntimeKept-refl rows)

update-RuntimeKept :
    (test : InstanceRow → Bool) (runtime : Str) (rows : List InstanceRow)
    → ((r : InstanceRow)
        → test r ≡ true
        → (is_unset r.runtime_id ≡ true) ⊎ (some runtime ≡ r.runtime_id))
    → RuntimeKept rows (update_where test (set_runtime runtime) rows)
update-RuntimeKept test runtime [] same = tt
update-RuntimeKept test runtime (r ∷ rows) same = elim (Bool-cases (test r)) [
  | inl e ↦ rw e (refl, same r e, update-RuntimeKept test runtime rows same)
  | inr e ↦ rw e (refl, inr refl, update-RuntimeKept test runtime rows same)
]

unset_or-same :
    (runtime : Str) (o : Option Str)
    → unset_or runtime o ≡ true
    → (is_unset o ≡ true) ⊎ (some runtime ≡ o)
unset_or-same runtime none h = inl refl
unset_or-same runtime (some r) h = inr (ap some (str_eq_sound runtime r h))

-- RecordRuntimeID, whatever its result, keeps every instance row with its ID, and the runtime ID
-- of each row that had one.
pub record_runtime_id-RuntimeKept :
    (id : Str) (generation : ℕ) (runtime : Str) (db : Db)
    → RuntimeKept db.instances (record_runtime_id id generation runtime db).1.instances
unfolding record_runtime_id record_runtime_id_rows
record_runtime_id-RuntimeKept id generation [] db = RuntimeKept-refl db.instances
record_runtime_id-RuntimeKept id generation (c ∷ runtime) db =
    update-RuntimeKept (records_runtime id generation (c ∷ runtime)) (c ∷ runtime) db.instances
      (λ r t. unset_or-same (c ∷ runtime) r.runtime_id (&&-split _ _ (&&-split _ _ t).1).1)

-- RetainTerminatingRuntimeID, whatever its result, keeps every instance row with its ID, and the
-- runtime ID of each row that had one.
pub retain_terminating_runtime_id-RuntimeKept :
    (id runtime : Str) (db : Db)
    → RuntimeKept db.instances (retain_terminating_runtime_id id runtime db).1.instances
unfolding retain_terminating_runtime_id retain_terminating_runtime_id_rows
retain_terminating_runtime_id-RuntimeKept id [] db = RuntimeKept-refl db.instances
retain_terminating_runtime_id-RuntimeKept id (c ∷ runtime) db =
    update-RuntimeKept (retains_runtime id) (c ∷ runtime) db.instances
      (λ r t. inl (&&-split _ _ (&&-split _ _ t).1).1)
