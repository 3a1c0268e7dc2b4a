-- ===== src/Controller/Sweep/Covered.antt =====
-- internal/reconcile/network.go: the names that the sweep wants.
use nephos.Base.{
  ℕ, zero, suc, ◌≡◌, ◌≢◌, refl, sym, ap, ◌∙◌, inl, inr, true, Option, none, some, List, [], ◌∷◌,
  &&-split, arith, take, drop, any, Str, codes, str_eq, str_eq_refl, str_lt, Result, ok, err, Memᴰ,
  All-member, Mem-drop, Mem-take_drop, Mem-keep, Mem-kept,
}
use mathlib.Core.Path.{subst}
use mathlib.Core.List.Memᴰ.{head, tail}
use nephos.Model.{Vpc}
use nephos.Errors.{Error}
use nephos.Store.Tables.{Db, VpcRow}
use nephos.Store.Rows.{Pairwise, Pairwise-keep}
use nephos.Store.Resources.{list_vpc_page, read_rows, vpc_from_row}
use nephos.Kernel.Decimals.{pos}
use nephos.Kernel.Names.{vpc_name}
use nephos.Controller.Sweep.{
  Inventory, add_named, add_page, last_vpc, page_read, gather, before_rest,
}
use nephos.Controller.Sweep.Pages.{
  is_after, unread, list_vpc_page-ok, push_item-ok, vpc_from_row-keys, last_vpc-row,
}

-- rows stand in the order of their IDs
abbrev pub Before : VpcRow → VpcRow → Type 0
Before r s = str_lt r.id s.id ≡ true

-- the name of the namespace of an index is wanted
pub record IsWanted (index : ℕ) (wanted : List Str) : Type 0 where
  pub name : Str
  pub named : vpc_name (pos index) ≡ some name
  pub listed : any (str_eq name) wanted ≡ true

add_named-ok :
    (v : Vpc) (o : Option Str) (rest : Result Error Inventory) {i : Inventory}
    → add_named v o rest ≡ ok i
    → (name : Str) × (j : Inventory) × (o ≡ some name) × (rest ≡ ok j) × (i ≡ (v ∷ j.0, name ∷ j.1))
add_named-ok v none rest h = absurd (ground arith)
add_named-ok v (some name) (err e) h = absurd (ground arith)
add_named-ok v (some name) (ok j) h = (name, j, refl, refl, ground arith)

IsWanted-more :
    (index : ℕ) (name : Str) (wanted : List Str)
    → IsWanted index wanted
    → IsWanted index (name ∷ wanted)
IsWanted-more index name wanted w = record {
  name = w.name;
  named = w.named;
  listed = let l = w.listed in ground arith;
}

-- What the rest wants stays wanted.
add_page-rest :
    (page : List Vpc) (rest : Result Error Inventory) {i : Inventory}
    → add_page page rest ≡ ok i
    → (j : Inventory) × (rest ≡ ok j) × ((index : ℕ) → IsWanted index j.1 → IsWanted index i.1)
unfolding add_page
add_page-rest [] rest {i} h = (i, h, λ index w. w)
add_page-rest (v ∷ page) rest {i} h =
    let (name, k, a, b, e) = add_named-ok v (vpc_name (pos v.short_index)) (add_page page rest) h in
    let (j, c, more) = add_page-rest page rest b in
    (
      j,
      c,
      λ index w.
          subst (λ (x : Inventory). IsWanted index x.1) (sym e)
            (IsWanted-more index name k.1 (more index w)),
    )

-- The VPCs of a page are wanted.
add_page-IsWanted :
    (rows : List VpcRow) (page : List Vpc) (rest : Result Error Inventory) {i : Inventory}
    {r : VpcRow}
    → read_rows vpc_from_row rows ≡ ok page
    → add_page page rest ≡ ok i
    → Memᴰ r rows
    → IsWanted r.short_index i.1
unfolding add_page read_rows
add_page-IsWanted [] page rest h k m = elim m [ ]
add_page-IsWanted (q ∷ rows) [] rest h k m =
    let (u, us, a, b, e) = push_item-ok (vpc_from_row q) (read_rows vpc_from_row rows) h in
    absurd (ground arith)
add_page-IsWanted (q ∷ rows) (v ∷ page) rest {i} {r} h k (head same) =
    let (u, us, a, b, e) = push_item-ok (vpc_from_row q) (read_rows vpc_from_row rows) h in
    let (name, j, c, d, f) = add_named-ok v (vpc_name (pos v.short_index)) (add_page page rest) k in
    let read : v ≡ u = cc in
    let index : v.short_index ≡ q.short_index =
      ap (λ x. x.short_index) read ∙ (vpc_from_row-keys q a).1 in
    subst (λ (x : Inventory). IsWanted r.short_index x.1) (sym f)
      (record {
        name = name;
        named =
            ap (λ x. vpc_name (pos x.short_index)) same
            ∙ ap (λ x. vpc_name (pos x)) (sym index)
            ∙ c;
        listed = ground (arith, str_eq_refl name);
      })
add_page-IsWanted (q ∷ rows) (v ∷ page) rest {i} {r} h k (tail m) =
    let (u, us, a, b, e) = push_item-ok (vpc_from_row q) (read_rows vpc_from_row rows) h in
    let (name, j, c, d, f) = add_named-ok v (vpc_name (pos v.short_index)) (add_page page rest) k in
    let others : us ≡ page = cc in
    let w = add_page-IsWanted rows page rest (b ∙ ap ok others) d m in
    subst (λ (x : Inventory). IsWanted r.short_index x.1) (sym f)
      (IsWanted-more r.short_index name j.1 w)

-- The rows beyond a page follow its last.
drop-Before :
    (n : ℕ) (rows : List VpcRow) {r s : VpcRow}
    → Pairwise Before rows
    → Memᴰ r (take n rows)
    → Memᴰ s (drop n rows)
    → Before r s
drop-Before zero rows p a b = elim a [ ]
drop-Before (suc n) [] p a b = elim a [ ]
drop-Before (suc n) (q ∷ rows) {r} {s} p (head same) b =
    subst (λ (x : VpcRow). Before x s) (sym same)
      (All-member (Before q) rows p.0 (Mem-drop n rows b))
drop-Before (suc n) (q ∷ rows) p (tail a) b = drop-Before n rows p.1 a b

read_rows-empty : (rows : List VpcRow) → read_rows vpc_from_row rows ≡ ok [] → rows ≡ []
unfolding read_rows
read_rows-empty [] h = refl
read_rows-empty (r ∷ rows) h =
    let (u, us, a, b, e) = push_item-ok (vpc_from_row r) (read_rows vpc_from_row rows) h in
    absurd (ground arith)

first_page : (n : ℕ) (rows : List VpcRow) {r : VpcRow} → Memᴰ r rows → take (suc n) rows ≢ []
first_page n [] m = elim m [ ]
first_page n (q ∷ rows) m = λ e. ground arith

before_rest-ok :
    (page : List Vpc) (o : Option (Result Error Inventory)) {i : Inventory}
    → before_rest page o ≡ some (ok i)
    → (x : Result Error Inventory) × (o ≡ some x) × (add_page page x ≡ ok i)
before_rest-ok page none h = absurd (ground arith)
before_rest-ok page (some x) h = (x, refl, ground arith)

module _ (db : Db) (sorted : Pairwise Before db.vpcs) where
  page_read-IsWanted :
      (next : Str → Option (Result Error Inventory)) (after : Str)
      (p : Result Error (List Vpc × Db)) {i : Inventory} {r : VpcRow}
      → list_vpc_page (codes "default") after 100 db ≡ p
      → page_read next p ≡ some (ok i)
      → Memᴰ r (unread after db)
      → ((last : Str) (j : Inventory)
          → next last ≡ some (ok j)
          → Memᴰ r (unread last db)
          → IsWanted r.short_index j.1)
      → IsWanted r.short_index i.1
  page_read-IsWanted next after (err e) h k m ih = absurd (ground arith)
  page_read-IsWanted next after (ok ([], d)) h k m ih = absurd (
      first_page 99 (unread after db) m
        (read_rows-empty (take 100 (unread after db)) (list_vpc_page-ok after db h)))
  page_read-IsWanted next after (ok (v ∷ page, d)) {i} {r} h k m ih =
      let rows = unread after db in
      let last = last_vpc v page in
      let read = list_vpc_page-ok after db h in
      let (x, e, added) = before_rest-ok (v ∷ page) (next last) k in
      let (j, f, more) = add_page-rest (v ∷ page) x added in
      let (q, at, named) = last_vpc-row (take 100 rows) v page read in
      elim (Mem-take_drop 100 rows m) [
        | inl here ↦ add_page-IsWanted (take 100 rows) (v ∷ page) x read added here
        | inr beyond ↦
            let (stored, own) = Mem-keep (is_after after) db.vpcs m in
            let later =
              drop-Before 100 rows (Pairwise-keep Before (is_after after) db.vpcs sorted) at
                beyond in
            let passes : is_after last r ≡ true =
              rw ((&&-split (str_eq (codes "default") r.workspace_id) (str_lt after r.id) own).0)
                (ap (λ y. str_lt y r.id) (sym named) ∙ later) in
            more r.short_index
              (ih last j (e ∙ ap some f) (Mem-kept (is_after last) db.vpcs stored passes))
      ]

  pub gather-IsWanted :
      (fuel n : ℕ) (after : Str) {i : Inventory} {r : VpcRow}
      → gather (λ _. db) fuel n after ≡ some (ok i)
      → Memᴰ r (unread after db)
      → IsWanted r.short_index i.1
  unfolding gather
  gather-IsWanted zero n after h m = absurd (ground arith)
  gather-IsWanted (suc fuel) n after h m =
      page_read-IsWanted (gather (λ _. db) fuel (suc n)) after _ refl h m
        (λ last j e m'. gather-IsWanted fuel (suc n) last e m')
