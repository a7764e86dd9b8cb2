-- ===== src/Mesh/Federation/Newest.antt =====
-- `merge` of crates/celmesh/src/federation.rs keeps the newest row of each VM of another node.
use celium.Prelude.{
  ◌≡◌, ◌⊎◌, refl, sym, ap, ◌∙◌, subst, true, false, some, List, [], ◌∷◌, arith, inl, inr,
  Bool-cases, Option-cases,
}
use mathlib.Core.List.Memᴰ.{Memᴰ, head, tail, not-nil, cases_cons}
use celium.Prelude.Key.{bytes_eq, bytes_eq_iff}
use celium.Prelude.Map.{get, insert, get-insert_self}
use celium.Prelude.Map.Cases.{get-insert_other, insert-cases}
use celium.Mesh.Federation.{
  RemoteVm, NamespaceFederation, RowKey, row_key, row_eq, row_eq_iff, key, as_new, stays, merge,
}

-- The rows of a gossip delta, merged one by one.
unfoldable pub merge_all : NamespaceFederation → List RemoteVm → NamespaceFederation
merge_all f [] = f
merge_all f (r ∷ rs) = merge_all (merge f r).0 rs

-- A row that is stored arrived alive.
abbrev received : RemoteVm → RemoteVm
received r = record r { owner_alive = true }

as_new_refl : (a : RemoteVm) → as_new a a ≡ true
as_new_refl a = ground arith

as_new_trans : (a b c : RemoteVm) → as_new a b ≡ true → as_new b c ≡ true → as_new a c ≡ true
as_new_trans a b c e f = ground (arith, e, f)

as_new_total : (a b : RemoteVm) → as_new a b ≡ false → as_new b a ≡ true
as_new_total a b e = ground (arith, e)

-- One merge: it is refused, or the row is now there and replaces an older one.
merge-cases :
    (f : NamespaceFederation) (r : RemoteVm)
    → (((merge f r).0 ≡ f)
        × ((bytes_eq r.owner f.self_id ≡ true)
            ⊎ ((x : RemoteVm) × (get f.rows (key r) ≡ some x) × (as_new x r ≡ true))))
      ⊎ (((merge f r).0 ≡ record f { rows = insert (key r) (received r) f.rows })
          × (bytes_eq r.owner f.self_id ≡ false)
          × ((x : RemoteVm) → get f.rows (key r) ≡ some x → as_new r x ≡ true))
unfolding merge
merge-cases f r = elim (Bool-cases (bytes_eq r.owner f.self_id)) [
  | inl mine ↦ inl (rw (merge, mine) refl, inl mine)
  | inr other ↦ elim (Option-cases (get f.rows (key r))) [
    | inl missing ↦
        let goes : stays f r ≡ false = rw (stays, missing) refl in
        inr (rw (merge, other, goes) refl, other, λ x e. absurd (cc (missing, e)))
    | inr (old, there) ↦ elim (Bool-cases (as_new old r)) [
      | inl newer ↦
          let keeps : stays f r ≡ true = rw (stays, there) newer in
          inl (rw (merge, other, keeps) refl, inr (old, there, newer))
      | inr older ↦
          let goes : stays f r ≡ false = rw (stays, there) older in
          inr (
            rw (merge, other, goes) refl,
            other,
            λ x e.
                let same : some old ≡ some x = sym there ∙ e in
                let equal : old ≡ x = cc same in
                as_new_total x r (subst (λ y. as_new y r ≡ false) equal older),
          )
    ]
  ]
]

abbrev Holds : NamespaceFederation → RowKey → RemoteVm → Type 0
Holds g k r = (x : RemoteVm) × (get g.rows k ≡ some x) × (as_new x r ≡ true)

-- What a table becomes by the merge of some rows.
pub record IsNewest (f : NamespaceFederation) (rs : List RemoteVm) (g : NamespaceFederation)
    : Type 0 where
  pub same : g.self_id ≡ f.self_id
  pub local : (k : RowKey) → k.0 ≡ f.self_id → get g.rows k ≡ get f.rows k
  pub kept : (k : RowKey) (x : RemoteVm) → get f.rows k ≡ some x → Holds g k x
  pub covered : (r : RemoteVm) → Memᴰ r rs → (r.owner ≡ f.self_id) ⊎ Holds g (key r) r
  pub sourced :
      (k : RowKey) (x : RemoteVm)
      → get g.rows k ≡ some x
      → (get f.rows k ≡ some x) ⊎ ((r : RemoteVm) × Memᴰ r rs × (key r ≡ k) × (received r ≡ x))

only : (x r : RemoteVm) → Memᴰ x (r ∷ []) → x ≡ r
only x r (head e) = e
only x r (tail m) = absurd (not-nil m)

merge-IsNewest : (f : NamespaceFederation) (r : RemoteVm) → IsNewest f (r ∷ []) (merge f r).0
merge-IsNewest f r = elim (merge-cases f r) [
  | inl (same, why) ↦ rw same (record {
    same = refl;
    local = λ k e. refl;
    kept = λ k x e. (x, e, as_new_refl x);
    covered = λ x among.
        subst (λ y. (y.owner ≡ f.self_id) ⊎ Holds f (key y) y) (sym (only x r among))
          (elim why [ inl mine ↦ inl ((bytes_eq_iff r.owner f.self_id).0 mine) | inr h ↦ inr h ]);
    sourced = λ k x e. inl e;
  })
  | inr (same, other, older) ↦ rw same (record {
    same = refl;
    local = λ k e.
        let apart : row_eq (key r) k ≡ false = elim (Bool-cases (row_eq (key r) k)) [
          | inr other_key ↦ other_key
          | inl here ↦
              let name : key r ≡ k = (row_eq_iff (key r) k).0 here in
              let mine : r.owner ≡ f.self_id = ap (λ (j : RowKey). j.0) name ∙ e in
              absurd (cc (other, (bytes_eq_iff r.owner f.self_id).1 mine))
        ] in
        get-insert_other (key r) k (received r) f.rows apart;
    kept = λ k x e. elim (Bool-cases (row_eq (key r) k)) [
      | inl here ↦
          let name : key r ≡ k = (row_eq_iff (key r) k).0 here in
          (
            received r,
            subst (λ j. get (insert (key r) (received r) f.rows) j ≡ some (received r)) name
                (get-insert_self (key r) (received r) f.rows),
            older x (ap (get f.rows) name ∙ e),
          )
      | inr apart ↦ (x, get-insert_other (key r) k (received r) f.rows apart ∙ e, as_new_refl x)
    ];
    covered = λ x among.
        subst
          (λ y.
            (y.owner ≡ f.self_id)
            ⊎ Holds (record f { rows = insert (key r) (received r) f.rows }) (key y) y)
          (sym (only x r among))
          (inr (received r, get-insert_self (key r) (received r) f.rows, as_new_refl r));
    sourced = λ k x e. elim (insert-cases (key r) k (received r) x f.rows e) [
      | inl (name, equal) ↦ inr (r, head refl, name, equal)
      | inr (_, old) ↦ inl old
    ];
  })
]

Holds-trans :
    (f : NamespaceFederation) (rs : List RemoteVm) (g : NamespaceFederation) (k : RowKey)
    (r : RemoteVm)
    → IsNewest f rs g
    → Holds f k r
    → Holds g k r
Holds-trans f rs g k r h (x, there, newer) =
    let (y, found, later) = h.kept k x there in (y, found, as_new_trans y x r later newer)

-- By any merge of rows, a table keeps its own rows, holds for every VM of another node a row that
-- is at least as new as each row that it held or received for it, and holds only rows that it
-- held or received.
pub merge_all-IsNewest :
    (f : NamespaceFederation) (rs : List RemoteVm) → IsNewest f rs (merge_all f rs)
unfolding merge_all
merge_all-IsNewest f [] = record {
  same = refl;
  local = λ k e. refl;
  kept = λ k x e. (x, e, as_new_refl x);
  covered = λ x among. absurd (not-nil among);
  sourced = λ k x e. inl e;
}
merge_all-IsNewest f (r ∷ rs) =
    let g = (merge f r).0 in
    let one = merge-IsNewest f r in
    let rest = merge_all-IsNewest g rs in
    record {
      same = rest.same ∙ one.same;
      local = λ k e. rest.local k (e ∙ sym one.same) ∙ one.local k e;
      kept = λ k x e. Holds-trans g rs (merge_all g rs) k x rest (one.kept k x e);
      covered = λ x among. elim (cases_cons among) [
        | inl first ↦
            subst (λ y. (y.owner ≡ f.self_id) ⊎ Holds (merge_all g rs) (key y) y) (sym first)
              (elim (one.covered r (head refl)) [
                | inl mine ↦ inl mine
                | inr h ↦ inr (Holds-trans g rs (merge_all g rs) (key r) r rest h)
              ])
        | inr later ↦ elim (rest.covered x later) [
          | inl mine ↦ inl (mine ∙ one.same)
          | inr h ↦ inr h
        ]
      ];
      sourced = λ k x e. elim (rest.sourced k x e) [
        | inr (y, among, name, equal) ↦ inr (y, tail among, name, equal)
        | inl before ↦ elim (one.sourced k x before) [
          | inl old ↦ inl old
          | inr (y, among, name, equal) ↦ inr (y, head (only y r among), name, equal)
        ]
      ];
    }
