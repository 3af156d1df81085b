-- ===== src/Workspaces/Order.antt =====
-- core/workspace_manager.cpp: `SetBufferOrder`.
use vxcore.Prelude.Assoc.{lookup-put, lookup}
use vxcore.Workspaces.{set_buffer_order, Workspaces, Workspace, unseen, reorder, accept}
use vxcore.Prelude.{
  some, ◌∙◌, sym, ap, eq_iff, refl, not, eq_refl, ◌||◌, ◌&&◌, true, false, arith, [], ◌≡◌, ◌∷◌,
  ◌++◌, String, contains, List,
}

abbrev pub Distinct : List String → Type 0
Distinct [] = Unit
Distinct (x ∷ xs) = (contains x xs ≡ false) × Distinct xs

contains-append :
    (j : String) (xs ys : List String) → contains j (xs ++ ys) ≡ (contains j xs || contains j ys)
unfolding contains
contains-append j [] ys = refl
contains-append j (x ∷ xs) ys = ground (arith, contains-append j xs ys)

contains-accept :
    (j : String) (existing seen ids : List String)
    → contains j (accept existing seen ids)
      ≡ (contains j ids && contains j existing && not (contains j seen))
unfolding accept contains
contains-accept j existing seen [] = refl
contains-accept j existing seen (id ∷ ids) = ground (
  arith,
  contains-accept j existing (id ∷ seen) ids,
  contains-accept j existing seen ids,
  eq_iff id j,
)

contains-unseen :
    (j : String) (seen ids : List String)
    → contains j (unseen seen ids) ≡ (contains j ids && not (contains j seen))
unfolding unseen contains
contains-unseen j seen [] = refl
contains-unseen j seen (id ∷ ids) = ground (arith, contains-unseen j seen ids, eq_iff id j)

contains-reorder :
    (j : String) (existing requested : List String)
    → contains j (reorder existing requested) ≡ contains j existing
unfolding reorder
contains-reorder j existing requested =
    let accepted = accept existing [] requested in
    ground (
      arith,
      contains-append j accepted (unseen accepted existing),
      contains-accept j existing [] requested,
      contains-unseen j accepted existing,
    )

append-Distinct :
    (xs ys : List String)
    → Distinct xs
    → Distinct ys
    → ((j : String) → contains j xs ≡ true → contains j ys ≡ false)
    → Distinct (xs ++ ys)
unfolding contains
append-Distinct [] ys d e apart = e
append-Distinct (x ∷ xs) ys d e apart = (
  ground (arith, contains-append x xs ys, apart x, eq_refl x),
  append-Distinct xs ys d.1 e λ j h. apart j (ground (arith, h)),
)

accept-Distinct : (existing seen ids : List String) → Distinct (accept existing seen ids)
unfolding accept contains
accept-Distinct existing seen [] = tt
accept-Distinct existing seen (id ∷ ids) = ground (
  arith,
  contains-accept id existing (id ∷ seen) ids,
  accept-Distinct existing (id ∷ seen) ids,
  accept-Distinct existing seen ids,
  eq_refl id,
)

unseen-Distinct : (seen ids : List String) → Distinct ids → Distinct (unseen seen ids)
unfolding unseen contains
unseen-Distinct seen [] d = tt
unseen-Distinct seen (id ∷ ids) d =
    ground (arith, contains-unseen id seen ids, unseen-Distinct seen ids d.1)

accept-all :
    (existing seen ids : List String)
    → Distinct ids
    → ((j : String) → contains j ids ≡ true → contains j existing ≡ true)
    → ((j : String) → contains j ids ≡ true → contains j seen ≡ false)
    → accept existing seen ids ≡ ids
unfolding accept contains
accept-all existing seen [] d e n = refl
accept-all existing seen (id ∷ ids) d e n =
    let rest =
      accept-all existing (id ∷ seen) ids d.1 (λ j h. e j (ground (arith, h)))
        (λ j h. ground (arith, n j, h, d.0, eq_iff id j)) in
    ground (arith, rest, e id, n id, eq_refl id)

unseen-none :
    (seen ids : List String)
    → ((j : String) → contains j ids ≡ true → contains j seen ≡ true)
    → unseen seen ids ≡ []
unfolding unseen contains
unseen-none seen [] h = refl
unseen-none seen (id ∷ ids) h =
    ground (arith, h id, eq_refl id, unseen-none seen ids λ j k. h j (ground (arith, k)))

reorder-Distinct :
    (existing requested : List String) → Distinct existing → Distinct (reorder existing requested)
unfolding reorder
reorder-Distinct existing requested d =
    let accepted = accept existing [] requested in
    append-Distinct accepted (unseen accepted existing) (accept-Distinct existing [] requested)
      (unseen-Distinct accepted existing d)
      λ j h. ground (arith, contains-unseen j accepted existing, h)

append-nil {ℓ} : {A : Type ℓ} (xs : List A) → xs ++ [] ≡ xs
append-nil [] = refl
append-nil (x ∷ xs) = ap (λ l. x ∷ l) (append-nil xs)

reorder-all :
    (existing requested : List String)
    → Distinct requested
    → ((j : String) → contains j requested ≡ contains j existing)
    → reorder existing requested ≡ requested
unfolding reorder contains
reorder-all existing requested d h =
    let accepted = accept-all existing [] requested d (λ j k. sym (h j) ∙ k) (λ j k. refl) in
    rw (accepted, unseen-none requested existing λ j k. h j ∙ k) (append-nil requested)

module _ {J D : Type 0} (ws : String) (requested : List String) (w : Workspace J)
    (s : Workspaces J D) (here : lookup ws s.workspaces ≡ some w) where
  abbrev order : List String
  order = reorder w.buffer_ids requested

  -- `SetBufferOrder` on a workspace that is there, with distinct members, succeeds: whatever it is
  -- asked for, the members of the workspace stay the same and stay distinct.
  set_buffer_order_lem :
      Distinct w.buffer_ids
      → let r = set_buffer_order ws requested s in
        (r.0 ≡ true)
        × (lookup ws r.1.workspaces ≡ some (record w { buffer_ids = order }))
        × ((j : String) → contains j order ≡ contains j w.buffer_ids)
        × Distinct order
  unfolding set_buffer_order
  set_buffer_order_lem distinct =
      let ordered = record w { buffer_ids = order } in
      (
        ground (arith, here),
        ground (arith, here, lookup-put ws ws ordered s.workspaces, eq_refl ws),
        λ j. contains-reorder j w.buffer_ids requested,
        reorder-Distinct w.buffer_ids requested distinct,
      )

  -- A request that names each member of the workspace once becomes its order.
  set_buffer_order-requested :
      Distinct requested
      → ((j : String) → contains j requested ≡ contains j w.buffer_ids)
      → lookup ws (set_buffer_order ws requested s).1.workspaces
        ≡ some (record w { buffer_ids = requested })
  unfolding set_buffer_order
  set_buffer_order-requested distinct same =
      let ordered = record w { buffer_ids = order } in
      let given = reorder-all w.buffer_ids requested distinct same in
      ground (arith, here, given, lookup-put ws ws ordered s.workspaces, eq_refl ws)
