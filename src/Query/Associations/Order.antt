-- ===== src/Query/Associations/Order.antt =====
-- A list that updateManyToMany (db/many2many.go) has written is read back as it was.
use kilonova.Prelude.{
  ℕ, suc, ◌≡◌, refl, ap, ◌∙◌, true, List, [], ◌∷◌, ◌++◌, ◌==◌, if◌then◌else◌, arith, map,
}
use kilonova.Query.Associations.{
  Association, without_parent, rows_from, of_parent, insert_by_position, order_by_position,
  children_of,
}

pub append-none : (xs : List Association) → xs ++ [] ≡ xs
append-none [] = refl
append-none (x ∷ xs) = ap (λ (l : List Association). x ∷ l) (append-none xs)

pub append-append : (xs ys zs : List Association) → (xs ++ ys) ++ zs ≡ xs ++ (ys ++ zs)
append-append [] ys zs = refl
append-append (x ∷ xs) ys zs = ap (λ (l : List Association). x ∷ l) (append-append xs ys zs)

of_parent-append :
    (p : ℕ) (xs ys : List Association) → of_parent p (xs ++ ys) ≡ of_parent p xs ++ of_parent p ys
unfolding of_parent
of_parent-append p [] ys = refl
of_parent-append p (x ∷ xs) ys = let ih = of_parent-append p xs ys in ground arith

of_parent-without_parent :
    (p q : ℕ) (table : List Association)
    → of_parent q (without_parent p table) ≡ (if q == p then [] else of_parent q table)
unfolding of_parent without_parent
of_parent-without_parent p q [] = ground arith
of_parent-without_parent p q (row ∷ table) =
    let ih = of_parent-without_parent p q table in ground arith

of_parent-rows_from :
    (p q i : ℕ) (cs : List ℕ)
    → of_parent q (rows_from true p i cs) ≡ (if q == p then rows_from true p i cs else [])
unfolding of_parent rows_from
of_parent-rows_from p q i [] = ground arith
of_parent-rows_from p q i (c ∷ cs) = let ih = of_parent-rows_from p q (suc i) cs in ground arith

insert-rows_from :
    (p c i : ℕ) (cs : List ℕ)
    → insert_by_position
        (record { parent = p; child = c; position = i })
        (rows_from true p (suc i) cs)
      ≡ rows_from true p i (c ∷ cs)
unfolding insert_by_position rows_from
insert-rows_from p c i [] = refl
insert-rows_from p c i (d ∷ cs) = ground arith

order-rows_from :
    (p i : ℕ) (cs : List ℕ) → order_by_position (rows_from true p i cs) ≡ rows_from true p i cs
unfolding order_by_position rows_from
order-rows_from p i [] = refl
order-rows_from p i (c ∷ cs) =
    ap (insert_by_position (record { parent = p; child = c; position = i }))
      (order-rows_from p (suc i) cs)
    ∙ insert-rows_from p c i cs

children-rows_from :
    (p i : ℕ) (cs : List ℕ) → map (λ (row : Association). row.child) (rows_from true p i cs) ≡ cs
unfolding rows_from
children-rows_from p i [] = refl
children-rows_from p i (c ∷ cs) = ap (λ (l : List ℕ). c ∷ l) (children-rows_from p (suc i) cs)

pub children_of-replaced :
    (p q : ℕ) (children : List ℕ) (table : List Association)
    → children_of q (without_parent p table ++ rows_from true p 0 children)
      ≡ (if q == p then children else children_of q table)
unfolding children_of
children_of-replaced p q children table =
    let split = of_parent-append q (without_parent p table) (rows_from true p 0 children) in
    let old = of_parent-without_parent p q table in
    let new = of_parent-rows_from p q 0 children in
    let sorted = order-rows_from p 0 children in
    let read = children-rows_from p 0 children in
    let whole = append-none (of_parent q table) in ground arith
