-- ===== src/Actor/Group/Sorted.antt =====
-- zactor/group.go: what the sort of a group's actors keeps, and that it puts a least one first.
use zhenyi.Prelude.{ℕ, ◌≤◌, List, [], ◌∷◌, All, leb, arith, if_elim, leb→le, lt_of_leb}
use zhenyi.Actor.Group.{insert_by, sort_by}

module _ {ℓ κ} {A : Type ℓ} (key : A → ℕ) (P : A → Type κ) where
  insert_by-All : (x : A) (ys : List A) → P x → All P ys → All P (insert_by key x ys)
  unfolding insert_by
  insert_by-All x [] px ps = (px, _)
  insert_by-All x (y ∷ ys) px (py, ps) =
      if_elim (All P) (leb (key x) (key y)) (λ _. (px, (py, ps)))
        (λ _. (py, insert_by-All x ys px ps))

  pub sort_by-All : (xs : List A) → All P xs → All P (sort_by key xs)
  unfolding sort_by
  sort_by-All [] ps = _
  sort_by-All (x ∷ xs) (px, ps) = insert_by-All x (sort_by key xs) px (sort_by-All xs ps)

  insert_by-All_inv : (x : A) (ys : List A) → All P (insert_by key x ys) → P x × All P ys
  unfolding insert_by
  insert_by-All_inv x [] = λ ps. ps
  insert_by-All_inv x (y ∷ ys) =
      if_elim (λ r. All P r → P x × All P (y ∷ ys)) (leb (key x) (key y)) (λ _ ps. ps)
        (λ _ (py, rest). let (px, ps) = insert_by-All_inv x ys rest in (px, (py, ps)))

  pub sort_by-All_inv : (xs : List A) → All P (sort_by key xs) → All P xs
  unfolding sort_by
  sort_by-All_inv [] ps = _
  sort_by-All_inv (x ∷ xs) ps =
      let (px, rest) = insert_by-All_inv x (sort_by key xs) ps in (px, sort_by-All_inv xs rest)

-- The head of a list has the least key.
unfoldable pub LeastFirst {ℓ} : {A : Type ℓ} → (A → ℕ) → List A → Type 0
LeastFirst key [] = Unit
LeastFirst key (x ∷ xs) = All (λ y. key x ≤ key y) xs

module _ {ℓ} {A : Type ℓ} (key : A → ℕ) where
  All-raise : (m n : ℕ) (ys : List A) → m ≤ n → All (λ y. n ≤ key y) ys → All (λ y. m ≤ key y) ys
  All-raise m n [] h ps = _
  All-raise m n (y ∷ ys) h (py, ps) = (omega arith, All-raise m n ys h ps)

  insert_by-LeastFirst :
      (x : A) (ys : List A) → LeastFirst key ys → LeastFirst key (insert_by key x ys)
  unfolding insert_by LeastFirst
  insert_by-LeastFirst x [] low = _
  insert_by-LeastFirst x (y ∷ ys) low =
      if_elim (LeastFirst key) (leb (key x) (key y))
        (λ t. let le = leb→le (key x) (key y) t in (le, All-raise (key x) (key y) ys le low))
        (λ t.
          let lt = lt_of_leb (key x) (key y) t in
          insert_by-All key (λ z. key y ≤ key z) x ys (omega arith) low)

  pub sort_by-LeastFirst : (xs : List A) → LeastFirst key (sort_by key xs)
  unfolding sort_by LeastFirst
  sort_by-LeastFirst [] = _
  sort_by-LeastFirst (x ∷ xs) = insert_by-LeastFirst x (sort_by key xs) (sort_by-LeastFirst xs)
