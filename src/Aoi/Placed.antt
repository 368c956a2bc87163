-- ===== src/Aoi/Placed.antt =====
-- zaoi/staticaoi.go and grid.go: an entity is in the cell of its node, once, and in no other.
use zhenyi.Prelude.{
  ℕ, zero, suc, ◌+◌, ◌-◌, ◌*◌, ◌≤◌, ◌<◌, ◌≡◌, refl, ap, sym, ◌∙◌, true, List, [], ◌∷◌, Option, none,
  some, length, length-set, get_or, get_or-set_self, get_or-set_ne, set, ltb, leb, ◌==◌, ==_iff,
  if◌then◌else◌, arith, if_elim, ltb→lt, ge_of_ltb, Bool-cases, inl, inr,
}
use zhenyi.Prelude.Maps.{lookup, lookup-insert, lookup-erase}
use zhenyi.Actor.Routes.{times}
use zhenyi.Actor.Balance.{one_if}
use zhenyi.Aoi.Space.{Floats, World, new_world, get_grid_by_pos}
use zhenyi.Aoi.Static.{remove_first, at_cell, Aoi, grid_add, grid_remove}

times-remove_first :
    (e p : ℕ) (xs : List ℕ)
    → times p (remove_first e xs) ≡ (if e == p then times p xs - 1 else times p xs)
unfolding times remove_first
times-remove_first e p [] = ground arith
times-remove_first e p (x ∷ xs) = ground (arith, times-remove_first e p xs)

index-lt : (x y gx gy : ℕ) → x < gx → y < gy → y * gx + x < gx * gy
index-lt x y gx gy h k = grind arith

get_or-set :
    (gs : List (List ℕ)) (g h : ℕ) (v : List ℕ)
    → g < length gs
    → get_or (set gs g v) h [] ≡ (if g == h then v else get_or gs h [])
get_or-set gs g h v low =
    if_elim (λ r. get_or (set gs g v) h [] ≡ r) (g == h)
      (λ e.
        ap (λ k. get_or (set gs g v) k []) (sym ((==_iff g h).0 e)) ∙ get_or-set_self gs g v [] low)
      (λ e. get_or-set_ne gs g h v [] (λ same. absurd (ground (arith, e, same))))

get_or-beyond : (gs : List (List ℕ)) (g : ℕ) → length gs ≤ g → get_or gs g [] ≡ []
get_or-beyond [] g h = refl
get_or-beyond (x ∷ xs) zero h = absurd (omega arith)
get_or-beyond (x ∷ xs) (suc g) h = get_or-beyond xs g (omega arith)

at_cell-true : (o : Option ℕ) (g : ℕ) → at_cell o g ≡ true → o ≡ some g
unfolding at_cell
at_cell-true none g t = cc
at_cell-true (some h) g t = ap some ((==_iff h g).0 t)

-- The same cell, told by the entity's node before and after.
times_added :
    (p e g h : ℕ) (here there : List ℕ) (kept : Option ℕ)
    → (e ≡ p → kept ≡ none)
    → (g ≡ h → here ≡ there)
    → times p there ≡ one_if (at_cell kept h)
    → times p (if g == h then e ∷ here else there)
      ≡ one_if (at_cell (if e == p then some g else kept) h)
unfolding times at_cell one_if
times_added p e g h here there kept fresh same old = ground (arith, fresh, same)

times_removed :
    (p e g h : ℕ) (here there : List ℕ) (kept : Option ℕ)
    → (e ≡ p → kept ≡ some g)
    → (g ≡ h → here ≡ there)
    → times p there ≡ one_if (at_cell kept h)
    → times p (if g == h then remove_first e here else there)
      ≡ one_if (at_cell (if e == p then none else kept) h)
unfolding at_cell one_if
times_removed p e g h here there kept held same old =
    ground (arith, held, same, times-remove_first e p here)

module _ (f : Floats) where
  -- A grid with at least one cell.
  pub record IsWorld (w : World f) : Type 0 where
    pub wide : 0 < w.grid_x
    pub tall : 0 < w.grid_y

  -- Each entity is in the cell of its node once, and in no other cell.
  pub record IsPlaced (a : Aoi f) : Type 0 where
    pub world : IsWorld a.world
    pub sized : length a.grids ≡ a.world.grid_x * a.world.grid_y
    pub placed : (e g : ℕ) → times e (get_or a.grids g []) ≡ one_if (at_cell (lookup e a.nodes) g)

  pub new_world-IsWorld :
      (min_x max_x min_y max_y size : f.F) (w : World f)
      → new_world f min_x max_x min_y max_y size ≡ some w
      → IsWorld w
  unfolding new_world
  new_world-IsWorld min_x max_x min_y max_y size w e = ground arith

  pub get_grid_by_pos-lt :
      (w : World f) (x y : f.F) (g : ℕ)
      → IsWorld w
      → get_grid_by_pos f w x y ≡ some g
      → g < w.grid_x * w.grid_y
  unfolding get_grid_by_pos
  get_grid_by_pos-lt w px py g i e =
      let x = f.trunc (f.div (f.sub px w.min_x) w.grid_size) in
      let y = f.trunc (f.div (f.sub py w.min_y) w.grid_size) in
      let x' = if leb w.grid_x x then w.grid_x - 1 else x in
      let y' = if leb w.grid_y y then w.grid_y - 1 else y in
      let h = index-lt x' y' w.grid_x w.grid_y (ground arith) (ground arith) in ground (arith, e, h)

  pub grid_add-IsPlaced :
      (g e : ℕ) (a : Aoi f)
      → g < length a.grids
      → lookup e a.nodes ≡ none
      → IsPlaced a
      → IsPlaced (grid_add f g e a)
  unfolding grid_add
  grid_add-IsPlaced g e a low fresh i = record {
    world = i.world;
    sized = length-set a.grids g _ ∙ i.sized;
    placed = λ p h.
        ap (times p) (get_or-set a.grids g h (e ∷ get_or a.grids g []) low)
        ∙ (times_added p e g h (get_or a.grids g []) (get_or a.grids h []) (lookup p a.nodes)
              (λ same. ap (λ k. lookup k a.nodes) (sym same) ∙ fresh)
              (λ same. ap (λ k. get_or a.grids k []) same) (i.placed p h)
            ∙ ap (λ o. one_if (at_cell o h)) (sym (lookup-insert e p g a.nodes)));
  }

  -- A node's cell is there.
  pub held_low : (e g : ℕ) (a : Aoi f) → IsPlaced a → lookup e a.nodes ≡ some g → g < length a.grids
  unfolding times at_cell one_if
  held_low e g a i held = elim (Bool-cases (ltb g (length a.grids))) [
    | inl t ↦ ltb→lt g (length a.grids) t
    | inr t ↦
        let empty : get_or a.grids g [] ≡ [] =
          get_or-beyond a.grids g (ge_of_ltb g (length a.grids) t) in
        absurd (ground (arith, i.placed e g, empty, held))
  ]

  pub grid_remove-IsPlaced : (g e : ℕ) (a : Aoi f) → IsPlaced a → IsPlaced (grid_remove f g e a)
  unfolding grid_remove
  grid_remove-IsPlaced g e a i =
      if_elim IsPlaced (at_cell (lookup e a.nodes) g)
        (λ t.
          let held = at_cell-true (lookup e a.nodes) g t in
          let low = held_low e g a i held in
          record {
            world = i.world;
            sized = length-set a.grids g _ ∙ i.sized;
            placed = λ p h.
                ap (times p) (get_or-set a.grids g h (remove_first e (get_or a.grids g [])) low)
                ∙ (times_removed p e g h (get_or a.grids g []) (get_or a.grids h [])
                      (lookup p a.nodes) (λ same. ap (λ k. lookup k a.nodes) (sym same) ∙ held)
                      (λ same. ap (λ k. get_or a.grids k []) same) (i.placed p h)
                    ∙ ap (λ o. one_if (at_cell o h)) (sym (lookup-erase e p a.nodes)));
          })
        (λ _. i)
