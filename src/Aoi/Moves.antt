-- ===== src/Aoi/Moves.antt =====
-- zaoi/staticaoi.go: every operation keeps each entity in the cell of its node.
use zhenyi.Prelude.{
  ℕ, ◌*◌, ◌<◌, ◌≡◌, refl, ap, sym, ◌∙◌, Bool, true, ◌||◌, List, [], ◌∷◌, Option, none, some, length,
  ltb, ◌==◌, ==_refl, arith, if_elim,
}
use zhenyi.Prelude.Maps.{lookup, lookup-erase}
use zhenyi.Aoi.Space.{Floats, get_grid_by_pos, nine_cells}
use zhenyi.Aoi.Static.{
  Event, enters, leaves, at_cell, Aoi, grid_add, grid_remove, notify_nearby_from, notify_nearby,
  after_enter, before_leave, add_at, add_entity, remove_from, remove_entity, set_position,
  log_cells, except, handle_cross_grid_move, grid_by_id, move_between, update_to, update_entity, Op,
  adds, removes, moves, apply_op, run,
}
use zhenyi.Aoi.Placed.{
  IsPlaced, get_grid_by_pos-lt, grid_add-IsPlaced, grid_remove-IsPlaced, held_low,
}

module _ (f : Floats) where
  -- An addition is of an entity that is not in.
  unfoldable pub Fresh : Op f → Aoi f → Type 0
  Fresh (adds e) a = lookup e a.nodes ≡ none
  Fresh (removes e) a = Unit
  Fresh (moves e x y) a = Unit

  unfoldable pub AllFresh : List (Op f) → Aoi f → Type 0
  AllFresh [] a = Unit
  AllFresh (op ∷ ops) a = Fresh op a × AllFresh ops (apply_op f op a)

  notify_from-IsPlaced :
      (o : Option ℕ) (e : ℕ) (callback : ℕ → ℕ → Event) (a : Aoi f)
      → IsPlaced f a
      → IsPlaced f (notify_nearby_from f o e callback a)
  unfolding notify_nearby_from
  notify_from-IsPlaced none e callback a i = i
  notify_from-IsPlaced (some g) e callback a i = record {
    world = i.world;
    sized = i.sized;
    placed = i.placed;
  }

  after_enter-IsPlaced : (e : ℕ) (a : Aoi f) → IsPlaced f a → IsPlaced f (after_enter f e a)
  unfolding after_enter notify_nearby
  after_enter-IsPlaced e a i =
      if_elim (IsPlaced f) a.has_enter (λ _. notify_from-IsPlaced (lookup e a.nodes) e enters a i)
        (λ _. i)

  before_leave-IsPlaced : (e : ℕ) (a : Aoi f) → IsPlaced f a → IsPlaced f (before_leave f e a)
  unfolding before_leave notify_nearby
  before_leave-IsPlaced e a i =
      if_elim (IsPlaced f) a.has_leave (λ _. notify_from-IsPlaced (lookup e a.nodes) e leaves a i)
        (λ _. i)

  log_cells-IsPlaced :
      (b : Bool) (e : ℕ) (callback : ℕ → ℕ → Event) (gs : List ℕ) (a : Aoi f)
      → IsPlaced f a
      → IsPlaced f (log_cells f b e callback gs a)
  unfolding log_cells
  log_cells-IsPlaced b e callback gs a i =
      if_elim (IsPlaced f) b (λ _. record { world = i.world; sized = i.sized; placed = i.placed })
        (λ _. i)

  set_position-IsPlaced :
      (e : ℕ) (x y : f.F) (a : Aoi f) → IsPlaced f a → IsPlaced f (set_position f e x y a)
  unfolding set_position
  set_position-IsPlaced e x y a i = record { world = i.world; sized = i.sized; placed = i.placed }

  log_cells-same :
      (b : Bool) (e : ℕ) (callback : ℕ → ℕ → Event) (gs : List ℕ) (a : Aoi f)
      → ((log_cells f b e callback gs a).nodes ≡ a.nodes)
        × ((log_cells f b e callback gs a).world ≡ a.world)
  unfolding log_cells
  log_cells-same b e callback gs a =
      if_elim {A = Aoi f} (λ c. (c.nodes ≡ a.nodes) × (c.world ≡ a.world)) b (λ _. (refl, refl))
        (λ _. (refl, refl))

  grid_remove-world : (g e : ℕ) (a : Aoi f) → (grid_remove f g e a).world ≡ a.world
  unfolding grid_remove
  grid_remove-world g e a =
      if_elim {A = Aoi f} (λ c. c.world ≡ a.world) (at_cell (lookup e a.nodes) g) (λ _. refl)
        (λ _. refl)

  grid_remove-absent :
      (g e : ℕ) (a : Aoi f)
      → lookup e a.nodes ≡ some g
      → lookup e (grid_remove f g e a).nodes ≡ none
  unfolding grid_remove at_cell
  grid_remove-absent g e a held =
      let there : at_cell (lookup e a.nodes) g ≡ true = ap (λ o. at_cell o g) held ∙ ==_refl g in
      ground (arith, there, lookup-erase e e a.nodes)

  -- The move itself, with what is logged before and after it.
  swap-IsPlaced :
      (old_g new_g e : ℕ) (x y : f.F) (a b : Aoi f)
      → b.nodes ≡ a.nodes
      → b.world ≡ a.world
      → IsPlaced f b
      → lookup e a.nodes ≡ some old_g
      → new_g < a.world.grid_x * a.world.grid_y
      → IsPlaced f (grid_add f new_g e (set_position f e x y (grid_remove f old_g e b)))
  unfolding set_position
  swap-IsPlaced old_g new_g e x y a b nodes world i held low =
      let held' : lookup e b.nodes ≡ some old_g = ap (lookup e) nodes ∙ held in
      let c = grid_remove f old_g e b in
      let j = grid_remove-IsPlaced f old_g e b i in
      let same : c.world ≡ a.world = grid_remove-world old_g e b ∙ world in
      let room : c.world.grid_x * c.world.grid_y ≡ a.world.grid_x * a.world.grid_y =
        ap (λ w. w.grid_x * w.grid_y) same in
      grid_add-IsPlaced f new_g e (set_position f e x y c) (omega (arith, j.sized, room))
        (grid_remove-absent old_g e b held') (set_position-IsPlaced e x y c j)

  handle_cross_grid_move-IsPlaced :
      (old_g new_g e : ℕ) (x y : f.F) (a : Aoi f)
      → IsPlaced f a
      → lookup e a.nodes ≡ some old_g
      → new_g < a.world.grid_x * a.world.grid_y
      → IsPlaced f (handle_cross_grid_move f old_g new_g e x y a)
  unfolding handle_cross_grid_move
  handle_cross_grid_move-IsPlaced old_g new_g e x y a i held low =
      let gx = a.world.grid_x in
      let gy = a.world.grid_y in
      let gone = except gx gy new_g (nine_cells gx gy old_g) in
      let come = except gx gy old_g (nine_cells gx gy new_g) in
      let left = log_cells f a.has_leave e leaves gone a in
      let (nodes, world) = log_cells-same a.has_leave e leaves gone a in
      log_cells-IsPlaced a.has_enter e enters come
        (grid_add f new_g e (set_position f e x y (grid_remove f old_g e left)))
        (swap-IsPlaced old_g new_g e x y a left nodes world
          (log_cells-IsPlaced a.has_leave e leaves gone a i) held low)

  move_between-IsPlaced :
      (o : Option ℕ) (new_g e : ℕ) (x y : f.F) (a : Aoi f)
      → IsPlaced f a
      → lookup e a.nodes ≡ o
      → new_g < a.world.grid_x * a.world.grid_y
      → IsPlaced f (move_between f o new_g e x y a)
  unfolding move_between set_position
  move_between-IsPlaced none new_g e x y a i held low =
      after_enter-IsPlaced e (grid_add f new_g e (set_position f e x y a)) (
        grid_add-IsPlaced f new_g e (set_position f e x y a) (omega (arith, i.sized)) held
          (set_position-IsPlaced e x y a i))
  move_between-IsPlaced (some old_g) new_g e x y a i held low =
      if_elim (IsPlaced f) (old_g == new_g) (λ _. set_position-IsPlaced e x y a i)
        (λ _.
          if_elim (IsPlaced f) (a.has_enter || a.has_leave)
            (λ _. handle_cross_grid_move-IsPlaced old_g new_g e x y a i held low)
            (λ _. swap-IsPlaced old_g new_g e x y a a refl refl i held low))

  grid_by_id-held :
      (e : ℕ) (a : Aoi f) (o : Option ℕ)
      → IsPlaced f a
      → lookup e a.nodes ≡ o
      → grid_by_id f o a ≡ o
  unfolding grid_by_id
  grid_by_id-held e a none i held = refl
  grid_by_id-held e a (some g) i held = ground (arith, held_low f e g a i held)

  update_to-IsPlaced :
      (o : Option ℕ) (e : ℕ) (x y : f.F) (a : Aoi f)
      → IsPlaced f a
      → get_grid_by_pos f a.world x y ≡ o
      → IsPlaced f ((update_to f o e x y a).0)
  unfolding update_to
  update_to-IsPlaced none e x y a i at = i
  update_to-IsPlaced (some g) e x y a i at =
      move_between-IsPlaced (grid_by_id f (lookup e a.nodes) a) g e x y a i
        (sym (grid_by_id-held e a (lookup e a.nodes) i refl))
        (get_grid_by_pos-lt f a.world x y g i.world at)

  add_at-IsPlaced :
      (o : Option ℕ) (e : ℕ) (a : Aoi f)
      → IsPlaced f a
      → lookup e a.nodes ≡ none
      → get_grid_by_pos f a.world (a.entities e).x (a.entities e).y ≡ o
      → IsPlaced f ((add_at f o e a).0)
  unfolding add_at
  add_at-IsPlaced none e a i fresh at = i
  add_at-IsPlaced (some g) e a i fresh at = after_enter-IsPlaced e (grid_add f g e a) (
      grid_add-IsPlaced f g e a
        (omega (
          arith,
          i.sized,
          get_grid_by_pos-lt f a.world (a.entities e).x (a.entities e).y g i.world at,
        ))
        fresh i)

  remove_from-IsPlaced :
      (o : Option ℕ) (e : ℕ) (a : Aoi f) → IsPlaced f a → IsPlaced f (remove_from f o e a)
  unfolding remove_from
  remove_from-IsPlaced none e a i = i
  remove_from-IsPlaced (some g) e a i =
      if_elim (IsPlaced f) (ltb g (length a.grids))
        (λ _. grid_remove-IsPlaced f g e (before_leave f e a) (before_leave-IsPlaced e a i))
        (λ _. i)

  apply_op-IsPlaced :
      (op : Op f) (a : Aoi f) → Fresh op a → IsPlaced f a → IsPlaced f (apply_op f op a)
  unfolding apply_op add_entity remove_entity update_entity Fresh
  apply_op-IsPlaced (adds e) a fresh i = add_at-IsPlaced _ e a i fresh refl
  apply_op-IsPlaced (removes e) a fresh i = remove_from-IsPlaced (lookup e a.nodes) e a i
  apply_op-IsPlaced (moves e x y) a fresh i = update_to-IsPlaced _ e x y a i refl

  -- While no entity is added that is already in, any history of additions, removals and moves, out
  -- of bounds or not, keeps every entity in the cell of its node once, and in no other cell.
  pub run-IsPlaced :
      (ops : List (Op f)) (a : Aoi f) → AllFresh ops a → IsPlaced f a → IsPlaced f (run f ops a)
  unfolding run AllFresh
  run-IsPlaced [] a fresh i = i
  run-IsPlaced (op ∷ ops) a (fresh, rest) i =
      run-IsPlaced ops (apply_op f op a) rest (apply_op-IsPlaced op a fresh i)
