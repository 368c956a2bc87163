-- ===== src/Aoi/Tests.antt =====
-- zaoi: the grid, runs over it and the theorems at concrete inputs, over whole numbers.
use zhenyi.Prelude.{
  ℕ, ◌+◌, ◌-◌, ◌*◌, ◌/◌, ◌≡◌, refl, true, false, arith, List, [], ◌∷◌, some, ltb, leb,
}
use zhenyi.Prelude.Maps.{lookup, insert, erase}
use zhenyi.Actor.Routes.{times}
use zhenyi.Actor.Balance.{one_if}
use zhenyi.Aoi.Space.{
  Floats, World, new_world, get_grid_by_pos, nine_cells, nine_grid_range, span, from, rows, row,
}
use zhenyi.Aoi.Static.{
  Entity, Aoi, new_aoi, get_nearby_entities_by_type, Op, adds, removes, moves, run, apply_op,
  add_entity, add_at, after_enter, grid_add, notify_nearby, notify_nearby_from, remove_entity,
  remove_from, update_entity, update_to, before_leave, grid_remove, at_cell, remove_first,
  nearby_from, collect_cells, collect, picks, within, view_sq_of, move_between, grid_by_id,
  set_position, handle_cross_grid_move, log_cells, except, in_range,
}
use zhenyi.Aoi.Placed.{IsPlaced, IsWorld}
use zhenyi.Aoi.Moves.{Fresh, AllFresh, run-IsPlaced}
use zhenyi.Aoi.Nearby.{visible, new_aoi-IsPlaced, run-get_nearby}

-- Subtraction as the distance, which is all that a difference is used for.
abbrev whole : Floats
whole = record {
  F = ℕ;
  add = λ a b. a + b;
  sub = λ a b. (a - b) + (b - a);
  mul = λ a b. a * b;
  div = λ a b. a / b;
  zero_float = 0;
  lt = ltb;
  le = leb;
  trunc = λ a. a;
  ceil = λ a. a;
}

abbrev plain : World whole
plain = record {
  min_x = 0;
  max_x = 100;
  min_y = 0;
  max_y = 100;
  grid_size = 25;
  grid_x = 4;
  grid_y = 4;
}

abbrev player : ℕ → Entity whole
player e = record { x = e * 10; y = e * 10; view_distance = 30; kind = 1 }

abbrev empty_grid : Aoi whole
empty_grid = new_aoi whole plain player false true

abbrev history : List (Op whole)
history = adds 1 ∷ adds 2 ∷ removes 1 ∷ adds 1 ∷ moves 2 30 20 ∷ moves 2 200 5 ∷ []

plain_made : new_world whole 0 100 0 100 25 ≡ some plain
unfolding new_world
plain_made = refl

history_fresh : AllFresh whole history empty_grid
unfolding AllFresh new_aoi Fresh apply_op add_entity add_at get_grid_by_pos after_enter grid_add
    notify_nearby notify_nearby_from remove_entity remove_from update_entity update_to before_leave
    grid_remove at_cell lookup insert erase
history_fresh = (refl, (refl, (_, (refl, (_, (_, _))))))

history_nearby : get_nearby_entities_by_type whole 1 0 (run whole history empty_grid) ≡ 2 ∷ []
unfolding get_nearby_entities_by_type run new_aoi nearby_from collect_cells collect picks within
    view_sq_of nine_cells nine_grid_range span from rows row move_between grid_by_id set_position
    handle_cross_grid_move log_cells except in_range remove_first apply_op add_entity add_at
    get_grid_by_pos after_enter grid_add notify_nearby notify_nearby_from remove_entity remove_from
    update_entity update_to before_leave grid_remove at_cell lookup insert erase
history_nearby = refl

abbrev empty_grid-IsWorld : IsWorld whole plain
empty_grid-IsWorld = record { wide = omega arith; tall = omega arith }

empty_grid-IsPlaced : IsPlaced whole empty_grid
empty_grid-IsPlaced = new_aoi-IsPlaced whole plain player false true empty_grid-IsWorld

run-IsPlaced_example : IsPlaced whole (run whole history empty_grid)
run-IsPlaced_example = run-IsPlaced whole history empty_grid history_fresh empty_grid-IsPlaced

run-get_nearby_example :
    times 2 (get_nearby_entities_by_type whole 1 0 (run whole history empty_grid))
    ≡ one_if (visible whole (run whole history empty_grid) 1 0 2)
run-get_nearby_example =
    run-get_nearby whole 0 100 0 100 25 plain player false true history 1 0 2 plain_made
      history_fresh
