-- ===== src/Aoi/Static.antt =====
-- zaoi/staticaoi.go and grid.go: entities in the cells of the grid. A cell is the list of its entities,
-- head first; an entity is its id, its fields are a function of the id, and its node is the cell that
-- it was last added to. What the callbacks are called with is a log.
use zhenyi.Prelude.{
  ℕ, ◌*◌, ◌/◌, ◌%◌, Bool, true, false, ◌&&◌, ◌||◌, not, List, [], ◌∷◌, ◌++◌, Option, none, some,
  length, get_or, set, replicate, ltb, leb, ◌==◌, if◌then◌else◌,
}
use zhenyi.Prelude.Maps.{lookup, insert, erase}
use zhenyi.Aoi.Space.{Floats, World, get_grid_by_pos, nine_grid_range, nine_cells}

pub data Event : Type 0 where
  enters leaves : ℕ → ℕ → Event

-- `remove` of the entity's own node, which is its first one in the cell.
unfoldable pub remove_first : ℕ → List ℕ → List ℕ
remove_first e [] = []
remove_first e (x ∷ xs) = let rest = remove_first e xs in if x == e then xs else x ∷ rest

unfoldable pub at_cell : Option ℕ → ℕ → Bool
at_cell none g = false
at_cell (some h) g = h == g

-- Whether a cell is in the nine cells of another, and the cells of a list that are not.
unfoldable pub in_range : ℕ → ℕ → ℕ → ℕ → Bool
in_range grid_x grid_y id g =
    let r = nine_grid_range grid_x grid_y id in
    leb r.start_x (g % grid_x)
    && leb (g % grid_x) r.end_x
    && (leb r.start_y (g / grid_x) && leb (g / grid_x) r.end_y)

unfoldable pub except : ℕ → ℕ → ℕ → List ℕ → List ℕ
except grid_x grid_y id [] = []
except grid_x grid_y id (g ∷ gs) =
    let rest = except grid_x grid_y id gs in if in_range grid_x grid_y id g then rest else g ∷ rest

module _ (f : Floats) where
  open f use {F, add, sub, mul, le}

  pub record Entity : Type 0 where
    pub x : F
    pub y : F
    pub view_distance : F
    pub kind : ℕ

  -- `has_enter` and `has_leave` tell whether the callbacks are set.
  pub record Aoi : Type 0 where
    pub world : World f
    pub grids : List (List ℕ)
    pub nodes : List (ℕ × ℕ)
    pub entities : ℕ → Entity
    pub has_enter : Bool
    pub has_leave : Bool
    pub events : List Event

  unfoldable pub new_aoi : World f → (ℕ → Entity) → Bool → Bool → Aoi
  new_aoi w entities has_enter has_leave = record {
    world = w;
    grids = replicate (w.grid_x * w.grid_y) [];
    nodes = [];
    entities = entities;
    has_enter = has_enter;
    has_leave = has_leave;
    events = [];
  }

  unfoldable pub grid_add : ℕ → ℕ → Aoi → Aoi
  grid_add g e a = record a {
    grids = set a.grids g (e ∷ get_or a.grids g []);
    nodes = insert e g a.nodes;
  }

  -- It does nothing for an entity that is not in the cell.
  unfoldable pub grid_remove : ℕ → ℕ → Aoi → Aoi
  grid_remove g e a =
      if at_cell (lookup e a.nodes) g
      then record a {
        grids = set a.grids g (remove_first e (get_or a.grids g []));
        nodes = erase e a.nodes;
      }
      else a

  -- Whether the other entity is within a squared distance.
  unfoldable pub within : F → F → F → Entity → Bool
  within view_sq self_x self_y other =
      let dx = sub other.x self_x in
      let dx_sq = mul dx dx in
      let dy = sub other.y self_y in le dx_sq view_sq && le (add dx_sq (mul dy dy)) view_sq

  unfoldable pub sees_back : F → F → Entity → Bool
  sees_back self_x self_y other =
      let dx = sub other.x self_x in
      let dx_sq = mul dx dx in
      let dy = sub other.y self_y in
      le (add dx_sq (mul dy dy)) (mul other.view_distance other.view_distance)

  unfoldable pub view_sq_of : Entity → F
  view_sq_of e = mul e.view_distance e.view_distance

  -- The loop over one cell.
  unfoldable pub notify_grid_entities :
      (ℕ → Entity) → ℕ → F → F → F → (ℕ → ℕ → Event) → List ℕ → List Event
  notify_grid_entities entities self self_x self_y view_sq callback [] = []
  notify_grid_entities entities self self_x self_y view_sq callback (e ∷ es) =
      let rest = notify_grid_entities entities self self_x self_y view_sq callback es in
      if not (e == self) && within view_sq self_x self_y (entities e)
      then callback self e
        ∷ (if sees_back self_x self_y (entities e) then callback e self ∷ rest else rest)
      else rest

  -- The cells of a list in turn.
  unfoldable pub notify_cells : Aoi → ℕ → (ℕ → ℕ → Event) → List ℕ → List Event
  notify_cells a self callback [] = []
  notify_cells a self callback (g ∷ gs) =
      let me = a.entities self in
      notify_grid_entities a.entities self me.x me.y (view_sq_of me) callback (get_or a.grids g [])
      ++ notify_cells a self callback gs

  unfoldable pub notify_nearby_from : Option ℕ → ℕ → (ℕ → ℕ → Event) → Aoi → Aoi
  notify_nearby_from none self callback a = a
  notify_nearby_from (some g) self callback a = record a {
    events = a.events ++ notify_cells a self callback (nine_cells a.world.grid_x a.world.grid_y g);
  }

  unfoldable pub notify_nearby : ℕ → (ℕ → ℕ → Event) → Aoi → Aoi
  notify_nearby self callback a = notify_nearby_from (lookup self a.nodes) self callback a

  unfoldable pub after_enter : ℕ → Aoi → Aoi
  after_enter e a = if a.has_enter then notify_nearby e enters a else a

  unfoldable pub before_leave : ℕ → Aoi → Aoi
  before_leave e a = if a.has_leave then notify_nearby e leaves a else a

  -- With whether it returns no error.
  unfoldable pub add_at : Option ℕ → ℕ → Aoi → Aoi × Bool
  add_at none e a = (a, false)
  add_at (some g) e a = (after_enter e (grid_add g e a), true)

  unfoldable pub add_entity : ℕ → Aoi → Aoi × Bool
  add_entity e a = add_at (get_grid_by_pos f a.world (a.entities e).x (a.entities e).y) e a

  unfoldable pub remove_from : Option ℕ → ℕ → Aoi → Aoi
  remove_from none e a = a
  remove_from (some g) e a =
      if ltb g (length a.grids) then grid_remove g e (before_leave e a) else a

  unfoldable pub remove_entity : ℕ → Aoi → Aoi
  remove_entity e a = remove_from (lookup e a.nodes) e a

  unfoldable pub set_position : ℕ → F → F → Aoi → Aoi
  set_position e x y a =
      let moved : Entity = record (a.entities e) { x = x; y = y } in
      record a { entities = λ i. if i == e then moved else a.entities i }

  unfoldable pub log_cells : Bool → ℕ → (ℕ → ℕ → Event) → List ℕ → Aoi → Aoi
  log_cells set_callback self callback gs a =
      if set_callback then record a { events = a.events ++ notify_cells a self callback gs } else a

  unfoldable pub handle_cross_grid_move : ℕ → ℕ → ℕ → F → F → Aoi → Aoi
  handle_cross_grid_move old_g new_g e x y a =
      let gx = a.world.grid_x in
      let gy = a.world.grid_y in
      let left = log_cells a.has_leave e leaves (except gx gy new_g (nine_cells gx gy old_g)) a in
      let moved = grid_add new_g e (set_position e x y (grid_remove old_g e left)) in
      log_cells a.has_enter e enters (except gx gy old_g (nine_cells gx gy new_g)) moved

  -- `gridByID`
  unfoldable pub grid_by_id : Option ℕ → Aoi → Option ℕ
  grid_by_id none a = none
  grid_by_id (some g) a = if ltb g (length a.grids) then some g else none

  unfoldable pub move_between : Option ℕ → ℕ → ℕ → F → F → Aoi → Aoi
  move_between none new_g e x y a = after_enter e (grid_add new_g e (set_position e x y a))
  move_between (some old_g) new_g e x y a =
      if old_g == new_g
      then set_position e x y a
      else if a.has_enter || a.has_leave
      then handle_cross_grid_move old_g new_g e x y a
      else grid_add new_g e (set_position e x y (grid_remove old_g e a))

  unfoldable pub update_to : Option ℕ → ℕ → F → F → Aoi → Aoi × Bool
  update_to none e x y a = (a, false)
  update_to (some new_g) e x y a =
      (move_between (grid_by_id (lookup e a.nodes) a) new_g e x y a, true)

  unfoldable pub update_entity : ℕ → F → F → Aoi → Aoi × Bool
  update_entity e x y a = update_to (get_grid_by_pos f a.world x y) e x y a

  -- `entityType` 0 stands for all kinds.
  unfoldable pub picks : (ℕ → Entity) → ℕ → ℕ → ℕ → Bool
  picks entities self kind e =
      let me = entities self in
      not (e == self)
      && (kind == 0 || (entities e).kind == kind)
      && within (view_sq_of me) me.x me.y (entities e)

  unfoldable pub collect : (ℕ → Entity) → ℕ → ℕ → List ℕ → List ℕ
  collect entities self kind [] = []
  collect entities self kind (e ∷ es) =
      let rest = collect entities self kind es in
      if picks entities self kind e then e ∷ rest else rest

  unfoldable pub collect_cells : Aoi → ℕ → ℕ → List ℕ → List ℕ
  collect_cells a self kind [] = []
  collect_cells a self kind (g ∷ gs) =
      collect a.entities self kind (get_or a.grids g []) ++ collect_cells a self kind gs

  unfoldable pub nearby_from : Option ℕ → ℕ → ℕ → Aoi → List ℕ
  nearby_from none self kind a = []
  nearby_from (some g) self kind a =
      collect_cells a self kind (nine_cells a.world.grid_x a.world.grid_y g)

  unfoldable pub get_nearby_entities_by_type : ℕ → ℕ → Aoi → List ℕ
  get_nearby_entities_by_type self kind a = nearby_from (lookup self a.nodes) self kind a

  unfoldable pub get_nearby_entities : ℕ → Aoi → List ℕ
  get_nearby_entities self a = get_nearby_entities_by_type self 0 a

  -- What the game does to the entities: their additions, removals and moves.
  pub data Op : Type 0 where
    adds removes : ℕ → Op
    moves : ℕ → F → F → Op

  unfoldable pub apply_op : Op → Aoi → Aoi
  apply_op (adds e) a = (add_entity e a).0
  apply_op (removes e) a = remove_entity e a
  apply_op (moves e x y) a = (update_entity e x y a).0

  unfoldable pub run : List Op → Aoi → Aoi
  run [] a = a
  run (op ∷ ops) a = run ops (apply_op op a)
