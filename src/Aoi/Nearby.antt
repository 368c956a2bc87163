-- ===== src/Aoi/Nearby.antt =====
-- zaoi/staticaoi.go: what `GetNearbyEntitiesByType` finds, against a look at every entity.
use zhenyi.Prelude.{
  ℕ, zero, suc, ◌+◌, ◌*◌, ◌<◌, ◌≡◌, refl, ap, sym, ◌∙◌, Bool, true, false, ◌&&◌, ◌||◌, not, List,
  [], ◌∷◌, Option, none, some, get_or, replicate, length-replicate, ◌==◌, if◌then◌else◌, arith,
  Option-cases, inl, inr, subst,
}
use zhenyi.Prelude.Maps.{lookup}
use zhenyi.Actor.Routes.{times}
use zhenyi.Actor.Balance.{one_if}
use zhenyi.Aoi.Space.{Floats, World, new_world, nine_cells}
use zhenyi.Aoi.Cells.{adjacent, times-append, times-nine_cells}
use zhenyi.Aoi.Static.{
  at_cell, Aoi, Entity, new_aoi, within, view_sq_of, picks, collect, collect_cells, nearby_from,
  get_nearby_entities_by_type, Op, run,
}
use zhenyi.Aoi.Placed.{IsWorld, IsPlaced, held_low, new_world-IsWorld}
use zhenyi.Aoi.Moves.{AllFresh, run-IsPlaced}

-- Two entities are in, and their cells touch.
unfoldable pub near : ℕ → Option ℕ → Option ℕ → Bool
near grid_x none mine = false
near grid_x (some g) none = false
near grid_x (some g) (some h) = adjacent grid_x g h

-- How often a walk over cells comes to a cell.
unfoldable visits : Option ℕ → List ℕ → ℕ
visits none gs = 0
visits (some g) gs = times g gs

visits-cons :
    (o : Option ℕ) (g : ℕ) (gs : List ℕ) → visits o (g ∷ gs) ≡ one_if (at_cell o g) + visits o gs
unfolding visits at_cell one_if times
visits-cons none g gs = omega arith
visits-cons (some h) g gs = ground arith

get_or-replicate : (n g : ℕ) (none_in : List ℕ) → get_or (replicate n none_in) g none_in ≡ none_in
get_or-replicate zero g none_in = refl
get_or-replicate (suc n) zero none_in = refl
get_or-replicate (suc n) (suc g) none_in = get_or-replicate n g none_in

cells-none : (b : Bool) (o : Option ℕ) → 0 ≡ (if b then visits o [] else 0)
unfolding visits times
cells-none b none = ground arith
cells-none b (some g) = ground arith

near-none : (grid_x : ℕ) (o : Option ℕ) → near grid_x o none ≡ false
unfolding near
near-none grid_x none = refl
near-none grid_x (some g) = refl

and_later : (x y z w : Bool) → (x && y && z) && w ≡ x && y && z && w
and_later x y z w = ground arith

not_near : (x y z w : Bool) → w ≡ false → 0 ≡ one_if (x && y && z && w)
unfolding one_if
not_near x y z w e = ground (arith, e)

picks-visible : (b c : Bool) → (if b then one_if c else 0) ≡ one_if (b && c)
unfolding one_if
picks-visible true c = refl
picks-visible false c = refl

module _ (f : Floats) where
  -- Another entity of the kind, within the view of `self` and in a cell that touches its cell.
  unfoldable pub visible : Aoi f → ℕ → ℕ → ℕ → Bool
  visible a self kind e =
      let me = a.entities self in
      not (e == self)
      && (kind == 0 || (a.entities e).kind == kind)
      && within f (view_sq_of f me) me.x me.y (a.entities e)
      && near a.world.grid_x (lookup e a.nodes) (lookup self a.nodes)

  times-collect :
      (entities : ℕ → Entity f) (self kind p : ℕ) (es : List ℕ)
      → times p (collect f entities self kind es)
        ≡ (if picks f entities self kind p then times p es else 0)
  unfolding times collect
  times-collect entities self kind p [] = ground arith
  times-collect entities self kind p (e ∷ es) =
      let same : e ≡ p → picks f entities self kind e ≡ picks f entities self kind p =
        λ q. ap (picks f entities self kind) q in
      ground (arith, times-collect entities self kind p es, same)

  times-collect_cells :
      (a : Aoi f) (self kind p : ℕ) (gs : List ℕ)
      → IsPlaced f a
      → times p (collect_cells f a self kind gs)
        ≡ (if picks f a.entities self kind p then visits (lookup p a.nodes) gs else 0)
  unfolding collect_cells times visits
  times-collect_cells a self kind p [] i =
      cells-none (picks f a.entities self kind p) (lookup p a.nodes)
  times-collect_cells a self kind p (g ∷ gs) i =
      let here = get_or a.grids g [] in
      let rest = collect_cells f a self kind gs in
      ground (
        arith,
        times-append p (collect f a.entities self kind here) rest,
        times-collect a.entities self kind p here,
        times-collect_cells a self kind p gs i,
        i.placed p g,
        visits-cons (lookup p a.nodes) g gs,
      )

  visits-near :
      (g p : ℕ) (a : Aoi f)
      → IsPlaced f a
      → g < a.world.grid_x * a.world.grid_y
      → visits (lookup p a.nodes) (nine_cells a.world.grid_x a.world.grid_y g)
        ≡ one_if (near a.world.grid_x (lookup p a.nodes) (some g))
  unfolding visits near one_if
  visits-near g p a i low = elim (Option-cases (lookup p a.nodes)) [
    | inl e ↦
        subst
          (λ o.
            visits o (nine_cells a.world.grid_x a.world.grid_y g)
            ≡ one_if (near a.world.grid_x o (some g)))
          (sym e) refl
    | inr (h, e) ↦
        let there : h < a.world.grid_x * a.world.grid_y =
          subst (λ n. h < n) i.sized (held_low f p h a i e) in
        subst
          (λ o.
            visits o (nine_cells a.world.grid_x a.world.grid_y g)
            ≡ one_if (near a.world.grid_x o (some g)))
          (sym e) (times-nine_cells a.world.grid_x a.world.grid_y g h i.world.wide low there)
  ]

  nearby_at :
      (o : Option ℕ) (self kind p : ℕ) (a : Aoi f)
      → IsPlaced f a
      → lookup self a.nodes ≡ o
      → times p (nearby_from f o self kind a) ≡ one_if (visible a self kind p)
  unfolding nearby_from visible picks times
  nearby_at none self kind p a i e =
      let me = a.entities self in
      not_near (not (p == self)) (kind == 0 || (a.entities p).kind == kind)
        (within f (view_sq_of f me) me.x me.y (a.entities p))
        (near a.world.grid_x (lookup p a.nodes) (lookup self a.nodes))
        (ap (near a.world.grid_x (lookup p a.nodes)) e
          ∙ near-none a.world.grid_x (lookup p a.nodes))
  nearby_at (some g) self kind p a i e =
      let low : g < a.world.grid_x * a.world.grid_y =
        subst (λ n. g < n) i.sized (held_low f self g a i e) in
      let me = a.entities self in
      let b = picks f a.entities self kind p in
      times-collect_cells a self kind p (nine_cells a.world.grid_x a.world.grid_y g) i
      ∙ (ap (λ n. if b then n else 0) (visits-near g p a i low)
          ∙ (picks-visible b (near a.world.grid_x (lookup p a.nodes) (some g))
              ∙ (ap (λ o. one_if (b && near a.world.grid_x (lookup p a.nodes) o)) (sym e)
                  ∙ ap one_if (
                      and_later (not (p == self)) (kind == 0 || (a.entities p).kind == kind)
                        (within f (view_sq_of f me) me.x me.y (a.entities p))
                        (near a.world.grid_x (lookup p a.nodes) (lookup self a.nodes))))))

  pub get_nearby-IsVisible :
      (self kind p : ℕ) (a : Aoi f)
      → IsPlaced f a
      → times p (get_nearby_entities_by_type f self kind a) ≡ one_if (visible a self kind p)
  unfolding get_nearby_entities_by_type
  get_nearby-IsVisible self kind p a i = nearby_at (lookup self a.nodes) self kind p a i refl

  pub new_aoi-IsPlaced :
      (w : World f) (entities : ℕ → Entity f) (has_enter has_leave : Bool)
      → IsWorld f w
      → IsPlaced f (new_aoi f w entities has_enter has_leave)
  unfolding new_aoi at_cell one_if times lookup
  new_aoi-IsPlaced w entities has_enter has_leave i = record {
    world = i;
    sized = length-replicate (w.grid_x * w.grid_y) [];
    placed = λ e g. ap (times e) (get_or-replicate (w.grid_x * w.grid_y) g []);
  }

  -- After any additions, removals and moves that add no entity twice, on a grid that `NewStaticAoi`
  -- makes, the search returns each entity that is visible exactly once, and no other entity.
  pub run-get_nearby :
      (min_x max_x min_y max_y size : f.F) (w : World f) (entities : ℕ → Entity f)
      (has_enter has_leave : Bool) (ops : List (Op f)) (self kind p : ℕ)
      → new_world f min_x max_x min_y max_y size ≡ some w
      → AllFresh f ops (new_aoi f w entities has_enter has_leave)
      → let a = run f ops (new_aoi f w entities has_enter has_leave) in
        times p (get_nearby_entities_by_type f self kind a) ≡ one_if (visible a self kind p)
  run-get_nearby min_x max_x min_y max_y size w entities has_enter has_leave ops self kind p made
        fresh =
      let start =
        new_aoi-IsPlaced w entities has_enter has_leave
          (new_world-IsWorld f min_x max_x min_y max_y size w made) in
      get_nearby-IsVisible self kind p (run f ops (new_aoi f w entities has_enter has_leave))
        (run-IsPlaced f ops (new_aoi f w entities has_enter has_leave) fresh start)
