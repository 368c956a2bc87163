-- ===== src/Aoi/Space.antt =====
-- zaoi/staticaoi.go and iface.go: the grid over the world, and where a position lies in it. A float64 is
-- a parameter, with its arithmetic, its comparisons and its conversions to an int of a number that is
-- not negative.
use zhenyi.Prelude.{
  ℕ, zero, suc, ◌+◌, ◌-◌, ◌*◌, ◌/◌, ◌%◌, ◌^◌, Bool, ◌||◌, List, [], ◌∷◌, ◌++◌, Option, none, some,
  ltb, leb, ◌==◌, if◌then◌else◌,
}

pub record Floats : Type 1 where
  pub F : Type 0
  pub add : F → F → F
  pub sub : F → F → F
  pub mul : F → F → F
  pub div : F → F → F
  pub zero_float : F
  pub lt : F → F → Bool
  pub le : F → F → Bool
  pub trunc : F → ℕ
  pub ceil : F → ℕ

module _ (f : Floats) where
  open f use {F, sub, div, lt, le, trunc, ceil, zero_float}

  -- The world and its grid.
  pub record World : Type 0 where
    pub min_x : F
    pub max_x : F
    pub min_y : F
    pub max_y : F
    pub grid_size : F
    pub grid_x : ℕ
    pub grid_y : ℕ

  -- `NewStaticAoi`, where `none` is a panic. 2^32 - 1 is `InvalidGridID`.
  unfoldable pub new_world : F → F → F → F → F → Option World
  new_world min_x max_x min_y max_y grid_size =
      let gx = ceil (div (sub max_x min_x) grid_size) in
      let gy = ceil (div (sub max_y min_y) grid_size) in
      if le grid_size zero_float
      then none
      else if le max_x min_x || le max_y min_y
      then none
      else if gx == 0 || gy == 0
      then none
      else if ltb (2 ^ 32 - 1) (gx * gy)
      then none
      else some (record {
        min_x = min_x;
        max_x = max_x;
        min_y = min_y;
        max_y = max_y;
        grid_size = grid_size;
        grid_x = gx;
        grid_y = gy;
      })

  -- `GetGridByPos` as the cell's index.
  unfoldable pub get_grid_by_pos : World → F → F → Option ℕ
  get_grid_by_pos w px py =
      let x = trunc (div (sub px w.min_x) w.grid_size) in
      let y = trunc (div (sub py w.min_y) w.grid_size) in
      let x' = if leb w.grid_x x then w.grid_x - 1 else x in
      let y' = if leb w.grid_y y then w.grid_y - 1 else y in
      if lt px w.min_x || le w.max_x px || lt py w.min_y || le w.max_y py
      then none
      else some (y' * w.grid_x + x')

-- First and last column, first and last row.
pub record Range : Type 0 where
  pub start_x : ℕ
  pub end_x : ℕ
  pub start_y : ℕ
  pub end_y : ℕ

unfoldable pub nine_grid_range : (grid_x grid_y id : ℕ) → Range
nine_grid_range grid_x grid_y id =
    let y_idx = id / grid_x in
    let x_idx = id % grid_x in
    record {
      start_x = x_idx - 1;
      end_x = if leb grid_x (x_idx + 1) then grid_x - 1 else x_idx + 1;
      start_y = y_idx - 1;
      end_y = if leb grid_y (y_idx + 1) then grid_y - 1 else y_idx + 1;
    }

-- The loop `for x := lo; x <= hi; x++`, as the values of x: `n` rounds are left.
unfoldable pub from : ℕ → ℕ → List ℕ
from zero lo = []
from (suc n) lo = lo ∷ from n (lo + 1)

unfoldable pub span : ℕ → ℕ → List ℕ
unfolding from
span lo hi = from (hi + 1 - lo) lo

-- One row of cells, then the rows.
unfoldable pub row : ℕ → List ℕ → List ℕ
row base [] = []
row base (x ∷ xs) = (base + x) ∷ row base xs

unfoldable pub rows : ℕ → List ℕ → List ℕ → List ℕ
unfolding row
rows grid_x [] xs = []
rows grid_x (y ∷ ys) xs = row (y * grid_x) xs ++ rows grid_x ys xs

-- The cells in the order of the two loops.
unfoldable pub nine_cells : (grid_x grid_y id : ℕ) → List ℕ
unfolding span rows nine_grid_range
nine_cells grid_x grid_y id =
    let r = nine_grid_range grid_x grid_y id in
    rows grid_x (span r.start_y r.end_y) (span r.start_x r.end_x)
