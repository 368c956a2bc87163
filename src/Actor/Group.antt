-- ===== src/Actor/Group.antt =====
-- zactor/group.go: the actors of a group, `AddActor`, `FindPoolActorByType`, `Run` up to its workers,
-- `Close`, and the script engines. What user code's `Init` and `RunServer` return is an argument, the
-- calls go to a log, and the order of a list stands for the order in which a map is ranged over.
pub mod Rollback
pub mod Sorted
pub mod Pick
pub mod Tests
use zhenyi.Prelude.{
  ℕ, ◌+◌, ◌%◌, ◌^◌, Bool, true, false, List, [], ◌∷◌, ◌++◌, length, Option, none, some, ltb, leb,
  ◌==◌, if◌then◌else◌,
}
use zhenyi.Prelude.Maps.{insert, lookup}
use zhenyi.Model.{ActorConfig}

-- `msg_list` has the keys of `GetMsgList`, the 32 bits of an int32; `is_server` tells whether the actor has a `RunServer`;
-- `count` is the 64 bits of an int64.
pub record Item : Type 0 where
  pub config : ActorConfig
  pub msg_list : List ℕ
  pub is_server : Bool
  pub count : ℕ

pub data Event : Type 0 where
  registered unregistered : ActorConfig → Event
  inited served closed engine_closed : ℕ → Event

pub record Group : Type 0 where
  pub actors : List (ℕ × Item)
  pub has_discoverer : Bool
  pub engines : List (ℕ × ℕ)
  pub is_closed : Bool

unfoldable pub new_group : Group
new_group = record { actors = []; has_discoverer = false; engines = []; is_closed = false }

unfoldable pub add_actor : ActorConfig → List ℕ → Bool → Group → Group
add_actor config msg_list is_server g =
    let item : Item = record {
      config = config;
      msg_list = msg_list;
      is_server = is_server;
      count = 0;
    } in
    record g { actors = insert config.id item g.actors }

unfoldable pub get_actor_by_id : Group → ℕ → Option Item
get_actor_by_id g id = lookup id g.actors

unfoldable pub values : List (ℕ × Item) → List Item
values [] = []
values ((id, item) ∷ rest) = item ∷ values rest

-- The library's `sort.Slice`, by the key that the comparison reads.
unfoldable pub insert_by {ℓ} : {A : Type ℓ} → (A → ℕ) → A → List A → List A
insert_by key x [] = x ∷ []
insert_by key x (y ∷ ys) =
    let later = insert_by key x ys in if leb (key x) (key y) then x ∷ y ∷ ys else y ∷ later

unfoldable pub sort_by {ℓ} : {A : Type ℓ} → (A → ℕ) → List A → List A
sort_by key [] = []
sort_by key (x ∷ xs) = insert_by key x (sort_by key xs)

unfoldable pub of_type : ℕ → List Item → List Item
of_type actor_type [] = []
of_type actor_type (item ∷ items) =
    let rest = of_type actor_type items in
    if item.config.actor_type == actor_type then item ∷ rest else rest

-- `res[0].count.Add(1)`, on the item that the map has under the id.
unfoldable pub add_one : ℕ → List Item → List Item
add_one id [] = []
add_one id (item ∷ items) =
    let rest = add_one id items in
    if item.config.id == id
    then record item { count = (item.count + 1) % 2 ^ 64 } ∷ rest
    else item ∷ rest

-- On the items of the map in the order of this range. `none` is the error.
unfoldable pub pick_head : List Item → List Item → Option ActorConfig × List Item
pick_head [] items = (none, items)
pick_head (item ∷ res) items = (some item.config, add_one item.config.id items)

-- The order of the int64 that the bits are.
unfoldable pub signed_order : ℕ → ℕ
signed_order n = (n + 2 ^ 63) % 2 ^ 64

-- The reads, the sort and the `Add` as one step: choices made one after another.
unfoldable pub find_pool_actor_by_type : ℕ → List Item → Option ActorConfig × List Item
find_pool_actor_by_type actor_type items =
    pick_head (sort_by (λ item. signed_order item.count) (of_type actor_type items)) items

unfoldable pub register_actor : Bool → Item → List Event
register_actor has_discoverer item =
    let cfg = if length item.msg_list == 0 then item.config else record (item.config) {
      supported_msg_ids = sort_by (λ id. (id + 2 ^ 31) % 2 ^ 32) item.msg_list;
    } in
    if has_discoverer then registered cfg ∷ [] else []

unfoldable pub unregister_actor : Bool → Item → List Event
unregister_actor has_discoverer item = if has_discoverer then unregistered item.config ∷ [] else []

-- The loop over `succeeded`, which is kept last first.
unfoldable pub close_each : Bool → List Item → List Event
close_each has [] = []
close_each has (item ∷ rest) =
    closed item.config.id ∷ (unregister_actor has item ++ close_each has rest)

unfoldable pub rollback_run_init : Bool → List Item → Item → Bool → List Event
rollback_run_init has succeeded failed init_failed =
    close_each has succeeded
    ++ ((if init_failed then [] else closed failed.config.id ∷ []) ++ unregister_actor has failed)

-- `init` and `run_server` tell which actors come up.
module _ (init run_server : ℕ → Bool) (has : Bool) where
  unfoldable pub run_from : List Item → List Item → List Event → List Event × Bool
  run_from [] succeeded log = (log, true)
  run_from (item ∷ items) succeeded log =
      let id = item.config.id in
      let tried = log ++ (register_actor has item ++ (inited id ∷ [])) in
      let started = if item.is_server then tried ++ (served id ∷ []) else tried in
      let rest = run_from items (item ∷ succeeded) started in
      if init id
      then (if item.is_server
          then (if run_server id
              then rest
              else (started ++ rollback_run_init has succeeded item false, false))
          else rest)
      else (tried ++ rollback_run_init has succeeded item true, false)

unfoldable pub run_group : (ℕ → Bool) → (ℕ → Bool) → Group → List Event × Bool
run_group init run_server g =
    run_from init run_server g.has_discoverer (sort_by (λ item. item.config.id) (values g.actors))
      [] []

unfoldable pub close_items : List Item → List Event
close_items [] = []
close_items (item ∷ items) = closed item.config.id ∷ close_items items

-- An engine is a number, 0 for nil.
unfoldable pub get_script_engine : Group → ℕ → Option ℕ
get_script_engine g engine_type = lookup engine_type g.engines

unfoldable pub set_script_engine : ℕ → ℕ → Group → Group
set_script_engine engine_type engine g =
    if engine == 0 then g else record g { engines = insert engine_type engine g.engines }

unfoldable pub close_engines : List (ℕ × ℕ) → List Event
close_engines [] = []
close_engines ((engine_type, engine) ∷ rest) =
    let later = close_engines rest in if engine == 0 then later else engine_closed engine ∷ later

unfoldable pub close_script_engines : Group → Group × List Event
close_script_engines g = (record g { engines = [] }, close_engines g.engines)

-- `Close`, which works once.
unfoldable pub close : Group → Group × List Event
close g =
    let engines = close_script_engines (record g { is_closed = true }) in
    if g.is_closed then (g, []) else (engines.0, close_items (values g.actors) ++ engines.1)
