-- ===== src/Etcd/Events.antt =====
-- zdiscovery/etcd.go: the watched events. JSON's decoding is not modelled: an event has the configuration
-- that its value decodes to, if it does. `ch` is a channel of 100, and what it has is in order.
use zhenyi.Prelude.{
  ℕ, Bool, true, false, ◌&&◌, List, [], ◌∷◌, ◌++◌, Option, none, some, length, ltb, ◌==◌,
  if◌then◌else◌,
}
use zhenyi.Model.{ActorConfig}
use zhenyi.Etcd.Cache.{Cache, map_of, append_cached, put_cached, drop_cached}
use zhenyi.Etcd.Keys.{parse_key}

-- A put's value; a deletion's earlier value, and its key.
pub data Event : Type 0 where
  puts : Option ActorConfig → Event
  deletes : Option ActorConfig → List ℕ → Event

pub record View : Type 0 where
  pub cache : Option Cache
  pub ch : List ActorConfig

-- The notice of a deletion has no type.
abbrev pub notice : ℕ → ActorConfig
notice id = record {
  id = id;
  process = 0;
  actor_type = 0;
  index = 0;
  max_restarts = 0;
  supported_msg_ids = [];
}

-- The send that gives up when the channel is full.
unfoldable pub offer : ActorConfig → View → View
offer c d = if ltb (length d.ch) 100 then record d { ch = d.ch ++ (c ∷ []) } else d

unfoldable pub handle_put : Option ActorConfig → View → View
handle_put none d = d
handle_put (some c) d = offer c (record d { cache = some (put_cached c (map_of d.cache)) })

unfoldable pub or_zero : Option (ℕ × ℕ) → ℕ × ℕ
or_zero none = (0, 0)
or_zero (some key) = key

unfoldable pub decoded : Option ActorConfig → ℕ × ℕ
decoded none = (0, 0)
decoded (some c) = (c.actor_type, c.id)

-- The type and id that a deletion is of.
unfoldable pub deleted_key : Option ActorConfig → List ℕ → ℕ × ℕ
deleted_key before key =
    let k = decoded before in if k.1 == 0 && k.0 == 0 then or_zero (parse_key key) else k

unfoldable pub delete_cached : ℕ → ℕ → Option Cache → Option Cache
delete_cached actor_type id none = none
delete_cached actor_type id (some m) = some (drop_cached actor_type id m)

unfoldable pub delete_at : ℕ × ℕ → View → View
delete_at (actor_type, id) d =
    let after : View = record d { cache = delete_cached actor_type id d.cache } in
    if id == 0 && actor_type == 0 then after else offer (notice id) after

unfoldable pub handle_delete : Option ActorConfig → List ℕ → View → View
handle_delete before key d = delete_at (deleted_key before key) d

unfoldable pub handle : Event → View → View
handle (puts value) d = handle_put value d
handle (deletes before key) d = handle_delete before key d

unfoldable pub watch : List Event → View → View
watch [] d = d
watch (e ∷ es) d = watch es (handle e d)

-- `loadAllToCache`, from the entries that etcd answers with; `none` is an error.
unfoldable pub load_entries : List (Option ActorConfig) → Cache → Cache
load_entries [] m = m
load_entries (none ∷ rest) m = load_entries rest m
load_entries (some c ∷ rest) m = load_entries rest (append_cached c m)

unfoldable pub load_all_to_cache : Option (List (Option ActorConfig)) → View → View × Bool
load_all_to_cache none d = (d, false)
load_all_to_cache (some entries) d = (record d { cache = some (load_entries entries []) }, true)
