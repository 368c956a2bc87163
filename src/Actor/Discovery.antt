-- ===== src/Actor/Discovery.antt =====
-- zactor/group.go: the view of the actors of other processes. `watchActor` is one goroutine, so the
-- events that it handles are a sequence; `Range` over the map takes the entries in their order. A
-- version is an int64, kept as its 64 bits.
use zhenyi.Prelude.Maps.{lookup, insert, erase}
use zhenyi.Prelude.{ℕ, ◌+◌, ◌%◌, ◌^◌, List, [], ◌∷◌, ◌++◌, Option, none, some, ◌==◌, if◌then◌else◌}
use zhenyi.Model.{ActorConfig}

abbrev pub Others : Type 0
Others = List (ℕ × ActorConfig)

abbrev pub RemoteTable : Type 0
RemoteTable = List (ℕ × List ActorConfig)

pub record Snapshot : Type 0 where
  pub version : ℕ
  pub table : RemoteTable

pub record Discovery : Type 0 where
  pub others : Others
  pub version : ℕ
  pub snapshot : Option Snapshot

abbrev pub new_discovery : Discovery
new_discovery = record { others = []; version = 0; snapshot = none }

unfoldable pub configs_of : Option (List ActorConfig) → List ActorConfig
configs_of none = []
configs_of (some list) = list

-- `table[id] = append(table[id], cfg)` for each id that the actor supports.
unfoldable pub add_config : ActorConfig → List ℕ → RemoteTable → RemoteTable
add_config cfg [] table = table
add_config cfg (id ∷ ids) table =
    add_config cfg ids (insert id (configs_of (lookup id table) ++ (cfg ∷ [])) table)

unfoldable pub build_from : Others → RemoteTable → RemoteTable
build_from [] table = table
build_from ((id, cfg) ∷ others) table =
    build_from others (add_config cfg cfg.supported_msg_ids table)

unfoldable pub rebuild : Discovery → Snapshot
rebuild g = record { version = g.version; table = build_from g.others [] }

-- The snapshot if it has the current version, or else a new one.
unfoldable pub snapshot_or_new : Discovery → Option Snapshot → Snapshot
snapshot_or_new g none = rebuild g
snapshot_or_new g (some snap) = if snap.version == g.version then snap else rebuild g

unfoldable pub current : Discovery → Snapshot
current g = snapshot_or_new g g.snapshot

-- The snapshot that is read is also the one that is stored, be it old or new.
unfoldable pub lookup_others : Discovery → ℕ → Discovery × List ActorConfig
lookup_others g msg_id =
    let snap = current g in
    if msg_id == 0
    then (g, [])
    else (record g { snapshot = some snap }, configs_of (lookup msg_id snap.table))

-- A configuration from the watched channel: an id of 0 is skipped, an actor type of 0 deletes.
unfoldable pub watched : ActorConfig → Discovery → Discovery
watched cfg g =
    let others =
      if cfg.actor_type == 0 then erase cfg.id g.others else insert cfg.id cfg g.others in
    if cfg.id == 0 then g else record g { others = others; version = (g.version + 1) % 2 ^ 64 }

unfoldable pub store_all : ℕ → List ActorConfig → Others → Others
store_all process [] others = others
store_all process (cfg ∷ cfgs) others =
    store_all process cfgs (if cfg.process == process then others else insert cfg.id cfg others)

-- The configurations that are there before the watch starts.
unfoldable pub load_existing : ℕ → List ActorConfig → Discovery → Discovery
load_existing process cfgs g = record g {
  others = store_all process cfgs g.others;
  version = (g.version + 1) % 2 ^ 64;
}
