-- ===== src/Actor/Cache.antt =====
-- The cached route table of the other processes: what a lookup sees of the configurations.
use native.Mathlib.Nat.{mod-eq_of_lt, le_refl}
use zhenyi.Prelude.Maps.{lookup, insert, erase, lookup-insert}
use zhenyi.Prelude.{
  ℕ, ◌+◌, ◌%◌, ◌^◌, ◌≤◌, ◌<◌, ◌≡◌, refl, sym, List, [], ◌∷◌, ◌++◌, Option, none, some, length,
  arith, ◌==◌, if◌then◌else◌, Bool-cases, ==_iff, inl, inr, append-nil, append_assoc, some_eq,
  subst,
}
use zhenyi.Model.{ActorConfig}
use zhenyi.Actor.Discovery.{
  Others, RemoteTable, Snapshot, Discovery, new_discovery, configs_of, add_config, build_from,
  rebuild, snapshot_or_new, current, lookup_others, watched, load_existing, store_all,
}

-- One entry for each time that the id is in the list.
unfoldable pub copies : ℕ → List ℕ → ActorConfig → List ActorConfig
copies m [] cfg = []
copies m (id ∷ ids) cfg = let rest = copies m ids cfg in if id == m then cfg ∷ rest else rest

-- The configurations that support a message id, in the order of the map.
unfoldable pub supporters : ℕ → Others → List ActorConfig
supporters m [] = []
supporters m ((id, cfg) ∷ others) = copies m cfg.supported_msg_ids cfg ++ supporters m others

add_config-lookup :
    (cfg : ActorConfig) (ids : List ℕ) (m : ℕ) (t : RemoteTable)
    → configs_of (lookup m (add_config cfg ids t)) ≡ configs_of (lookup m t) ++ copies m ids cfg
unfolding add_config copies configs_of
add_config-lookup cfg [] m t = sym (append-nil _)
add_config-lookup cfg (id ∷ ids) m t =
    let list = configs_of (lookup id t) ++ (cfg ∷ []) in
    rw (add_config-lookup cfg ids m (insert id list t), lookup-insert id m list t)
      (elim (Bool-cases (id == m)) [
        | inl e ↦
            rw (e, (==_iff id m).0 e)
              (append_assoc (configs_of (lookup m t)) (cfg ∷ []) (copies m ids cfg))
        | inr e ↦ rw e
      ])

build_from-lookup :
    (others : Others) (m : ℕ) (t : RemoteTable)
    → configs_of (lookup m (build_from others t)) ≡ configs_of (lookup m t) ++ supporters m others
unfolding build_from supporters
build_from-lookup [] m t = sym (append-nil _)
build_from-lookup ((id, cfg) ∷ others) m t =
    rw
      (
        build_from-lookup others m (add_config cfg cfg.supported_msg_ids t),
        add_config-lookup cfg cfg.supported_msg_ids m t,
      )
      (append_assoc (configs_of (lookup m t)) (copies m cfg.supported_msg_ids cfg)
        (supporters m others))

-- What other goroutines and the watch do.
pub data Change : Type 0 where
  loaded : ℕ → List ActorConfig → Change
  changed : ActorConfig → Change
  asked : ℕ → Change

unfoldable pub handle : Change → Discovery → Discovery
handle (loaded process cfgs) g = load_existing process cfgs g
handle (changed cfg) g = watched cfg g
handle (asked msg_id) g = (lookup_others g msg_id).0

unfoldable pub handle_all : List Change → Discovery → Discovery
handle_all [] g = g
handle_all (e ∷ es) g = handle_all es (handle e g)

pub record IsCurrent (g : Discovery) : Type 0 where
  pub older : (snap : Snapshot) → g.snapshot ≡ some snap → snap.version ≤ g.version
  pub same :
      (snap : Snapshot)
      → g.snapshot ≡ some snap
      → snap.version ≡ g.version
      → snap.table ≡ build_from g.others []

snapshot-table :
    (g : Discovery) (o : Option Snapshot)
    → ((snap : Snapshot)
        → o ≡ some snap
        → snap.version ≡ g.version
        → snap.table ≡ build_from g.others [])
    → ((snapshot_or_new g o).table ≡ build_from g.others [])
      × ((snapshot_or_new g o).version ≡ g.version)
unfolding snapshot_or_new rebuild
snapshot-table g none same = (refl, refl)
snapshot-table g (some snap) same = elim (Bool-cases (snap.version == g.version)) [
  | inl e ↦ let f = (==_iff snap.version g.version).0 e in rw e (same snap refl f, f)
  | inr e ↦ rw e (refl, refl)
]

current_lem :
    (g : Discovery)
    → IsCurrent g
    → ((current g).table ≡ build_from g.others []) × ((current g).version ≡ g.version)
unfolding current
current_lem g inv = snapshot-table g g.snapshot inv.same

-- A new version makes every snapshot stale.
bumped-IsCurrent :
    (g : Discovery) (others : Others)
    → g.version + 1 < 2 ^ 64
    → IsCurrent g
    → IsCurrent (record g { others = others; version = (g.version + 1) % 2 ^ 64 })
      × ((g.version + 1) % 2 ^ 64 ≤ g.version + 1)
bumped-IsCurrent g others small inv =
    let e : (g.version + 1) % 2 ^ 64 ≡ g.version + 1 = mod-eq_of_lt small in
    (
      record {
        older = λ snap f. rw e (let h = inv.older snap f in omega arith);
        same = λ snap f same. absurd (let h = inv.older snap f in omega (arith, e));
      },
      rw e (le_refl (g.version + 1)),
    )

asked-IsCurrent : (g : Discovery) (m : ℕ) → IsCurrent g → IsCurrent (lookup_others g m).0
unfolding lookup_others
asked-IsCurrent g m inv = elim (Bool-cases (m == 0)) [
  | inl e ↦ rw e inv
  | inr e ↦
      let (table, version) = current_lem g inv in
      rw e (record {
        older = λ snap f.
            let q = some_eq f in
            subst (λ v. v.version ≤ g.version) q (rw version (le_refl g.version));
        same = λ snap f v. subst (λ v. v.table ≡ build_from g.others []) (some_eq f) table;
      })
]

asked_version : (g : Discovery) (m : ℕ) → (lookup_others g m).0.version ≡ g.version
unfolding lookup_others
asked_version g m = elim (Bool-cases (m == 0)) [ inl e ↦ rw e | inr e ↦ rw e ]

handle-IsCurrent :
    (e : Change) (g : Discovery)
    → g.version + 1 < 2 ^ 64
    → IsCurrent g
    → IsCurrent (handle e g) × ((handle e g).version ≤ g.version + 1)
unfolding handle load_existing watched
handle-IsCurrent (loaded process cfgs) g small inv =
    bumped-IsCurrent g (store_all process cfgs g.others) small inv
handle-IsCurrent (changed cfg) g small inv =
    let others =
      if cfg.actor_type == 0 then erase cfg.id g.others else insert cfg.id cfg g.others in
    elim (Bool-cases (cfg.id == 0)) [
      | inl e ↦ rw e (inv, omega arith)
      | inr e ↦ rw e (bumped-IsCurrent g others small inv)
    ]
handle-IsCurrent (asked m) g small inv =
    (asked-IsCurrent g m inv, rw (asked_version g m) (omega arith))

handle_all-IsCurrent :
    (es : List Change) (g : Discovery)
    → g.version + length es < 2 ^ 64
    → IsCurrent g
    → IsCurrent (handle_all es g)
unfolding handle_all
handle_all-IsCurrent [] g small inv = inv
handle_all-IsCurrent (e ∷ es) g small inv =
    let (next, bound) = handle-IsCurrent e g (omega arith) inv in
    handle_all-IsCurrent es (handle e g) (omega arith) next

-- From an empty view, after any sequence of fewer than `2 ^ 64` loads, changes and lookups, a
-- lookup returns exactly the configurations that support the message id at that time (one for each
-- time that the id is in a configuration's list), and none for the id 0: the cache of the route
-- table is never stale.
pub lookup_others-supporters :
    (es : List Change) (m : ℕ)
    → length es < 2 ^ 64
    → (lookup_others (handle_all es new_discovery) m).1
      ≡ (if m == 0 then [] else supporters m (handle_all es new_discovery).others)
unfolding lookup_others configs_of lookup
lookup_others-supporters es m small =
    let g = handle_all es new_discovery in
    let start : IsCurrent new_discovery = record { older = λ snap e. cc; same = λ snap e f. cc } in
    let (table, version) =
      current_lem g (handle_all-IsCurrent es new_discovery (omega arith) start) in
    elim (Bool-cases (m == 0)) [
      | inl e ↦ rw e
      | inr e ↦ rw (e, table, build_from-lookup g.others m [])
    ]
