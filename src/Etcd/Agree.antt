-- ===== src/Etcd/Agree.antt =====
-- zdiscovery/etcd.go: the searches by the key of a type agree.
use zhenyi.Prelude.{ℕ, ◌^◌, ◌<◌, ◌≡◌, refl, ap, List, [], ◌∷◌, ◌++◌, Option, arith}
use zhenyi.Model.{ActorConfig}
use zhenyi.Etcd.Cache.{Cache, find_actors_by_type}
use zhenyi.Etcd.Keys.{slash, servers, trim_prefix, after_prefix, or_whole, onto_first, split}
use zhenyi.Etcd.Search.{
  same_bytes, own_entries, entries_at, in_parts, find_all_by_prefix, configs, candidates_at,
  candidates,
}
use zhenyi.Prelude.Digits.{decimal, decimal-digits}
use zhenyi.Etcd.Decimal.{parse_key-key_of, split-digits, parse_uint-decimal}

configs-own_entries : (actors : List ActorConfig) → configs (own_entries actors) ≡ actors
unfolding configs own_entries
configs-own_entries [] = refl
configs-own_entries (c ∷ actors) = ap (λ r. c ∷ r) (configs-own_entries actors)

-- For the key "/servers/" and a printed uint32 type, what `FindRandom` and `FindPoll` choose from and what
-- `FindAllByPrefix` returns are the actors that the cache has under the type.
pub candidates-configs :
    (t : ℕ) (cache : Option Cache)
    → t < 2 ^ 32
    → let key = slash ∷ servers ++ slash ∷ decimal t in
      (candidates key cache ≡ find_actors_by_type t cache)
      × (configs (find_all_by_prefix key cache) ≡ find_actors_by_type t cache)
unfolding candidates candidates_at find_all_by_prefix trim_prefix after_prefix or_whole split
    onto_first in_parts same_bytes entries_at
candidates-configs t cache low = (
  rw ((parse_key-key_of t 0 low (omega arith)).1),
  rw (split-digits (decimal t) (decimal-digits t), parse_uint-decimal 32 t low)
      (configs-own_entries (find_actors_by_type t cache)),
)
