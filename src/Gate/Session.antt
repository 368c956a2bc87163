-- ===== src/Gate/Session.antt =====
-- zgate/session.go: `SessionManager`. A `range` over a Go map takes its entries in any order: the
-- argument `info` of `set_session_actor_id` is such an order.
use zhenyi.Prelude.Maps.{lookup, insert, erase, lookup-insert, lookup-erase}
use zhenyi.Prelude.{
  ℕ, ◌<◌, ◌≡◌, refl, ap, ◌∙◌, List, [], ◌∷◌, Option, none, some, length, arith, ◌==◌, if◌then◌else◌,
  Bool-cases, ==_iff, ==_ne, inl, inr, subst,
}

abbrev pub ActorIds : Type 0
ActorIds = List (ℕ × ℕ)

abbrev pub Sessions : Type 0
Sessions = List (ℕ × ActorIds)

unfoldable pub id_or_zero : Option ℕ → ℕ
id_or_zero none = 0
id_or_zero (some actor_id) = actor_id

unfoldable pub ids_or_empty : Option ActorIds → ActorIds
ids_or_empty none = []
ids_or_empty (some ids) = ids

unfoldable pub id_in : Option ActorIds → ℕ → ℕ
id_in none actor_type = 0
id_in (some ids) actor_type = id_or_zero (lookup actor_type ids)

unfoldable pub get_session_actor_id : Sessions → ℕ → ℕ → ℕ
get_session_actor_id m auth_id actor_type = id_in (lookup auth_id m) actor_type

unfoldable pub put_all : List (ℕ × ℕ) → ActorIds → ActorIds
put_all [] ids = ids
put_all ((actor_type, actor_id) ∷ info) ids = put_all info (insert actor_type actor_id ids)

-- `none` is the error "not actor".
unfoldable pub set_session_actor_id : ℕ → List (ℕ × ℕ) → Sessions → Option Sessions
set_session_actor_id auth_id info m =
    if length info == 0
    then none
    else some (insert auth_id (put_all info (ids_or_empty (lookup auth_id m))) m)

unfoldable pub del_session_actor_id : ℕ → Sessions → Sessions
del_session_actor_id auth_id m = erase auth_id m

-- The nil map for an absent id.
unfoldable pub get_all_actor : Sessions → ℕ → Option ActorIds
get_all_actor m auth_id = lookup auth_id m

-- A list of entries with no key twice: what a Go map can range over.
unfoldable pub IsMap : List (ℕ × ℕ) → Type 0
IsMap [] = Unit
IsMap ((k, v) ∷ info) = (lookup k info ≡ none) × IsMap info

unfoldable pub or_else : Option ℕ → Option ℕ → Option ℕ
or_else none o = o
or_else (some v) o = some v

unfoldable pub id_or : Option ℕ → ℕ → ℕ
id_or none actor_id = actor_id
id_or (some actor_id) _ = actor_id

id_or_zero-or_else : (o p : Option ℕ) → id_or_zero (or_else o p) ≡ id_or o (id_or_zero p)
unfolding id_or_zero or_else id_or
id_or_zero-or_else none p = refl
id_or_zero-or_else (some a) p = refl

put_all-lookup :
    (info : List (ℕ × ℕ)) (ids : ActorIds) (k : ℕ)
    → IsMap info
    → lookup k (put_all info ids) ≡ or_else (lookup k info) (lookup k ids)
unfolding put_all IsMap or_else lookup
put_all-lookup [] ids k h = refl
put_all-lookup ((j, v) ∷ info) ids k (fresh, h) =
    rw (put_all-lookup info (insert j v ids) k h, lookup-insert j k v ids)
      (elim (Bool-cases (j == k)) [
        | inl e ↦
            let absent = subst (λ i. lookup i info ≡ none) ((==_iff j k).0 e) fresh in
            rw (e, absent)
        | inr e ↦ rw e
      ])

id_in-ids_or_empty :
    (o : Option ActorIds) (k : ℕ) → id_or_zero (lookup k (ids_or_empty o)) ≡ id_in o k
unfolding id_in id_or_zero ids_or_empty lookup
id_in-ids_or_empty none k = refl
id_in-ids_or_empty (some ids) k = refl

-- Writing a map of a session's actors that is not empty succeeds and sets exactly the actor types
-- that it names, in whatever order it is ranged over; the session's other types and all other
-- sessions stay.
pub set_session_actor_id-get :
    (auth_id : ℕ) (info : List (ℕ × ℕ)) (m : Sessions) (auth actor_type : ℕ)
    → IsMap info
    → 0 < length info
    → (t : Sessions) × (set_session_actor_id auth_id info m ≡ some t)
      × (get_session_actor_id t auth actor_type ≡ (
          if auth_id == auth
          then id_or (lookup actor_type info) (get_session_actor_id m auth actor_type)
          else get_session_actor_id m auth actor_type))
unfolding set_session_actor_id get_session_actor_id id_in
set_session_actor_id-get auth_id info m auth actor_type h pos =
    let ids = ids_or_empty (lookup auth_id m) in
    (
      insert auth_id (put_all info ids) m,
      rw (==_ne (length info) 0 (λ e. absurd (omega arith))),
      rw (lookup-insert auth_id auth (put_all info ids) m) (elim (Bool-cases (auth_id == auth)) [
        | inl e ↦ rw e (
            ap id_or_zero (put_all-lookup info ids actor_type h)
            ∙ (id_or_zero-or_else (lookup actor_type info) (lookup actor_type ids)
                ∙ ap (id_or (lookup actor_type info)) (
                    id_in-ids_or_empty (lookup auth_id m) actor_type
                    ∙ ap (λ a. id_in (lookup a m) actor_type) ((==_iff auth_id auth).0 e))))
        | inr e ↦ rw e
      ]),
    )

-- A deleted session has no actor of any type, and the others keep theirs.
pub del_session_actor_id-get :
    (auth_id : ℕ) (m : Sessions) (auth actor_type : ℕ)
    → get_session_actor_id (del_session_actor_id auth_id m) auth actor_type
      ≡ (if auth_id == auth then 0 else get_session_actor_id m auth actor_type)
unfolding del_session_actor_id get_session_actor_id id_in
del_session_actor_id-get auth_id m auth actor_type =
    rw (lookup-erase auth_id auth m)
      (elim (Bool-cases (auth_id == auth)) [ inl e ↦ rw (e, id_in) | inr e ↦ rw e ])
