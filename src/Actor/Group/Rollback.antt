-- ===== src/Actor/Group/Rollback.antt =====
-- zactor/group.go: `Run` where all actors come up, and where one does not.
use zhenyi.Prelude.{
  ℕ, ◌≡◌, refl, ap, sym, ◌∙◌, ◌⊎◌, inl, inr, arith, Bool, true, false, List, [], ◌∷◌, ◌++◌,
  append-nil, append_assoc, All, if◌then◌else◌, if_elim, subst,
}
use zhenyi.Actor.Group.{
  Item, Event, inited, served, closed, Group, values, sort_by, register_actor, unregister_actor,
  close_each, rollback_run_init, run_from, run_group,
}

-- What bringing one actor up logs.
unfoldable pub starts : Bool → Item → List Event
starts has item =
    register_actor has item
    ++ (inited item.config.id ∷ (if item.is_server then served item.config.id ∷ [] else []))

unfoldable pub starts_all : Bool → List Item → List Event
starts_all has [] = []
starts_all has (item ∷ items) = starts has item ++ starts_all has items

unfoldable pub reverse_onto : List Item → List Item → List Item
reverse_onto [] acc = acc
reverse_onto (x ∷ xs) acc = reverse_onto xs (x ∷ acc)

-- Closing and unregistering one actor.
unfoldable pub stops : Bool → Item → List Event
stops has item = closed item.config.id ∷ unregister_actor has item

unfoldable pub stops_all : Bool → List Item → List Event
stops_all has [] = []
stops_all has (item ∷ items) = stops has item ++ stops_all has items

module _ (init run_server : ℕ → Bool) (has : Bool) where
  unfoldable pub comes_up : Item → Bool
  comes_up item =
      if init item.config.id
      then (if item.is_server then run_server item.config.id else true)
      else false

  -- The attempt at an actor that does not come up, and the way back. One whose `Init` fails is not
  -- closed, one whose server fails is.
  unfoldable pub failing : Item → List Item → List Event
  failing item succeeded =
      if init item.config.id
      then starts has item ++ (stops_all has succeeded ++ stops has item)
      else register_actor has item
        ++ (inited item.config.id ∷ (stops_all has succeeded ++ unregister_actor has item))

  unfoldable next : Item → List Item → List Item → List Event → List Event × Bool
  next item items succeeded log =
      if comes_up item
      then run_from init run_server has items (item ∷ succeeded) (log ++ starts has item)
      else (log ++ failing item succeeded, false)

  onto :
      (log reg rest : List Event) (e : Event)
      → (log ++ (reg ++ (e ∷ []))) ++ rest ≡ log ++ (reg ++ (e ∷ rest))
  onto log reg rest e =
      append_assoc log (reg ++ (e ∷ [])) rest ∙ ap (λ l. log ++ l) (append_assoc reg (e ∷ []) rest)

  close_each-stops_all : (items : List Item) → close_each has items ≡ stops_all has items
  unfolding close_each stops_all stops
  close_each-stops_all [] = refl
  close_each-stops_all (item ∷ items) =
      ap (λ l. closed item.config.id ∷ (unregister_actor has item ++ l))
        (close_each-stops_all items)

  run_from_step :
      (item : Item) (items succeeded : List Item) (log : List Event)
      → run_from init run_server has (item ∷ items) succeeded log ≡ next item items succeeded log
  unfolding run_from next comes_up starts failing rollback_run_init stops
  run_from_step item items succeeded log =
      let reg = register_actor has item in
      let e1 = onto log reg (served item.config.id ∷ []) (inited item.config.id) in
      let e2 = close_each-stops_all succeeded in
      let e3 =
        onto log reg (stops_all has succeeded ++ unregister_actor has item)
          (inited item.config.id) in
      let back = stops_all has succeeded ++ stops has item in
      let e4 =
        append_assoc log (reg ++ (inited item.config.id ∷ (served item.config.id ∷ []))) back in
      ground (arith, e1, e2, e3, e4)

  -- How a run ends, from some point on.
  unfoldable pub EndsFrom : List Item → List Item → List Event → List Event × Bool → Type 0
  EndsFrom items succeeded log r =
      All (λ item. comes_up item ≡ true) items × (r ≡ (log ++ starts_all has items, true))
      ⊎ ((pre : List Item) × (item : Item) × (post : List Item) × (items ≡ pre ++ (item ∷ post))
          × All (λ before. comes_up before ≡ true) pre
          × (comes_up item ≡ false)
          × (r ≡ (log ++ (starts_all has pre ++ failing item (reverse_onto pre succeeded)), false)))

  -- One actor more in front.
  in_front :
      (item : Item) (items succeeded : List Item) (log : List Event) (r : List Event × Bool)
      → comes_up item ≡ true
      → EndsFrom items (item ∷ succeeded) (log ++ starts has item) r
      → EndsFrom (item ∷ items) succeeded log r
  unfolding EndsFrom starts_all reverse_onto
  in_front item items succeeded log r up (inl (ups, e)) = inl (
    (up, ups),
    e ∙ ap (λ l. (l, true)) (append_assoc log (starts has item) (starts_all has items)),
  )
  in_front item items succeeded log r up (inr (pre, x, post, split, ups, down, e)) =
      let back = failing x (reverse_onto pre (item ∷ succeeded)) in
      inr (
        item ∷ pre,
        x,
        post,
        ap (◌∷◌ item) split,
        (up, ups),
        down,
        e
            ∙ ap (λ l. (l, false))
                (append_assoc log (starts has item) (starts_all has pre ++ back)
                  ∙ ap (λ l. log ++ l)
                      (sym (append_assoc (starts has item) (starts_all has pre) back))),
      )

  ends_empty :
      (succeeded : List Item) (log : List Event)
      → EndsFrom [] succeeded log (run_from init run_server has [] succeeded log)
  unfolding EndsFrom run_from starts_all
  ends_empty succeeded log = inl (_, ap (λ l. (l, true)) (sym (append-nil log)))

  ends_here :
      (item : Item) (items succeeded : List Item) (log : List Event)
      → comes_up item ≡ false
      → EndsFrom (item ∷ items) succeeded log (log ++ failing item succeeded, false)
  unfolding EndsFrom starts_all reverse_onto
  ends_here item items succeeded log down = inr ([], item, items, refl, _, down, refl)

  run_from-EndsFrom :
      (items succeeded : List Item) (log : List Event)
      → EndsFrom items succeeded log (run_from init run_server has items succeeded log)
  unfolding next comes_up
  run_from-EndsFrom [] succeeded log = ends_empty succeeded log
  run_from-EndsFrom (item ∷ items) succeeded log =
      subst (EndsFrom (item ∷ items) succeeded log) (sym (run_from_step item items succeeded log)) (
        if_elim (EndsFrom (item ∷ items) succeeded log) (comes_up item)
          (λ up.
            in_front item items succeeded log
              (run_from init run_server has items (item ∷ succeeded) (log ++ starts has item)) up
              (run_from-EndsFrom items (item ∷ succeeded) (log ++ starts has item)))
          (λ down. ends_here item items succeeded log down))

-- How `Run` ends: all actors are up, in the order of their ids; or the first that does not come up
-- ends it, and the actors before it are closed and unregistered, the last started first, then the
-- failed one is unregistered, and closed if its `Init` had returned.
unfoldable pub Ends : (ℕ → Bool) → (ℕ → Bool) → Bool → List Item → List Event × Bool → Type 0
Ends init run_server has items r =
    All (λ item. comes_up init run_server has item ≡ true) items
      × (r ≡ (starts_all has items, true))
    ⊎ ((pre : List Item) × (item : Item) × (post : List Item) × (items ≡ pre ++ (item ∷ post))
        × All (λ before. comes_up init run_server has before ≡ true) pre
        × (comes_up init run_server has item ≡ false)
        × (r ≡ (
          starts_all has pre ++ failing init run_server has item (reverse_onto pre []),
          false,
        )))

-- `Run` takes the actors by ascending id. Either all come up and it returns no error, or it fails at
-- the first that does not: the actors before it, and no others, had come up, and they are closed and
-- unregistered in the reverse of their order, then the failed actor is unregistered, and closed
-- before that if its `Init` had succeeded.
pub run_group-Ends :
    (init run_server : ℕ → Bool) (g : Group)
    → Ends init run_server g.has_discoverer
        (sort_by (λ item. item.config.id) (values g.actors))
        (run_group init run_server g)
unfolding run_group Ends EndsFrom
run_group-Ends init run_server g =
    run_from-EndsFrom init run_server g.has_discoverer
      (sort_by (λ item. item.config.id) (values g.actors)) [] []
