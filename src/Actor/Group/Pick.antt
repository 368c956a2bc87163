-- ===== src/Actor/Group/Pick.antt =====
-- zactor/group.go: how `FindPoolActorByType` spreads its choices.
use zhenyi.Prelude.{
  ℕ, ◌+◌, ◌%◌, ◌^◌, ◌<◌, ◌≤◌, ◌≡◌, ◌≢◌, refl, ap, sym, ◌∙◌, subst, List, [], ◌∷◌, All, ◌==◌,
  if◌then◌else◌, arith, if_elim, ==_iff,
}
use zhenyi.Actor.Group.Sorted.{sort_by-All, sort_by-All_inv, LeastFirst, sort_by-LeastFirst}
use zhenyi.Actor.Group.{
  Item, sort_by, of_type, add_one, signed_order, pick_head, find_pool_actor_by_type,
}

-- Keys of one map.
unfoldable pub Distinct : List Item → Type 0
Distinct [] = Unit
Distinct (item ∷ items) = All (λ other. other.config.id ≢ item.config.id) items × Distinct items

-- Of the actors of one type, each has been chosen `n` or `n + 1` times.
unfoldable pub Balanced : ℕ → ℕ → List Item → Type 0
Balanced actor_type n items =
    All (λ item. item.config.actor_type ≡ actor_type → (n ≤ item.count) × (item.count ≤ n + 1))
      items

-- Counts whose next is still an int64 that is not negative.
unfoldable pub Low : List Item → Type 0
Low items = All (λ item. item.count + 1 < 2 ^ 63) items

signed_order-least :
    (a b : ℕ) → a + 1 < 2 ^ 63 → b + 1 < 2 ^ 63 → signed_order a ≤ signed_order b → a ≤ b
unfolding signed_order
signed_order-least a b la lb h = omega (arith, la, lb, h)

All-combine {ℓ} :
    {A : Type ℓ} (P Q R : A → Type 0) (xs : List A)
    → ((x : A) → P x → Q x → R x)
    → All P xs
    → All Q xs
    → All R xs
All-combine P Q R [] f ps qs = _
All-combine P Q R (x ∷ xs) f (p, ps) (q, qs) = (f x p q, All-combine P Q R xs f ps qs)

module _ (P : Item → Type 0) (actor_type : ℕ) where
  of_type-All : (items : List Item) → All P items → All P (of_type actor_type items)
  unfolding of_type
  of_type-All [] ps = _
  of_type-All (item ∷ items) (p, ps) =
      if_elim (All P) (item.config.actor_type == actor_type) (λ _. (p, of_type-All items ps))
        (λ _. of_type-All items ps)

  of_type-All_inv :
      (items : List Item)
      → All P (of_type actor_type items)
      → All (λ item. item.config.actor_type ≡ actor_type → P item) items
  unfolding of_type
  of_type-All_inv [] = λ ps. _
  of_type-All_inv (item ∷ items) =
      if_elim (λ r. All P r → All (λ i. i.config.actor_type ≡ actor_type → P i) (item ∷ items))
        (item.config.actor_type == actor_type) (λ _ (p, ps). ((λ _. p), of_type-All_inv items ps))
        (λ other ps. ((λ same. absurd (ground (arith, other, same))), of_type-All_inv items ps))

of_type-types :
    (actor_type : ℕ) (items : List Item)
    → All (λ item. item.config.actor_type ≡ actor_type) (of_type actor_type items)
unfolding of_type
of_type-types actor_type [] = _
of_type-types actor_type (item ∷ items) =
    if_elim (All (λ i. i.config.actor_type ≡ actor_type)) (item.config.actor_type == actor_type)
      (λ t. ((==_iff item.config.actor_type actor_type).0 t, of_type-types actor_type items))
      (λ _. of_type-types actor_type items)

-- An item is the only one with its id.
abbrev Only : List Item → Item → Type 0
Only items item = All (λ other. other.config.id ≡ item.config.id → other ≡ item) items

trivial : (items : List Item) → All (λ item. Unit {0}) items
trivial [] = _
trivial (item ∷ items) = (_, trivial items)

Distinct-Only : (items : List Item) → Distinct items → All (Only items) items
unfolding Distinct
Distinct-Only [] ds = _
Distinct-Only (item ∷ items) (fresh, ds) = (
  (
    (λ _. refl),
    All-combine (λ o. o.config.id ≢ item.config.id) (λ o. Unit {0})
        (λ o. o.config.id ≡ item.config.id → o ≡ item) items (λ o ne _ e. absurd (ne e)) fresh
        (trivial items),
  ),
  All-combine (λ o. o.config.id ≢ item.config.id) (Only items) (Only (item ∷ items)) items
      (λ o ne only. ((λ e. absurd (ne (sym e))), only)) fresh (Distinct-Only items ds),
)

add_one-All :
    (Q : Item → Type 0) (id : ℕ) (items : List Item)
    → All
        (λ i.
          (i.config.id ≡ id → Q (record i { count = (i.count + 1) % 2 ^ 64 }))
          × (i.config.id ≢ id → Q i))
        items
    → All Q (add_one id items)
unfolding add_one
add_one-All Q id [] qs = _
add_one-All Q id (item ∷ items) ((here, other), qs) =
    if_elim (All Q) (item.config.id == id)
      (λ t. (here ((==_iff item.config.id id).0 t), add_one-All Q id items qs))
      (λ t. (other (λ e. absurd (ground (arith, t, e))), add_one-All Q id items qs))

-- The chosen item `h` among the others, seen from the balance of a type.
abbrev Around : ℕ → ℕ → Item → Item → Type 0
Around actor_type n h i =
    (i.config.id ≡ h.config.id → i ≡ h)
    × (i.config.actor_type ≡ actor_type → (n ≤ i.count) × (i.count ≤ n + 1))
    × (i.config.actor_type ≡ h.config.actor_type → h.count ≤ i.count)

abbrev Within : ℕ → ℕ → Item → Type 0
Within actor_type n i = i.config.actor_type ≡ actor_type → (n ≤ i.count) × (i.count ≤ n + 1)

All-map :
    (P Q : Item → Type 0) (items : List Item) → ((i : Item) → P i → Q i) → All P items → All Q items
All-map P Q [] f ps = _
All-map P Q (i ∷ items) f (p, ps) = (f i p, All-map P Q items f ps)

-- The base moves up by one when the least count is already one above it.
next_base : ℕ → ℕ → Item → ℕ
next_base actor_type n h =
    if h.config.actor_type == actor_type then (if h.count == n then n else h.count) else n

raised :
    (actor_type n : ℕ) (h : Item)
    → Within actor_type n h
    → h.count + 1 < 2 ^ 63
    → (i : Item) → Around actor_type n h i
    → (i.config.id ≡ h.config.id
        → Within actor_type
            (next_base actor_type n h)
            (record i { count = (i.count + 1) % 2 ^ 64 }))
      × (i.config.id ≢ h.config.id → Within actor_type (next_base actor_type n h) i)
unfolding next_base
raised actor_type n h bound low i (only, within, least) = (
  (λ e t. ground (
    arith,
    ap (λ j. j.count) (only e),
    ap (λ j. j.config.actor_type) (only e),
    within t,
    bound,
    low,
  )),
  (λ ne t. ground (arith, within t, bound, least)),
)

add_one-Balanced :
    (actor_type n : ℕ) (h : Item) (items : List Item)
    → Within actor_type n h
    → h.count + 1 < 2 ^ 63
    → All (Around actor_type n h) items
    → Balanced actor_type (next_base actor_type n h) (add_one h.config.id items)
unfolding Balanced next_base
add_one-Balanced actor_type n h items bound low around =
    add_one-All (Within actor_type (next_base actor_type n h)) h.config.id items (
      All-map (Around actor_type n h)
        (λ i.
          (i.config.id ≡ h.config.id
            → Within actor_type (next_base actor_type n h)
                (record i { count = (i.count + 1) % 2 ^ 64 }))
          × (i.config.id ≢ h.config.id → Within actor_type (next_base actor_type n h) i))
        items (raised actor_type n h bound low) around)

-- What the head of the sorted candidates is.
abbrev Chosen : ℕ → ℕ → ℕ → List Item → Item → Type 0
Chosen wanted actor_type n items h =
    (h.config.actor_type ≡ wanted)
    × Only items h
    × (h.count + 1 < 2 ^ 63)
    × Within actor_type n h
    × All (λ i. i.config.actor_type ≡ wanted → h.count ≤ i.count) items

Chosen-Around :
    (wanted actor_type n : ℕ) (items : List Item) (h : Item)
    → Balanced actor_type n items
    → Chosen wanted actor_type n items h
    → All (Around actor_type n h) items
unfolding Balanced
Chosen-Around wanted actor_type n items h balanced (kind, only, low, within, least) =
    All-combine (λ i. i.config.id ≡ h.config.id → i ≡ h)
      (λ i. Within actor_type n i × (i.config.actor_type ≡ wanted → h.count ≤ i.count))
      (Around actor_type n h) items (λ i o (w, l). (o, w, (λ e. l (e ∙ kind)))) only
      (All-combine (Within actor_type n) (λ i. i.config.actor_type ≡ wanted → h.count ≤ i.count)
        (λ i. Within actor_type n i × (i.config.actor_type ≡ wanted → h.count ≤ i.count)) items
        (λ i w l. (w, l)) balanced least)

-- The candidates in the order of their counts.
abbrev candidates : ℕ → List Item → List Item
candidates wanted items = sort_by (λ item. signed_order item.count) (of_type wanted items)

candidates-Chosen :
    (wanted actor_type n : ℕ) (items : List Item) (h : Item) (rest : List Item)
    → Distinct items
    → Low items
    → Balanced actor_type n items
    → candidates wanted items ≡ h ∷ rest
    → Chosen wanted actor_type n items h
unfolding Balanced LeastFirst Low
candidates-Chosen wanted actor_type n items h rest distinct low balanced e =
    let key : Item → ℕ = λ item. signed_order item.count in
    let all : (P : Item → Type 0) → All P (of_type wanted items) → P h =
      λ P ps. (subst (All P) e (sort_by-All key P (of_type wanted items) ps)).0 in
    let least : All (λ i. key h ≤ key i) rest =
      subst (LeastFirst key) e (sort_by-LeastFirst key (of_type wanted items)) in
    let lows : All (λ i. key h ≤ key i) (candidates wanted items) =
      subst (All (λ i. key h ≤ key i)) (sym e) (omega arith, least) in
    let h_low =
      all (λ i. i.count + 1 < 2 ^ 63) (of_type-All (λ i. i.count + 1 < 2 ^ 63) wanted items low) in
    (
      all (λ i. i.config.actor_type ≡ wanted) (of_type-types wanted items),
      all (Only items) (of_type-All (Only items) wanted items (Distinct-Only items distinct)),
      h_low,
      all (Within actor_type n) (of_type-All (Within actor_type n) wanted items balanced),
      All-combine (λ i. i.count + 1 < 2 ^ 63) (λ i. i.config.actor_type ≡ wanted → key h ≤ key i)
          (λ i. i.config.actor_type ≡ wanted → h.count ≤ i.count) items
          (λ i l k t. signed_order-least h.count i.count h_low l (k t)) low
          (of_type-All_inv (λ i. key h ≤ key i) wanted items
            (sort_by-All_inv key (λ i. key h ≤ key i) (of_type wanted items) lows)),
    )

pick_head-Balanced :
    (wanted actor_type n : ℕ) (items res : List Item)
    → Distinct items
    → Low items
    → Balanced actor_type n items
    → candidates wanted items ≡ res
    → (m : ℕ) × Balanced actor_type m ((pick_head res items).1)
unfolding pick_head
pick_head-Balanced wanted actor_type n items [] distinct low balanced e = (n, balanced)
pick_head-Balanced wanted actor_type n items (h ∷ rest) distinct low balanced e =
    let chosen = candidates-Chosen wanted actor_type n items h rest distinct low balanced e in
    let (kind, only, next, within, least) = chosen in
    (
      next_base actor_type n h,
      add_one-Balanced actor_type n h items within next
          (Chosen-Around wanted actor_type n items h balanced chosen),
    )

-- For choices made one after another, on actors whose ids differ and whose counts have an int64 above
-- them: when the numbers of times that the actors of one type were chosen differ by one at most, they
-- still do after a choice of any type.
pub find_pool_actor_by_type-Balanced :
    (wanted actor_type n : ℕ) (items : List Item)
    → Distinct items
    → Low items
    → Balanced actor_type n items
    → (m : ℕ) × Balanced actor_type m ((find_pool_actor_by_type wanted items).1)
unfolding find_pool_actor_by_type
find_pool_actor_by_type-Balanced wanted actor_type n items distinct low balanced =
    pick_head-Balanced wanted actor_type n items (candidates wanted items) distinct low balanced
      refl
