-- ===== src/Route/Winner.antt =====
-- What rendezvous hashing chooses, and what the loss of another candidate changes.
use native.Mathlib.Nat.{add-zero}
use zhenyi.Prelude.{
  ℕ, zero, suc, ◌+◌, ◌-◌, ◌≤◌, ◌<◌, ◌≡◌, refl, ap, sym, ◌∙◌, ◌≢◌, ◌⊎◌, inl, inr, List, [], ◌∷◌,
  Option, none, some, length, ltb, ◌==◌, if◌then◌else◌, get_elem?, remove_at, arith, false,
  Bool-cases, ==_ne, some_eq, length-remove_at, get_elem?-remove_at, ltb→lt, ge_of_ltb,
}
use zhenyi.Model.{ActorConfig}
use zhenyi.Msg.Envelope.{Message}
use zhenyi.Route.Strategy.{score, better, best_from, rendezvous}

-- `c`, at `i`, beats all before it, and none beats `c`.
pub record IsWinner (key : ℕ) (cs : List ActorConfig) (i : ℕ) (c : ActorConfig) : Type 0 where
  pub at : get_elem? cs i ≡ some c
  pub first :
      (k : ℕ) (e : ActorConfig) → get_elem? cs k ≡ some e → k < i → score key e < score key c
  pub top : (k : ℕ) (e : ActorConfig) → get_elem? cs k ≡ some e → score key e ≤ score key c

-- What the loop makes of a best score so far: it stays, or a later candidate takes its place.
abbrev Scanned : ℕ → ℕ → ℕ → ℕ → List ActorConfig → Option (ℕ × ℕ) → Type 0
Scanned key i best_idx s cs r =
    ((r ≡ some (best_idx, s))
      × ((k : ℕ) (e : ActorConfig) → get_elem? cs k ≡ some e → score key e ≤ s))
    ⊎ ((j : ℕ) × (c : ActorConfig) × (r ≡ some (i + j, score key c))
        × (s < score key c)
        × IsWinner key cs j c)

next_place : (i j s : ℕ) → ◌≡◌ {A = Option (ℕ × ℕ)} (some (i + 1 + j, s)) (some (i + suc j, s))
next_place i j s = ground arith

first_place : (j s : ℕ) → ◌≡◌ {A = Option (ℕ × ℕ)} (some (1 + j, s)) (some (suc j, s))
first_place j s = ground arith

top-cons :
    (key b : ℕ) (d : ActorConfig) (cs : List ActorConfig)
    → score key d ≤ b
    → ((k : ℕ) (e : ActorConfig) → get_elem? cs k ≡ some e → score key e ≤ b)
    → (k : ℕ) (e : ActorConfig) → get_elem? (d ∷ cs) k ≡ some e
    → score key e ≤ b
top-cons key b d cs h low zero e p = ground arith
top-cons key b d cs h low (suc k) e p = low k e p

first-cons :
    (key b j : ℕ) (d : ActorConfig) (cs : List ActorConfig)
    → score key d < b
    → ((k : ℕ) (e : ActorConfig) → get_elem? cs k ≡ some e → k < j → score key e < b)
    → (k : ℕ) (e : ActorConfig) → get_elem? (d ∷ cs) k ≡ some e
    → k < suc j
    → score key e < b
first-cons key b j d cs h low zero e p lt = ground arith
first-cons key b j d cs h low (suc k) e p lt = low k e p (omega arith)

IsWinner-cons :
    (key j : ℕ) (c d : ActorConfig) (cs : List ActorConfig)
    → score key d < score key c
    → IsWinner key cs j c
    → IsWinner key (d ∷ cs) (suc j) c
IsWinner-cons key j c d cs h w = record {
  at = w.at;
  first = first-cons key (score key c) j d cs h w.first;
  top = top-cons key (score key c) d cs (omega arith) w.top;
}

IsWinner-head :
    (key : ℕ) (d : ActorConfig) (cs : List ActorConfig)
    → ((k : ℕ) (e : ActorConfig) → get_elem? cs k ≡ some e → score key e ≤ score key d)
    → IsWinner key (d ∷ cs) 0 d
IsWinner-head key d cs low = record {
  at = refl;
  first = λ k e h lt. absurd (omega arith);
  top = top-cons key (score key d) d cs (omega arith) low;
}

best_from-Scanned :
    (key i best_idx s : ℕ) (cs : List ActorConfig)
    → Scanned key i best_idx s cs (best_from key i (some (best_idx, s)) cs)
unfolding best_from better
best_from-Scanned key i best_idx s [] = inl (refl, λ k e h. absurd (ground arith))
best_from-Scanned key i best_idx s (d ∷ cs) = elim (Bool-cases (ltb s (score key d))) [
  | inl more ↦ rw more (elim (best_from-Scanned key (i + 1) i (score key d) cs) [
    | inl (r, low) ↦
        inr (0, d, rw (r, add-zero), ltb→lt s (score key d) more, IsWinner-head key d cs low)
    | inr (j, c, r, over, w) ↦
        let lt : s < score key c = omega (arith, ltb→lt s (score key d) more) in
        inr (suc j, c, r ∙ next_place i j (score key c), lt, IsWinner-cons key j c d cs over w)
  ])
  | inr less ↦ rw less (elim (best_from-Scanned key (i + 1) best_idx s cs) [
    | inl (r, low) ↦ inl (r, top-cons key s d cs (ge_of_ltb s (score key d) less) low)
    | inr (j, c, r, over, w) ↦
        let lt : score key d < score key c = omega (arith, ge_of_ltb s (score key d) less) in
        inr (suc j, c, r ∙ next_place i j (score key c), over, IsWinner-cons key j c d cs lt w)
  ])
]

best_from-IsWinner :
    (key : ℕ) (d : ActorConfig) (cs : List ActorConfig)
    → (j : ℕ) × (c : ActorConfig) × (best_from key 0 none (d ∷ cs) ≡ some (j, score key c))
      × IsWinner key (d ∷ cs) j c
unfolding best_from better
best_from-IsWinner key d cs = elim (best_from-Scanned key 1 0 (score key d) cs) [
  | inl (r, low) ↦ (0, d, r, IsWinner-head key d cs low)
  | inr (j, c, r, over, w) ↦
      (suc j, c, r ∙ first_place j (score key c), IsWinner-cons key j c d cs over w)
]

many_ne : (d e : ActorConfig) (cs : List ActorConfig) → (length (d ∷ e ∷ cs) == 0) ≡ false
many_ne d e cs = ground arith

many_ne_one : (d e : ActorConfig) (cs : List ActorConfig) → (length (d ∷ e ∷ cs) == 1) ≡ false
many_ne_one d e cs = ground arith

-- With at least two candidates and a key that is not 0, the strategy chooses the first of those
-- with the highest score.
pub rendezvous-IsWinner :
    (key_fn : Option Message → ℕ) (msg : Option Message) (cs : List ActorConfig)
    → key_fn msg ≢ 0
    → 1 < length cs
    → (j : ℕ) × (c : ActorConfig) × (rendezvous key_fn msg cs ≡ some j)
      × IsWinner (key_fn msg) cs j c
unfolding rendezvous
rendezvous-IsWinner key_fn msg [] key many = absurd (omega arith)
rendezvous-IsWinner key_fn msg (d ∷ []) key many = absurd (omega arith)
rendezvous-IsWinner key_fn msg (d ∷ e ∷ cs) key many =
    let (j, c, r, w) = best_from-IsWinner (key_fn msg) d (e ∷ cs) in
    (j, c, rw (==_ne (key_fn msg) 0 key, many_ne d e cs, many_ne_one d e cs, r), w)

IsWinner-unique :
    (key i j : ℕ) (c d : ActorConfig) (cs : List ActorConfig)
    → IsWinner key cs i c
    → IsWinner key cs j d
    → i ≡ j
IsWinner-unique key i j c d cs v w =
    ground (arith, v.top j d w.at, w.top i c v.at, v.first j d w.at, w.first i c v.at)

-- Where an index goes when the candidate at `p` leaves.
abbrev after_removal : ℕ → ℕ → ℕ
after_removal p i = if ltb i p then i else i - 1

-- Where the candidate at `k` of the shorter list stood.
abbrev before_removal : ℕ → ℕ → ℕ
before_removal p k = if ltb k p then k else suc k

before_after_removal : (p i : ℕ) → i ≢ p → before_removal p (after_removal p i) ≡ i
before_after_removal p i ne = ground arith

before_removal-lt : (p i k : ℕ) → i ≢ p → k < after_removal p i → before_removal p k < i
before_removal-lt p i k ne lt = ground arith

IsWinner-remove_at :
    (key p i : ℕ) (c : ActorConfig) (cs : List ActorConfig)
    → i ≢ p
    → IsWinner key cs i c
    → IsWinner key (remove_at p cs) (after_removal p i) c
IsWinner-remove_at key p i c cs ne w = record {
  at =
      get_elem?-remove_at p (after_removal p i) cs
      ∙ (ap (get_elem? cs) (before_after_removal p i ne) ∙ w.at);
  first = λ k e h lt.
      w.first (before_removal p k) e (sym (get_elem?-remove_at p k cs) ∙ h)
        (before_removal-lt p i k ne lt);
  top = λ k e h. w.top (before_removal p k) e (sym (get_elem?-remove_at p k cs) ∙ h);
}

-- With a key that is not 0, where the candidate at `p`, which is not the chosen one, leaves three
-- or more candidates, the same actor is chosen.
pub rendezvous-remove_at :
    (key_fn : Option Message → ℕ) (msg : Option Message) (cs : List ActorConfig) (i p : ℕ)
    → key_fn msg ≢ 0
    → 2 < length cs
    → rendezvous key_fn msg cs ≡ some i
    → i ≢ p
    → (j : ℕ) × (c : ActorConfig) × (rendezvous key_fn msg (remove_at p cs) ≡ some j)
      × (get_elem? (remove_at p cs) j ≡ some c)
      × (get_elem? cs i ≡ some c)
rendezvous-remove_at key_fn msg cs i p key many e ne =
    let (i', c, r, w) = rendezvous-IsWinner key_fn msg cs key (omega arith) in
    let same : i' ≡ i = some_eq (sym r ∙ e) in
    let w' = IsWinner-remove_at (key_fn msg) p i' c cs (λ q. ne (sym same ∙ q)) w in
    let (j, d, s, v) =
      rendezvous-IsWinner key_fn msg (remove_at p cs) key (omega (arith, length-remove_at p cs)) in
    let place = IsWinner-unique (key_fn msg) _ j c d (remove_at p cs) w' v in
    (
      j,
      c,
      s,
      ap (get_elem? (remove_at p cs)) (sym place) ∙ w'.at,
      ap (get_elem? cs) (sym same) ∙ w.at,
    )
