-- ===== src/Gate/Fallback.antt =====
-- `routeToRemoteActor`: what the outcome says of the bus.
use zhenyi.Prelude.{
  ℕ, zero, suc, ◌+◌, ◌-◌, ◌^◌, ◌≤◌, ◌<◌, ◌≡◌, refl, ap, sym, ◌∙◌, ◌⊎◌, inl, inr, Bool, true, false,
  List, [], ◌∷◌, ◌++◌, some, length, get_elem?, take, replicate, ltb, ◌==◌, if◌then◌else◌,
  Bool-cases, ==_iff, ==_ne, arith, ge_of_ltb, length-take, length-replicate, take-length-append,
  some_eq, drop, subst,
}
use zhenyi.Prelude.Outcome.{ok}
use zhenyi.Model.{ActorConfig, Topic, get_topic}
use zhenyi.Msg.Envelope.{Message, size}
use zhenyi.Msg.Encode.{encode, marshal_to-encode, length-encode}
use zhenyi.Gate.Remote.{
  ℤ, Routing, pick_index, attempt, Attempt, accepted, refused, send_one, try_from, route_to_remote,
}
use zhenyi.Gate.Attempts.{pick_index_lem, attempt_in}

get_in :
    (cs : List ActorConfig) (i : ℕ) → i < length cs → (c : ActorConfig) × (get_elem? cs i ≡ some c)
get_in [] i h = absurd (omega arith)
get_in (c ∷ cs) zero h = (c, refl)
get_in (c ∷ cs) (suc i) h = get_in cs i (omega arith)

module _ (broadcast : ℕ → Topic → List ℕ → Bool) where
  abbrev pub addressed : Message → ActorConfig → Message
  addressed msg target = record msg { tar_actor = target.id }

  -- What the bus says of the `i`-th attempt.
  abbrev pub takes : Message → ℕ → ActorConfig → Bool
  takes msg i target = broadcast i (get_topic target) (encode (addressed msg target))

  verdict : Bool → Attempt
  verdict true = accepted
  verdict false = refused

  -- What an attempt on a message that can be encoded comes to.
  record Step (i : ℕ) (target : ActorConfig) (r next : Routing) : Type 0 where
    runs : send_one broadcast i target r ≡ ok (verdict (takes r.msg i target), next)
    msg : next.msg ≡ addressed r.msg target
    sent : next.sent ≡ (
        if takes r.msg i target
        then r.sent ++ ((get_topic target, encode (addressed r.msg target)) ∷ [])
        else r.sent)
    tries : next.tries ≡ r.tries + 1
    fails : next.fails ≡ (if takes r.msg i target then r.fails else r.fails + 1)

  send_one-Step :
      (i : ℕ) (target : ActorConfig) (r : Routing)
      → length r.msg.payload.bytes < 2 ^ 32
      → (next : Routing) × Step i target r next
  unfolding send_one verdict
  send_one-Step i target r fits =
      let msg : Message = addressed r.msg target in
      let need = size msg in
      let buf = if ltb (length r.encoded) need then replicate need 0 else take need r.encoded in
      let room : size msg ≤ length buf = elim (Bool-cases (ltb (length r.encoded) need)) [
        | inl t ↦ rw (t, length-replicate need (let z : ℕ = 0 in z)) (omega arith)
        | inr t ↦
            let g = ge_of_ltb (length r.encoded) need t in
            rw (t, length-take need r.encoded) (omega arith)
      ] in
      let e = marshal_to-encode msg buf room fits in
      let bytes =
        take-length-append (size msg) (encode msg) (drop (size msg) buf) (length-encode msg) in
      let tried : Routing = record r {
        msg = msg;
        encoded = encode msg ++ drop need buf;
        tries = r.tries + 1;
        fallbacks = if i == 0 then r.fallbacks else r.fallbacks + 1;
      } in
      let taken : Routing = record tried {
        sent = r.sent ++ ((get_topic target, encode msg) ∷ []);
        remote = r.remote + 1;
      } in
      let missed : Routing = record tried { fails = r.fails + 1 } in
      elim (Bool-cases (takes r.msg i target)) [
        | inl t ↦ (
          taken,
          record {
            runs = rw (e, bytes, t, send_one);
            msg = refl;
            sent = rw t;
            tries = refl;
            fails = rw t;
          },
        )
        | inr t ↦ (
          missed,
          record {
            runs = rw (e, bytes, t, send_one);
            msg = refl;
            sent = rw t;
            tries = refl;
            fails = rw t;
          },
        )
      ]

  module _ (cs : List ActorConfig) (pick : ℕ) (small : pick < length cs) where
    -- The attempts from `lo` up to `hi` are refused.
    abbrev pub AllRefused : Message → ℕ → ℕ → Type 0
    AllRefused msg lo hi =
        (j : ℕ)
        → lo ≤ j
        → j < hi
        → (target : ActorConfig) → get_elem? cs (attempt pick j) ≡ some target
        → takes msg j target ≡ false

    pub record Delivered (i rounds k : ℕ) (target : ActorConfig) (r next : Routing) : Type 0 where
      pub from : i ≤ k
      pub below : k < i + rounds
      pub chosen : get_elem? cs (attempt pick k) ≡ some target
      pub taken : takes r.msg k target ≡ true
      pub earlier : AllRefused r.msg i k
      pub runs : try_from broadcast cs pick rounds i r ≡ ok (true, next)
      pub sent : next.sent ≡ r.sent ++ ((get_topic target, encode (addressed r.msg target)) ∷ [])
      pub tries : next.tries ≡ r.tries + (k - i) + 1
      pub fails : next.fails ≡ r.fails + (k - i)

    pub record Undelivered (i rounds : ℕ) (r next : Routing) : Type 0 where
      pub all : AllRefused r.msg i (i + rounds)
      pub runs : try_from broadcast cs pick rounds i r ≡ ok (false, next)
      pub sent : next.sent ≡ r.sent
      pub tries : next.tries ≡ r.tries + rounds
      pub fails : next.fails ≡ r.fails + rounds

    abbrev pub Decides : ℕ → ℕ → Routing → Type 0
    Decides i rounds r =
        ((k : ℕ) × (target : ActorConfig) × (next : Routing) × Delivered i rounds k target r next)
        ⊎ ((next : Routing) × Undelivered i rounds r next)

    refused_step :
        (target : ActorConfig) (msg next : Message) (i hi : ℕ)
        → takes msg i target ≡ false
        → get_elem? cs (attempt pick i) ≡ some target
        → ((j : ℕ) (c : ActorConfig) → takes next j c ≡ takes msg j c)
        → AllRefused next (i + 1) hi
        → AllRefused msg i hi
    refused_step target msg next i hi t at same later j lo below c at_j =
        elim (Bool-cases (j == i)) [
          | inl e ↦
              let f : j ≡ i = (==_iff j i).0 e in
              let g : target ≡ c =
                some_eq (sym at ∙ (ap (λ x. get_elem? cs (attempt pick x)) (sym f) ∙ at_j)) in
              rw (f, sym g) t
          | inr e ↦
              let above : i + 1 ≤ j = ground arith in sym (same j c) ∙ later j above below c at_j
        ]

    try_from-Decides :
        (rounds i : ℕ) (r : Routing)
        → i + rounds ≡ length cs
        → length r.msg.payload.bytes < 2 ^ 32
        → Decides i rounds r
    unfolding try_from verdict
    try_from-Decides zero i r e fits = inr (
      r,
      record {
        all = λ j lo hi. absurd (omega arith);
        runs = refl;
        sent = refl;
        tries = omega arith;
        fails = omega arith;
      },
    )
    try_from-Decides (suc rounds) i r e fits =
        let (target, at) =
          get_in cs (attempt pick i) (attempt_in (length cs) pick i small (omega arith)) in
        let (next, s) = send_one-Step i target r fits in
        elim (Bool-cases (takes r.msg i target)) [
          | inl t ↦ inl (
            i,
            target,
            next,
            record {
              from = omega arith;
              below = omega arith;
              chosen = at;
              taken = t;
              earlier = λ j lo hi. absurd (omega arith);
              runs = rw (at, s.runs, t, try_from);
              sent = s.sent ∙ rw t;
              tries = omega (arith, s.tries);
              fails = let f : next.fails ≡ r.fails = s.fails ∙ rw t in omega (arith, f);
            },
          )
          | inr t ↦
              let same : (j : ℕ) (c : ActorConfig) → takes next.msg j c ≡ takes r.msg j c =
                λ j c. ap (λ m. takes m j c) s.msg in
              let kept : next.sent ≡ r.sent = s.sent ∙ rw t in
              let more : next.fails ≡ r.fails + 1 = s.fails ∙ rw t in
              elim (try_from-Decides rounds (i + 1) next (omega arith)
                (subst (λ m. length m.payload.bytes < 2 ^ 32) (sym s.msg) fits)) [
                  | inl (k, chosen, final, d) ↦ inl (
                    k,
                    chosen,
                    final,
                    record {
                      from = omega (arith, d.from);
                      below = omega (arith, d.below);
                      chosen = d.chosen;
                      taken = sym (same k chosen) ∙ d.taken;
                      earlier = refused_step target r.msg next.msg i k t at same d.earlier;
                      runs = rw (at, s.runs, t, try_from) d.runs;
                      sent =
                          d.sent
                          ∙ (ap
                                (λ x.
                                  x
                                  ++ ((get_topic chosen, encode (addressed next.msg chosen)) ∷ []))
                                kept
                              ∙ ap
                                  (λ m.
                                    r.sent
                                    ++ ((get_topic chosen, encode (addressed m chosen)) ∷ []))
                                  s.msg);
                      tries = omega (arith, d.tries, s.tries, d.from);
                      fails = omega (arith, d.fails, more, d.from);
                    },
                  )
                  | inr (final, d) ↦ inr (
                    final,
                    record {
                      all =
                          refused_step target r.msg next.msg i (i + suc rounds) t at same
                            (let h : i + suc rounds ≡ i + 1 + rounds = omega arith in rw h d.all);
                      runs = rw (at, s.runs, t, try_from) d.runs;
                      sent = d.sent ∙ kept;
                      tries = omega (arith, d.tries, s.tries);
                      fails = omega (arith, d.fails, more);
                    },
                  )
                ]
        ]

-- With a bus and at least one candidate, on a payload of fewer than `2 ^ 32` bytes, whatever the
-- strategy picks: either some attempt is accepted (then every earlier one was refused, its
-- candidate alone got the message, encoded with that candidate's id as its target, and the call
-- returns true), or every candidate is refused, nothing was sent, and the call returns false. The
-- call neither panics nor stops early.
pub route_to_remote-Decides :
    (broadcast : ℕ → Topic → List ℕ → Bool) (cs : List ActorConfig) (picked : ℤ) (r : Routing)
    → 0 < length cs
    → length r.msg.payload.bytes < 2 ^ 32
    → (pick : ℕ) × (small : pick < length cs) × (pick ≡ pick_index picked (length cs))
      × (route_to_remote broadcast cs true picked r ≡ try_from broadcast cs pick (length cs) 0 r)
      × Decides broadcast cs pick small 0 (length cs) r
unfolding route_to_remote
route_to_remote-Decides broadcast cs picked r some_candidate fits =
    let small = pick_index_lem picked (length cs) some_candidate in
    (
      pick_index picked (length cs),
      small,
      refl,
      rw (==_ne (length cs) 0 (λ e. absurd (omega arith))),
      try_from-Decides broadcast cs (pick_index picked (length cs)) small (length cs) 0 r
          (omega arith) fits,
    )
