-- ===== src/Gate/Destination.antt =====
-- zgate/gate.go: where `gateHandler` leaves a client's message.
use zhenyi.Prelude.{
  ℕ, ◌+◌, ◌<◌, ◌^◌, ◌≡◌, ◌≢◌, refl, ap, sym, ◌∙◌, subst, some_eq, Bool, true, false, List, [], ◌∷◌,
  ◌++◌, Option, none, some, length, length-append, ◌==◌, arith, if_elim, ltb, ◌⊎◌, inl, inr, ==_iff,
}
use zhenyi.Prelude.Maps.{lookup}
use zhenyi.Model.{ActorConfig}
use zhenyi.Msg.Envelope.{Message}
use zhenyi.Gate.Tracker.{complete}
use zhenyi.Gate.Routed.{NoneTakes, Routed, route_to_remote-Routed}
use zhenyi.Gate.Server.{
  Server, World, count_sent, record_rtt, complete_rtt, give_to_channel, send_client, hook_answers,
  ask_hook, send_no_route_error, no_destination, after_remote, try_remote, local_target, try_local,
  call_own, gate_in, gate_handler,
}

-- How many messages had an id that the gate registered, came to local actors, to the
-- bus, and nowhere.
abbrev pub Moves : ℕ → ℕ → ℕ → ℕ → Server → Server → Type 0
Moves a b c d s t =
    (length t.own + t.unhandled ≡ length s.own + s.unhandled + a)
    × (length t.locals ≡ length s.locals + b)
    × (length t.routing.sent ≡ length s.routing.sent + c)
    × (t.unrouted ≡ s.unrouted + d)

-- Nothing that `Moves` counts changes.
abbrev Same : Server → Server → Type 0
Same s t =
    (t.own ≡ s.own)
    × (t.unhandled ≡ s.unhandled)
    × (t.locals ≡ s.locals)
    × (t.routing ≡ s.routing)
    × (t.unrouted ≡ s.unrouted)

record_rtt-Same : (o : Option ℕ) (s : Server) → Same s (record_rtt o s)
unfolding record_rtt
record_rtt-Same none s = (refl, refl, refl, refl, refl)
record_rtt-Same (some rtt) s = (refl, refl, refl, refl, refl)

module _ (w : World) (now : ℕ) where
  complete_rtt-Same : (m : Message) (s : Server) → Same s (complete_rtt m now s)
  unfolding complete_rtt
  complete_rtt-Same m s =
      let r = complete s.tracker m.session_id m.seq_id now in
      record_rtt-Same r.1 (record s { tracker = r.0 })

  send_client-Same : (m : Message) (s : Server) → Same s (send_client w now m s)
  unfolding send_client give_to_channel count_sent
  send_client-Same m s =
      let same : Same s s = (refl, refl, refl, refl, refl) in
      if_elim (Same s) (ltb 0 m.session_id)
        (λ _.
          if_elim (Same s) (w.has_channel m.session_id)
            (λ _.
              if_elim (Same s) (ltb 0 m.seq_id)
                (λ _. complete_rtt-Same m (count_sent (give_to_channel m s)))
                (λ _. (refl, refl, refl, refl, refl)))
            (λ _. same))
        (λ _. same)

  ask_hook-Same :
      (o : Option (Message → Option Message × Bool)) (m : Message) (s : Server)
      → Same s (ask_hook w now o m s)
  unfolding ask_hook hook_answers
  ask_hook-Same none m s = (refl, refl, refl, refl, refl)
  ask_hook-Same (some hook) m s = answered (hook m)
    where
      answered : (r : Option Message × Bool) → Same s (hook_answers w now r s)
      answered (none, handled) = (refl, refl, refl, refl, refl)
      answered (some reply, true) = send_client-Same reply s
      answered (some reply, false) = (refl, refl, refl, refl, refl)

  no_destination-Moves :
      (s t : Server) (m : Message) → Moves 0 0 0 0 s t → Moves 0 0 0 1 s (no_destination w now m t)
  unfolding no_destination send_no_route_error
  no_destination-Moves s t m (own, locals, sent, unrouted) =
      let (o, u, l, r, z) = ask_hook-Same w.no_route m (record t { unrouted = t.unrouted + 1 }) in
      (
        omega (arith, ap length o, u, own),
        ap length l ∙ locals,
        ap (λ x. length x.sent) r ∙ sent,
        omega (arith, z, unrouted),
      )

  -- Over the bus; or nowhere, and then no candidate took it.
  abbrev Away : Message → Server → Server → Type 0
  Away m s t =
      Moves 0 0 1 0 s t
      ⊎ (Moves 0 0 0 1 s t
          × ((candidates : ℕ → List ActorConfig)
              → w.candidates ≡ some candidates
              → w.has_bus ≡ true
              → NoneTakes w.broadcast (candidates m.msg_id) (w.pick_one m (candidates m.msg_id)) m))

  unmoved : (s : Server) → Moves 0 0 0 0 s s
  unmoved s = omega arith

  remote_over :
      (candidates : ℕ → List ActorConfig) (m : Message) (s : Server)
      → w.candidates ≡ some candidates
      → Routed w.broadcast
          (candidates m.msg_id)
          w.has_bus
          (w.pick_one m (candidates m.msg_id))
          (record (s.routing) { msg = m; encoded = [] })
      → Away m s (try_remote w now (some candidates) m s)
  unfolding try_remote Routed after_remote
  remote_over candidates m s e (inl (next, runs, sent)) =
      rw runs (inl (omega arith, omega arith, sent, omega arith))
  remote_over candidates m s e (inr (next, runs, sent, refused)) = rw runs (
      inr (
        no_destination-Moves s (record s { routing = next }) next.msg
            (omega arith, omega arith, omega (arith, sent), omega arith),
        (λ cs f bus.
            subst (λ g. NoneTakes w.broadcast (g m.msg_id) (w.pick_one m (g m.msg_id)) m)
              (some_eq (sym e ∙ f)) (refused bus)),
      ))

  try_remote-Away :
      (o : Option (ℕ → List ActorConfig)) (m : Message) (s : Server)
      → w.candidates ≡ o
      → length m.payload.bytes < 2 ^ 32
      → Away m s (try_remote w now o m s)
  unfolding try_remote
  try_remote-Away none m s e fits =
      inr (no_destination-Moves s s m (unmoved s), (λ cs f. absurd (cc)))
  try_remote-Away (some candidates) m s e fits = remote_over candidates m s e (
      route_to_remote-Routed w.broadcast (candidates m.msg_id) w.has_bus
        (w.pick_one m (candidates m.msg_id)) (record (s.routing) { msg = m; encoded = [] }) fits)

  -- To the local actor that the router names, unless that is the gate; otherwise away.
  abbrev Elsewhere : Message → Server → Server → Type 0
  Elsewhere m s t =
      ((target : ℕ) × (local_target w.router m ≡ some target)
        × (target ≢ w.self)
        × (t.locals ≡ s.locals ++ ((target, m) ∷ []))
        × Moves 0 1 0 0 s t)
      ⊎ (((target : ℕ) → local_target w.router m ≡ some target → target ≡ w.self) × Away m s t)

  try_local-Elsewhere :
      (o : Option ℕ) (m : Message) (s : Server)
      → local_target w.router m ≡ o
      → length m.payload.bytes < 2 ^ 32
      → Elsewhere m s (try_local w now o m s)
  unfolding try_local
  try_local-Elsewhere none m s e fits =
      inr ((λ target f. absurd (cc)), try_remote-Away w.candidates m s refl fits)
  try_local-Elsewhere (some target) m s e fits =
      if_elim (Elsewhere m s) (target == w.self)
        (λ is. inr (
          (λ other f. some_eq (sym f ∙ e) ∙ (==_iff target w.self).0 is),
          try_remote-Away w.candidates m s refl fits,
        ))
        (λ isnt. inl (
          target,
          e,
          (λ same. absurd (ground (arith, same, isnt))),
          refl,
          (
            omega arith,
            omega (arith, length-append s.locals ((target, m) ∷ [])),
            omega arith,
            omega arith,
          ),
        ))

  -- The gate's handler for the id is called on the message, after the earlier calls; without one the
  -- message is only counted.
  abbrev Called : Message → Server → Server → Type 0
  Called m s t =
      ((handle : ℕ) × (lookup m.msg_id s.handlers ≡ some handle)
        × (t.own ≡ s.own ++ ((handle, m) ∷ []))
        × (t.unhandled ≡ s.unhandled))
      ⊎ ((lookup m.msg_id s.handlers ≡ none) × (t.own ≡ s.own) × (t.unhandled ≡ s.unhandled + 1))

  -- Where the message went.
  abbrev pub Goes : Message → Server → Server → Type 0
  Goes m s t =
      ((flag : ℕ) × (lookup m.msg_id s.msg_list ≡ some flag) × Called m s t × Moves 1 0 0 0 s t)
      ⊎ ((lookup m.msg_id s.msg_list ≡ none) × Elsewhere m s t)

  call_own-Moves : (o : Option ℕ) (m : Message) (s : Server) → Moves 1 0 0 0 s (call_own o m s)
  unfolding call_own
  call_own-Moves none m s = omega arith
  call_own-Moves (some handle) m s =
      (omega (arith, length-append s.own ((handle, m) ∷ [])), omega arith, omega arith, omega arith)

  call_own-Called :
      (o : Option ℕ) (m : Message) (s : Server)
      → lookup m.msg_id s.handlers ≡ o
      → Called m s (call_own o m s)
  unfolding call_own
  call_own-Called none m s e = inr (e, refl, refl)
  call_own-Called (some handle) m s e = inl (handle, e, refl, refl)

  gate_in-Goes :
      (o : Option ℕ) (m : Message) (s : Server)
      → lookup m.msg_id s.msg_list ≡ o
      → length m.payload.bytes < 2 ^ 32
      → Goes m s (gate_in w now o m s)
  unfolding gate_in
  gate_in-Goes none m s e fits =
      inr (e, try_local-Elsewhere (local_target w.router m) m s refl fits)
  gate_in-Goes (some flag) m s e fits =
      let called = call_own-Called (lookup m.msg_id s.handlers) m s refl in
      inl (flag, e, called, call_own-Moves (lookup m.msg_id s.handlers) m s)

  -- A client's message with a payload below 2^32 bytes goes one way. If the gate registered its id,
  -- the gate's handler for the id is called on it, or, when there is none, it is only counted as
  -- unhandled. Else it is pushed to the local actor that the router names, unless that is the gate
  -- itself. Else it goes over the bus, or nowhere; it goes nowhere only without a discoverer, without a
  -- bus, or when every candidate for its id was refused.
  pub gate_handler-Goes :
      (m : Message) (s : Server)
      → length m.payload.bytes < 2 ^ 32
      → Goes m s (gate_handler w now m s)
  unfolding gate_handler
  gate_handler-Goes m s fits = gate_in-Goes (lookup m.msg_id s.msg_list) m s refl fits
