-- ===== src/Actor/Mailbox/Drain.antt =====
-- zactor/base.go: the loop of `Run` after the signal to stop, when nothing is pushed any more. `sizes`
-- is what the batcher of another library gives for each round, and `clock` the time that each
-- command is handled with.
use zhenyi.Prelude.{
  ℕ, zero, suc, ◌+◌, ◌<◌, ◌≡◌, refl, ap, sym, ◌∙◌, Bool, true, false, List, [], ◌∷◌, ◌++◌, length,
  length-append, Option, ◌==◌, if◌then◌else◌, arith, subst, if_elim, ==_iff,
}
use zhenyi.Actor.Commands.{Mail, Cmd, Core, Business, handle_kind}
use zhenyi.Actor.Mailbox.{Queue, Mailbox, release_cmd, safe_handle_message, handle_in}

-- What is released for commands that are handled in their order.
unfoldable pub release_all : List Cmd → List ℕ → List ℕ
release_all [] log = log
release_all (c ∷ cs) log = release_all cs (release_cmd c.mail log)

release_all-append :
    (cs ds : List Cmd) (log : List ℕ)
    → release_all (cs ++ ds) log ≡ release_all ds (release_all cs log)
unfolding release_all
release_all-append [] ds log = refl
release_all-append (c ∷ cs) ds log = release_all-append cs ds (release_cmd c.mail log)

module _ (queue : Queue) (user : Business) (to_client : Option (Mail → Bool)) (clock : ℕ → ℕ) where
  -- One after the other, from the `k`-th on: the order that senders rely on.
  unfoldable pub in_order : ℕ → List Cmd → Core → Core
  in_order k [] c = c
  in_order k (cmd ∷ rest) c = in_order (k + 1) rest (handle_kind user cmd.kind cmd (clock k) c)

  -- The inner loop of `Run` over a batch.
  unfoldable pub handle_batch : ℕ → List Cmd → Mailbox queue → Mailbox queue
  handle_batch k [] a = a
  handle_batch k (cmd ∷ rest) a =
      handle_batch (k + 1) rest (handle_in queue user to_client (clock k) (cmd ∷ rest) a)

  -- The rounds that are left, the number of this one and of the commands so far: the state, and
  -- whether the loop has returned.
  unfoldable pub drain : (ℕ → ℕ) → ℕ → ℕ → ℕ → Mailbox queue → Mailbox queue × Bool
  drain sizes zero i k a = (a, false)
  drain sizes (suc rounds) i k a =
      let r = queue.dequeue_batch (sizes i) a.mailbox in
      let n = length r.0 in
      let rest =
        drain sizes rounds (i + 1) (k + n)
          (handle_batch k r.0 (record a { mailbox = r.1; batch = r.0 })) in
      if n == 0 then (record a { mailbox = r.1 }, true) else rest

  in_order-append :
      (k : ℕ) (cs ds : List Cmd) (c : Core)
      → in_order k (cs ++ ds) c ≡ in_order (k + length cs) ds (in_order k cs c)
  unfolding in_order
  in_order-append k [] ds c = let e : k + 0 ≡ k = omega arith in rw e refl
  in_order-append k (cmd ∷ cs) ds c =
      let e : k + suc (length cs) ≡ k + 1 + length cs = omega arith in
      rw e (in_order-append (k + 1) cs ds (handle_kind user cmd.kind cmd (clock k) c))

  -- Everything waiting was handled, in its order, and released.
  unfoldable pub Drained : ℕ → List Cmd → Mailbox queue → Mailbox queue × Bool → Type 0
  Drained k cs a r =
      (r.1 ≡ true)
      × (queue.contents r.0.mailbox ≡ [])
      × (r.0.core ≡ in_order k cs a.core)
      × (r.0.released ≡ release_all cs a.released)

  handle_batch-in_order :
      (k : ℕ) (cs : List Cmd) (a : Mailbox queue)
      → ((handle_batch k cs a).core ≡ in_order k cs a.core)
        × ((handle_batch k cs a).released ≡ release_all cs a.released)
        × ((handle_batch k cs a).mailbox ≡ a.mailbox)
  unfolding handle_batch in_order release_all handle_in safe_handle_message
  handle_batch-in_order k [] a = (refl, refl, refl)
  handle_batch-in_order k (cmd ∷ cs) a =
      handle_batch-in_order (k + 1) cs (handle_in queue user to_client (clock k) (cmd ∷ cs) a)

  no_length : (cs : List Cmd) → length cs ≡ 0 → cs ≡ []
  no_length [] e = refl
  no_length (c ∷ cs) e = absurd (omega arith)

  -- One batch, then what is left.
  onward :
      (k : ℕ) (cs ds all : List Cmd) (a b : Mailbox queue) (r : Mailbox queue × Bool)
      → all ≡ cs ++ ds
      → b.core ≡ in_order k cs a.core
      → b.released ≡ release_all cs a.released
      → Drained (k + length cs) ds b r
      → Drained k all a r
  unfolding Drained
  onward k cs ds all a b r split core log (back, empty, core', log') = (
    back,
    empty,
    core'
        ∙ (ap (in_order (k + length cs) ds) core
            ∙ (sym (in_order-append k cs ds a.core) ∙ ap (λ l. in_order k l a.core) (sym split))),
    log'
        ∙ (ap (release_all ds) log
            ∙ (sym (release_all-append cs ds a.released)
                ∙ ap (λ l. release_all l a.released) (sym split))),
  )

  stopped :
      (k : ℕ) (cs : List Cmd) (a : Mailbox queue) (q : queue.Carrier)
      → cs ≡ []
      → queue.contents q ≡ []
      → Drained k cs a (record a { mailbox = q }, true)
  unfolding Drained in_order release_all
  stopped k cs a q e empty = (
    refl,
    empty,
    ap (λ l. in_order k l a.core) (sym e),
    ap (λ l. release_all l a.released) (sym e),
  )

  -- With positive batch sizes, once the actor is told to stop and nothing is pushed any more, the
  -- loop returns, after as many rounds as there are commands and one more at most, with the mailbox
  -- empty, every command handled once in the order of arrival, and every message released.
  pub drain-Drained :
      (sizes : ℕ → ℕ)
      → ((i : ℕ) → 0 < sizes i)
      → (rounds i k : ℕ) (a : Mailbox queue) → length (queue.contents a.mailbox) < rounds
      → Drained k (queue.contents a.mailbox) a (drain sizes rounds i k a)
  unfolding drain
  drain-Drained sizes pos zero i k a enough = absurd (omega arith)
  drain-Drained sizes pos (suc rounds) i k a enough =
      let r = queue.dequeue_batch (sizes i) a.mailbox in
      let split = queue.dequeued (sizes i) a.mailbox in
      let rest = queue.contents r.1 in
      let count : length (queue.contents a.mailbox) ≡ length r.0 + length rest =
        ap length split ∙ length-append r.0 rest in
      let some_taken = queue.dequeues (sizes i) a.mailbox (pos i) in
      let a' = record a { mailbox = r.1; batch = r.0 } in
      let b = handle_batch k r.0 a' in
      let (core, log, left) = handle_batch-in_order k r.0 a' in
      let left' : length (queue.contents b.mailbox) ≡ length rest =
        ap (λ q. length (queue.contents q)) left in
      if_elim (Drained k (queue.contents a.mailbox) a) (length r.0 == 0)
        (λ none_taken.
          let zero_taken = (==_iff (length r.0) 0).0 none_taken in
          stopped k (queue.contents a.mailbox) a r.1
            (no_length (queue.contents a.mailbox) (ground (arith, some_taken)))
            (no_length rest (ground (arith, some_taken))))
        (λ taken.
          onward k r.0 rest (queue.contents a.mailbox) a b
            (drain sizes rounds (i + 1) (k + length r.0) b) split core log
            (subst
              (λ q.
                Drained (k + length r.0) (queue.contents q) b
                  (drain sizes rounds (i + 1) (k + length r.0) b))
              left (drain-Drained sizes pos rounds (i + 1) (k + length r.0) b (ground arith))))
