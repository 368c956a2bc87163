-- ===== src/Actor/Mailbox/Ticks.antt =====
-- zactor/base.go and group.go: how many ticks stand in a mailbox.
use zhenyi.Prelude.{
  ℕ, ◌+◌, ◌≡◌, refl, ap, sym, ◌∙◌, Bool, true, false, List, [], ◌∷◌, ◌++◌, Option, none, some, All,
  if◌then◌else◌, arith, if_elim,
}
use zhenyi.Actor.Balance.{one_if}
use zhenyi.Actor.Commands.{Mail, Cmd, Business}
use zhenyi.Actor.Mailbox.{
  Queue, Mailbox, tick_cmd, is_msg, is_tick, enqueue_cmd, takes, push_response, push_mail, push,
  mark_tick, post_tick, safe_handle_message, handle_in, take_in, handle_next, take_batch, Step,
  pushes, marks, posts, takes_batch, handles, step, run,
}
use zhenyi.Actor.Mailbox.Order.{backlog, backlog-enqueue_cmd}

unfoldable pub ticks : List Cmd → ℕ
ticks [] = 0
ticks (c ∷ cs) = one_if (is_tick c.kind) + ticks cs

-- Only the ticker pushes ticks.
unfoldable pub NoTick : Step → Type 0
NoTick (pushes c) = is_tick c.kind ≡ false
NoTick marks = Unit
NoTick posts = Unit
NoTick (takes_batch n) = Unit
NoTick (handles now) = Unit

ticks-append : (cs ds : List Cmd) → ticks (cs ++ ds) ≡ ticks cs + ticks ds
unfolding ticks
ticks-append [] ds = omega arith
ticks-append (c ∷ cs) ds = omega (arith, ticks-append cs ds)

-- What a handled command leaves of the flag.
flag_after :
    (t pending posting : Bool) (n : ℕ)
    → one_if t + n + one_if posting ≡ one_if pending
    → n + one_if posting ≡ one_if (if t then false else pending)
unfolding one_if
flag_after true true posting n e = omega arith
flag_after true false posting n e = absurd (omega arith)
flag_after false pending posting n e = omega arith

module _ (queue : Queue) (user : Business) (to_client : Option (Mail → Bool)) where
  -- The flag tells whether a tick waits, or is about to be pushed, and there is at most one.
  unfoldable pub IsCoalesced : Mailbox queue → Type 0
  IsCoalesced a = ticks (backlog queue user to_client a) + one_if a.posting ≡ one_if a.tick_pending

  enqueued_ticks :
      (c : Cmd) (a : Mailbox queue)
      → ticks (backlog queue user to_client (enqueue_cmd queue user to_client c a))
        ≡ ticks (backlog queue user to_client a) + one_if (is_tick c.kind)
  unfolding ticks
  enqueued_ticks c a =
      ap ticks (backlog-enqueue_cmd queue user to_client c a)
      ∙ (ticks-append (backlog queue user to_client a) (c ∷ []) ∙ omega arith)

  kept :
      (c : Cmd) (a : Mailbox queue)
      → IsCoalesced a
      → ticks (backlog queue user to_client (enqueue_cmd queue user to_client c a))
        ≡ ticks (backlog queue user to_client a)
      → IsCoalesced (enqueue_cmd queue user to_client c a)
  unfolding IsCoalesced enqueue_cmd
  kept c a i e = ap (λ n. n + one_if a.posting) e ∙ i

  enqueue_cmd-IsCoalesced :
      (c : Cmd) (a : Mailbox queue)
      → is_tick c.kind ≡ false
      → IsCoalesced a
      → IsCoalesced (enqueue_cmd queue user to_client c a)
  unfolding IsCoalesced one_if
  enqueue_cmd-IsCoalesced c a h i =
      let more : ticks (backlog queue user to_client (enqueue_cmd queue user to_client c a))
          ≡ ticks (backlog queue user to_client a) + 0 =
        enqueued_ticks c a ∙ ap (λ t. ticks (backlog queue user to_client a) + one_if t) h in
      kept c a i (more ∙ omega arith)

  push_response-IsCoalesced :
      (m : Mail) (c : Cmd) (a : Mailbox queue)
      → is_tick c.kind ≡ false
      → IsCoalesced a
      → IsCoalesced (push_response queue user to_client m c a)
  unfolding push_response IsCoalesced backlog
  push_response-IsCoalesced m c a h i =
      let kept : IsCoalesced (enqueue_cmd queue user to_client c a) =
        enqueue_cmd-IsCoalesced c a h i in
      if_elim IsCoalesced m.msg.to_client
        (λ _. if_elim IsCoalesced (takes queue user to_client m) (λ _. i) (λ _. kept)) (λ _. i)

  push_mail-IsCoalesced :
      (o : Option Mail) (c : Cmd) (a : Mailbox queue)
      → is_tick c.kind ≡ false
      → IsCoalesced a
      → IsCoalesced (push_mail queue user to_client o c a)
  unfolding push_mail
  push_mail-IsCoalesced none c a h i = enqueue_cmd-IsCoalesced c a h i
  push_mail-IsCoalesced (some m) c a h i =
      if_elim IsCoalesced m.msg.is_response (λ _. push_response-IsCoalesced m c a h i)
        (λ _. enqueue_cmd-IsCoalesced c a h i)

  push-IsCoalesced :
      (c : Cmd) (a : Mailbox queue)
      → is_tick c.kind ≡ false
      → IsCoalesced a
      → IsCoalesced (push queue user to_client c a)
  unfolding push
  push-IsCoalesced c a h i =
      if_elim IsCoalesced (is_msg c.kind) (λ _. push_mail-IsCoalesced c.mail c a h i)
        (λ _. enqueue_cmd-IsCoalesced c a h i)

  mark_tick-IsCoalesced :
      (a : Mailbox queue) → IsCoalesced a → IsCoalesced (mark_tick queue user to_client a)
  unfolding mark_tick IsCoalesced backlog one_if
  mark_tick-IsCoalesced a i = ground arith

  posted :
      (a : Mailbox queue)
      → ticks (backlog queue user to_client a) + 1 ≡ one_if a.tick_pending
      → IsCoalesced (push queue user to_client tick_cmd (record a { posting = false }))
  unfolding IsCoalesced push is_msg is_tick one_if enqueue_cmd backlog
  posted a before =
      let more : ticks (a.batch ++ queue.contents (queue.enqueue tick_cmd a.mailbox))
          ≡ ticks (a.batch ++ queue.contents a.mailbox) + 1 =
        enqueued_ticks tick_cmd (record a { posting = false }) in
      omega (arith, more, before)

  -- Between the mark and the push the flag is set, and no tick waits.
  post_tick-IsCoalesced :
      (a : Mailbox queue) → IsCoalesced a → IsCoalesced (post_tick queue user to_client a)
  unfolding post_tick IsCoalesced one_if
  post_tick-IsCoalesced a i =
      if_elim (IsCoalesced) a.posting
        (λ t. posted a (ap (λ b. ticks (backlog queue user to_client a) + one_if b) (sym t) ∙ i))
        (λ _. i)

  take_in-IsCoalesced :
      (n : ℕ) (batch : List Cmd) (a : Mailbox queue)
      → a.batch ≡ batch
      → IsCoalesced a
      → IsCoalesced (take_in queue user to_client n batch a)
  unfolding take_in IsCoalesced backlog
  take_in-IsCoalesced n [] a e i =
      ap (λ cs. ticks cs + one_if a.posting)
        (sym (queue.dequeued n a.mailbox) ∙ ap (λ b. b ++ queue.contents a.mailbox) (sym e))
      ∙ i
  take_in-IsCoalesced n (c ∷ cs) a e i = i

  handle_in-IsCoalesced :
      (now : ℕ) (batch : List Cmd) (a : Mailbox queue)
      → a.batch ≡ batch
      → IsCoalesced a
      → IsCoalesced (handle_in queue user to_client now batch a)
  unfolding handle_in safe_handle_message IsCoalesced backlog ticks
  handle_in-IsCoalesced now [] a e i = i
  handle_in-IsCoalesced now (c ∷ cs) a e i =
      let before : ticks (a.batch ++ queue.contents a.mailbox)
          ≡ one_if (is_tick c.kind) + ticks (cs ++ queue.contents a.mailbox) =
        ap (λ b. ticks (b ++ queue.contents a.mailbox)) e in
      flag_after (is_tick c.kind) a.tick_pending a.posting (ticks (cs ++ queue.contents a.mailbox))
        (ap (λ n. n + one_if a.posting) (sym before) ∙ i)

  step-IsCoalesced :
      (s : Step) (a : Mailbox queue)
      → NoTick s
      → IsCoalesced a
      → IsCoalesced (step queue user to_client s a)
  unfolding step NoTick handle_next take_batch
  step-IsCoalesced (pushes c) a h i = push-IsCoalesced c a h i
  step-IsCoalesced marks a h i = mark_tick-IsCoalesced a i
  step-IsCoalesced posts a h i = post_tick-IsCoalesced a i
  step-IsCoalesced (takes_batch n) a h i = take_in-IsCoalesced n a.batch a refl i
  step-IsCoalesced (handles now) a h i = handle_in-IsCoalesced now a.batch a refl i

  -- However the ticker, the actor and other senders interleave, as long as only the ticker pushes
  -- ticks, at most one tick waits in the mailbox, and one waits or is about to be pushed exactly
  -- when the flag is set.
  pub run-IsCoalesced :
      (ss : List Step) (a : Mailbox queue)
      → All NoTick ss
      → IsCoalesced a
      → IsCoalesced (run queue user to_client ss a)
  unfolding run
  run-IsCoalesced [] a h i = i
  run-IsCoalesced (s ∷ ss) a (h, hs) i =
      run-IsCoalesced ss (step queue user to_client s a) hs (step-IsCoalesced s a h i)
