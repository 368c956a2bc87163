-- ===== src/Actor/Mailbox/Order.antt =====
-- zactor/base.go: what becomes of a command between `Push` and its release.
use zhenyi.Prelude.{
  ℕ, ◌+◌, ◌≡◌, refl, ap, sym, ◌∙◌, Bool, false, List, [], ◌∷◌, ◌++◌, append_assoc, Option, none,
  some, ◌==◌, if◌then◌else◌, arith, if_elim,
}
use zhenyi.Actor.Commands.{Mail, Cmd, Business}
use zhenyi.Actor.Routes.{times}
use zhenyi.Actor.Mailbox.{
  Queue, Mailbox, tick_cmd, is_msg, release_cmd, enqueue_cmd, takes, push_response, push_mail, push,
  mark_tick, post_tick, safe_handle_message, handle_next, take_batch, take_in, handle_in, Step,
  pushes, marks, posts, takes_batch, handles, step, run,
}

-- How often a pointer stands in a command's message, or in those of a list.
unfoldable pub held_mail : ℕ → Option Mail → ℕ
held_mail p none = 0
held_mail p (some m) = if m.ptr == p then 1 else 0

unfoldable pub held : ℕ → List Cmd → ℕ
held p [] = 0
held p (c ∷ cs) = held_mail p c.mail + held p cs

unfoldable pub pushed : ℕ → List Step → ℕ
pushed p [] = 0
pushed p (pushes c ∷ ss) = held_mail p c.mail + pushed p ss
pushed p (marks ∷ ss) = pushed p ss
pushed p (posts ∷ ss) = pushed p ss
pushed p (takes_batch n ∷ ss) = pushed p ss
pushed p (handles now ∷ ss) = pushed p ss

pub held-append : (p : ℕ) (cs ds : List Cmd) → held p (cs ++ ds) ≡ held p cs + held p ds
unfolding held
held-append p [] ds = omega arith
held-append p (c ∷ cs) ds = omega (arith, held-append p cs ds)

times-append : (p : ℕ) (xs ys : List ℕ) → times p (xs ++ ys) ≡ times p xs + times p ys
unfolding times
times-append p [] ys = omega arith
times-append p (x ∷ xs) ys = ground (arith, times-append p xs ys)

times-release_cmd :
    (p : ℕ) (m : Option Mail) (log : List ℕ)
    → times p (release_cmd m log) ≡ times p log + held_mail p m
unfolding release_cmd held_mail times
times-release_cmd p none log = omega arith
times-release_cmd p (some m) log = ground (arith, times-append p log (m.ptr ∷ []))

module _ (queue : Queue) (user : Business) (to_client : Option (Mail → Bool)) where
  -- What the mailbox still has to handle, oldest first.
  unfoldable pub backlog : Mailbox queue → List Cmd
  backlog a = a.batch ++ queue.contents a.mailbox

  -- Where a message is: released, or still to be handled.
  unfoldable pub accounted : ℕ → Mailbox queue → ℕ
  accounted p a = times p a.released + held p (backlog a)

  pub backlog-enqueue_cmd :
      (c : Cmd) (a : Mailbox queue)
      → backlog (enqueue_cmd queue user to_client c a) ≡ backlog a ++ (c ∷ [])
  unfolding enqueue_cmd backlog
  backlog-enqueue_cmd c a =
      ap (λ q. a.batch ++ q) (queue.enqueued c a.mailbox)
      ∙ sym (append_assoc a.batch (queue.contents a.mailbox) (c ∷ []))

  held-enqueue_cmd :
      (p : ℕ) (c : Cmd) (a : Mailbox queue)
      → held p (backlog (enqueue_cmd queue user to_client c a))
        ≡ held p (backlog a) + held_mail p c.mail
  unfolding held
  held-enqueue_cmd p c a =
      rw (backlog-enqueue_cmd c a) (omega (arith, held-append p (backlog a) (c ∷ [])))

  released-enqueue :
      (c : Cmd) (a : Mailbox queue) → (enqueue_cmd queue user to_client c a).released ≡ a.released
  unfolding enqueue_cmd
  released-enqueue c a = refl

  accounted_release :
      (p : ℕ) (m : Mail) (a : Mailbox queue)
      → times p (a.released ++ (m.ptr ∷ [])) + held p (backlog a)
        ≡ times p a.released + held p (backlog a) + held_mail p (some m)
  unfolding held_mail times
  accounted_release p m a = ground (arith, times-append p a.released (m.ptr ∷ []))

  accounted-enqueue_cmd :
      (p : ℕ) (c : Cmd) (a : Mailbox queue)
      → accounted p (enqueue_cmd queue user to_client c a) ≡ accounted p a + held_mail p c.mail
  unfolding accounted
  accounted-enqueue_cmd p c a =
      let log = ap (times p) (released-enqueue c a) in omega (arith, held-enqueue_cmd p c a, log)

  accounted-enqueued :
      (p : ℕ) (o : Option Mail) (c : Cmd) (a : Mailbox queue)
      → c.mail ≡ o
      → accounted p (enqueue_cmd queue user to_client c a) ≡ accounted p a + held_mail p o
  accounted-enqueued p o c a e =
      accounted-enqueue_cmd p c a ∙ ap (λ m. accounted p a + held_mail p m) e

  accounted-push_response :
      (p : ℕ) (m : Mail) (c : Cmd) (a : Mailbox queue)
      → c.mail ≡ some m
      → accounted p (push_response queue user to_client m c a)
        ≡ accounted p a + held_mail p (some m)
  unfolding push_response accounted backlog
  accounted-push_response p m c a e =
      let Good : Mailbox queue → Type 0 =
        λ b. accounted p b ≡ accounted p a + held_mail p (some m) in
      let done : times p (a.released ++ (m.ptr ∷ [])) + held p (backlog a)
          ≡ times p a.released + held p (backlog a) + held_mail p (some m) =
        accounted_release p m a in
      let kept : Good (enqueue_cmd queue user to_client c a) =
        accounted-enqueued p (some m) c a e in
      if_elim Good m.msg.to_client
        (λ _. if_elim Good (takes queue user to_client m) (λ _. done) (λ _. kept)) (λ _. done)

  accounted-push_mail :
      (p : ℕ) (o : Option Mail) (c : Cmd) (a : Mailbox queue)
      → c.mail ≡ o
      → accounted p (push_mail queue user to_client o c a) ≡ accounted p a + held_mail p o
  unfolding push_mail
  accounted-push_mail p none c a e = accounted-enqueued p none c a e
  accounted-push_mail p (some m) c a e =
      if_elim (λ b. accounted p b ≡ accounted p a + held_mail p (some m)) m.msg.is_response
        (λ _. accounted-push_response p m c a e) (λ _. accounted-enqueued p (some m) c a e)

  accounted-push :
      (p : ℕ) (c : Cmd) (a : Mailbox queue)
      → accounted p (push queue user to_client c a) ≡ accounted p a + held_mail p c.mail
  unfolding push
  accounted-push p c a =
      if_elim (λ b. accounted p b ≡ accounted p a + held_mail p c.mail) (is_msg c.kind)
        (λ _. accounted-push_mail p c.mail c a refl) (λ _. accounted-enqueue_cmd p c a)

  accounted-mark_tick :
      (p : ℕ) (a : Mailbox queue) → accounted p (mark_tick queue user to_client a) ≡ accounted p a
  unfolding mark_tick accounted backlog
  accounted-mark_tick p a = ground arith

  accounted-post_tick :
      (p : ℕ) (a : Mailbox queue) → accounted p (post_tick queue user to_client a) ≡ accounted p a
  unfolding post_tick held_mail accounted backlog
  accounted-post_tick p a =
      if_elim (λ b. accounted p b ≡ accounted p a) a.posting
        (λ _. omega (arith, accounted-push p tick_cmd (record a { posting = false }))) (λ _. refl)

  -- A batch that is there stays; else the queue gives one up.
  taken :
      (p n : ℕ) (batch : List Cmd) (a : Mailbox queue)
      → a.batch ≡ batch
      → accounted p (take_in queue user to_client n batch a) ≡ accounted p a
  unfolding take_in accounted backlog
  taken p n [] a e =
      let r = queue.dequeue_batch n a.mailbox in
      ap (λ cs. times p a.released + held p cs)
        (sym (queue.dequeued n a.mailbox) ∙ ap (λ b. b ++ queue.contents a.mailbox) (sym e))
  taken p n (c ∷ cs) a e = refl

  handled :
      (p now : ℕ) (batch : List Cmd) (a : Mailbox queue)
      → a.batch ≡ batch
      → accounted p (handle_in queue user to_client now batch a) ≡ accounted p a
  unfolding handle_in safe_handle_message accounted backlog held
  handled p now [] a e = refl
  handled p now (c ∷ cs) a e =
      let log = times-release_cmd p c.mail a.released in
      let before = ap (λ b. held p (b ++ queue.contents a.mailbox)) e in omega (arith, log, before)

  -- At any point of any history of the mailbox, whatever the goroutines do in between, a message has
  -- been released or waits to be handled exactly as often as it was at the start or came in by
  -- `Push` since.
  pub run-accounted :
      (p : ℕ) (ss : List Step) (a : Mailbox queue)
      → accounted p (run queue user to_client ss a) ≡ accounted p a + pushed p ss
  unfolding run step pushed take_batch handle_next
  run-accounted p [] a = omega arith
  run-accounted p (pushes c ∷ ss) a =
      omega (arith, run-accounted p ss (push queue user to_client c a), accounted-push p c a)
  run-accounted p (marks ∷ ss) a =
      run-accounted p ss (mark_tick queue user to_client a)
      ∙ ap (λ n. n + pushed p ss) (accounted-mark_tick p a)
  run-accounted p (posts ∷ ss) a =
      run-accounted p ss (post_tick queue user to_client a)
      ∙ ap (λ n. n + pushed p ss) (accounted-post_tick p a)
  run-accounted p (takes_batch n ∷ ss) a =
      run-accounted p ss (take_in queue user to_client n a.batch a)
      ∙ ap (λ k. k + pushed p ss) (taken p n a.batch a refl)
  run-accounted p (handles now ∷ ss) a =
      run-accounted p ss (handle_in queue user to_client now a.batch a)
      ∙ ap (λ k. k + pushed p ss) (handled p now a.batch a refl)
