-- ===== src/Actor/Send/Tests.antt =====
-- The sends of zactor/helper.go by actor 1, with actor 2 in its process and actor 3 in another.
use zhenyi.Prelude.{true, false, [], ◌∷◌, none, some, replicate, ◌==◌, if◌then◌else◌}
use zhenyi.Model.{ActorConfig}
use zhenyi.Rpc.Reply.{expired}
use zhenyi.Actor.Breaker.{allow}
use zhenyi.Actor.Mailbox.Tests.{slots, envelope}
use zhenyi.Actor.Send.{Body, Trace, Net, Traffic}
use zhenyi.Actor.Send.Settled.{kept}
use zhenyi.Actor.Send.Posts.{reply_to, post, acquires, goes_to, kind_in, Given, post-Given}
use zhenyi.Actor.Send.Calls.{
  Caller, Conditions, get_circuit_breaker, call_actor, wait_of, Judged, call_actor-Judged,
}

abbrev far : ActorConfig
far = record {
  id = 3;
  process = 2;
  actor_type = 4;
  index = 0;
  max_restarts = 0;
  supported_msg_ids = [];
}

abbrev net : Net
net = record {
  self = 1;
  is_local = λ id. id == 2;
  others = λ id. if id == 3 then some far else none;
  accepted = true;
  buffer = λ n. replicate n 255;
  has_bus = true;
  broadcast = λ topic bytes. true;
  senders_of = λ id. slots;
  takes_client = λ id. false;
  token = 5;
}

abbrev idle : Traffic
idle = record {
  life = record { msg = envelope; pooled = 0; double_releases = 0 };
  pushed = [];
  sent = [];
  sender = slots;
}

abbrev body : Body
body = record { msg_id = 11; bytes = some (1 ∷ 2 ∷ []) }

-- A reply to a request of actor 2.
post-Given_example :
    Given
      (acquires (reply_to envelope (some body) 9))
      (kept net slots
        (goes_to (reply_to envelope (some body) 9))
        (kind_in (reply_to envelope (some body) 9)))
      idle.life
      (post net (reply_to envelope (some body) 9) idle).life
post-Given_example = post-Given net (reply_to envelope (some body) 9) idle

abbrev caller : Caller
caller = record { traffic = idle; breakers = [] }

-- No reply comes.
abbrev silence : Conditions
silence = record {
  asked_at = 100;
  claimed_at = 100;
  waited_at = 100;
  failed_at = 3100;
  timeout = 3000;
  ctx_done = false;
  rounds = ((λ s. s), expired 3100) ∷ [];
  decodes = λ r. true;
}

abbrev trace : Trace
trace = record { trace_id_hi = 5; trace_id_lo = 0 }

call_actor-Judged_example :
    Judged net silence 3 body trace
      (wait_of net silence 3 body trace caller)
      (allow (get_circuit_breaker 3 caller) 100).0
      caller
      (call_actor net silence 3 body trace caller)
call_actor-Judged_example = call_actor-Judged net silence 3 body trace caller
