-- ===== src/Msg/Tests.antt =====
-- zmsg on concrete messages.
use zhenyi.Prelude.{ℕ, ◌≡◌, refl, true, false, List, [], ◌∷◌, ◌++◌, some, drop, replicate, arith}
use zhenyi.Prelude.Outcome.{ok}
use zhenyi.Msg.Envelope.{Message, nil_slice, size, marshal_to, unmarshal}
use zhenyi.Msg.Encode.{encode, marshal_to-encode}
use zhenyi.Msg.Decode.{InRange, payload_over, unmarshal-encode}
use zhenyi.Msg.Accept.{Decided, unmarshal_decides}
use zhenyi.Msg.Refs.{Life, Op, retains, releases, run, count, owners, run-owners}

abbrev blank : Message
blank = record {
  session_id = 0;
  rpc_id = 0;
  trace_id_hi = 0;
  trace_id_lo = 0;
  span_id = 0;
  payload = nil_slice;
  msg_id = 0;
  src_actor = 0;
  tar_actor = 0;
  ref_count = 1;
  seq_id = 0;
  to_client = false;
  from_client = false;
  is_response = false;
}

abbrev hello : Message
hello = record blank {
  session_id = 7;
  rpc_id = 131073;
  payload = record { bytes = 104 ∷ 105 ∷ []; cap = 2 };
  msg_id = 4294967295;
  tar_actor = 12;
  seq_id = 3;
  to_client = true;
  is_response = true;
}

abbrev dirty : List ℕ
dirty = replicate 80 255

hello-InRange : InRange hello
hello-InRange = record {
  session_id = omega arith;
  rpc_id = omega arith;
  trace_id_hi = omega arith;
  trace_id_lo = omega arith;
  span_id = omega arith;
  msg_id = omega arith;
  src_actor = omega arith;
  tar_actor = omega arith;
  seq_id = omega arith;
}

unmarshal-encode_example :
    unmarshal blank (encode hello ++ (9 ∷ []))
    ≡ ok (record hello { ref_count = 1; payload = payload_over nil_slice (104 ∷ 105 ∷ []) })
unmarshal-encode_example = unmarshal-encode hello blank (9 ∷ []) hello-InRange (omega arith)

unmarshal_decides_example : Decided (encode hello) (unmarshal blank (encode hello))
unmarshal_decides_example = unmarshal_decides blank (encode hello)

marshal_to-encode_example :
    marshal_to hello dirty ≡ ok (encode hello ++ drop (size hello) dirty, size hello)
unfolding size
marshal_to-encode_example = marshal_to-encode hello dirty (omega arith) (omega arith)

abbrev owned : Life
owned = record { msg = hello; pooled = 4; double_releases = 0 }

abbrev shared : List Op
shared = retains ∷ releases ∷ releases ∷ []

shared-owners : owners shared 1 ≡ some 0
unfolding owners
shared-owners = refl

run-owners_example :
    (count (run shared owned) ≡ 0)
    × ((run shared owned).pooled ≡ 5)
    × ((run shared owned).double_releases ≡ 0)
run-owners_example = run-owners shared owned 0 (omega arith) (omega arith) shared-owners
