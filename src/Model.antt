-- ===== src/Model.antt =====
-- zmodel/actor.go: the parts of `ActorConfig` that the modelled code reads. A topic is kept as the
-- numbers that `Sprintf` prints into it.
use zhenyi.Prelude.{ℕ, List}

pub record ActorConfig : Type 0 where
  pub id : ℕ
  pub process : ℕ
  pub actor_type : ℕ
  pub index : ℕ
  pub max_restarts : ℕ
  pub supported_msg_ids : List ℕ

pub record Topic : Type 0 where
  pub actor_type : ℕ
  pub index : ℕ
  pub id : ℕ

unfoldable pub get_topic : ActorConfig → Topic
get_topic a = record { actor_type = a.actor_type; index = a.index; id = a.id }
