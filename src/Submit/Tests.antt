-- ===== src/Submit/Tests.antt =====
-- Sending a message, at concrete replies.
use mobile_agent.Prelude.{codes, true, false, some, none, arith}
use mobile_agent.Submit.{SendAgentMessageVariables, Reply, ok, submit_message, is_conflict}
use mobile_agent.Submit.Delivery.{IsDelivered, submit_message-once}

abbrev vars : SendAgentMessageVariables
vars = record {
  content = codes "go on";
  images = none;
  model_id = some (codes "m");
  effort = some (codes "high");
}

submit_message-once_example :
    IsDelivered true false true (submit_message false (Reply.failed (some 409)) ok vars)
unfolding is_conflict
submit_message-once_example =
    submit_message-once false (Reply.failed (some 409)) ok false true vars (λ _ i. false)
      (λ i. true)

-- The server stores the message, its reply is lost: the mutation throws, and starts no run.
lost_reply : IsDelivered false true true (submit_message false (Reply.failed (some 504)) ok vars)
unfolding is_conflict
lost_reply =
    submit_message-once false (Reply.failed (some 504)) ok true true vars
      (λ h. absurd (ground arith)) (λ i. true)
