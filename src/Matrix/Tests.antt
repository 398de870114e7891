-- ===== src/Matrix/Tests.antt =====
-- Deliveries of a run with two messages.
use matrix_agent_workspace.Prelude.{
  ℕ, String, false, none, some, List, [], ◌∷◌, map, ◌==◌, ◌≡◌, refl, All,
}
use matrix_agent_workspace.Json.{end}
use matrix_agent_workspace.Matrix.Renderer.{RenderableEvent}
use matrix_agent_workspace.Matrix.Outbox.{Tables, new_message, enqueue_matrix_delivery_with_client}
use matrix_agent_workspace.Matrix.Worker.{
  Tenant, Send, Surroundings, token, retryable, sent_as, deliver_one,
}
use matrix_agent_workspace.Matrix.Worker.Steps.{
  Delivery, Step, delivers, rolls_back, enqueues, attempt, sends,
}
use matrix_agent_workspace.Matrix.Worker.Order.{InOrder, sends-InOrder}
use matrix_agent_workspace.Matrix.Worker.Settled.{settled_never_sent}

abbrev owner : Tenant
owner = record { user_id = "u"; workspace_id = "w" }

abbrev render : RenderableEvent → String
render e = e.type'

abbrev online : Surroundings
online = record {
  now = 1000;
  resolve_matrix_access_token = λ u. token "secret";
  send_message = λ p. sent_as "event";
}

abbrev offline : Surroundings
offline = record online { send_message = λ p. retryable }

-- The first attempt of an offline message is repeated after five seconds.
abbrev later : Surroundings
later = record online { now = 7000 }

abbrev outbox : Tables
outbox = record {
  messages =
      new_message "m2" "w" "r" 2 "room" "r:2:room"
      ∷ new_message "m1" "w" "r" 1 "room" "r:1:room"
      ∷ [];
  runs = (record { id = "r"; owner_id = "u"; workspace_id = "w"; room_id = some "room" }) ∷ [];
  room_bindings =
      (record {
        room_id = "room";
        workspace_id = "w";
        user_id = "u";
        homeserver_url = "https://hs";
      })
      ∷ [];
  run_events =
      (record { run_id = "r"; sequence = 1; event_type = "run.started"; payload = none })
      ∷ (record { run_id = "r"; sequence = 2; event_type = "run.completed"; payload = some end })
      ∷ (record { run_id = "r"; sequence = 3; event_type = "run.resumed"; payload = none })
      ∷ [];
}

abbrev deliver : Surroundings → String → Delivery
deliver around id = record { tenant = owner; around = around; message_id = id }

-- Only the third event is enqueued.
abbrev show : ℕ → String
show n = "3"

-- The second message waits for the first one, which is sent three times, once in a transaction that is
-- undone; a third event is enqueued meanwhile.
abbrev steps : List Step
steps =
    delivers (deliver online "m2")
    ∷ delivers (deliver offline "m1")
    ∷ rolls_back (deliver later "m1")
    ∷ enqueues "m3" "w" "r" 3
    ∷ delivers (deliver later "m1")
    ∷ delivers (deliver online "m2")
    ∷ delivers (deliver online "om_m3")
    ∷ []

steps_send :
    map (λ (s : Send). s.params.delivery_key) (sends render show steps outbox)
    ≡ "r:1:room" ∷ "r:1:room" ∷ "r:1:room" ∷ "r:2:room" ∷ "r:3:room" ∷ []
unfolding deliver_one enqueue_matrix_delivery_with_client
steps_send = refl

sends-InOrder_example : InOrder (sends render show steps outbox)
unfolding deliver_one
sends-InOrder_example =
    sends-InOrder render show steps outbox (tt, (tt, (tt, (refl, (tt, (tt, (tt, tt)))))))

settled_never_sent_example :
    All
      (λ (s : Send). (s.params.delivery_key == "r:1:room") ≡ false)
      (sends render show steps (attempt render show (deliver online "m1") outbox).1.0)
unfolding deliver_one
settled_never_sent_example =
    settled_never_sent render show (deliver online "m1") steps outbox
      (new_message "m1" "w" "r" 1 "room" "r:1:room") (refl, (refl, tt)) refl refl
