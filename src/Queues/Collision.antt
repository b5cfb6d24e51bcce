-- ===== src/Queues/Collision.antt =====
-- The order of two arguments in generateQueueNameForResource (queue_utils.go).
use kai_resource_management.Prelude.{
  ltb, get_or_empty, ok, ◌≤◌, String, eq_iff, eq_refl, ◌≡◌, refl, ◌≢◌, true, false, some, arith,
}
use kai_resource_management.Objects.{Queue, reply}
use kai_resource_management.Queues.{QueuesConfig, History, Server}
use kai_resource_management.Queues.Specs.{is_owned_by_kind, is_external_queue}
use kai_resource_management.Queues.Steps.{
  max_name_len, is_claimed, is_queue_taken, is_queue_taken_by_other_resource, try_names,
  generate_queue_name_for_resource,
}
use Prim.Native.String

-- When the queue of a project's suggested name, which has at most 58 bytes, is a department's,
-- whose label names a department of the project's own name, and is not external, the name made for the
-- project's queue is that taken name, although the test with its arguments in order finds it taken.
pub project_collides :
    (cfg : QueuesConfig) (server : Server) (project name uid : String) (s : History) (queue : Queue)
    → project ≢ ""
    → String.len name ≤ 58
    → server.get_queue s name ≡ reply queue
    → is_external_queue cfg queue uid ≡ false
    → is_owned_by_kind queue.owner_references "Department" ≡ true
    → is_owned_by_kind queue.owner_references "Project" ≡ false
    → get_or_empty cfg.queue_department_name_label_key queue.labels ≡ project
    → ((generate_queue_name_for_resource cfg server project "" name uid s).0 ≡ ok name)
      × ((is_queue_taken_by_other_resource cfg server "" project name uid s).0
          ≡ ok (true, some queue))
unfolding generate_queue_name_for_resource try_names is_queue_taken_by_other_resource is_queue_taken
project_collides cfg server project name uid s queue named short found inside ours theirs labelled =
    let small : ltb max_name_len (String.len name) ≡ false = ground arith in
    let claimed : is_claimed cfg server queue "Department" cfg.queue_department_name_label_key
          project
        ≡ true =
      ground (arith, eq_iff project "", eq_refl project) in
    let free : is_queue_taken cfg server project "" uid (reply queue) ≡ (false, some queue) =
      rw (inside, claimed) refl in
    let taken : is_queue_taken cfg server "" project uid (reply queue) ≡ (true, some queue) =
      rw (inside, ours, theirs) (ground arith) in
    (rw (small, found, free) refl, rw (found, taken) refl)
