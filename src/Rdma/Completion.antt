-- ===== src/Rdma/Completion.antt =====
-- rdma/CompletionQueuePair.cpp: polling for completions. A queue is the list of what the calls of
-- `poll(1, …)` find, in order: `none` where they find nothing. A busy wait at the end of the list is
-- blocked.
use cachecoherence.Base.{
  ℕ, ◌-◌, ◌^◌, Bool, true, false, Option, none, some, List, [], ◌∷◌, ◌++◌, ◌==◌, if◌then◌else◌, Run,
  ok, stop, threw, blocked,
}

-- `WorkCompletion`, as far as it is read
pub record Completion : Type 0 where
  pub success : Bool
  pub opcode : ℕ
  pub id : ℕ

abbrev pub Queue : Type 0
Queue = List (Option Completion)

-- `numeric_limits<uint64_t>::max()`
abbrev pub nothing : ℕ
nothing = 2 ^ 64 - 1

-- `IBV_WC_RECV`
abbrev pub recv_opcode : ℕ
recv_opcode = 128

-- `CompletionQueuePair`: `armed` counts the notifications requested, `acked` what has been
-- acknowledged. `events_to_ack` names the queues, by number.
pub record CompletionQueuePair : Type 0 where
  pub send_queue : Queue
  pub receive_queue : Queue
  pub events_to_ack : List ℕ
  pub armed : List ℕ
  pub acked : List ℕ

-- The status, where the opcode does not matter.
unfoldable pub checked : Completion → Run ℕ
checked c = if c.success then ok c.id else stop threw

-- `pollCompletionQueue`: the id, and the queue afterwards. An empty list finds nothing.
unfoldable pub poll_completion_queue : ℕ → Queue → Run ℕ × Queue
poll_completion_queue kind [] = (ok nothing, [])
poll_completion_queue kind (none ∷ queue) = (ok nothing, queue)
poll_completion_queue kind (some c ∷ queue) =
    (if c.success then (if c.opcode == kind then ok c.id else stop threw) else stop threw, queue)

-- `pollSendCompletionQueue()`, which takes any opcode
unfoldable pub poll_send_completion_queue : Queue → Run ℕ × Queue
unfolding checked
poll_send_completion_queue [] = (ok nothing, [])
poll_send_completion_queue (none ∷ queue) = (ok nothing, queue)
poll_send_completion_queue (some c ∷ queue) = (checked c, queue)

-- `pollRecvCompletionQueue`
unfoldable pub poll_recv_completion_queue : Queue → Run ℕ × Queue
unfolding poll_completion_queue
poll_recv_completion_queue queue = poll_completion_queue recv_opcode queue

-- `pollCompletionQueueBlocking`
unfoldable pub poll_completion_queue_blocking : ℕ → Queue → Run ℕ × Queue
poll_completion_queue_blocking kind [] = (stop blocked, [])
poll_completion_queue_blocking kind (none ∷ queue) = poll_completion_queue_blocking kind queue
poll_completion_queue_blocking kind (some c ∷ queue) =
    (if c.success then (if c.opcode == kind then ok c.id else stop threw) else stop threw, queue)

-- `pollQueueBlocking`, with the whole completion as its result
unfoldable pub poll_queue_blocking : Queue → Run Completion × Queue
poll_queue_blocking [] = (stop blocked, [])
poll_queue_blocking (none ∷ queue) = poll_queue_blocking queue
poll_queue_blocking (some c ∷ queue) = (if c.success then ok c else stop threw, queue)

-- `for (;;)` of `waitForCompletion`: whether all completions were good, and the queue afterwards.
unfoldable pub drain : Queue → Run (Unit {0}) × Queue
drain [] = (ok tt, [])
drain (none ∷ queue) = (ok tt, queue)
drain (some c ∷ queue) = let rest = drain queue in if c.success then rest else (stop threw, queue)

-- `waitForCompletion`, where the event is of the receive queue (`true`, number 1) or of the send
-- queue (number 0)
unfoldable pub wait_for_completion :
    Bool → CompletionQueuePair → Run (Unit {0}) × CompletionQueuePair
unfolding drain
wait_for_completion true q =
    let (result, queue) = drain q.receive_queue in
    (
      result,
      record q {
        events_to_ack = q.events_to_ack ++ 1 ∷ [];
        armed = q.armed ++ 1 ∷ [];
        receive_queue = queue;
      },
    )
wait_for_completion false q =
    let (result, queue) = drain q.send_queue in
    (
      result,
      record q {
        events_to_ack = q.events_to_ack ++ 0 ∷ [];
        armed = q.armed ++ 0 ∷ [];
        send_queue = queue;
      },
    )

-- `CompletionQueuePair::CompletionQueuePair`
unfoldable pub new : Queue → Queue → CompletionQueuePair
new send_queue receive_queue = record {
  send_queue = send_queue;
  receive_queue = receive_queue;
  events_to_ack = [];
  armed = 0 ∷ 1 ∷ [];
  acked = [];
}

-- `CompletionQueuePair::~CompletionQueuePair`
unfoldable pub destroy : CompletionQueuePair → CompletionQueuePair
destroy q = record q { acked = q.acked ++ q.events_to_ack }
