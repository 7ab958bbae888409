-- ===== src/Rdma/Polling.antt =====
-- What polling finds, and which events are acknowledged.
use cachecoherence.Base.{
  ℕ, zero, suc, ◌≡◌, ◌≢◌, ◌↔◌, ◌⊎◌, Run, refl, ap, ◌∙◌, sym, Bool, true, false, none, some, List,
  [], ◌∷◌, ◌++◌, ok, stop, threw, arith, replicate, All, append_assoc, append-nil, map,
}
use cachecoherence.Rdma.Completion.{
  Completion, Queue, CompletionQueuePair, poll_completion_queue, poll_completion_queue_blocking,
  drain, wait_for_completion, new, destroy,
}

-- What a poll for a kind of completions makes of the one that it finds.
abbrev pub Reports : ℕ → Completion → Run ℕ → Type 0
Reports kind c r =
    ((id : ℕ) → (r ≡ ok id) ↔ ((c.success ≡ true) × (c.opcode ≡ kind) × (c.id ≡ id)))
    × ((r ≡ stop threw) ↔ ((c.success ≡ false) ⊎ (c.opcode ≢ kind)))

-- Blocking polling is polling that repeats where it finds nothing: however long it has to wait, its
-- result and the queue afterwards are those of the one poll that finds something. The result is the
-- id of a completion that is good and of the kind asked for, and an exception for any other one; and
-- the completion is taken from the queue.
pub poll-blocking :
    (kind rounds : ℕ) (c : Completion) (queue : Queue)
    → let r = poll_completion_queue_blocking kind (replicate rounds none ++ some c ∷ queue) in
      (r ≡ poll_completion_queue kind (some c ∷ queue)) × (r.1 ≡ queue) × Reports kind c r.0
unfolding poll_completion_queue poll_completion_queue_blocking
poll-blocking kind zero c queue = ground arith
poll-blocking kind (suc rounds) c queue = poll-blocking kind rounds c queue

abbrev pub IsGood : Completion → Type 0
IsGood c = c.success ≡ true

-- A number of a queue of the pair.
abbrev pub number : Bool → ℕ
number true = 1
number false = 0

-- Waits for completions, one after the other, also after one that throws.
abbrev pub waits : List Bool → CompletionQueuePair → CompletionQueuePair
waits [] q = q
waits (event ∷ events) q = waits events (wait_for_completion event q).1

wait-event :
    (event : Bool) (q : CompletionQueuePair)
    → ((wait_for_completion event q).1.events_to_ack ≡ q.events_to_ack ++ number event ∷ [])
      × ((wait_for_completion event q).1.armed ≡ q.armed ++ number event ∷ [])
      × ((wait_for_completion event q).1.acked ≡ q.acked)
unfolding wait_for_completion
wait-event true q = (refl, refl, refl)
wait-event false q = (refl, refl, refl)

waits-events :
    (events : List Bool) (q : CompletionQueuePair)
    → ((waits events q).events_to_ack ≡ q.events_to_ack ++ map number events)
      × ((waits events q).armed ≡ q.armed ++ map number events)
      × ((waits events q).acked ≡ q.acked)
waits-events [] q = (sym (append-nil q.events_to_ack), sym (append-nil q.armed), refl)
waits-events (event ∷ events) q =
    let q' = (wait_for_completion event q).1 in
    let (to_ack, armed, acked) = waits-events events q' in
    let (to_ack', armed', acked') = wait-event event q in
    (
      to_ack
          ∙ ap (λ l. l ++ map number events) to_ack'
          ∙ append_assoc q.events_to_ack (number event ∷ []) (map number events),
      armed
          ∙ ap (λ l. l ++ map number events) armed'
          ∙ append_assoc q.armed (number event ∷ []) (map number events),
      acked ∙ acked',
    )

-- A pair that is made, waits for some events, and is destroyed, acknowledges each event once, in
-- order, and has asked for a notification at the start and after each event, on its own queue.
pub destroy-waits :
    (send_queue receive_queue : Queue) (events : List Bool)
    → ((destroy (waits events (new send_queue receive_queue))).acked ≡ map number events)
      × ((destroy (waits events (new send_queue receive_queue))).armed ≡ 0 ∷ 1 ∷ map number events)
unfolding new destroy
destroy-waits send_queue receive_queue events =
    let (to_ack, armed, acked) = waits-events events (new send_queue receive_queue) in
    ground (arith, to_ack, armed, acked)

-- The loop of a wait takes all completions that are there, up to the first poll that finds nothing,
-- and ends normally where they are good; the first one that is not ends it with an exception.
pub drain-some :
    (good : List Completion) (bad : Completion) (queue : Queue)
    → All IsGood good
    → bad.success ≡ false
    → (drain (map some good ++ none ∷ queue) ≡ (ok tt, queue))
      × (drain (map some good ++ some bad ∷ queue) ≡ (stop threw, queue))
unfolding drain
drain-some [] bad queue all failed = ground (arith, failed)
drain-some (c ∷ good) bad queue (is_good, all) failed =
    ground (arith, is_good, drain-some good bad queue all failed)
