-- ===== src/Runtime/Clients/Relays.antt =====
-- The goroutines of a worker in pkg/coordinator/runtime.go: writeWorker, readWorker and the one that
-- waits for the exit, with `emit`. Each gives the events that it puts on the loop's channel.
use mini_av.Prelude.{String, Option, none, some, List, [], ◌∷◌, ◌++◌, Bool, if◌then◌else◌}
use mini_av.Protocol.{Message}
use mini_av.Process.{Exit}
use mini_av.Coordinator.State.{WorkerKey}
use mini_av.Runtime.Loop.{Event}

-- What the calls of Receive return: messages, until an error, `none` for io.EOF.
pub data Received : Type 0 where
  message : Message → Received → Received
  ended : Option String → Received

-- `done` is whether the loop has ended when the event is put: then it is dropped.
unfoldable pub emit : Bool → Event → List Event
emit done event = if done then [] else event ∷ []

-- `write_text` and `read_text` are the texts of the errors.
module _ (write_text read_text : String → String) (key : WorkerKey) where
  -- For each message of the queue, what Send returns.
  unfoldable pub write_worker : Bool → List (Option String) → List Event
  unfolding emit
  write_worker done [] = []
  write_worker done (none ∷ sends) = write_worker done sends
  write_worker done (some e ∷ sends) = emit done (Event.worker_failure key (write_text e))

  abbrev read_failure : Bool → Option String → List Event
  read_failure done none = []
  read_failure done (some e) = emit done (Event.worker_failure key (read_text e))

  unfoldable pub read_worker : Bool → Received → List Event
  unfolding emit
  read_worker done (Received.message m rest) =
      emit done (Event.worker_message key m) ++ read_worker done rest
  read_worker done (Received.ended e) = read_failure done e

  -- The exit that the child's channel gives, `none` if it is closed.
  unfoldable pub watch_exit : Bool → Option Exit → List Event
  unfolding emit
  watch_exit done none = []
  watch_exit done (some exit) = emit done (Event.worker_exit key exit)
