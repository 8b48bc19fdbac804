-- ===== src/Collector.antt =====
-- The goroutines that pass a client's messages on. The read loop of `bmpWorker` (pkg/gobmpsrv/gobmpsrv.go)
-- hands each message to `Parser` (pkg/parser/parser.go), which starts a worker for it; the workers send
-- what they read to the queue of `Producer` (pkg/message/producer.go), in any order, until the read loop
-- ends and stops it: what is not sent by then is lost.
pub mod Chain
mod Tests
use gobmp.Prelude.{ℕ, zero, suc, List, [], ◌∷◌, ◌++◌, Option, none, some, map}
use gobmp.Go.{of_list}
use gobmp.Bgp.Attributes.{Formats}
use gobmp.Server.{Session}
use gobmp.Parser.{Run, worker}

-- The workers that are started, each on its own slice. They share nothing but the queue.
pub workers : Formats → ℕ → Session → List Run
workers fmt turns s = map (λ m. worker fmt turns (of_list m) 0) s.0

-- The next message of the `n`th worker, if it has one, and what the workers have left.
pub send : {A : Type 0} → ℕ → List (List A) → Option A × List (List A)
send n [] = (none, [])
send zero ([] ∷ qs) = (none, [] ∷ qs)
send zero ((m ∷ ms) ∷ qs) = (some m, ms ∷ qs)
send (suc n) (q ∷ qs) = ((send n qs).0, q ∷ (send n qs).1)

abbrev pub sent_of : {A : Type 0} → Option A → List A
sent_of none = []
sent_of (some m) = m ∷ []

-- A schedule names the workers that send, one after the other, until the queue is closed: what the
-- producer receives, and what is left with the workers.
pub deliver : {A : Type 0} → List ℕ → List (List A) → List A × List (List A)
deliver [] qs = ([], qs)
deliver (n ∷ ns) qs =
    (sent_of (send n qs).0 ++ (deliver ns (send n qs).1).0, (deliver ns (send n qs).1).1)
