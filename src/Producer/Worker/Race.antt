-- ===== src/Producer/Worker/Race.antt =====
-- The goroutines of `producingWorker` share the producer without a lock. Here are their accesses to the
-- address and the hash of its speaker, one at a time and in any order: pkg/message/peer.go writes them for
-- a Peer Up, and every message is made from a read of each.
pub mod Settled
mod Tests
use Prim.Native.String.{String}
use gobmp.Prelude.{ℕ, zero, suc, Bool, true, false, List, [], ◌∷◌, ◌++◌}

-- `speakerIP` and `speakerHash`
pub record Speaker : Type 0 where
  pub speaker_ip : String
  pub speaker_hash : String

-- Where a goroutine stands: a Peer Up with its local address, before it stores the address; before it
-- reads the stored address for its hash; with the address that it read; or a message before it reads the
-- two fields, the address first (as for peers) or the hash first (as for VPN routes), and between them.
pub data Task : Type 0 where
  starting : String → Task
  stored : Task
  read_back : String → Task
  reading : Bool → Task
  has_ip has_hash : String → Task

-- The address and the hash in a message.
abbrev pub Names : Type 0
Names = String × String

-- What an access leaves: the fields, the goroutine if it goes on, and the message if it is made.
pub record Outcome : Type 0 where
  pub speaker : Speaker
  pub tasks : List Task
  pub published : List Names

module _ (md5 : String → String) where
  -- The next access of a goroutine. After a Peer Up has written the fields, its own message reads them.
  pub access : Speaker → Task → Outcome
  access s (starting a) = record {
    speaker = record s { speaker_ip = a };
    tasks = stored ∷ [];
    published = [];
  }
  access s stored = record { speaker = s; tasks = read_back s.speaker_ip ∷ []; published = [] }
  access s (read_back a) = record {
    speaker = record s { speaker_hash = md5 a };
    tasks = reading true ∷ [];
    published = [];
  }
  access s (reading true) = record { speaker = s; tasks = has_ip s.speaker_ip ∷ []; published = [] }
  access s (reading false) = record {
    speaker = s;
    tasks = has_hash s.speaker_hash ∷ [];
    published = [];
  }
  access s (has_ip a) = record { speaker = s; tasks = []; published = (a, s.speaker_hash) ∷ [] }
  access s (has_hash h) = record { speaker = s; tasks = []; published = (s.speaker_ip, h) ∷ [] }

  -- The next access of the `n`th goroutine.
  pub turn : ℕ → Speaker → List Task → Outcome
  turn n s [] = record { speaker = s; tasks = []; published = [] }
  turn zero s (t ∷ ts) = record (access s t) { tasks = (access s t).tasks ++ ts }
  turn (suc n) s (t ∷ ts) = record (turn n s ts) { tasks = t ∷ (turn n s ts).tasks }

  -- A schedule: a goroutine is started, or the one of a number goes on.
  pub data Choice : Type 0 where
    start : Task → Choice
    go_on : ℕ → Choice

  -- What is published under a schedule, and the fields and goroutines behind it.
  pub run : List Choice → Speaker → List Task → Outcome
  run [] s ts = record { speaker = s; tasks = ts; published = [] }
  run (start t ∷ cs) s ts = run cs s (ts ++ (t ∷ []))
  run (go_on n ∷ cs) s ts =
      let rest = run cs (turn n s ts).speaker (turn n s ts).tasks in
      record rest { published = (turn n s ts).published ++ rest.published }
