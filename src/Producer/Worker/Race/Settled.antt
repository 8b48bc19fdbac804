-- ===== src/Producer/Worker/Race/Settled.antt =====
-- The speaker that messages name while goroutines interleave.
use Prim.Native.String.{String}
use gobmp.Prelude.{◌≡◌, refl, true, [], ◌∷◌, All}
use gobmp.Producer.Worker.Race.{
  Speaker, Task, starting, stored, read_back, reading, has_ip, has_hash, Names, Outcome, access,
  turn, Choice, start, go_on, run,
}

module _ (md5 : String → String) (own : String) where
  abbrev pub IsSettled : Speaker → Type 0
  IsSettled s = (s.speaker_ip ≡ own) × (s.speaker_hash ≡ md5 own)

  -- A goroutine that has stored, or holds, nothing but the address or its hash.
  abbrev pub IsOwn : Task → Type 0
  IsOwn (starting a) = a ≡ own
  IsOwn stored = Unit
  IsOwn (read_back a) = a ≡ own
  IsOwn (reading b) = Unit
  IsOwn (has_ip a) = a ≡ own
  IsOwn (has_hash h) = h ≡ md5 own

  abbrev pub IsNamed : Names → Type 0
  IsNamed (a, h) = (a ≡ own) × (h ≡ md5 own)

  abbrev IsKept : Outcome → Type 0
  IsKept o = IsSettled o.speaker × All IsOwn o.tasks × All IsNamed o.published

  -- A Peer Up that starts has the address; a message is about to be made.
  abbrev pub IsStart : Choice md5 → Type 0
  IsStart (start (starting a)) = a ≡ own
  IsStart (start (reading b)) = Unit
  IsStart (start t) = ⊥
  IsStart (go_on n) = Unit

-- Two Peer Ups with different local addresses: the second stores its address and its hash between the
-- first one's read of the address and its write of the hash. Behind both the producer has the address of
-- the second and the hash of the first, and a message is published with them.
pub run_mixed :
    (md5 : String → String) (first second : String) (s : Speaker)
    → run md5
        (start (starting first)
          ∷ start (starting second)
          ∷ go_on 0
          ∷ go_on 0
          ∷ go_on 1
          ∷ go_on 1
          ∷ go_on 1
          ∷ go_on 0
          ∷ go_on 0
          ∷ go_on 0
          ∷ [])
        s
        []
      ≡ record {
        speaker = record { speaker_ip = second; speaker_hash = md5 first };
        tasks = reading true ∷ [];
        published = (second, md5 first) ∷ [];
      }
unfolding run turn access
run_mixed md5 first second s = refl
