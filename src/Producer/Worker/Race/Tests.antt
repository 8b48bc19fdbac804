-- ===== src/Producer/Worker/Race/Tests.antt =====
-- A Peer Up, an update whose message reads the hash first, and a second Peer Up between its two reads.
use Prim.Native.String.{String}
use gobmp.Prelude.{List, [], ◌∷◌, false}
use gobmp.Bgp.Texts.{◌<>◌}
use gobmp.Producer.Worker.Race.{Speaker, starting, reading, Choice, start, go_on}

abbrev sum : String → String
sum t = "md5 of " <> t

abbrev unknown_speaker : Speaker
unknown_speaker = record { speaker_ip = ""; speaker_hash = "" }

abbrev choices : List (Choice sum)
choices =
    start (reading false)
    ∷ start (starting "10.0.0.2")
    ∷ go_on 1
    ∷ go_on 2
    ∷ go_on 1
    ∷ go_on 0
    ∷ go_on 0
    ∷ []
