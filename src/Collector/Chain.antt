-- ===== src/Collector/Chain.antt =====
-- A client's stream of messages, from its bytes to the producer's queue.
use mathlib.Core.List.{Perm, perm_middle}
use mathlib.Core.List.Perm
use mathlib.Core.Path.{subst}
use gobmp.Prelude.{
  ℕ, zero, suc, ◌+◌, ◌≡◌, refl, ap, ◌∙◌, sym, List, [], ◌∷◌, ◌++◌, Option, none, some, length, map,
  All, append-nil, append_assoc,
}
use gobmp.Go.Scan.{encode_all}
use gobmp.Bgp.Attributes.{Formats}
use gobmp.Server.{Session, Closing, serve}
use gobmp.Server.Framing.{Frame, IsFrame, frame_bytes, serve_frames, serve-nil}
use gobmp.Parser.{Message, Run}
use gobmp.Parser.Reports.{Report, IsReport, frame_of, frame_of-IsFrame, worker-report}
use gobmp.Collector.{workers, send, sent_of, deliver}

abbrev pub message_of : Report → Message
message_of r = r.message

-- Everything that the workers have.
abbrev pub all_of : {A : Type 0} → List (List A) → List A
all_of [] = []
all_of (q ∷ qs) = q ++ all_of qs

abbrev pub output : Run → List Message
output r = r.0

module _ {A : Type 0} where
  sent_first :
      (m : Option A) (q r s : List A)
      → Perm (sent_of m ++ r) s
      → Perm (sent_of m ++ (q ++ r)) (q ++ s)
  sent_first none q r s h = Perm.append_left q h
  sent_first (some x) q r s h = Perm.trans (Perm.symm (perm_middle q r)) (Perm.append_left q h)

  send-Perm :
      (n : ℕ) (qs : List (List A))
      → Perm (sent_of (send n qs).0 ++ all_of (send n qs).1) (all_of qs)
  unfolding send
  send-Perm zero [] = Perm.refl []
  send-Perm (suc n) [] = Perm.refl []
  send-Perm zero ([] ∷ qs) = Perm.refl (all_of qs)
  send-Perm zero ((m ∷ ms) ∷ qs) = Perm.refl (m ∷ (ms ++ all_of qs))
  send-Perm (suc n) (q ∷ qs) =
      sent_first (send n qs).0 q (all_of (send n qs).1) (all_of qs) (send-Perm n qs)

  -- What is received and what is left are what there was.
  deliver-Perm :
      (ns : List ℕ) (qs : List (List A))
      → Perm ((deliver ns qs).0 ++ all_of (deliver ns qs).1) (all_of qs)
  unfolding deliver
  deliver-Perm [] qs = Perm.refl (all_of qs)
  deliver-Perm (n ∷ ns) qs =
      let first : List A = sent_of (send n qs).0 in
      let rest : List (List A) = (send n qs).1 in
      subst (λ l. Perm l (all_of qs)) (sym (append_assoc first (deliver ns rest).0 _))
        (Perm.trans (Perm.append_left first (deliver-Perm ns rest)) (send-Perm n qs))

module _ (fmt : Formats) where
  frames-IsFrame : (rs : List Report) → All (IsReport fmt) rs → All IsFrame (map frame_of rs)
  frames-IsFrame [] h = tt
  frames-IsFrame (r ∷ rs) (hr, hs) = (frame_of-IsFrame fmt r hr, frames-IsFrame rs hs)

  outputs-messages :
      (turns : ℕ) (rs : List Report) (c : Closing)
      → All (IsReport fmt) rs
      → all_of (map output (workers fmt (suc (suc turns)) (map frame_bytes (map frame_of rs), c)))
        ≡ map message_of rs
  unfolding workers
  outputs-messages turns [] c h = refl
  outputs-messages turns (r ∷ rs) c (hr, hs) =
      rw (worker-report fmt r hr turns, outputs-messages turns rs c hs)

  serve_session :
      (fuel : ℕ) (rs : List Report)
      → All (IsReport fmt) rs
      → serve (length (map frame_of rs) + suc fuel) (encode_all frame_bytes (map frame_of rs))
        ≡ (map frame_bytes (map frame_of rs), Closing.read_error)
  serve_session fuel rs h =
      let fs : List Frame = map frame_of rs in
      ap (serve (length fs + suc fuel)) (sym (append-nil (encode_all frame_bytes fs)))
      ∙ serve_frames (suc fuel) fs [] (frames-IsFrame rs h)
      ∙ ap (λ (x : Session). (map frame_bytes fs ++ x.0, x.1)) (serve-nil fuel)
      ∙ ap (λ (ms : List (List ℕ)). (ms, Closing.read_error)) (append-nil (map frame_bytes fs))

  -- What the workers of a client's stream are to send, where the read loop has some rounds and each worker
  -- some turns.
  abbrev pub queues : ℕ → ℕ → List ℕ → List (List Message)
  queues rounds turns stream = map output (workers fmt turns (serve rounds stream))

  -- On a stream of Route Monitoring, Statistics Report, Peer Down and Peer Up messages, each counted by
  -- its common header in less than 2 ^ 31 bytes, with a per-peer header and readable bytes behind it, and
  -- with more rounds than messages: in whatever order the workers send, and whenever the producer's queue
  -- is closed, what the producer receives and what is lost with the workers are together, up to order, the
  -- messages that these bytes are read as, each as often as it is in the stream.
  pub deliver-session :
      (fuel turns : ℕ) (rs : List Report) (schedule : List ℕ)
      → All (IsReport fmt) rs
      → Perm
          ((deliver schedule (
              queues
                (length (map frame_of rs) + suc fuel)
                (suc (suc turns))
                (encode_all frame_bytes (map frame_of rs)))).0
            ++ all_of (
                (deliver schedule (
                  queues
                    (length (map frame_of rs) + suc fuel)
                    (suc (suc turns))
                    (encode_all frame_bytes (map frame_of rs)))).1))
          (map message_of rs)
  deliver-session fuel turns rs schedule h =
      let qs : List (List Message) =
        queues (length (map frame_of rs) + suc fuel) (suc (suc turns))
          (encode_all frame_bytes (map frame_of rs)) in
      let all : all_of qs ≡ map message_of rs =
        ap (λ (s : Session). all_of (map output (workers fmt (suc (suc turns)) s)))
          (serve_session fuel rs h)
        ∙ outputs-messages turns rs Closing.read_error h in
      subst (λ ms. Perm ((deliver schedule qs).0 ++ all_of (deliver schedule qs).1) ms) all
        (deliver-Perm schedule qs)
