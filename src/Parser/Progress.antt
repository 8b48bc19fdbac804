-- ===== src/Parser/Progress.antt =====
-- The position of the worker's loop, and what it publishes.
use gobmp.Prelude.{
  ℕ, zero, suc, ◌+◌, ◌^◌, ◌≤◌, ◌<◌, ◌≡◌, refl, ◌∙◌, List, [], ◌∷◌, Option, none, some, arith,
  lt→ltb, le→ltb, ◌⊎◌,
}
use gobmp.Go.{Res, ok, Slice, slice, index, uint32_at}
use gobmp.Go.Reads.{>>=-eq-ok}
use gobmp.Bgp.Attributes.{Formats}
use gobmp.Bmp.CommonHeader.{CommonHeader, unmarshal_common_header}
use gobmp.Parser.{Message, dispatch, moved, worker_turn, done, running, after, worker}

module _ (fmt : Formats) where
  -- Where `dispatch` publishes, it has stepped over the per-peer header.
  dispatch_publishes :
      (b : Slice) (p t l : ℕ) (m : Message) (q : ℕ)
      → dispatch fmt b p t l ≡ ok (some m, q)
      → q ≡ p + 42
  unfolding dispatch
  dispatch_publishes b p t l m q e = ground arith

  settle :
      (b : Slice) (p t l : ℕ) (n : Option Message) (r : ℕ) (m : Message) (q : Option ℕ)
      → dispatch fmt b (p + 6) t l ≡ ok (n, r)
      → ◌≡◌ {A = Res (Option Message × Option ℕ)} (ok (n, moved r l)) (ok (some m, q))
      → l < 2 ^ 31
      → q ≡ some (p + l + 42)
  unfolding moved
  settle b p t l none r m q d e h = cc
  settle b p t l (some k) r m q d e h = ground (arith, dispatch_publishes b (p + 6) t l k r d)

  -- A turn at `p` that publishes a message, where the common header declares less than 2 ^ 31 bytes,
  -- goes to 42 bytes behind that message's end: the length in the common header counts the per-peer
  -- header, and the worker adds it a second time.
  pub worker_turn_overshoot :
      (b : Slice) (p : ℕ) (m : Message) (q : Option ℕ) (hs : Slice) (ch : CommonHeader)
      → worker_turn fmt b p ≡ ok (some m, q)
      → slice b p (p + 6) ≡ ok hs
      → unmarshal_common_header hs ≡ ok ch
      → ch.message_length < 2 ^ 31
      → q ≡ some (p + ch.message_length + 42)
  unfolding worker_turn
  worker_turn_overshoot b p m q hs ch e eh ec small =
      let (hs', eh', e1) = >>=-eq-ok (slice b p (p + 6)) _ e in
      let (ch', ec', e2) = >>=-eq-ok (unmarshal_common_header hs') _ e1 in
      let ((n, r), ed, e3) =
        >>=-eq-ok (dispatch fmt b (p + 6) ch'.message_type ch'.message_length) _ e2 in
      let same : ch'.message_length ≡ ch.message_length = cc in
      rw (← same) (settle b p ch'.message_type ch'.message_length n r m q ed e3 (omega arith))

  worker_past : (fuel : ℕ) (b : Slice) (p : ℕ) → b.len ≤ p → worker fmt (suc fuel) b p ≡ ([], done)
  unfolding worker
  worker_past fuel b p h = rw (le→ltb p b.len h, worker)

  worker_in :
      (fuel : ℕ) (b : Slice) (p : ℕ)
      → p < b.len
      → worker fmt (suc fuel) b p ≡ after (worker fmt fuel b) (worker_turn fmt b p)
  unfolding worker
  worker_in fuel b p h = rw (lt→ltb p b.len h, worker)

  -- Where the first turn publishes a message, the common header declares less than 2 ^ 31 bytes,
  -- and no more than 42 bytes of the slice lie behind them, the run publishes that one message
  -- and is done: whatever stands in these bytes is lost.
  pub worker_one_message :
      (fuel : ℕ) (b : Slice) (m : Message) (q : Option ℕ) (hs : Slice) (ch : CommonHeader)
      → 0 < b.len
      → worker_turn fmt b 0 ≡ ok (some m, q)
      → slice b 0 6 ≡ ok hs
      → unmarshal_common_header hs ≡ ok ch
      → ch.message_length < 2 ^ 31
      → b.len ≤ ch.message_length + 42
      → worker fmt (suc (suc fuel)) b 0 ≡ (m ∷ [], done)
  worker_one_message fuel b m q hs ch pos t eh ec small fits =
      worker_in (suc fuel) b 0 pos
      ∙ rw (
        t,
        worker_turn_overshoot b 0 m q hs ch t eh ec small,
        worker_past fuel b (0 + ch.message_length + 42) (omega arith),
      )

  endless_turn :
      (t : ℕ) (rest : List ℕ) (n : ℕ)
      → ((t ≡ 5) ⊎ (t ≡ 6))
      → worker_turn fmt (record { len = suc n; mem = 3 ∷ 0 ∷ 0 ∷ 0 ∷ 0 ∷ t ∷ rest }) 0
        ≡ ok (none, some 0)
  unfolding worker_turn dispatch moved unmarshal_common_header slice index uint32_at
  endless_turn t rest n h = ground arith

  -- At the head of a slice a Termination or Route Mirroring header that declares the length 0
  -- takes the worker back to where it was: it never ends.
  pub worker_endless :
      (fuel t : ℕ) (rest : List ℕ) (n : ℕ)
      → ((t ≡ 5) ⊎ (t ≡ 6))
      → worker fmt fuel (record { len = suc n; mem = 3 ∷ 0 ∷ 0 ∷ 0 ∷ 0 ∷ t ∷ rest }) 0
        ≡ ([], running)
  worker_endless zero t rest n h = unfold worker in refl
  worker_endless (suc fuel) t rest n h =
      worker_in fuel _ 0 (omega arith)
      ∙ rw (endless_turn t rest n h) (worker_endless fuel t rest n h)
