-- ===== src/Validator/RoundTrip.antt =====
-- `unmarshal` against `marshal`.
use gobmp.Prelude.{
  ℕ, ◌+◌, ◌*◌, ◌/◌, ◌%◌, ◌^◌, ◌≤◌, ◌<◌, ◌++◌, ◌≡◌, refl, List, length, arith, ltb, le→ltb, lt→ltb,
  ltb→lt, ltb→le, if◌then◌else◌, Bool-cases, inl, inr, length-append,
}
use gobmp.Go.{short_input, ok, err, Slice}
use gobmp.Go.Reads.{uint32_at-drop, copy_at_sized}
use gobmp.Validator.{StoredMessage, marshal, unmarshal}

-- The numbers fit 32 bits, and the length is that of the message.
pub record IsStored (m : StoredMessage) : Type 0 where
  pub type_bound : m.topic_type < 2 ^ 32
  pub len_bound : m.len < 2 ^ 32
  pub counted : length m.message ≡ m.len

-- For a message of 32-bit numbers that counts its bytes, a slice of `n` bytes that begins as
-- `marshal` wrote it, whatever follows, is read back to the message if `n` covers it, and is
-- otherwise the error of a short input.
pub unmarshal-marshal :
    (m : StoredMessage) (rest : List ℕ) (n : ℕ)
    → IsStored m
    → n ≤ length (marshal m ++ rest)
    → unmarshal (record { len = n; mem = marshal m ++ rest })
      ≡ (if ltb n (8 + length m.message) then err short_input else ok m)
unfolding marshal unmarshal
unmarshal-marshal m rest n h w =
    let b : Slice = record { len = n; mem = marshal m ++ rest } in
    let t : m.topic_type / 16777216 % 256 * 16777216
          + m.topic_type / 65536 % 256 * 65536
          + m.topic_type / 256 % 256 * 256
          + m.topic_type % 256
        ≡ m.topic_type =
      omega (arith, h.type_bound) in
    let l : m.len / 16777216 % 256 * 16777216
          + m.len / 65536 % 256 * 65536
          + m.len / 256 % 256 * 256
          + m.len % 256
        ≡ m.len =
      omega (arith, h.len_bound) in
    let size : length (m.message ++ rest) ≡ length m.message + length rest =
      length-append m.message rest in
    elim (Bool-cases (ltb n (8 + length m.message))) [
      | inr e ↦ rw (
        e,
        le→ltb n 8 (omega (arith, ltb→le _ _ e)),
        uint32_at-drop b 0 _ _ _ _ _ refl,
        uint32_at-drop b 4 _ _ _ _ _ refl,
        t,
        l,
        le→ltb n (8 + m.len) (omega (arith, ltb→le _ _ e, h.counted)),
        copy_at_sized b 8 m.len m.message rest h.counted refl (omega (arith, h.counted)),
      )
      | inl e ↦ elim (Bool-cases (ltb n 8)) [
        | inl f ↦ rw (e, f)
        | inr f ↦ rw (
          e,
          f,
          uint32_at-drop b 0 _ _ _ _ _ refl,
          uint32_at-drop b 4 _ _ _ _ _ refl,
          t,
          l,
          lt→ltb n (8 + m.len) (omega (arith, ltb→lt _ _ e, h.counted)),
        )
      ]
    ]
