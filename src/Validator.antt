-- ===== src/Validator.antt =====
-- pkg/validator/store.go: the records of a store file.
pub mod RoundTrip
mod Tests
use gobmp.Prelude.{ℕ, ◌+◌, ◌/◌, ◌%◌, List, [], ◌∷◌, ◌++◌, ltb}
use gobmp.Go.{short_input, Res, ok, ◌>>=◌, ◌>>◌, fail_if, Slice, uint32_at, copy_at}

pub record StoredMessage : Type 0 where
  pub topic_type : ℕ
  pub len : ℕ
  pub message : List ℕ

-- `binary.BigEndian.PutUint32`
abbrev pub put_uint32 : ℕ → List ℕ
put_uint32 n = (n / 16777216 % 256) ∷ (n / 65536 % 256) ∷ (n / 256 % 256) ∷ (n % 256) ∷ []

pub marshal : StoredMessage → List ℕ
marshal m = put_uint32 m.topic_type ++ (put_uint32 m.len ++ m.message)

pub unmarshal : Slice → Res StoredMessage
unmarshal b = do
  fail_if (ltb b.len 8) short_input
  t ← uint32_at b 0
  l ← uint32_at b 4
  fail_if (ltb b.len (8 + l)) short_input
  m ← copy_at b 8 l
  ok (record { topic_type = t; len = l; message = m })
