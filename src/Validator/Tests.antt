-- ===== src/Validator/Tests.antt =====
-- A stored message of three bytes.
use gobmp.Prelude.{arith, ◌≡◌, ◌++◌, [], ◌∷◌, refl, ltb, if◌then◌else◌}
use gobmp.Go.{short_input, ok, err}
use gobmp.Validator.{StoredMessage, marshal, unmarshal}
use gobmp.Validator.RoundTrip.{unmarshal-marshal}

abbrev three_bytes : StoredMessage
three_bytes = record { topic_type = 1; len = 3; message = 7 ∷ 8 ∷ 9 ∷ [] }

unmarshal-marshal_example :
    unmarshal (record { len = 12; mem = marshal three_bytes ++ (0 ∷ []) })
    ≡ (if ltb 12 11 then err short_input else ok three_bytes)
unfolding marshal
unmarshal-marshal_example =
    unmarshal-marshal three_bytes (0 ∷ []) 12
      (record { type_bound = omega arith; len_bound = omega arith; counted = refl }) (omega arith)
