-- ===== src/Nlri/Unicast/Tests.antt =====
-- 10.16.0.0/12 behind two labels, and a withdrawn 10.0.0.0/8.
use gobmp.Prelude.{arith, ◌≡◌, ◌++◌, List, [], ◌∷◌, refl, true, false, none, length, All}
use gobmp.Go.{ok}
use gobmp.Go.Scan.{encode_all}
use gobmp.Base.Label.{Label}
use gobmp.Nlri.Unicast.{unmarshal_labeled}
use gobmp.Nlri.Unicast.RoundTrip.{Labeled, IsLabeled, encode_labeled, unmarshal_labeled-encode}

abbrev two_labels : List Label
two_labels =
    (record { value = 100; exp = 0; bos = false })
    ∷ (record { value = 200; exp = 0; bos = true })
    ∷ []

abbrev two_labeled : List Labeled
two_labeled =
    (record { path_id = 7; stack = two_labels; bits = 12; prefix = 10 ∷ 16 ∷ [] })
    ∷ (record { path_id = 8; stack = []; bits = 8; prefix = 10 ∷ [] })
    ∷ []

two_labeled-IsLabeled : All IsLabeled two_labeled
two_labeled-IsLabeled = (
  record {
    labels_known = (
      (
        record { value_bound = omega arith; exp_bound = omega arith },
        refl,
        (record { value_bound = omega arith; exp_bound = omega arith }, refl),
      ),
      λ e. omega arith,
    );
    sized = refl;
    byte = omega arith;
  },
  (record { labels_known = tt; sized = refl; byte = omega arith }, tt),
)

unmarshal_labeled-encode_example :
    unmarshal_labeled 1
      (record {
        len = length (encode_all (encode_labeled true) two_labeled);
        mem = encode_all (encode_labeled true) two_labeled ++ (1 ∷ []);
      })
      true
    ≡ ok (
        (record { path_id = 7; length = 16; label = two_labels; rd = none; prefix = 10 ∷ 16 ∷ [] })
        ∷ (record { path_id = 8; length = 8; label = []; rd = none; prefix = 10 ∷ [] })
        ∷ [])
unmarshal_labeled-encode_example =
    unmarshal_labeled-encode true two_labeled (1 ∷ []) 0 two_labeled-IsLabeled
