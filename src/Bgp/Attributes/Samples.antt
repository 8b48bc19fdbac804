-- ===== src/Bgp/Attributes/Samples.antt =====
-- Texts and formats for the tests, which write every value in the same way.
use gobmp.Bgp.Texts.{Texts}
use gobmp.Bgp.Attributes.{Formats}

abbrev pub plain_texts : Texts
plain_texts = record {
  ip4 = λ b. "ip4";
  ip16 = λ b. "ip16";
  decimal = λ n. "n";
  hex4 = λ n. "hex4";
  hex_byte = λ n. "hex";
  message_hex = λ b. "bytes";
  float = λ n. "float";
  float_number = λ n. n;
}

abbrev pub plain_formats : Formats
plain_formats = record { texts = plain_texts; digest = λ a. "digest" }
