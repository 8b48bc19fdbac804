-- ===== src/Bgp/Texts.antt =====
-- What the program takes from Go's library and from github.com/sbezverk/tools to write texts.
use Prim.Native.String.{String}
use Prim.Native.String.{◌++◌ as join_text}
use gobmp.Prelude.{ℕ, List, [], ◌∷◌, ◌==◌, if◌then◌else◌}

-- The text of an IPv4 and of an IPv6 address, `%d` (and `strconv.Itoa`), `%04x`, `ConvertToHex` of a
-- byte, `MessageHex`, and of a float32 by its bits `%03f` and the integer part as a uint32.
pub record Texts : Type 0 where
  pub ip4 : List ℕ → String
  pub ip16 : List ℕ → String
  pub decimal : ℕ → String
  pub hex4 : ℕ → String
  pub hex_byte : ℕ → String
  pub message_hex : List ℕ → String
  pub float : ℕ → String
  pub float_number : ℕ → ℕ

infixr 65 ◌<>◌
abbrev pub ◌<>◌ : String → String → String
a <> b = join_text a b

-- The texts of a table, and `other` where the key is not there.
pub text_of : String → List (ℕ × String) → ℕ → String
text_of other [] k = other
text_of other ((j, s) ∷ table) k = if j == k then s else text_of other table k
