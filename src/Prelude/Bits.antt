-- ===== src/Prelude/Bits.antt =====
-- Masks on one byte as arithmetic: each is a table of 256 entries, checked by evaluation.
use Prim.Native.Nat.{ℕ, zero, suc, ◌*◌, ◌/◌, ◌%◌, ◌<◌, bit_and}
use mathlib.Core.Path.{◌≡◌, refl}
use mathlib.Core.Bool.{Bool, true, ◌&&◌}
use native.Mathlib.Omega.{arith}
use gobmp.Prelude.Tests.{◌==◌, ==_iff}

pub all_below : ℕ → (ℕ → Bool) → Bool
all_below zero p = true
all_below (suc n) p = p n && all_below n p

pub all_below_sound : (n : ℕ) (p : ℕ → Bool) (x : ℕ) → all_below n p ≡ true → x < n → p x ≡ true
unfolding all_below
all_below_sound zero p x h lt = elim lt [ ]
all_below_sound (suc n) p x h lt = ground (arith, all_below_sound n p x)

module _ (f g : ℕ → ℕ) where
  -- Two byte functions agree if the table of their values does.
  byte_table : all_below 256 (λ x. f x == g x) ≡ true → (b : ℕ) → b < 256 → f b ≡ g b
  byte_table h b lt = (==_iff (f b) (g b)).0 (all_below_sound 256 _ b h lt)

pub and_f0 : (b : ℕ) → b < 256 → bit_and b 0xf0 ≡ b / 16 * 16
unfolding all_below
and_f0 = byte_table _ _ refl

pub and_0e : (b : ℕ) → b < 256 → bit_and b 0x0e ≡ b / 2 % 8 * 2
unfolding all_below
and_0e = byte_table _ _ refl

pub and_01 : (b : ℕ) → b < 256 → bit_and b 0x01 ≡ b % 2
unfolding all_below
and_01 = byte_table _ _ refl

pub and_10 : (b : ℕ) → b < 256 → bit_and b 0x10 ≡ b / 16 % 2 * 16
unfolding all_below
and_10 = byte_table _ _ refl

pub and_80 : (b : ℕ) → b < 256 → bit_and b 0x80 ≡ b / 128 % 2 * 128
unfolding all_below
and_80 = byte_table _ _ refl

pub and_40 : (b : ℕ) → b < 256 → bit_and b 0x40 ≡ b / 64 % 2 * 64
unfolding all_below
and_40 = byte_table _ _ refl

pub and_30 : (b : ℕ) → b < 256 → bit_and b 0x30 ≡ b / 16 % 4 * 16
unfolding all_below
and_30 = byte_table _ _ refl

pub and_04 : (b : ℕ) → b < 256 → bit_and b 0x04 ≡ b / 4 % 2 * 4
unfolding all_below
and_04 = byte_table _ _ refl

pub and_02 : (b : ℕ) → b < 256 → bit_and b 0x02 ≡ b / 2 % 2 * 2
unfolding all_below
and_02 = byte_table _ _ refl
