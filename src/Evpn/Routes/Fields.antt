-- ===== src/Evpn/Routes/Fields.antt =====
-- The fields of EVPN routes read back from the bytes they are written as.
use gobmp.Prelude.{
  ℕ, suc, ◌+◌, ◌/◌, ◌≤◌, ◌<◌, ◌++◌, ◌≡◌, ◌≢◌, ap, List, [], Option, none, some, length, drop, arith,
  ne→==, take-append_of, All,
}
use gobmp.Go.{ok, Slice, IsSlice, copy_at}
use gobmp.Go.Reads.{slice_sized, copy_at_sized, room, slice-drop}
use gobmp.Go.Scan.{next, scan, encode_all, scan-encode_all}
use gobmp.Base.Rd.{Rd}
use gobmp.Base.Rd.RoundTrip.{IsRd, encode_rd, make_rd-encode_rd}
use gobmp.Base.Label.{Label}
use gobmp.Base.Label.RoundTrip.{IsLabel, encode_label, make_label-encode_label}
use gobmp.Evpn.Routes.{make_esi, make_mac_address, rd_at, esi_at, ip_at, mac_at, label_turn}

-- An address that may be missing.
abbrev pub of_option : Option (List ℕ) → List ℕ
of_option none = []
of_option (some v) = v

-- An IP address of `n` bits, and a MAC address of 48 bits, or none.
abbrev pub IsIp : ℕ → Option (List ℕ) → Type 0
IsIp n none = n ≡ 0
IsIp n (some v) = (n ≢ 0) × (length v ≡ n / 8)

abbrev pub IsMac : ℕ → Option (List ℕ) → Type 0
IsMac n none = n / 8 ≡ 0
IsMac n (some v) = (n / 8 ≡ 6) × (length v ≡ 6)

pub ip_size : (n : ℕ) (o : Option (List ℕ)) → IsIp n o → length (of_option o) ≡ n / 8
ip_size n none h = omega (arith, h)
ip_size n (some v) (z, h) = h

pub mac_size : (n : ℕ) (o : Option (List ℕ)) → IsMac n o → length (of_option o) ≡ n / 8
mac_size n none h = omega (arith, h)
mac_size n (some v) (z, h) = omega (arith, z, h)

module _ (b : Slice) (p : ℕ) where
  pub rd_at-drop :
      (r : Rd) (rest : List ℕ) → IsRd r → drop p b.mem ≡ encode_rd r ++ rest → rd_at b p ≡ ok r
  unfolding rd_at
  rd_at-drop r rest h e =
      let n : length (encode_rd r) ≡ 8 = omega (arith, h.six) in
      rw
        (slice_sized b p 8 (encode_rd r) rest n e
          (room b.mem p 8 (encode_rd r) rest n (omega arith) e))
        (make_rd-encode_rd r rest h)

  pub esi_at-drop : (v rest : List ℕ) → length v ≡ 10 → drop p b.mem ≡ v ++ rest → esi_at b p ≡ ok v
  unfolding esi_at make_esi
  esi_at-drop v rest n e =
      rw (slice_sized b p 10 v rest n e (room b.mem p 10 v rest n (omega arith) e))
        (ap ok (take-append_of 10 v rest n))

  pub copy_at-part :
      (k : ℕ) (v rest : List ℕ)
      → length v ≡ k
      → 0 < k
      → drop p b.mem ≡ v ++ rest
      → copy_at b p k ≡ ok v
  copy_at-part k v rest n h e = copy_at_sized b p k v rest n e (room b.mem p k v rest n h e)

  pub mac_at-drop :
      (n : ℕ) (o : Option (List ℕ)) (rest : List ℕ)
      → IsMac n o
      → drop p b.mem ≡ of_option o ++ rest
      → mac_at b p n ≡ ok o
  unfolding mac_at make_mac_address
  mac_at-drop n none rest h e = rw h
  mac_at-drop n (some v) rest (six, size) e =
      rw (six, slice_sized b p 6 v rest size e (room b.mem p 6 v rest size (omega arith) e))
        (ap (λ (x : List ℕ). ok (some x)) (take-append_of 6 v rest size))

  pub ip_at-drop :
      (n : ℕ) (o : Option (List ℕ)) (rest : List ℕ)
      → IsIp n o
      → drop p b.mem ≡ of_option o ++ rest
      → p + n / 8 ≤ length b.mem
      → ip_at b p n ≡ ok o
  unfolding ip_at
  ip_at-drop n none rest h e k = rw h
  ip_at-drop n (some v) rest (z, size) e k =
      rw (ne→== n 0 z, copy_at_sized b p (n / 8) v rest size e k)

label_turn-encode :
    (b : Slice)
    → IsSlice b
    → (l : Label) (p : ℕ) (rest : List ℕ) → IsLabel l
    → drop p b.mem ≡ encode_label l ++ rest
    → p + length (encode_label l) ≤ b.len
    → (label_turn b p ≡ ok (next l (p + length (encode_label l)))) × (0 < length (encode_label l))
unfolding label_turn
label_turn-encode b w l p rest h e n = (
  rw (slice-drop b p (encode_label l) rest e (omega arith), make_label-encode_label l rest h),
  omega arith,
)

-- Labels up to the end of the slice.
pub labels-encode :
    (b : Slice) (p : ℕ) (ls : List Label) (rest : List ℕ)
    → IsSlice b
    → All IsLabel ls
    → drop p b.mem ≡ encode_all encode_label ls ++ rest
    → p + length (encode_all encode_label ls) ≡ b.len
    → scan label_turn (suc b.len) b p ≡ ok ls
labels-encode b p ls rest w h e n =
    scan-encode_all label_turn b encode_label IsLabel (label_turn-encode b w) ls (suc b.len) p rest
      h e n (omega arith)
