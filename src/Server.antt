-- ===== src/Server.antt =====
-- pkg/gobmpsrv/gobmpsrv.go: the read loop of `bmpWorker`, from a client's byte stream to framed
-- messages.
pub mod Framing
pub mod Bounds
mod Tests
use gobmp.Prelude.{
  ℕ, zero, suc, ◌+◌, ◌-◌, ◌^◌, true, false, Bool, List, [], ◌∷◌, ◌++◌, length, take, drop, ltb, leb,
  ◌||◌, if◌then◌else◌,
}
use gobmp.Go.{Error, Res, ok, err, panic, spin, of_list}
use gobmp.Bmp.CommonHeader.{CommonHeader, unmarshal_common_header}

-- How the loop ends: the stream ends inside a message, `make` is given a negative length, or, for the
-- model, the fuel is gone.
pub data Closing : Type 0 where
  read_error crashed running : Closing

-- The messages handed to the parser (and, in intercept mode, written to the other server).
abbrev pub Session : Type 0
Session = List (List ℕ) × Closing

abbrev forward : List ℕ → Session → Session
forward m (ms, c) = (m ∷ ms, c)

-- The body of a message of `l` bytes, behind the header `head`; `make([]byte, int(l)-6)`.
abbrev read_body : (List ℕ → Session) → List ℕ → ℕ → List ℕ → Session
read_body loop head l rest =
    if leb (2 ^ 31) l || ltb l 6
    then ([], crashed)
    else if ltb (length rest) (l - 6)
    then ([], read_error)
    else forward (head ++ take (l - 6) rest) (loop (drop (l - 6) rest))

abbrev on_header : (List ℕ → Session) → List ℕ → Res CommonHeader → List ℕ → Session
on_header loop head (ok h) rest = read_body loop head h.message_length rest
on_header loop head (err e) rest = loop rest
on_header loop head panic rest = ([], crashed)
on_header loop head spin rest = ([], running)

-- The stream is what the client sends until it closes. Each round reads six bytes at least.
pub serve : ℕ → List ℕ → Session
serve zero stream = ([], running)
serve (suc fuel) stream = elim (ltb (length stream) 6) [
  | true ↦ ([], read_error)
  | false ↦
      on_header (serve fuel) (take 6 stream) (unmarshal_common_header (of_list (take 6 stream)))
        (drop 6 stream)
]
