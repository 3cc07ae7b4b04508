-- ===== src/Stream.antt =====
-- A TCP stream of tokio, as src/datum_protocol.rs reads and writes it. What the other end will have
-- sent, the error that ends it, and what becomes of each write are fixed in advance: they are the
-- environment's choice.
use blvm_datum.Common.{ℕ, List, [], ◌∷◌, ◌++◌, leb, if◌then◌else◌, length, take, drop}
use blvm_datum.Error.{Result, ok, err, IoError, io_error}
use blvm_datum.Bytes.{Bytes}

-- `broken n e`: `n` bytes go out, and the call fails with `e`.
pub data WriteResult : Type 0 where
  written : WriteResult
  broken : ℕ → IoError → WriteResult

pub record Stream : Type 0 where
  -- what can still be read
  pub incoming : Bytes
  -- the error of a read that wants more: `unexpected_eof` if the other end closes
  pub read_end : IoError
  -- what has been handed over
  pub sent : Bytes
  -- the results of the next writes; all later ones succeed
  pub writes : List WriteResult

-- `read_exact` of `n` bytes. A failing read uses up what was there.
unfoldable pub read_exact : ℕ → Stream → Result Bytes × Stream
read_exact n s =
    if leb n (length s.incoming)
    then (ok (take n s.incoming), record s { incoming = drop n s.incoming })
    else (err (io_error s.read_end), record s { incoming = [] })

unfoldable pub write_next : List WriteResult → Bytes → Stream → Result (Unit {0}) × Stream
write_next [] bytes s = (ok tt, record s { sent = s.sent ++ bytes })
write_next (written ∷ later) bytes s = (ok tt, record s { sent = s.sent ++ bytes; writes = later })
write_next (broken n e ∷ later) bytes s =
    (err (io_error e), record s { sent = s.sent ++ take n bytes; writes = later })

-- `write_all`; `flush` is a write of nothing.
unfoldable pub write_all : Bytes → Stream → Result (Unit {0}) × Stream
unfolding write_next
write_all bytes s = write_next s.writes bytes s

unfoldable pub flush : Stream → Result (Unit {0}) × Stream
unfolding write_all
flush s = write_all [] s
