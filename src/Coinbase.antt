-- ===== src/Coinbase.antt =====
-- src/pool.rs: the pool's coinbase response and its parser. Sums of offsets stay below 2^33, so they
-- do not wrap in a 64-bit `usize`.
pub mod Bounds
pub mod Parts
pub mod Print
pub mod RoundTrip
pub mod Response
pub mod Sound
pub mod Typed
use blvm_datum.Common.{
  ℕ, zero, suc, ◌+◌, Bool, not, List, [], ◌∷◌, ◌++◌, String, ltb, leb, ◌==◌, length,
}
use blvm_datum.Error.{Result, ok, err, DatumError, protocol_error, Text, text, fail_if, ◌>>=◌, ◌>>◌}
use blvm_datum.Bytes.{Bytes, index, slice, read_u32, read_u64}
use blvm_datum.Utf8.{from_utf8_lossy}

pub record CoinbaseOutput : Type 0 where
  pub script : Bytes
  pub value : ℕ

pub record CoinbasePayout : Type 0 where
  pub outputs : List CoinbaseOutput
  pub primary_tag : Text
  pub unique_id : Text

-- A text behind its length byte, at an offset; the offset behind it comes with it. The two texts
-- are the errors for a missing length and for a length that runs over the end.
unfoldable pub read_text : Bytes → ℕ → DatumError → DatumError → Result (Text × ℕ)
read_text coinbase_data offset missing too_long = do
  fail_if (leb (length coinbase_data) offset) missing
  len ← index coinbase_data offset
  fail_if (ltb (length coinbase_data) (offset + 1 + len)) too_long
  bytes ← slice coinbase_data (offset + 1) (offset + 1 + len)
  ok (from_utf8_lossy bytes, offset + 1 + len)

-- One round of the loop over the outputs.
unfoldable pub read_output : Bytes → ℕ → Result (CoinbaseOutput × ℕ)
read_output coinbase_data offset = do
  fail_if (ltb (length coinbase_data) (offset + 8))
      (protocol_error (text "Coinbase data too short for output value"))
  value ← read_u64 coinbase_data offset
  fail_if (leb (length coinbase_data) (offset + 8))
      (protocol_error (text "Coinbase data too short for script length"))
  script_len ← index coinbase_data (offset + 8)
  fail_if (ltb (length coinbase_data) (offset + 8 + 1 + script_len))
      (protocol_error (text "Script length exceeds data"))
  script ← slice coinbase_data (offset + 8 + 1) (offset + 8 + 1 + script_len)
  ok (record { script = script; value = value }, offset + 8 + 1 + script_len)

-- `for _ in 0..output_count`; the outputs read so far are `outputs`.
unfoldable pub read_outputs : ℕ → Bytes → ℕ → List CoinbaseOutput → Result (List CoinbaseOutput)
read_outputs zero coinbase_data offset outputs = ok outputs
read_outputs (suc rounds) coinbase_data offset outputs = do
  (output, next) ← read_output coinbase_data offset
  read_outputs rounds coinbase_data next (outputs ++ output ∷ [])

-- The part between the length and the terminator.
unfoldable pub parse_coinbase_data : Bytes → Result CoinbasePayout
parse_coinbase_data coinbase_data = do
  (primary_tag, offset) ←
      read_text coinbase_data 0 (protocol_error (text "Coinbase data too short for primary tag"))
        (protocol_error (text "Primary tag length exceeds data"))
  (unique_id, offset') ←
      read_text coinbase_data offset (protocol_error (text "Coinbase data too short for unique ID"))
        (protocol_error (text "Unique ID length exceeds data"))
  fail_if (leb (length coinbase_data) offset')
      (protocol_error (text "Coinbase data too short for output count"))
  output_count ← index coinbase_data offset'
  outputs ← read_outputs output_count coinbase_data (offset' + 1) []
  ok (record { outputs = outputs; primary_tag = primary_tag; unique_id = unique_id })

unfoldable pub parse_coinbase_response : Bytes → Result CoinbasePayout
parse_coinbase_response bytes = do
  fail_if (ltb (length bytes) 13) (protocol_error (text "Coinbase response too short"))
  fail_if (ltb (length bytes) 8) (protocol_error (text "Invalid coinbase response format"))
  _value ← read_u64 bytes 0
  fail_if (ltb (length bytes) 12) (protocol_error (text "Invalid coinbase response format"))
  coinbase_data_len ← read_u32 bytes 8
  fail_if (ltb (length bytes) (12 + coinbase_data_len))
      (protocol_error (text "Coinbase data length exceeds buffer"))
  terminator ← index bytes (12 + coinbase_data_len)
  fail_if (not (terminator == 0xFE)) (protocol_error (text "Missing coinbase response terminator"))
  coinbase_data ← slice bytes 12 (12 + coinbase_data_len)
  parse_coinbase_data coinbase_data
