-- ===== src/Coinbase/Print.antt =====
-- The layout of a coinbase response, as the comments of src/pool.rs give it.
use blvm_datum.Common.{ℕ, ◌^◌, ◌<◌, List, [], ◌∷◌, ◌++◌, All, length}
use blvm_datum.Bytes.{Bytes, to_le_bytes}
use blvm_datum.Utf8.Valid.{IsUtf8}
use blvm_datum.Coinbase.{CoinbaseOutput, CoinbasePayout}

-- `[value(8)][script_len(1)][script(script_len)]`
abbrev pub print_output : CoinbaseOutput → Bytes
print_output o = to_le_bytes 8 o.value ++ (length o.script ∷ o.script)

abbrev pub print_outputs : List CoinbaseOutput → Bytes
print_outputs [] = []
print_outputs (o ∷ os) = print_output o ++ print_outputs os

-- `[primary_tag_len(1)][primary_tag][unique_id_len(1)][unique_id][output_count(1)][outputs...]`
abbrev pub print_coinbase_data : Bytes → Bytes → List CoinbaseOutput → Bytes
print_coinbase_data tag id outputs =
    length tag ∷ (tag ++ (length id ∷ (id ++ (length outputs ∷ print_outputs outputs))))

-- `[value(8)][length(4)][coinbase_data(length)][0xFE]`, with whatever follows the terminator.
abbrev pub print_response : ℕ → Bytes → Bytes → Bytes
print_response value coinbase_data rest =
    to_le_bytes 8 value
    ++ (to_le_bytes 4 (length coinbase_data) ++ (coinbase_data ++ (0xFE ∷ rest)))

pub record FitsOutput (o : CoinbaseOutput) : Type 0 where
  pub script_fits : length o.script < 256
  pub value_fits : o.value < 2 ^ 64

-- What the layout has room for.
pub record FitsPayout (p : CoinbasePayout) : Type 0 where
  pub tag_utf8 : IsUtf8 p.primary_tag
  pub tag_fits : length p.primary_tag < 256
  pub id_utf8 : IsUtf8 p.unique_id
  pub id_fits : length p.unique_id < 256
  pub outputs_fit : All FitsOutput p.outputs
  pub output_count_fits : length p.outputs < 256
