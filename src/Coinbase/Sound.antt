-- ===== src/Coinbase/Sound.antt =====
-- Only responses in the documented layout are accepted.
use blvm_datum.Common.{
  ℕ, zero, suc, ◌+◌, ◌-◌, ◌≤◌, ◌<◌, ◌≡◌, refl, sym, subst, ap, ap₂, ◌∙◌, false, List, [], ◌∷◌, ◌++◌,
  All, length, take, drop, arith, ltb, leb, ltb→ge, append_assoc, append-nil, All-drop,
}
use blvm_datum.Error.Ensures.{
  Ensures, holds, Ensures-fail_if, Ensures-value, Ensures-bind, Ensures-map,
}
use blvm_datum.Error.{ok, DatumError, Text}
use blvm_datum.Bytes.{Bytes, IsByte, IsBytes, index, from_le_bytes, to_le_bytes}
use blvm_datum.Bytes.Slices.{
  index-lt, index-eq-ok, slice-le, read_u64-le, le_range, le_range-lt, counted_range,
}
use blvm_datum.Utf8.{from_utf8_lossy}
use blvm_datum.Coinbase.{
  CoinbaseOutput, CoinbasePayout, read_text, read_output, read_outputs, parse_coinbase_data,
}
use blvm_datum.Coinbase.Print.{print_output, print_outputs, print_coinbase_data, FitsOutput}

leb→lt : (a b : ℕ) → leb a b ≡ false → b < a
leb→lt a b h = ground arith

-- A text was read at `o`, and what follows it stands at `next`.
record IsText (xs : Bytes) (o : ℕ) (r : Text × ℕ) : Type 0 where
  raw : Bytes
  decoded : r.0 ≡ from_utf8_lossy raw
  stands : drop o xs ≡ length raw ∷ (raw ++ drop r.1 xs)

record IsOutput (xs : Bytes) (o : ℕ) (r : CoinbaseOutput × ℕ) : Type 0 where
  fits : FitsOutput r.0
  stands : drop o xs ≡ print_output r.0 ++ drop r.1 xs

-- The outputs read from `o` on, behind those read before.
record AreOutputs (xs : Bytes) (rounds o : ℕ) (before outs : List CoinbaseOutput) : Type 0 where
  read : List CoinbaseOutput
  end : ℕ
  added : outs ≡ before ++ read
  all_read : length read ≡ rounds
  fit : All FitsOutput read
  stand : drop o xs ≡ print_outputs read ++ drop end xs

-- The payload is laid out as documented, and the payout is what stands there.
pub record IsPayload (xs : Bytes) (p : CoinbasePayout) : Type 0 where
  pub tag : Bytes
  pub id : Bytes
  pub inner : Bytes
  pub layout : xs ≡ print_coinbase_data tag id p.outputs ++ inner
  pub outputs_fit : All FitsOutput p.outputs
  pub tag_decoded : p.primary_tag ≡ from_utf8_lossy tag
  pub id_decoded : p.unique_id ≡ from_utf8_lossy id

module _ (xs : Bytes) (bytes : IsBytes xs) where
  read_text-Ensures :
      (o : ℕ) (missing too_long : DatumError)
      → Ensures (IsText xs o) (read_text xs o missing too_long)
  unfolding read_text
  read_text-Ensures o missing too_long = Ensures-fail_if (leb (length xs) o) missing λ room.
      let (len, e) = index-lt xs o (leb→lt _ _ room) in
      Ensures-value _ len e (
        Ensures-fail_if (ltb (length xs) (o + 1 + len)) too_long λ fits.
          let bound : o + 1 + len ≤ length xs = ltb→ge _ _ fits in
          Ensures-value _ _ (slice-le xs (o + 1) (o + 1 + len) (omega arith) bound) (
            holds (record {
              raw = take (o + 1 + len - (o + 1)) (drop (o + 1) xs);
              decoded = refl;
              stands = (counted_range xs o len e bound).0;
            })))

  byte_at : (o b : ℕ) → index xs o ≡ ok b → b < 256
  byte_at o b e = (subst IsBytes (index-eq-ok xs o b e) (All-drop IsByte o xs bytes)).0

  read_output-Ensures : (o : ℕ) → Ensures (IsOutput xs o) (read_output xs o)
  unfolding read_output
  read_output-Ensures o = Ensures-fail_if (ltb (length xs) (o + 8)) _ λ value_fits.
      let room8 : o + 8 ≤ length xs = ltb→ge _ _ value_fits in
      Ensures-value _ _ (read_u64-le xs o room8) (
        Ensures-fail_if (leb (length xs) (o + 8)) _ λ room.
          let (len, e) = index-lt xs (o + 8) (leb→lt _ _ room) in
          Ensures-value _ len e (
            Ensures-fail_if (ltb (length xs) (o + 8 + 1 + len)) _ λ fits.
              let bound : o + 8 + 1 + len ≤ length xs = ltb→ge _ _ fits in
              let (stands, count) = counted_range xs (o + 8) len e bound in
              Ensures-value _ _ (slice-le xs (o + 8 + 1) (o + 8 + 1 + len) (omega arith) bound) (
                holds (record {
                  fits = record {
                    script_fits = omega (arith, count, byte_at (o + 8) len e);
                    value_fits = omega (arith, le_range-lt xs o 8 bytes room8);
                  };
                  stands =
                      le_range xs o 8 bytes room8
                      ∙ ap (λ (t : Bytes). to_le_bytes 8 (from_le_bytes (take 8 (drop o xs))) ++ t)
                          stands;
                }))))

  read_outputs-Ensures :
      (rounds o : ℕ) (before : List CoinbaseOutput)
      → Ensures (AreOutputs xs rounds o before) (read_outputs rounds xs o before)
  unfolding read_outputs
  read_outputs-Ensures zero o before = holds (record {
    read = [];
    end = o;
    added = sym (append-nil before);
    all_read = refl;
    fit = tt;
    stand = refl;
  })
  read_outputs-Ensures (suc rounds) o before =
      Ensures-bind (read_output-Ensures o) λ (out, next) first.
        Ensures-map (read_outputs-Ensures rounds next (before ++ out ∷ [])) λ outs later. record {
          read = out ∷ later.read;
          end = later.end;
          added = later.added ∙ append_assoc before (out ∷ []) later.read;
          all_read = ap suc later.all_read;
          fit = (first.fits, later.fit);
          stand =
              first.stands
              ∙ ap (◌++◌ (print_output out)) later.stand
              ∙ sym
                  (append_assoc (print_output out) (print_outputs later.read) (drop later.end xs));
        }

  counted_outputs :
      {o count : ℕ} (outs : List CoinbaseOutput) (os : AreOutputs xs count o [] outs)
      → count ∷ drop o xs ≡ length outs ∷ (print_outputs outs ++ drop os.end xs)
  counted_outputs {count = count} outs os = ap₂ ◌∷◌ (sym (ap length os.added ∙ os.all_read)) (
      os.stand ∙ ap (λ (z : List CoinbaseOutput). print_outputs z ++ drop os.end xs) (sym os.added))

  -- Whatever the payload holds, its parser returns what is laid out there, or an error.
  pub parse_coinbase_data-Ensures : Ensures (IsPayload xs) (parse_coinbase_data xs)
  unfolding parse_coinbase_data
  parse_coinbase_data-Ensures = Ensures-bind (read_text-Ensures 0 _ _) λ (tag, o) t.
      Ensures-bind (read_text-Ensures o _ _) λ (id, o') i.
        Ensures-fail_if (leb (length xs) o') _ λ room.
          let (count, e) = index-lt xs o' (leb→lt _ _ room) in
          Ensures-value _ count e (
            Ensures-bind (read_outputs-Ensures count (o' + 1) []) λ outs os. holds (record {
              tag = t.raw;
              id = i.raw;
              inner = drop os.end xs;
              layout =
                  t.stands
                  ∙ ap (λ (z : Bytes). length t.raw ∷ (t.raw ++ z))
                      (i.stands
                        ∙ ap (λ (z : Bytes). length i.raw ∷ (i.raw ++ z))
                            (index-eq-ok xs o' count e ∙ counted_outputs outs os))
                  ∙ simp append_assoc;
              outputs_fit = subst (All FitsOutput) (sym os.added) os.fit;
              tag_decoded = t.decoded;
              id_decoded = i.decoded;
            }))
