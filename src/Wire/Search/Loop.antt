-- ===== src/Wire/Search/Loop.antt =====
-- The loop over the fields ends on every message, whatever its bytes.
use androidtvremote_native.Common.{
  ℕ, zero, suc, ◌-◌, ◌<◌, ◌≢◌, Option, none, some, List, length, arith,
}
use androidtvremote_native.Wire.Types.{Field}
use androidtvremote_native.Wire.Reader.{Reader, new, next}
use androidtvremote_native.Wire.Reader.Fields.{IsValid, FieldResult, next_result}
use androidtvremote_native.Wire.Search.{Scan, out_of_fuel, visited, scan_next, scan, scan_message}

module _ {ℓ} {A : Type ℓ} (visit : Field → Option A) where
  scan_next-ne-out_of_fuel :
      (fuel : ℕ) (again : Reader → Scan A) (r : Reader) (o : Reader × Option Field)
      → ((s : Reader) → IsValid s → length s.bytes - s.offset < fuel → again s ≢ out_of_fuel)
      → FieldResult r o
      → length r.bytes - r.offset < suc fuel
      → scan_next visit again o ≢ out_of_fuel
  scan_next-ne-out_of_fuel fuel again r (s, none) ih f h = λ p. cc
  scan_next-ne-out_of_fuel fuel again r (s, some field) ih f h = go (visit field)
    where
      go : (o : Option A) → visited o again s ≢ out_of_fuel
      go (some a) = λ p. cc
      go none = ih s f.later.inside (ground arith)

  scan-ne-out_of_fuel :
      (fuel : ℕ) (r : Reader)
      → IsValid r
      → length r.bytes - r.offset < fuel
      → scan visit fuel r ≢ out_of_fuel
  unfolding scan
  scan-ne-out_of_fuel zero r v h = absurd (omega arith)
  scan-ne-out_of_fuel (suc fuel) r v h =
      scan_next-ne-out_of_fuel fuel (scan visit fuel) r (next r) (scan-ne-out_of_fuel fuel)
        (next_result r v) h

  -- For every search `visit`, the fuel of the loop over the fields suffices on every message,
  -- whatever its bytes.
  pub scan_message-ne-out_of_fuel : (message : List ℕ) → scan_message visit message ≢ out_of_fuel
  unfolding scan_message
  scan_message-ne-out_of_fuel message =
      scan-ne-out_of_fuel (suc (length message)) (new message) (omega arith) (omega arith)
