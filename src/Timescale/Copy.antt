-- ===== src/Timescale/Copy.antt =====
-- formulatel/internal/timescale/batcher.go: `writeBatch`, and the source of rows that it hands to the
-- database driver. The order in which Go walks over a map is not determined: it is a parameter.
pub mod Columns
pub mod Tables
use formulatel.Common.{
  ℕ, Bool, true, false, Option, none, some, List, [], ◌∷◌, map, String, if◌then◌else◌,
}
use text.Mathlib.Text.{◌==◌ as str_eq}
use formulatel.Timescale.Rows.{Row, Value}

-- `row[key]`, which is nil where the key is missing.
unfoldable pub value_at : Row → String → Option Value
value_at [] key = none
value_at ((k, v) ∷ row) key = if str_eq k key then some v else value_at row key

-- `rowKeys`: the keys of a row, in the order of the walk.
unfoldable pub row_keys : (Row → List String) → Row → List String
row_keys walk row = walk row

-- `copyFromSource`: the rows that are still to be read.
pub record CopyFromSource : Type 0 where
  pub rows : List (List (Option Value))

-- `Next`
unfoldable pub next : CopyFromSource → Bool
next c = elim c.rows [ [] ↦ false | _ ∷ _ ↦ true ]

-- `Values`: the first row, and the source without it; nil once all rows are read.
unfoldable pub values : CopyFromSource → Option (List (Option Value)) × CopyFromSource
values c = elim c.rows [ [] ↦ (none, c) | row ∷ rows ↦ (some row, record { rows = rows }) ]

-- `ReadRow`: as `Values`, but the end is the error `pgx.ErrNoRows`.
pub data ReadRow : Type 0 where
  read : List (Option Value) → ReadRow
  no_rows : ReadRow

unfoldable pub read_row : CopyFromSource → ReadRow × CopyFromSource
read_row c = elim c.rows [ [] ↦ (no_rows, c) | row ∷ rows ↦ (read row, record { rows = rows }) ]

-- What `conn.CopyFrom` is given: the columns and the source.
pub record CopyRequest : Type 0 where
  pub columns : List String
  pub source : CopyFromSource

source_row : List String → Row → List (Option Value)
unfolding value_at
source_row keys row = map (value_at row) keys

-- `writeBatch`, up to the call of the driver. It reads `rows[0]`, which fails on no rows; `flush`
-- calls it with a row at least.
unfoldable pub write_batch : (Row → List String) → List Row → Option CopyRequest
unfolding source_row row_keys
write_batch walk [] = none
write_batch walk (row ∷ rows) =
    let keys = row_keys walk row in
    some (record {
      columns = keys;
      source = record { rows = source_row keys row ∷ map (source_row keys) rows };
    })
