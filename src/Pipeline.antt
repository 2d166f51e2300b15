-- ===== src/Pipeline.antt =====
-- From the game to the table: what ingest makes of a struct of the game (formulatel/f123/f123.go),
-- and the row that persist builds of it (formulatel/internal/timescale/batcher.go).
pub mod Vehicle
pub mod Wheels
pub mod Motion
pub mod Laps
pub mod Routes
pub mod Delivery
use formulatel.Common.{◌≡◌, some, List, String, Option, map}
use formulatel.Timescale.Rows.{Value, Row, Built, built}
use formulatel.Timescale.Copy.{value_at}

-- The row has each of the values under the name of its column.
abbrev pub Holds : List (String × Value) → Row → Type 0
Holds columns row = map (λ c. value_at row c.0) columns ≡ map (λ c. some c.1) columns

-- A row was built, and it holds the values.
abbrev pub BuiltWith : List (String × Value) → Built Row → Type 0
BuiltWith columns r = (row : Row) × (r ≡ built row) × Holds columns row
