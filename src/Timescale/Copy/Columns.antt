-- ===== src/Timescale/Copy/Columns.antt =====
-- What the database receives of a batch, column by column.
use formulatel.Common.{
  ℕ, zero, suc, ◌≤◌, ◌≡◌, refl, ap, ◌∙◌, Bool, true, false, Option, none, some, List, [], ◌∷◌, map,
  String, All, length, arith, if◌then◌else◌,
}
use text.Mathlib.Text.{◌==◌ as str_eq}
use text.Mathlib.TextEquality.{eq_iff}
use formulatel.Timescale.Rows.{Row, Value}
use formulatel.Timescale.Copy.{
  CopyFromSource, CopyRequest, value_at, row_keys, next, values, source_row, write_batch,
}

-- The reader of the driver's interface: `for Next() { Values() }`, with fuel.
unfoldable pub drain : ℕ → CopyFromSource → List (Option (List (Option Value)))
drain zero c = []
drain (suc f) c = let rest = drain f (values c).1 in if next c then (values c).0 ∷ rest else []

-- The reader gets every row once, in order, and then the source is at its end: as many rounds as
-- there are rows are enough.
pub drain-all :
    (fuel : ℕ) (rows : List (List (Option Value)))
    → length rows ≤ fuel
    → drain fuel (record { rows = rows }) ≡ map some rows
unfolding drain next values
drain-all zero [] h = refl
drain-all zero (row ∷ rows) h = absurd (omega arith)
drain-all (suc f) [] h = refl
drain-all (suc f) (row ∷ rows) h = ap (λ xs. some row ∷ xs) (drain-all f rows (omega arith))

-- A column of a received row.
unfoldable pub column : List String → List (Option Value) → String → Option Value
column [] vs key = none
column (k ∷ ks) [] key = none
column (k ∷ ks) (v ∷ vs) key = if str_eq k key then v else column ks vs key

-- A key stands in the list.
unfoldable pub has_key : List String → String → Bool
has_key [] key = false
has_key (k ∷ ks) key = if str_eq k key then true else has_key ks key

column-source_row :
    (row : Row) (keys : List String) (key : String)
    → column keys (source_row keys row) key ≡ (if has_key keys key then value_at row key else none)
unfolding column source_row has_key
column-source_row row [] key = refl
column-source_row row (k ∷ ks) key = ground (arith, eq_iff k key, column-source_row row ks key)

abbrev is_some {ℓ} : {A : Type ℓ} → Option A → Bool
is_some none = false
is_some (some _) = true

-- The keys of a row as it is built.
abbrev pub keys_of : Row → List String
keys_of row = map (λ p. p.0) row

value_at-has_key :
    (row : Row) (key : String) → is_some (value_at row key) ≡ has_key (keys_of row) key
unfolding value_at has_key
value_at-has_key [] key = refl
value_at-has_key ((k, v) ∷ row) key = ground (arith, value_at-has_key row key)

-- Walking over a map visits each of its keys, and nothing else.
abbrev pub Walks : (Row → List String) → Type 0
Walks walk = (row : Row) (key : String) → has_key (walk row) key ≡ has_key (keys_of row) key

received_column :
    (walk : Row → List String) (first row : Row) (key : String)
    → Walks walk
    → keys_of row ≡ keys_of first
    → column (walk first) (source_row (walk first) row) key ≡ value_at row key
received_column walk first row key w same =
    column-source_row row (walk first) key
    ∙ ground (arith, w first key, value_at-has_key row key, ap (λ ks. has_key ks key) same)

received_columns :
    (walk : Row → List String) (first : Row) (rows : List Row) (key : String)
    → Walks walk
    → All (λ row. keys_of row ≡ keys_of first) rows
    → map (λ vs. column (walk first) vs key) (map (source_row (walk first)) rows)
      ≡ map (λ row. value_at row key) rows
received_columns walk first [] key w same = refl
received_columns walk first (row ∷ rows) key w same =
    cc (received_column walk first row key w same.0, received_columns walk first rows key w same.1)

-- Whatever order Go walks over the first row in, a batch of rows with the same columns is given to
-- the database so that each row has under each column name the value that it was built with, and
-- none under any other name.
pub write_batch_columns :
    (walk : Row → List String) (first : Row) (rows : List Row) (key : String)
    → Walks walk
    → All (λ row. keys_of row ≡ keys_of first) rows
    → (request : CopyRequest) × (write_batch walk (first ∷ rows) ≡ some request)
      × (map (λ vs. column request.columns vs key) request.source.rows
          ≡ map (λ row. value_at row key) (first ∷ rows))
unfolding write_batch row_keys
write_batch_columns walk first rows key w same = (
  record {
    columns = walk first;
    source = record { rows = map (source_row (walk first)) (first ∷ rows) };
  },
  refl,
  received_columns walk first (first ∷ rows) key w (refl, same),
)
