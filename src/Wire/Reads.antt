-- ===== src/Wire/Reads.antt =====
-- What `binary.Read` does of a type whose layout is known, on enough bytes and on too few.
use formulatel.Common.{
  ℕ, ◌<◌, ◌≡◌, List, [], ◌++◌, none, some, length, length-append, take-append, drop-append, ltb,
  ◌==◌, if◌then◌else◌, arith, false,
}
use formulatel.Wire.{Layout, ReadError, eof, unexpected_eof, zero_value, binary_read}

module _ {ℓ} {A : Type ℓ} (l : Layout A) where
  -- The error of a read that finds too few bytes.
  abbrev pub short_error : List ℕ → ReadError
  short_error bs = if length bs == 0 then eof else unexpected_eof

  -- Too few bytes: an error, the zero value, and nothing left to read.
  pub binary_read_short :
      (bs : List ℕ)
      → length bs < l.size
      → binary_read l bs ≡ record { value = zero_value l; error = some (short_error bs); rest = [] }
  unfolding binary_read
  binary_read_short bs h = ground arith

  ltb-length : (xs r : List ℕ) → length xs ≡ l.size → ltb (length (xs ++ r)) l.size ≡ false
  ltb-length xs r e = ground (arith, length-append xs r)

  -- The bytes of a value, and more: the value is read, and the rest is left.
  pub binary_read_whole :
      (xs : List ℕ) (a : A) (r : List ℕ)
      → length xs ≡ l.size
      → l.decode xs ≡ (a, [])
      → binary_read l (xs ++ r) ≡ record { value = a; error = none; rest = r }
  unfolding binary_read
  binary_read_whole xs a r e d = rw (ltb-length xs r e, ← e, take-append xs r, drop-append xs r, d)
