-- ===== src/Ingest/LogLevel.antt =====
-- formulatel/cmd/ingest/main.go, `parseLogLevel`, with `slog.Level.UnmarshalText` of Go's library.
use formulatel.Common.{
  ℕ, ◌+◌, ◌-◌, ◌*◌, ◌%◌, ◌^◌, ◌≡◌, inl, inr, Bool, true, false, ◌&&◌, ◌||◌, ◌==◌, Option, none,
  some, [], ◌∷◌, ltb, leb, bytes_eq, if◌then◌else◌, map, Option-cases, arith,
}
use formulatel.Common.Int.{ℤ, pos, negsuc, signed, unsigned}
use formulatel.Text.{Text, text}

-- `strings.IndexAny(s, "+-")`: what stands before the first sign, and what begins with it.
unfoldable pub split_at_sign : Text → Text × Text
split_at_sign [] = ([], [])
split_at_sign (c ∷ cs) =
    let rest = split_at_sign cs in
    if c == b'+' || c == b'-' then ([], c ∷ cs) else (c ∷ rest.0, rest.1)

-- The number that digits stand for, behind those that `acc` stands for.
unfoldable pub read_digits : ℕ → Text → Option ℕ
read_digits acc [] = some acc
read_digits acc (c ∷ cs) =
    let rest = read_digits (acc * 10 + (c - 48)) cs in if leb 48 c && leb c 57 then rest else none

-- `strconv.Atoi` of a text that begins with a sign.
unfoldable pub atoi : Text → Option ℤ
unfolding read_digits
atoi (sign ∷ c ∷ cs) = elim (read_digits 0 (c ∷ cs)) [
  | none ↦ none
  | some n ↦
      if sign == b'-'
      then if leb n (2 ^ 63) then some (if n == 0 then pos 0 else negsuc (n - 1)) else none
      else if ltb n (2 ^ 63)
      then some (pos n)
      else none
]
atoi _ = none

-- `strings.ToUpper` of an ASCII letter.
abbrev upper : ℕ → ℕ
upper c = if leb b'a' c && leb c b'z' then c - 32 else c

unfoldable pub level_named : Text → Option ℤ
level_named name =
    let name = map upper name in
    if bytes_eq name (text "DEBUG")
    then some (negsuc 3)
    else if bytes_eq name (text "INFO")
    then some (pos 0)
    else if bytes_eq name (text "WARN")
    then some (pos 4)
    else if bytes_eq name (text "ERROR")
    then some (pos 8)
    else none

-- The addition of two 64-bit integers, which wraps around.
unfoldable pub add_int64 : ℤ → ℤ → ℤ
unfolding signed unsigned
add_int64 a b = signed (2 ^ 63) ((unsigned (2 ^ 63) a + unsigned (2 ^ 63) b) % 2 ^ 64)

-- The offset behind the name, if there is one.
unfoldable pub level_offset : Text → Option ℤ
unfolding atoi
level_offset [] = some (pos 0)
level_offset (c ∷ cs) = atoi (c ∷ cs)

-- `UnmarshalText` of an ASCII text.
unfoldable pub unmarshal_level : Text → Option ℤ
unfolding split_at_sign level_offset level_named add_int64
unmarshal_level s =
    let parts = split_at_sign s in
    elim (level_offset parts.1) [
      | none ↦ none
      | some offset ↦ elim (level_named parts.0) [
        | none ↦ none
        | some level ↦ some (add_int64 level offset)
      ]
    ]

-- `return level, level.UnmarshalText(...)`: Go does not say whether the variable is read before the call
-- or behind it; `behind` says what the compiler does.
unfoldable pub parse_log_level : (behind : Bool) → Text → Option ℤ
unfolding unmarshal_level
parse_log_level behind s = elim (unmarshal_level s) [
  | none ↦ none
  | some level ↦ some (if behind then level else pos 0)
]

-- The level of a configuration is refused exactly where `slog` refuses it; it is the level that
-- `slog` reads if the compiler reads the variable behind the call, and else the level of `info`,
-- whatever was asked for.
pub parse_log_level_lem :
    (s : Text)
    → (parse_log_level true s ≡ unmarshal_level s)
      × ((level : ℤ) → parse_log_level false s ≡ some level → level ≡ pos 0)
unfolding parse_log_level
parse_log_level_lem s = elim (Option-cases (unmarshal_level s)) [
  | inl e ↦ (ground (arith, e), λ level h. ground (arith, e, h))
  | inr (l, e) ↦ (ground (arith, e), λ level h. ground (arith, e, h))
]
