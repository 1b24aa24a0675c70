-- ===== src/Prelude/Text.antt =====
-- Rust's `str` as the code uses it: `split`, `trim`, `parse` of unsigned integers and the decimal
-- digits that `format!` writes.
pub mod Laws
pub mod Decimal
use Prim.Native.Nat.{ℕ, zero, suc, ◌+◌, ◌-◌, ◌*◌, ◌/◌, ◌%◌}
use Prim.Native.Char.{Char, code, len_utf8}
use Prim.Native.String.{String}
use mathlib.Core.Bool.{Bool, true, false, ◌&&◌, ◌||◌}
use mathlib.Core.List.{List, [], ◌∷◌}
use mathlib.Core.Option.{Option, none, some}
use xjp_deploy_agent.Prelude.Tests.{ltb, leb, nat_beq, if◌then◌else◌, map_option}

-- `s` followed by `t`, by clauses, so that it computes on any text.
infixr 55 ◌⊕◌
abbrev pub ◌⊕◌ : String → String → String
String.[] ⊕ t = t
(String.◌∷◌ c s) ⊕ t = String.◌∷◌ c (s ⊕ t)

abbrev pub is_empty_text : String → Bool
is_empty_text String.[] = true
is_empty_text (String.◌∷◌ c s) = false

-- No piece is the text's first: a list of pieces always has one.
abbrev pub prepend : Char → List String → List String
prepend c [] = String.◌∷◌ c String.[] ∷ []
prepend c (w ∷ ws) = String.◌∷◌ c w ∷ ws

-- `s.split(separator)`, which gives one piece more than there are separators.
unfoldable pub split : ℕ → String → List String
split separator String.[] = String.[] ∷ []
split separator (String.◌∷◌ c s) =
    let rest = split separator s in
    if nat_beq (code c) separator then String.[] ∷ rest else prepend c rest

-- The characters with the property `White_Space`.
unfoldable pub is_whitespace : ℕ → Bool
is_whitespace c =
    (leb 9 c && leb c 13)
    || nat_beq c 32
    || nat_beq c 133
    || nat_beq c 160
    || nat_beq c 5760
    || (leb 8192 c && leb c 8202)
    || nat_beq c 8232
    || nat_beq c 8233
    || nat_beq c 8239
    || nat_beq c 8287
    || nat_beq c 12288

unfoldable pub trim_start : String → String
trim_start String.[] = String.[]
trim_start (String.◌∷◌ c s) =
    let rest = trim_start s in if is_whitespace (code c) then rest else String.◌∷◌ c s

unfoldable pub trim_end : String → String
trim_end String.[] = String.[]
trim_end (String.◌∷◌ c s) =
    let rest = trim_end s in
    if is_empty_text rest && is_whitespace (code c) then String.[] else String.◌∷◌ c rest

unfoldable pub trim : String → String
trim s = trim_end (trim_start s)

-- The digits, behind what was read before as `acc`; a number over `max` is an error.
unfoldable pub parse_digits : (max acc : ℕ) → String → Option ℕ
parse_digits max acc String.[] = some acc
parse_digits max acc (String.◌∷◌ c s) =
    let next = acc * 10 + (code c - 48) in
    let rest = parse_digits max next s in
    if leb 48 (code c) && leb (code c) 57 && leb next max then rest else none

-- `s.parse()` for an unsigned integer of at most `max`: digits, with a plus in front or not.
unfoldable pub parse_uint : ℕ → String → Option ℕ
parse_uint max String.[] = none
parse_uint max (String.◌∷◌ c s) =
    if nat_beq (code c) 43
    then (if is_empty_text s then none else parse_digits max 0 s)
    else parse_digits max 0 (String.◌∷◌ c s)

-- `filter_map(|s| s.parse().ok())`, for numbers of at most `max`.
unfoldable pub parsed : ℕ → List String → List ℕ
parsed max [] = []
parsed max (s ∷ ss) = elim (parse_uint max s) [ none ↦ parsed max ss | some n ↦ n ∷ parsed max ss ]

abbrev pub digit : ℕ → Char
digit n =
    if nat_beq n 0
    then "0"
    else if nat_beq n 1
    then "1"
    else if nat_beq n 2
    then "2"
    else if nat_beq n 3
    then "3"
    else if nat_beq n 4
    then "4"
    else if nat_beq n 5
    then "5"
    else if nat_beq n 6
    then "6"
    else if nat_beq n 7
    then "7"
    else if nat_beq n 8
    then "8"
    else "9"

-- The digits of a number in front of a text; `fuel` and one more digits at most.
unfoldable pub digits : (fuel n : ℕ) → String → String
digits zero n tail = String.◌∷◌ (digit (n % 10)) tail
digits (suc fuel) n tail =
    let rest = digits fuel (n / 10) (String.◌∷◌ (digit (n % 10)) tail) in
    if ltb n 10 then String.◌∷◌ (digit n) tail else rest

-- A port is `u16`, so it has at most five digits.
unfoldable pub decimal_port : ℕ → String
decimal_port n = digits 4 n String.[]

unfoldable pub starts_with : (prefix : String) → String → Bool
starts_with String.[] s = true
starts_with (String.◌∷◌ p prefix) String.[] = false
starts_with (String.◌∷◌ p prefix) (String.◌∷◌ c s) =
    let rest = starts_with prefix s in if nat_beq (code p) (code c) then rest else false

-- `s.contains(pattern)`
unfoldable pub has_part : (pattern_ : String) → String → Bool
has_part pattern_ String.[] = starts_with pattern_ String.[]
has_part pattern_ (String.◌∷◌ c s) =
    let rest = has_part pattern_ s in starts_with pattern_ (String.◌∷◌ c s) || rest

-- `s.len()`, in bytes of UTF-8.
unfoldable pub byte_length : String → ℕ
byte_length String.[] = 0
byte_length (String.◌∷◌ c s) = len_utf8 c + byte_length s

-- `&s[..n]`, which panics where `n` is inside a character or behind the end.
unfoldable pub take_bytes : ℕ → String → Option String
take_bytes n String.[] = if nat_beq n 0 then some String.[] else none
take_bytes n (String.◌∷◌ c s) =
    let rest = take_bytes (n - len_utf8 c) s in
    if nat_beq n 0
    then some String.[]
    else if ltb n (len_utf8 c)
    then none
    else map_option (λ t. String.◌∷◌ c t) rest

-- `&s[n..]`, which panics likewise.
unfoldable pub drop_bytes : ℕ → String → Option String
drop_bytes n String.[] = if nat_beq n 0 then some String.[] else none
drop_bytes n (String.◌∷◌ c s) =
    let rest = drop_bytes (n - len_utf8 c) s in
    if nat_beq n 0 then some (String.◌∷◌ c s) else if ltb n (len_utf8 c) then none else rest
