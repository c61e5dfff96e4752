-- ===== src/Server/Logger.antt =====
-- server/logger.go: the level in front of a log line, and what the logger writes for a line. 91 and 93
-- are the brackets.
mod Tests
use hush_go.Base.{
  ℕ, suc, ◌+◌, ◌-◌, ◌≤◌, ◌<◌, Bool, false, not, ◌||◌, Bytes, [], ◌∷◌, ◌++◌, length, take, drop,
  length-append, take-append_length, All, ◌≡◌, ◌≢◌, refl, ap, ltb, ◌==◌, lt→ltb, le→ltb, ne→==,
  if◌then◌else◌, arith, Option, none, some, str_eq,
}
use hush_go.Base.Text.{codes}

-- The index of the first closing bracket; `i` is the index of the first byte.
unfoldable pub close_at : ℕ → Bytes → Option ℕ
close_at i [] = none
close_at i (b ∷ bs) = let later = close_at (suc i) bs in if b == 93 then some i else later

abbrev is_open : Bytes → Bool
is_open [] = false
is_open (b ∷ bs) = b == 91

-- parseLevel: the level and the message.
unfoldable pub parse_level : Bytes → Bytes × Bytes
parse_level p =
    if ltb (length p) 6 || not (is_open p) then ([], p) else elim (close_at 1 (drop 1 p)) [
      | none ↦ ([], p)
      | some end ↦
          if ltb (end + 2) (length p) then (drop 1 (take end p), drop (end + 2) p) else ([], p)
    ]

-- The escape sequences: ESC is 27.
abbrev escape : Bytes → Bytes
escape s = 27 ∷ s

abbrev pub reset : Bytes
reset = escape (codes "[0m")

abbrev pub dim : Bytes
dim = escape (codes "[90m")

abbrev blue : Bytes
blue = escape (codes "[34m")

abbrev yellow : Bytes
yellow = escape (codes "[33m")

abbrev pub red : Bytes
red = escape (codes "[31m")

-- colorForLevel
pub color_for_level : Bytes → Bytes
color_for_level level =
    if str_eq level (codes "INF")
    then blue
    else if str_eq level (codes "WRN")
    then yellow
    else if str_eq level (codes "ERR") || str_eq level (codes "FTL")
    then red
    else reset

abbrev tag_part : Bytes → Bytes
tag_part tag = if length tag == 0 then [] else codes " [" ++ dim ++ tag ++ reset ++ codes "]"

-- colorWriter.Write at the time `ts`, which is in digits: the bytes for stderr, and the number returned.
pub color_write : Bytes → Bytes → Bytes → Bytes × ℕ
color_write tag ts p =
    let (level, msg) = parse_level p in
    (
      dim
          ++ ts
          ++ reset
          ++ tag_part tag
          ++ codes " "
          ++ color_for_level level
          ++ codes "["
          ++ level
          ++ codes "]"
          ++ reset
          ++ codes " "
          ++ msg,
      length p,
    )

close_at-append :
    (level rest : Bytes) (i : ℕ)
    → All (λ b. b ≢ 93) level
    → close_at i (level ++ (93 ∷ rest)) ≡ some (i + length level)
unfolding close_at
close_at-append [] rest i h = ap some (omega arith)
close_at-append (b ∷ level) rest i (other, h) =
    rw (ne→== b 93 other, close_at-append level rest (suc i) h) (ap some (omega arith))

drop_behind : (level msg : Bytes) (a b : ℕ) → drop (length level + 2) (level ++ (a ∷ b ∷ msg)) ≡ msg
drop_behind [] msg a b = refl
drop_behind (x ∷ level) msg a b =
    rw (let e : suc (length level) + 2 ≡ suc (length level + 2) = omega arith in e)
      (drop_behind level msg a b)

-- A line of a level in brackets, a byte and a message that is not empty is split into its level and
-- message, if the level has no closing bracket and the line has six bytes or more.
pub parse_level_line :
    (level msg : Bytes) (blank : ℕ)
    → All (λ b. b ≢ 93) level
    → 0 < length msg
    → 3 ≤ length level + length msg
    → parse_level (91 ∷ (level ++ (93 ∷ blank ∷ msg))) ≡ (level, msg)
unfolding parse_level
parse_level_line level msg blank h some_bytes long =
    let line = 91 ∷ (level ++ (93 ∷ blank ∷ msg)) in
    let size : length line ≡ length level + length msg + 3 =
      omega (arith, length-append {0} level (93 ∷ blank ∷ msg)) in
    let tail : drop (1 + length level + 2) line ≡ msg =
      rw (let e : 1 + length level + 2 ≡ suc (length level + 2) = omega arith in e)
        (drop_behind level msg 93 blank) in
    let head : take (1 + length level) line ≡ 91 ∷ level =
      rw (let e : 1 + length level ≡ suc (length level) = omega arith in e)
        (ap (91 ∷◌) (take-append_length level (93 ∷ blank ∷ msg))) in
    rw (
      le→ltb (length line) 6 (omega arith),
      close_at-append level (blank ∷ msg) 1 h,
      lt→ltb (1 + length level + 2) (length line) (omega arith),
      head,
      tail,
    )
