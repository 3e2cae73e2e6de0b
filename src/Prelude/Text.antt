-- ===== src/Prelude/Text.antt =====
-- Texts: what the program uses of Python's `str`.
use Prim.Native.Nat.{ℕ, zero, suc}
use Prim.Native.Char.{Char, code}
use Prim.Native.String.{String, ◌++◌ as str_append}
use mathlib.Core.Bool.{Bool, ◌&&◌, ◌||◌}
use mathlib.Core.List.{List, [], ◌∷◌}
use multi_agent_ad_optimizer.Prelude.Tests.{leb, nat_beq, if◌then◌else◌, ◌==◌, string_eq}

-- `"".join(parts)`
abbrev pub concat : List String → String
concat [] = ""
concat (s ∷ ss) = str_append s (concat ss)

-- `separator.join(parts)`
abbrev pub join : String → List String → String
join separator [] = ""
join separator (s ∷ []) = s
join separator (s ∷ ss) = str_append s (str_append separator (join separator ss))

-- `s[:n]`
unfoldable pub clip : ℕ → String → String
clip zero s = ""
clip (suc n) String.[] = ""
clip (suc n) (String.◌∷◌ c s) = String.◌∷◌ c (clip n s)

-- `c.isspace()`
unfoldable pub is_space : Char → Bool
is_space c =
    let k = code c in
    leb 9 k && leb k 13
    || leb 28 k && leb k 32
    || nat_beq k 0x85
    || nat_beq k 0xa0
    || nat_beq k 0x1680
    || leb 0x2000 k && leb k 0x200a
    || leb 0x2028 k && leb k 0x2029
    || nat_beq k 0x202f
    || nat_beq k 0x205f
    || nat_beq k 0x3000

unfoldable pub strip_left : String → String
unfolding is_space
strip_left String.[] = ""
strip_left (String.◌∷◌ c s) = if is_space c then strip_left s else String.◌∷◌ c s

unfoldable pub strip_right : String → String
unfolding is_space
strip_right String.[] = ""
strip_right (String.◌∷◌ c s) =
    let rest = strip_right s in if rest == "" && is_space c then "" else String.◌∷◌ c rest

-- `s.strip()`
abbrev pub strip : String → String
strip s = strip_right (strip_left s)

-- `s.replace(c, "")` for one character.
unfoldable pub without : Char → String → String
without d String.[] = ""
without d (String.◌∷◌ c s) =
    if nat_beq (code c) (code d) then without d s else String.◌∷◌ c (without d s)
