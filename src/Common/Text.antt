-- ===== src/Common/Text.antt =====
-- str::split and str::contains with a character, by its code point, and str::trim.
pub mod Words
use Prim.Native.Char.{Char, code}
use Prim.Native.String.{String}
use kinbridge_server.Prelude.{
  ℕ, Bool, false, ◌&&◌, ◌||◌, List, [], ◌∷◌, eqb, leb, if◌then◌else◌, ◌==◌, string_eq,
}
use Prim.Native.String.{◌++◌ as append}

-- A character in front of the first piece.
unfoldable pub extend : Char → List String → List String
extend c [] = String.◌∷◌ c "" ∷ []
extend c (w ∷ ws) = String.◌∷◌ c w ∷ ws

-- The empty text splits into one empty piece.
unfoldable pub split : ℕ → String → List String
unfolding extend
split sep String.[] = "" ∷ []
split sep (String.◌∷◌ c s) =
    let rest = split sep s in if eqb (code c) sep then "" ∷ rest else extend c rest

unfoldable pub contains_char : ℕ → String → Bool
contains_char sep String.[] = false
contains_char sep (String.◌∷◌ c s) = eqb (code c) sep || contains_char sep s

-- char::is_whitespace, the White_Space property of Unicode.
unfoldable pub is_whitespace : ℕ → Bool
is_whitespace c =
    leb 9 c && leb c 13
    || eqb c 32
    || eqb c 133
    || eqb c 160
    || eqb c 5760
    || leb 8192 c && leb c 8202
    || eqb c 8232
    || eqb c 8233
    || eqb c 8239
    || eqb c 8287
    || eqb c 12288

unfoldable pub trim_start : String → String
unfolding is_whitespace
trim_start String.[] = ""
trim_start (String.◌∷◌ c s) =
    let rest = trim_start s in if is_whitespace (code c) then rest else String.◌∷◌ c s

unfoldable pub trim_end : String → String
unfolding is_whitespace
trim_end String.[] = ""
trim_end (String.◌∷◌ c s) =
    let rest = trim_end s in if rest == "" && is_whitespace (code c) then "" else String.◌∷◌ c rest

unfoldable pub trim : String → String
unfolding trim_start trim_end
trim s = trim_end (trim_start s)

-- `cmd.trim().split(' ')`.
unfoldable pub words : String → List String
unfolding split trim
words cmd = split b' ' (trim cmd)

-- `writeln!` of each text.
unfoldable pub write_lines : List String → String
write_lines [] = ""
write_lines (x ∷ xs) = append x (append "\n" (write_lines xs))

-- `s.to_uppercase() == "Y"`: no other character has this upper case.
unfoldable pub is_yes : String → Bool
is_yes s = s == "Y" || s == "y"
