-- ===== src/Config/Lists.antt =====
-- Lists of texts in one text: parseStringList of internal/outboxer/config.go, and strings.Join.
use Prim.Native.Char.{Char, code}
use outboxer.Prelude.{
  ℕ, String, Bool, ◌||◌, ◌&&◌, List, [], ◌∷◌, if◌then◌else◌, nat_beq, between, is_empty, format,
  string_eq,
}

abbrev extend_first : Char → List String → List String
extend_first c [] = String.◌∷◌ c "" ∷ []
extend_first c (part ∷ parts) = String.◌∷◌ c part ∷ parts

-- strings.Split at the comma
unfoldable pub split_commas : String → List String
split_commas String.[] = "" ∷ []
split_commas (String.◌∷◌ c s) =
    let parts = split_commas s in if nat_beq (code c) b',' then "" ∷ parts else extend_first c parts

-- unicode.IsSpace
abbrev pub is_space : ℕ → Bool
is_space c =
    between 9 13 c
    || nat_beq c 32
    || nat_beq c 0x85
    || nat_beq c 0xA0
    || nat_beq c 0x1680
    || between 0x2000 0x200A c
    || nat_beq c 0x2028
    || nat_beq c 0x2029
    || nat_beq c 0x202F
    || nat_beq c 0x205F
    || nat_beq c 0x3000

unfoldable pub trim_left : String → String
trim_left String.[] = ""
trim_left (String.◌∷◌ c s) =
    let rest = trim_left s in if is_space (code c) then rest else String.◌∷◌ c s

unfoldable pub trim_right : String → String
trim_right String.[] = ""
trim_right (String.◌∷◌ c s) =
    let rest = trim_right s in if is_empty rest && is_space (code c) then "" else String.◌∷◌ c rest

-- strings.TrimSpace
unfoldable pub trim_space : String → String
unfolding trim_left trim_right
trim_space s = trim_right (trim_left s)

unfoldable pub trimmed_parts : List String → List String
unfolding trim_space
trimmed_parts [] = []
trimmed_parts (part ∷ parts) =
    let rest = trimmed_parts parts in
    if is_empty (trim_space part) then rest else trim_space part ∷ rest

-- parseStringList
unfoldable pub parse_string_list : String → List String
unfolding split_commas trimmed_parts
parse_string_list value = trimmed_parts (split_commas value)

-- strings.Join with a comma
unfoldable pub join_strings : List String → String
unfolding format
join_strings [] = ""
join_strings (s ∷ []) = s
join_strings (s ∷ t ∷ rest) = format (s ∷ "," ∷ join_strings (t ∷ rest) ∷ [])
