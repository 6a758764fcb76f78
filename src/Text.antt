-- ===== src/Text.antt =====
-- What the code uses of Go's `strings` and `unicode`, over texts as sequences of code points.
--
-- unicode.ToUpper and unicode.ToLower of a code point are parameters (`Unicode`); unicode.IsSpace
-- and the functions on whole texts are written out.
pub mod Laws
use Prim.Native.Char.{Char, code}
use Prim.Native.String
use racetify_api.Base.{
  ℕ, leb, nat_eq, String, Bool, true, false, Option, none, some, ◌&&◌, ◌||◌, if◌then◌else◌, ◌==◌,
}

pub record Unicode : Type 0 where
  pub to_upper : Char → Char
  pub to_lower : Char → Char

-- unicode.IsSpace: '\t', '\n', '\v', '\f', '\r', ' ', U+0085, U+00A0, and the spaces above Latin-1.
unfoldable pub is_space : Char → Bool
is_space c =
    let n = code c in
    (leb 9 n && leb n 13)
    || nat_eq n 32
    || nat_eq n 0x85
    || nat_eq n 0xa0
    || nat_eq n 0x1680
    || (leb 0x2000 n && leb n 0x200a)
    || nat_eq n 0x2028
    || nat_eq n 0x2029
    || nat_eq n 0x202f
    || nat_eq n 0x205f
    || nat_eq n 0x3000

abbrev pub no_text : String → Bool
no_text String.[] = true
no_text (String.◌∷◌ c s) = false

unfoldable pub trim_left : String → String
trim_left String.[] = ""
trim_left (String.◌∷◌ c s) = if is_space c then trim_left s else String.◌∷◌ c s

unfoldable pub trim_right : String → String
trim_right String.[] = ""
trim_right (String.◌∷◌ c s) =
    let rest = trim_right s in if is_space c && no_text rest then "" else String.◌∷◌ c rest

-- strings.TrimSpace
unfoldable pub trim_space : String → String
unfolding trim_left trim_right
trim_space s = trim_right (trim_left s)

-- strings.Join(strings.Fields(s), "")
unfoldable pub without_spaces : String → String
without_spaces String.[] = ""
without_spaces (String.◌∷◌ c s) =
    let rest = without_spaces s in if is_space c then rest else String.◌∷◌ c rest

-- strings.ToUpper and strings.ToLower
unfoldable pub map_text : (Char → Char) → String → String
map_text f String.[] = ""
map_text f (String.◌∷◌ c s) = String.◌∷◌ (f c) (map_text f s)

-- What stands behind a prefix, if the text has it.
unfoldable pub cut_prefix : String → String → Option String
cut_prefix String.[] s = some s
cut_prefix (String.◌∷◌ d p) String.[] = none
cut_prefix (String.◌∷◌ d p) (String.◌∷◌ c s) =
    if nat_eq (code d) (code c) then cut_prefix p s else none

-- strings.TrimPrefix
unfoldable pub trim_prefix : String → String → String
unfolding cut_prefix
trim_prefix p s = elim (cut_prefix p s) [ none ↦ s | some rest ↦ rest ]

-- strings.ContainsRune of a code point below 128
unfoldable pub contains_code : ℕ → String → Bool
contains_code n String.[] = false
contains_code n (String.◌∷◌ c s) = nat_eq (code c) n || contains_code n s

-- The texts before and after the first code point `n`, if there is one.
unfoldable pub cut_code : ℕ → String → Option (String × String)
cut_code n String.[] = none
cut_code n (String.◌∷◌ c s) =
    let rest = cut_code n s in
    if nat_eq (code c) n
    then some ("", s)
    else elim rest [ none ↦ none | some (a, b) ↦ some (String.◌∷◌ c a, b) ]
