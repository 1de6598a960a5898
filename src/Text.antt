-- ===== src/Text.antt =====
-- Go's strings are byte sequences; this module holds what the code uses of the package `strings`.
-- Case and white space are those of ASCII.
pub mod Laws
use Prim.Native.Char.{code}
use Prim.Native.String
use Prim.Native.String.{String}
use tvpn.Base.{
  Bool, List, [], any, drop, false, if◌then◌else◌, leb, length, list_eq, nat_eq, true, ℕ, ◌&&◌,
  ◌++◌, ◌+◌, ◌==◌, ◌||◌, ◌∷◌,
}

abbrev pub Text : Type 0
Text = List ℕ

-- A literal of the source.
abbrev pub text : String → Text
text String.[] = []
text (String.◌∷◌ c s) = code c ∷ text s

-- strings.HasPrefix(s, prefix)
unfoldable pub has_prefix : Text → Text → Bool
has_prefix s [] = true
has_prefix [] (p ∷ ps) = false
has_prefix (c ∷ s) (p ∷ ps) = c == p && has_prefix s ps

-- strings.HasSuffix(s, suffix)
unfoldable pub has_suffix : Text → Text → Bool
has_suffix [] suffix = [] == suffix
has_suffix (c ∷ s) suffix = (c ∷ s) == suffix || has_suffix s suffix

-- strings.TrimRight(…, "\r\n")
unfoldable pub trim_line : Text → Text
trim_line [] = []
trim_line (c ∷ s) =
    let rest = trim_line s in if rest == [] && (c == 10 || c == 13) then [] else c ∷ rest

-- strings.TrimSuffix(s, suffix)
unfoldable pub trim_suffix : Text → Text → Text
trim_suffix [] suffix = []
trim_suffix (c ∷ s) suffix =
    let rest = trim_suffix s suffix in if (c ∷ s) == suffix then [] else c ∷ rest

-- strings.TrimPrefix(s, prefix)
unfoldable pub trim_prefix : Text → Text → Text
unfolding has_prefix
trim_prefix s prefix = if has_prefix s prefix then drop (length prefix) s else s

-- strings.Contains(s, part)
unfoldable pub contains : Text → Text → Bool
unfolding has_prefix
contains [] part = [] == part
contains (c ∷ s) part = has_prefix (c ∷ s) part || contains s part

-- strings.ContainsAny(s, set)
unfoldable pub contains_any : Text → Text → Bool
contains_any s set = any (λ c. any (λ d. c == d) set) s

abbrev pub is_space : ℕ → Bool
is_space c = c == 32 || leb 9 c && leb c 13

unfoldable pub trim_left : Text → Text
trim_left [] = []
trim_left (c ∷ s) = let rest = trim_left s in if is_space c then rest else c ∷ s

-- A byte before a text whose end is already trimmed.
unfoldable pub push_left : ℕ → Text → Text
push_left c [] = if is_space c then [] else c ∷ []
push_left c (d ∷ r) = c ∷ d ∷ r

-- Drops the white space at the end.
unfoldable pub trim_right : Text → Text
unfolding push_left
trim_right [] = []
trim_right (c ∷ s) = push_left c (trim_right s)

-- strings.TrimSpace
unfoldable pub trim_space : Text → Text
unfolding trim_left trim_right
trim_space s = trim_right (trim_left s)

abbrev pub lower_byte : ℕ → ℕ
lower_byte c = if leb 65 c && leb c 90 then c + 32 else c

-- strings.ToLower
unfoldable pub to_lower : Text → Text
to_lower [] = []
to_lower (c ∷ s) = lower_byte c ∷ to_lower s

-- strings.EqualFold
unfoldable pub equal_fold : Text → Text → Bool
unfolding to_lower
equal_fold s t = to_lower s == to_lower t

-- The pieces of a text between the separators; the first list is the piece that is open.
unfoldable pub split_from : Text → ℕ → Text → List Text
split_from piece sep [] = piece ∷ []
split_from piece sep (c ∷ s) =
    let closed = piece ∷ split_from [] sep s in
    let longer = split_from (piece ++ c ∷ []) sep s in if c == sep then closed else longer

-- strings.Split(s, sep) for a separator of one byte.
unfoldable pub split : Text → ℕ → List Text
unfolding split_from
split s sep = split_from [] sep s

-- The runs of bytes that are no white space.
unfoldable pub words_from : Text → Text → List Text
words_from [] [] = []
words_from (d ∷ word) [] = (d ∷ word) ∷ []
words_from [] (c ∷ s) =
    let skip = words_from [] s in
    let start = words_from (c ∷ []) s in if is_space c then skip else start
words_from (d ∷ word) (c ∷ s) =
    let closed = (d ∷ word) ∷ words_from [] s in
    let longer = words_from ((d ∷ word) ++ c ∷ []) s in if is_space c then closed else longer

-- strings.Fields
unfoldable pub fields : Text → List Text
unfolding words_from
fields s = words_from [] s

-- strings.Join
unfoldable pub join : Text → List Text → Text
join sep [] = []
join sep (s ∷ []) = s
join sep (s ∷ t ∷ rest) = s ++ (sep ++ join sep (t ∷ rest))
