-- ===== src/Common/Words.antt =====
-- Texts as lists of code points, with `str.split`, `" ".join` and `in` as the code uses them.
use Prim.Native.Nat.{ℕ}
use Prim.Native.Char.{code}
use Prim.Native.String.{String}
use mathlib.Core.Path.{◌≡◌, refl}
use mathlib.Core.Bool.{Bool, true, false, ◌&&◌, ◌||◌}
use mathlib.Core.List.{List, [], ◌∷◌, ◌++◌}
use cat_backend.Common.Tests.{◌==◌, leb, if◌then◌else◌}
use cat_backend.Common.Lists.{is_empty}

abbrev pub Text : Type 0
Text = List ℕ

abbrev pub codes : String → List ℕ
codes String.[] = []
codes (String.◌∷◌ c s) = code c ∷ codes s

abbrev between : ℕ → ℕ → ℕ → Bool
between lo hi c = leb lo c && leb c hi

-- `str.isspace` of one character.
unfoldable pub is_space : ℕ → Bool
is_space c =
    between 9 13 c
    || between 28 32 c
    || c == 133
    || c == 160
    || c == 5760
    || between 8192 8202 c
    || between 8232 8233 c
    || c == 8239
    || c == 8287
    || c == 12288

-- `str.strip`, here of the characters that a test names.
module _ (space : ℕ → Bool) where
  abbrev lstrip : Text → Text
  lstrip [] = []
  lstrip (c ∷ cs) = let rest = lstrip cs in if space c then rest else c ∷ cs

  abbrev rstrip : Text → Text
  rstrip [] = []
  rstrip (c ∷ cs) = let rest = rstrip cs in if space c && is_empty rest then [] else c ∷ rest

  unfoldable pub strip_of : Text → Text
  strip_of text = rstrip (lstrip text)

abbrev pub strip : Text → Text
strip = strip_of is_space

abbrev flushed : List ℕ → List (List ℕ)
flushed cur = if is_empty cur then [] else cur ∷ []

-- `text.split()`: the words, without the white space around them.
unfoldable pub split_from : List ℕ → List ℕ → List (List ℕ)
unfolding is_space
split_from cur [] = flushed cur
split_from cur (c ∷ cs) =
    (if is_space c then flushed cur else [])
    ++ split_from (if is_space c then [] else cur ++ (c ∷ [])) cs

-- `" ".join(words)`
unfoldable pub join : List (List ℕ) → List ℕ
join [] = []
join (w ∷ []) = w
join (w ∷ ws) = w ++ (b' ' ∷ join ws)

abbrev starts_with : List ℕ → List ℕ → Bool
starts_with [] text = true
starts_with (p ∷ ps) [] = false
starts_with (p ∷ ps) (c ∷ cs) = (p == c) && starts_with ps cs

-- `part in text`
unfoldable pub contains_text : List ℕ → List ℕ → Bool
contains_text part [] = is_empty part
contains_text part (c ∷ cs) = starts_with part (c ∷ cs) || contains_text part cs

-- `text.split()`
abbrev pub words : Text → List Text
words = split_from []

unfoldable pub normalize : String → List ℕ
unfolding split_from join
normalize value = join (split_from [] (codes value))

normalize_words : normalize "  a  b " ≡ codes "a b"
unfolding normalize
normalize_words = refl
