-- ===== src/Common/Text.antt =====
-- JavaScript text, as far as the source walks it: prefixes, parts, white space and words.
use Prim.Native.Nat.{ℕ, ◌+◌}
use Prim.Native.Char.{code}
use Prim.Native.String.{String}
use mathlib.Core.Bool.{Bool, true, false, ◌&&◌, ◌||◌}
use mathlib.Core.List.{List, [], ◌∷◌, map}
use mathlib.Core.Option.{Option, none, some}
use text.Mathlib.Text.{◌==◌ as str_eq}
use toni_ai_agent.Common.Tests.{leb, ◌==◌, if◌then◌else◌}
use toni_ai_agent.Common.Lists.{any}

unfoldable pub codes : String → List ℕ
codes String.[] = []
codes (String.◌∷◌ c s) = code c ∷ codes s

unfoldable pub starts_with_codes : List ℕ → List ℕ → Bool
starts_with_codes [] s = true
starts_with_codes (p ∷ ps) [] = false
starts_with_codes (p ∷ ps) (c ∷ s) = (p == c) && starts_with_codes ps s

unfoldable pub includes_codes : List ℕ → List ℕ → Bool
unfolding starts_with_codes
includes_codes [] p = starts_with_codes p []
includes_codes (c ∷ s) p = starts_with_codes p (c ∷ s) || includes_codes s p

-- `text.startsWith(part)`
unfoldable pub starts_with : String → String → Bool
unfolding codes starts_with_codes
starts_with text part = starts_with_codes (codes part) (codes text)

-- `text.includes(part)`
unfoldable pub includes : String → String → Bool
unfolding codes includes_codes
includes text part = includes_codes (codes text) (codes part)

-- A capital ASCII letter as the small one. A pattern under the flag `i` that holds ASCII alone
-- folds the case of no other character.
unfoldable pub ascii_lower : ℕ → ℕ
ascii_lower c = if leb 65 c && leb c 90 then c + 32 else c

-- `/part/i.test(text)` for a `part` of small ASCII letters and spaces
unfoldable pub includes_ci : String → String → Bool
unfolding codes includes_codes ascii_lower
includes_ci text part = includes_codes (map ascii_lower (codes text)) (codes part)

-- `set.has(text)` for a set of texts, `list.includes(text)` for a list of them
unfoldable pub member : String → List String → Bool
member text [] = false
member text (x ∷ xs) = str_eq text x || member text xs

-- What `\s` and `trim` take for white space.
unfoldable pub is_space : ℕ → Bool
is_space c =
    (leb 9 c && leb c 13)
    || (c == 32)
    || (c == 160)
    || (c == 0x1680)
    || (leb 0x2000 c && leb c 0x200a)
    || (c == 0x2028)
    || (c == 0x2029)
    || (c == 0x202f)
    || (c == 0x205f)
    || (c == 0x3000)
    || (c == 0xfeff)

unfoldable pub trim_start : String → String
unfolding is_space
trim_start String.[] = ""
trim_start (String.◌∷◌ c s) =
    let rest = trim_start s in if is_space (code c) then rest else String.◌∷◌ c s

is_blank : String → Bool
unfolding is_space
is_blank String.[] = true
is_blank (String.◌∷◌ c s) = is_space (code c) && is_blank s

unfoldable pub trim_end : String → String
unfolding is_blank is_space
trim_end String.[] = ""
trim_end (String.◌∷◌ c s) = if is_blank (String.◌∷◌ c s) then "" else String.◌∷◌ c (trim_end s)

-- `text.trim()`
unfoldable pub trim : String → String
unfolding trim_start trim_end
trim text = trim_end (trim_start text)

-- `text.split(/\s+/)[0]` of a text that does not begin with white space
unfoldable pub first_word : String → String
unfolding is_space
first_word String.[] = ""
first_word (String.◌∷◌ c s) =
    let rest = first_word s in if is_space (code c) then "" else String.◌∷◌ c rest

unfoldable pub is_quote : ℕ → Bool
is_quote c = (c == 39) || (c == 34)

drop_last_quote : String → String
unfolding is_quote
drop_last_quote String.[] = ""
drop_last_quote (String.◌∷◌ c String.[]) = if is_quote (code c) then "" else String.◌∷◌ c ""
drop_last_quote (String.◌∷◌ c (String.◌∷◌ d s)) = String.◌∷◌ c (drop_last_quote (String.◌∷◌ d s))

drop_first_quote : String → String
unfolding is_quote
drop_first_quote String.[] = ""
drop_first_quote (String.◌∷◌ c s) = if is_quote (code c) then s else String.◌∷◌ c s

-- `text.replace(/^['"]|['"]$/g, "")`
unfoldable pub strip_quotes : String → String
unfolding drop_first_quote drop_last_quote
strip_quotes text = drop_last_quote (drop_first_quote text)

-- What follows a prefix, if the text has it.
unfoldable pub after_prefix : List ℕ → String → Option String
after_prefix [] s = some s
after_prefix (p ∷ ps) String.[] = none
after_prefix (p ∷ ps) (String.◌∷◌ c s) =
    let rest = after_prefix ps s in if p == code c then rest else none

-- A word followed by white space or by the end.
unfoldable pub word_at : List ℕ → List ℕ → Bool
unfolding is_space
word_at [] [] = true
word_at [] (c ∷ s) = is_space c
word_at (p ∷ ps) [] = false
word_at (p ∷ ps) (c ∷ s) = (p == c) && word_at ps s

has_word_from : List String → Bool → List ℕ → Bool
unfolding word_at is_space codes
has_word_from ws at_start [] = false
has_word_from ws at_start (c ∷ s) =
    (at_start && any (λ w. word_at (codes w) (c ∷ s)) ws) || has_word_from ws (is_space c) s

-- `/(^|\s)(a|b|…)(\s|$)/i.test(text)` for words of small ASCII letters
unfoldable pub has_word_ci : String → List String → Bool
unfolding has_word_from ascii_lower codes
has_word_ci text ws = has_word_from ws true (map ascii_lower (codes text))
