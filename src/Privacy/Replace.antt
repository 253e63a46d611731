-- ===== src/Privacy/Replace.antt =====
-- `text.replace(pattern, …)` and `pattern.test(text)` of a global pattern, and the character classes
-- and parts of patterns that agent/privacy/ContentFilter.ts and the `safeText` of
-- agent/audit/AuditLog.ts write. A pattern is the length of its match at a place, 0 where it has
-- none, by the character before the place and the text from there on.
use Prim.Native.Char.{code}
use Prim.Native.String.{◌++◌ as ◌+++◌}
use toni_ai_agent.Common.{
  ℕ, zero, suc, ◌-◌, Bool, true, false, not, ◌&&◌, ◌||◌, Option, none, some, List, [], ◌∷◌, leb,
  ◌==◌, String, if◌then◌else◌, ◌≡◌, refl, arith, ap,
}
use toni_ai_agent.Common.Text.{ascii_lower}

abbrev pub Pattern : Type 0
Pattern = Option ℕ → String → ℕ

-- `\w`
unfoldable pub is_word : ℕ → Bool
is_word c =
    (leb 48 c && leb c 57) || ((leb 65 c && leb c 90) || ((leb 97 c && leb c 122) || (c == 95)))

unfoldable pub is_digit : ℕ → Bool
is_digit c = leb 48 c && leb c 57

unfoldable pub is_word_before : Option ℕ → Bool
unfolding is_word
is_word_before none = false
is_word_before (some c) = is_word c

unfoldable pub is_word_next : String → Bool
unfolding is_word
is_word_next String.[] = false
is_word_next (String.◌∷◌ c s) = is_word (code c)

-- `\b`
unfoldable pub at_boundary : Option ℕ → String → Bool
unfolding is_word_before is_word_next
at_boundary before s = if is_word_before before then not (is_word_next s) else is_word_next s

-- How many characters of a class stand here, as many as there are.
unfoldable pub run_length : (ℕ → Bool) → String → ℕ
run_length inside String.[] = 0
run_length inside (String.◌∷◌ c s) =
    let rest = run_length inside s in if inside (code c) then suc rest else 0

-- `text.slice(n)`
unfoldable pub skip : ℕ → String → String
skip zero s = s
skip (suc n) String.[] = String.[]
skip (suc n) (String.◌∷◌ c s) = skip n s

-- `text.slice(0, n)`
unfoldable pub slice : ℕ → String → String
slice zero s = String.[]
slice (suc n) String.[] = String.[]
slice (suc n) (String.◌∷◌ c s) = String.◌∷◌ c (slice n s)

-- The text begins with a word of small ASCII letters and signs, under the flag `i`.
unfoldable pub begins_ci : List ℕ → String → Bool
unfolding ascii_lower
begins_ci [] s = true
begins_ci (p ∷ ps) String.[] = false
begins_ci (p ∷ ps) (String.◌∷◌ c s) = (ascii_lower (code c) == p) && begins_ci ps s

module _ (pattern : Pattern) where
  -- `pattern.test(text)`, from a place on
  unfoldable pub found : Option ℕ → String → Bool
  found before String.[] = false
  found before (String.◌∷◌ c s) =
      not (pattern before (String.◌∷◌ c s) == 0) || found (some (code c)) s

  -- `text.replace(pattern, put)`, from a place on, with so many characters of a match to pass over;
  -- `put` is told the text from the match on
  unfoldable pub replace_from : (String → String) → ℕ → Option ℕ → String → String
  replace_from put left before String.[] = String.[]
  replace_from put (suc left) before (String.◌∷◌ c s) = replace_from put left (some (code c)) s
  replace_from put zero before (String.◌∷◌ c s) =
      let n = pattern before (String.◌∷◌ c s) in
      let rest = replace_from put (n - 1) (some (code c)) s in
      if n == 0 then String.◌∷◌ c rest else put (String.◌∷◌ c s) +++ rest

  unfoldable pub test : String → Bool
  unfolding found
  test text = found none text

  unfoldable pub replace : (String → String) → String → String
  unfolding replace_from
  replace put text = replace_from put 0 none text

  replace_from-found :
      (put : String → String) (before : Option ℕ) (s : String)
      → found before s ≡ false
      → replace_from put 0 before s ≡ s
  unfolding found replace_from
  replace_from-found put before String.[] h = refl
  replace_from-found put before (String.◌∷◌ c s) h =
      let none_here : pattern before (String.◌∷◌ c s) ≡ 0 = ground (arith, h) in
      let none_later : found (some (code c)) s ≡ false = ground (arith, h) in
      rw none_here (ap (String.◌∷◌ c) (replace_from-found put (some (code c)) s none_later))

  -- A text without a match is left as it is.
  pub replace-test :
      (put : String → String) (text : String) → test text ≡ false → replace put text ≡ text
  unfolding test replace
  replace-test put text h = replace_from-found put none text h
