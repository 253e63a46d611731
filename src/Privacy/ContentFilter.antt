-- ===== src/Privacy/ContentFilter.antt =====
-- agent/privacy/ContentFilter.ts.
use Prim.Native.Char.{code}
use toni_ai_agent.Common.{
  ℕ, zero, suc, ◌+◌, ◌-◌, Bool, true, false, ◌⊎◌, inl, inr, Bool-cases, ◌&&◌, ◌||◌, Option, none,
  some, List, [], ◌∷◌, ◌++◌, any, length, ltb, ap, length-append, ◌==◌, String, if◌then◌else◌, ◌≡◌,
  refl, arith,
}
use toni_ai_agent.Common.Text.{codes, is_space, starts_with}
use toni_ai_agent.Privacy.Replace.{
  Pattern, is_word, is_digit, at_boundary, run_length, skip, begins_ci, test, replace,
}

pub record FilterResult : Type 0 where
  pub blocked : Bool
  pub value : String
  pub reasons : List String

-- `[…]{need,}\b`: the longest run of a class that ends at a boundary
unfoldable pub token : (ℕ → Bool) → ℕ → Option ℕ → String → Option ℕ
unfolding at_boundary
token inside need before String.[] =
    if (need == 0) && at_boundary before String.[] then some 0 else none
token inside need before (String.◌∷◌ c s) =
    let more = token inside (need - 1) (some (code c)) s in
    let here : Option ℕ =
      if (need == 0) && at_boundary before (String.◌∷◌ c s) then some 0 else none in
    if inside (code c) then elim more [ none ↦ here | some n ↦ some (suc n) ] else here

-- A prefix of so many characters that ends in the given one, and a token after it.
unfoldable pub with_token : (ℕ → Bool) → ℕ → ℕ → String → ℕ
unfolding token skip
with_token inside taken last s = elim (token inside 20 (some last) (skip taken s)) [
  | none ↦ 0
  | some n ↦ taken + n
]

-- `/\bsk-[A-Za-z0-9_-]{20,}\b/`
unfoldable pub api_key : Pattern
unfolding at_boundary with_token is_word
api_key before s =
    if at_boundary before s && starts_with s "sk-"
    then with_token (λ c. is_word c || (c == 45)) 3 45 s
    else 0

-- `/\bgh[pousr]_[A-Za-z0-9_]{20,}\b/`
unfoldable pub github_token : Pattern
unfolding at_boundary with_token is_word
github_token before s =
    if at_boundary before s
      && any (λ p. starts_with s p) ("ghp_" ∷ "gho_" ∷ "ghu_" ∷ "ghs_" ∷ "ghr_" ∷ [])
    then with_token is_word 4 95 s
    else 0

-- `/\bBearer\s+[A-Za-z0-9._-]{20,}\b/i`
unfoldable pub bearer_token : Pattern
unfolding at_boundary with_token is_word begins_ci codes run_length skip is_space
bearer_token before s =
    let spaces = run_length is_space (skip 6 s) in
    if (at_boundary before s && begins_ci (codes "bearer") s) && ltb 0 spaces
    then with_token (λ c. is_word c || ((c == 46) || (c == 45))) (6 + spaces) 32 s
    else 0

unfoldable pub is_digit_next : String → Bool
unfolding is_digit
is_digit_next String.[] = false
is_digit_next (String.◌∷◌ c s) = is_digit (code c)

-- After a digit, so many more digits, each after spaces and hyphens, up to a boundary: as many
-- digits as may come, `need` at least.
unfoldable pub digits : ℕ → ℕ → String → Option ℕ
unfolding at_boundary run_length skip is_digit_next
digits zero need s = if (need == 0) && at_boundary (some 48) s then some 0 else none
digits (suc left) need s =
    let between = run_length (λ c. (c == 32) || (c == 45)) s in
    let more = digits left (need - 1) (skip (between + 1) s) in
    let here : Option ℕ = if (need == 0) && at_boundary (some 48) s then some 0 else none in
    if is_digit_next (skip between s)
    then elim more [ none ↦ here | some n ↦ some (between + 1 + n) ]
    else here

-- `/\b(?:\d[ -]*?){13,19}\b/`
unfoldable pub credit_card_like : Pattern
unfolding at_boundary is_digit_next digits skip
credit_card_like before s =
    if at_boundary before s && is_digit_next s
    then elim (digits 18 12 (skip 1 s)) [ none ↦ 0 | some n ↦ suc n ]
    else 0

abbrev pub patterns : List (String × Pattern)
patterns =
    ("api-key", api_key)
    ∷ ("github-token", github_token)
    ∷ ("bearer-token", bearer_token)
    ∷ ("credit-card-like", credit_card_like)
    ∷ []

-- the loop over the patterns, from the text as filtered and the reasons found so far
unfoldable pub filter_by :
    String → List (String × Pattern) → String → List String → String × List String
unfolding test replace
filter_by text [] filtered reasons = (filtered, reasons)
filter_by text ((name, pattern) ∷ rest) filtered reasons =
    filter_by text rest
      (if test pattern text then replace pattern (λ s. "[REDACTED]") filtered else filtered)
      (if test pattern text then reasons ++ (name ∷ []) else reasons)

unfoldable pub filter_sensitive_content : String → FilterResult
unfolding filter_by
filter_sensitive_content text =
    let (filtered, reasons) = filter_by text patterns text [] in
    record { blocked = ltb 0 (length reasons); value = filtered; reasons = reasons }

filter_by-any :
    (text : String) (ps : List (String × Pattern)) (filtered : String) (reasons : List String)
    → any (λ p. test p.1 text) ps ≡ false
    → filter_by text ps filtered reasons ≡ (filtered, reasons)
unfolding filter_by
filter_by-any text [] filtered reasons h = refl
filter_by-any text ((name, pattern) ∷ ps) filtered reasons h =
    let here : test pattern text ≡ false = ground (arith, h) in
    let later : any (λ p. test p.1 text) ps ≡ false = ground (arith, h) in
    rw here (filter_by-any text ps filtered reasons later)

-- Some pattern matches somewhere in the text.
abbrev pub is_sensitive : String → Bool
is_sensitive text = any (λ p. test p.1 text) patterns

filter_by-reasons :
    (text : String) (ps : List (String × Pattern)) (filtered : String) (reasons : List String)
    → ltb 0 (length (filter_by text ps filtered reasons).1)
      ≡ (ltb 0 (length reasons) || any (λ p. test p.1 text) ps)
unfolding filter_by
filter_by-reasons text [] filtered reasons = ground arith
filter_by-reasons text ((name, pattern) ∷ ps) filtered reasons =
    let hit =
      filter_by-reasons text ps (replace pattern (λ s. "[REDACTED]") filtered)
        (reasons ++ (name ∷ [])) in
    let miss = filter_by-reasons text ps filtered reasons in
    ground (arith, hit, miss, length-append reasons (name ∷ []))

-- A text is blocked exactly when one of the patterns matches somewhere in it; one in which none does
-- is passed on unchanged and without a reason.
pub filter-is_sensitive :
    (text : String)
    → ((filter_sensitive_content text).blocked ≡ is_sensitive text)
      × ((is_sensitive text ≡ true)
          ⊎ (((filter_sensitive_content text).value ≡ text)
              × ((filter_sensitive_content text).reasons ≡ [])))
unfolding filter_sensitive_content
filter-is_sensitive text = (
  filter_by-reasons text patterns text [],
  elim (Bool-cases (is_sensitive text)) [
    | inl e ↦ inl e
    | inr clean ↦ inr (
      ap (λ r. r.0) (filter_by-any text patterns text [] clean),
      ap (λ r. r.1) (filter_by-any text patterns text [] clean),
    )
  ],
)
