-- ===== src/Privacy/SafeText.antt =====
-- `safeText` of agent/audit/AuditLog.ts and agent/coding/RepairSessionStore.ts. Texts are cut after
-- 1000 code points, which are the code's 1000 units where no character lies beyond the basic plane.

use Prim.Native.String.{◌++◌ as ◌+++◌}
use toni_ai_agent.Common.{
  ℕ, zero, suc, ◌+◌, ◌≤◌, Bool, false, not, ◌||◌, List, [], ◌∷◌, ◌==◌, String, if◌then◌else◌, ◌≡◌,
  refl, arith, length,
}
use toni_ai_agent.Common.Text.{codes, is_space}
use toni_ai_agent.Privacy.Replace.{
  Pattern, is_word, run_length, skip, slice, begins_ci, test, replace, replace-test,
}

-- The length of the first of the words that stands here, under the flag `i`; 0 where none does.
unfoldable pub word_length : List String → String → ℕ
unfolding begins_ci codes
word_length [] s = 0
word_length (w ∷ ws) s = if begins_ci (codes w) s then length (codes w) else word_length ws s

-- `prefix[…]+`: a prefix of so many characters, none where it is 0, and a run of a class after it
unfoldable pub with_run : (ℕ → Bool) → ℕ → String → ℕ
unfolding run_length skip
with_run inside taken s =
    let n = run_length inside (skip taken s) in if (taken == 0) || (n == 0) then 0 else taken + n

-- `/(?:sk|pk)_(?:live|test)_[A-Za-z0-9_-]+/i`
unfoldable pub payment_key : Pattern
unfolding with_run word_length is_word
payment_key before s =
    with_run (λ c. is_word c || (c == 45))
      (word_length ("sk_live_" ∷ "sk_test_" ∷ "pk_live_" ∷ "pk_test_" ∷ []) s) s

-- the words of `((?:api[_-]?key|token|password|secret|authorization))`
abbrev pub secret_words : List String
secret_words =
    "api_key" ∷ "api-key" ∷ "apikey" ∷ "token" ∷ "password" ∷ "secret" ∷ "authorization" ∷ []

-- The length of `word\s*[:=]\s*` here.
unfoldable pub label_length : String → ℕ
unfolding word_length skip run_length is_space
label_length s =
    let word = word_length secret_words s in
    let gap = run_length is_space (skip word s) in
    let sign = skip (word + gap) s in
    if (word == 0) || (run_length (λ c. (c == 58) || (c == 61)) sign == 0)
    then 0
    else word + gap + 1 + run_length is_space (skip 1 sign)

-- `/((?:api[_-]?key|token|password|secret|authorization))\s*[:=]\s*[^\s,;]+/i`
unfoldable pub labelled_secret : Pattern
unfolding with_run label_length is_space
labelled_secret before s =
    with_run (λ c. not (is_space c || ((c == 44) || (c == 59)))) (label_length s) s

-- `/bearer\s+[A-Za-z0-9._-]+/i`
unfoldable pub bearer : Pattern
unfolding with_run word_length run_length skip is_word is_space
bearer before s =
    let spaces = run_length is_space (skip 6 s) in
    with_run (λ c. is_word c || ((c == 46) || (c == 45)))
      (if spaces == 0 then 0 else if word_length ("bearer" ∷ []) s == 0 then 0 else 6 + spaces) s

-- `$1=[REDACTED]`
unfoldable pub keep_word : String → String
unfolding slice word_length
keep_word s = slice (word_length secret_words s) s +++ "=[REDACTED]"

unfoldable pub safe_text : String → String
unfolding replace payment_key labelled_secret bearer keep_word slice
safe_text text = slice 1000 (
    replace bearer (λ s. "Bearer [REDACTED]")
      (replace labelled_secret keep_word (replace payment_key (λ s. "[REDACTED]") text)))

slice-codes : (n : ℕ) (s : String) → length (codes (slice n s)) ≤ n
unfolding slice codes
slice-codes zero s = omega arith
slice-codes (suc n) String.[] = omega arith
slice-codes (suc n) (String.◌∷◌ c s) = omega (arith, slice-codes n s)

-- A stored text is at most 1000 characters long, and a text in which no secret is found is only cut
-- to that length.
pub safe_text-slice :
    (text : String)
    → (length (codes (safe_text text)) ≤ 1000)
      × (test payment_key text ≡ false
          → test labelled_secret text ≡ false
          → test bearer text ≡ false
          → safe_text text ≡ slice 1000 text)
unfolding safe_text
safe_text-slice text = (
  slice-codes 1000 (
      replace bearer (λ s. "Bearer [REDACTED]")
        (replace labelled_secret keep_word (replace payment_key (λ s. "[REDACTED]") text))),
  λ key labelled bear.
      rw
        (
          replace-test payment_key (λ s. "[REDACTED]") text key,
          replace-test labelled_secret keep_word text labelled,
          replace-test bearer (λ s. "Bearer [REDACTED]") text bear,
        )
        refl,
)
