-- ===== src/Vision/ContextAssistant.antt =====
-- agent/vision/ScreenContextAssistant.ts; `lower` stands for `toLocaleLowerCase("fi-FI")`. The
-- confidence is a number of hundredths.
use Prim.Native.String.{◌++◌ as ◌+++◌}
use toni_ai_agent.Common.{
  ℕ, ◌+◌, ◌*◌, Option, none, some, List, [], ◌∷◌, min, ltb, leb, String, if◌then◌else◌, ◌≡◌, refl,
  arith, ◌&&◌, ◌==◌, length,
}
use toni_ai_agent.Common.Text.{includes}
use toni_ai_agent.Computer.Validator.{ScreenObservation}
use toni_ai_agent.Vision.PrivacyFilter.{or_empty}

pub data ScreenContextKind : Type 0 where
  school business coding general : ScreenContextKind

pub record ScreenSuggestion : Type 0 where
  pub kind : ScreenContextKind
  pub title : String
  pub message : String
  pub action : String
  pub confidence : ℕ

pub record Ranked : Type 0 where
  pub kind : ScreenContextKind
  pub matches : ℕ

abbrev pub school_terms : List String
school_terms =
    "tehtävä" ∷ "tehtävänanto" ∷ "oppimistehtävä" ∷ "liiketoimintasuunnitelma" ∷ "business plan"
    ∷ "kurssi" ∷ "oppitunti" ∷ "raportti" ∷ "essee" ∷ "osaamistavoite" ∷ []

abbrev pub business_terms : List String
business_terms =
    "liiketoiminta" ∷ "liiketoimintasuunnitelma" ∷ "budjetti" ∷ "myynti" ∷ "asiakas"
    ∷ "markkinointi" ∷ "kannattavuus" ∷ "tarjous" ∷ "invoice" ∷ "business plan" ∷ []

abbrev pub coding_terms : List String
coding_terms =
    "typescript" ∷ "javascript" ∷ "python" ∷ "stack trace" ∷ "error" ∷ "exception" ∷ "build failed"
    ∷ "npm" ∷ "git" ∷ "github" ∷ "pull request" ∷ "compile" ∷ "syntax error" ∷ []

abbrev pub signals : List (ScreenContextKind × List String)
signals = (school, school_terms) ∷ (business, business_terms) ∷ (coding, coding_terms) ∷ []

-- how many of the terms stand in the text, each counted once
unfoldable pub matches : String → List String → ℕ
matches text [] = 0
matches text (term ∷ terms) =
    if includes text term then matches text terms + 1 else matches text terms

-- the kinds with a match, in their order
unfoldable pub found : String → List (ScreenContextKind × List String) → List Ranked
unfolding matches
found text [] = []
found text ((kind, terms) ∷ rest) =
    let others = found text rest in
    if ltb 0 (matches text terms)
    then record { kind = kind; matches = matches text terms } ∷ others
    else others

-- The host's sort is stable: an entry stands before the later ones with as many matches.
unfoldable pub insert : Ranked → List Ranked → List Ranked
insert r [] = r ∷ []
insert r (q ∷ qs) =
    let rest = insert r qs in if leb q.matches r.matches then r ∷ q ∷ qs else q ∷ rest

-- `sort((a, b) => b.matches - a.matches)`
unfoldable pub sort : List Ranked → List Ranked
unfolding insert
sort [] = []
sort (r ∷ rs) = insert r (sort rs)

unfoldable pub first : List Ranked → Option Ranked
first [] = none
first (r ∷ rs) = some r

unfoldable pub suggestion : ScreenContextKind → ℕ → ScreenSuggestion
suggestion school confidence = record {
  kind = school;
  title = "Näyttää siltä, että olet koulutehtävässä";
  message =
      "Haluatko, että Toni AI auttaa jäsentämään tehtävänannon ja tekee kanssasi suunnitelman?";
  action = "Tee suunnitelma";
  confidence = confidence;
}
suggestion coding confidence = record {
  kind = coding;
  title = "Näyttää siltä, että koodissa on työ kesken";
  message = "Haluatko, että Toni AI auttaa tutkimaan virheen ja tekemään korjaussuunnitelman?";
  action = "Tutki virhe";
  confidence = confidence;
}
suggestion _ confidence = record {
  kind = business;
  title = "Näyttää siltä, että työskentelet liiketoiminta-asian parissa";
  message = "Haluatko, että Toni AI auttaa jäsentämään asian ja tekemään seuraavat vaiheet?";
  action = "Tee suunnitelma";
  confidence = confidence;
}

unfoldable pub confidence : ℕ → ℕ
confidence n = min 99 (55 + n * 8)

module _ (lower : String → String) where
  unfoldable pub text_of : ScreenObservation → String
  unfolding or_empty
  text_of o = lower (
      or_empty o.active_window_title
      +++ " "
      +++ or_empty o.active_application
      +++ " "
      +++ or_empty o.visible_text)

  unfoldable pub analyse : ScreenObservation → Option ScreenSuggestion
  unfolding text_of found sort first suggestion confidence
  analyse o = elim (first (sort (found (text_of o) signals))) [
    | none ↦ none
    | some best ↦ some (suggestion best.kind (confidence best.matches))
  ]

-- The kind with the most matches, of kinds with as many the first; none without a match.
abbrev pub best_kind : ℕ → ℕ → ℕ → Option ScreenSuggestion
best_kind s b c =
    if (s == 0) && ((b == 0) && (c == 0))
    then none
    else if leb b s && leb c s
    then some (suggestion school (confidence s))
    else if leb c b
    then some (suggestion business (confidence b))
    else some (suggestion coding (confidence c))

-- the better of an entry and those after it
better : Ranked → Option Ranked → Option Ranked
better r none = some r
better r (some q) = if leb q.matches r.matches then some r else some q

first-insert : (r : Ranked) (qs : List Ranked) → first (insert r qs) ≡ better r (first qs)
unfolding first insert better
first-insert r [] = refl
first-insert r (q ∷ qs) = ground arith

best : String → List (ScreenContextKind × List String) → Option Ranked
unfolding first sort found
best text entries = first (sort (found text entries))

best_step :
    (text : String) (kind : ScreenContextKind) (terms : List String)
    (rest : List (ScreenContextKind × List String))
    → best text ((kind, terms) ∷ rest) ≡ (
        if ltb 0 (matches text terms)
        then better (record { kind = kind; matches = matches text terms }) (best text rest)
        else best text rest)
unfolding best sort found
best_step text kind terms rest = ground (
  arith,
  first-insert (record { kind = kind; matches = matches text terms }) (sort (found text rest)),
)

best_nil : (text : String) → best text [] ≡ none
unfolding best first sort found
best_nil text = refl

best_found :
    (text : String)
    → best text signals ≡ (
        if (matches text school_terms == 0)
          && ((matches text business_terms == 0) && (matches text coding_terms == 0))
        then none
        else if leb (matches text business_terms) (matches text school_terms)
            && leb (matches text coding_terms) (matches text school_terms)
        then some (record { kind = school; matches = matches text school_terms })
        else if leb (matches text coding_terms) (matches text business_terms)
        then some (record { kind = business; matches = matches text business_terms })
        else some (record { kind = coding; matches = matches text coding_terms }))
unfolding better
best_found text = ground (
  arith,
  best_step text school school_terms ((business, business_terms) ∷ (coding, coding_terms) ∷ []),
  best_step text business business_terms ((coding, coding_terms) ∷ []),
  best_step text coding coding_terms [],
  best_nil text,
)

-- The terms that stand in the text, each once.
abbrev pub standing : String → List String → List String
standing text [] = []
standing text (term ∷ terms) =
    let rest = standing text terms in if includes text term then term ∷ rest else rest

matches-standing :
    (text : String) (terms : List String) → matches text terms ≡ length (standing text terms)
unfolding matches
matches-standing text [] = refl
matches-standing text (term ∷ terms) = ground (arith, matches-standing text terms)

-- The screen assistant suggests for the kind of whose terms the most stand in the texts of the window, a term that
-- stands there often counted once, in the order school, business, coding where kinds are equal, and
-- it suggests nothing exactly where no term of any kind stands there.
pub analyse-best_kind :
    (lower : String → String) (o : ScreenObservation)
    → analyse lower o
      ≡ best_kind
          (length (standing (text_of lower o) school_terms))
          (length (standing (text_of lower o) business_terms))
          (length (standing (text_of lower o) coding_terms))
unfolding analyse best
analyse-best_kind lower o =
    let text = text_of lower o in
    rw
      (
        ← matches-standing text school_terms,
        ← matches-standing text business_terms,
        ← matches-standing text coding_terms,
      )
      (ground (arith, best_found text))
