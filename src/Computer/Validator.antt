-- ===== src/Computer/Validator.antt =====
-- agent/computer/ComputerActionResultValidator.ts. `lower` stands for the host's
-- `toLocaleLowerCase("fi-FI")`, and `parse` for its `Date.parse`, where `none` is no finite number.
use toni_ai_agent.Common.{
  ℕ, Bool, false, not, Option, none, some, List, [], ◌∷◌, ◌++◌, map, String, str_eq, leb, all,
  if◌then◌else◌, ◌≡◌, ◌<◌, arith, Option-cases, inl, inr,
}
use toni_ai_agent.Common.Text.{includes}

pub data ComputerValidationStatus : Type 0 where
  accepted failed : ComputerValidationStatus

pub record ComputerActionValidation : Type 0 where
  pub status : ComputerValidationStatus
  pub reason : String

pub data PostConditionStatus : Type 0 where
  confirmed not_confirmed inconclusive : PostConditionStatus

pub record ComputerPostConditionExpectation : Type 0 where
  pub active_window_title_includes : Option String
  pub active_application_includes : Option String
  pub visible_text_includes : Option (List String)
  pub visible_text_excludes : Option (List String)
  pub observation_captured_after : Option String

pub record ComputerPostConditionValidation : Type 0 where
  pub status : PostConditionStatus
  pub reason : String

-- the fields of a `ScreenObservation` that the validator reads
pub record ScreenObservation : Type 0 where
  pub captured_at : String
  pub image_data_url : Option String
  pub active_window_title : Option String
  pub active_application : Option String
  pub visible_text : Option String

-- `validate` of a result; `has_output` says that the output is neither `undefined` nor `null`
unfoldable pub validate : Bool → Bool → Bool → ComputerActionValidation
validate result_ok approved has_output =
    if not result_ok
    then record { status = failed; reason = "Computer adapter reported an execution failure." }
    else if not approved
    then record { status = failed; reason = "Computer execution was not explicitly approved." }
    else if not has_output
    then record { status = failed; reason = "Computer adapter returned no execution result." }
    else record {
      status = accepted;
      reason = "Computer adapter execution result passed structural validation.";
    }

abbrev unclear : String → ComputerPostConditionValidation
unclear reason = record { status = inconclusive; reason = reason }

-- a raw image makes the observation unfit
abbrev pub has_image : ScreenObservation → Bool
has_image observation = elim observation.image_data_url [
  | none ↦ false
  | some url ↦ not (str_eq url "")
]

module _ (lower : String → String) (parse : String → Option ℕ) where
  -- what is wrong with the observation's time, if anything is
  unfoldable pub staleness : ScreenObservation → Option String → Option String
  staleness observation after = elim after [
    | none ↦ none
    | some baseline ↦ elim (parse baseline) [
      | none ↦ some "Post-condition freshness check requires valid observation timestamps."
      | some b ↦ elim (parse observation.captured_at) [
        | none ↦ some "Post-condition freshness check requires valid observation timestamps."
        | some c ↦
            if leb c b
            then some "Post-condition observation was not captured after the action baseline."
            else none
      ]
    ]
  ]

  -- one check of a part of a title or an application
  unfoldable pub part_check : Option String → Option String → List Bool
  part_check actual none = []
  part_check none (some expected) = false ∷ []
  part_check (some actual) (some expected) = includes (lower actual) (lower expected) ∷ []

  -- the checks of the visible text; `none` where there is no text to check
  unfoldable pub text_checks :
      (String → String → Bool) → Option String → Option (List String) → Option (List Bool)
  text_checks check text none = some []
  text_checks check none (some words) = none
  text_checks check (some text) (some words) =
      some (map (λ word. check (lower text) (lower word)) words)

  abbrev excludes : String → String → Bool
  excludes text word = not (includes text word)

  -- what the checks come to
  unfoldable pub conclude : List Bool → ComputerPostConditionValidation
  conclude [] = unclear "No observable post-condition was supplied."
  conclude (c ∷ rest) =
      if all (λ b. b) (c ∷ rest)
      then record {
        status = confirmed;
        reason = "The new screen observation satisfies all supplied post-condition checks.";
      }
      else record {
        status = not_confirmed;
        reason = "The new screen observation does not satisfy all supplied post-condition checks.";
      }

  unfoldable pub validate_post_condition :
      ScreenObservation → ComputerPostConditionExpectation → ComputerPostConditionValidation
  validate_post_condition observation expectation =
      let parts =
        part_check observation.active_window_title expectation.active_window_title_includes
        ++ part_check observation.active_application expectation.active_application_includes in
      let no_text = unclear "Post-condition requires OCR text, but no visible text is available." in
      if has_image observation
      then unclear
          "Raw screen observations must be privacy-filtered before post-condition validation."
      else elim (staleness observation expectation.observation_captured_after) [
        | some reason ↦ unclear reason
        | none ↦
            elim (text_checks includes observation.visible_text expectation.visible_text_includes) [
              | none ↦ no_text
              | some included ↦
                  elim (text_checks excludes observation.visible_text
                    expectation.visible_text_excludes) [
                      | none ↦ no_text
                      | some excluded ↦ conclude (parts ++ (included ++ excluded))
                    ]
            ]
      ]

  -- An observation that confirms a post-condition carries no raw image.
  confirmed_of :
      (observation : ScreenObservation) (expectation : ComputerPostConditionExpectation)
      → (validate_post_condition observation expectation).status ≡ confirmed
      → (has_image observation ≡ false)
        × (staleness observation expectation.observation_captured_after ≡ none)
  unfolding validate_post_condition
  confirmed_of observation expectation h = ground arith

  stale_time :
      (observation : ScreenObservation) (baseline : String)
      → staleness observation (some baseline) ≡ none
      → (b c : ℕ) × (parse baseline ≡ some b) × (parse observation.captured_at ≡ some c) × (b < c)
  unfolding staleness
  stale_time observation baseline h = elim (Option-cases (parse baseline)) [
    | inl e ↦ ground (arith, e)
    | inr (b, e) ↦ elim (Option-cases (parse observation.captured_at)) [
      | inl f ↦ ground (arith, e, f)
      | inr (c, f) ↦ (b, c, e, f, ground (arith, e, f))
    ]
  ]

  -- A post-condition with a baseline is confirmed only by an observation without a raw image whose
  -- time is strictly after the baseline, both being times that can be read.
  pub confirmed_fresh :
      (observation : ScreenObservation) (expectation : ComputerPostConditionExpectation)
      (baseline : String)
      → expectation.observation_captured_after ≡ some baseline
      → (validate_post_condition observation expectation).status ≡ confirmed
      → (has_image observation ≡ false)
        × ((b c : ℕ) × (parse baseline ≡ some b)
            × (parse observation.captured_at ≡ some c)
            × (b < c))
  confirmed_fresh observation expectation baseline named h =
      let (clean, fresh) = confirmed_of observation expectation h in
      (clean, stale_time observation baseline (rw (← named) fresh))
