-- ===== src/Vision/OcrPipeline.antt =====
-- agent/vision/ScreenOcrPipeline.ts and agent/vision/ScreenTextProvider.ts. The text provider acts on
-- a state of the host; one that rejects gives an `err`.
use toni_ai_agent.Common.{
  ◌⊎◌, Bool, true, false, not, Option, none, some, String, str_eq, if◌then◌else◌, ◌≡◌, refl,
  if_cases, arith, Bool-cases, inl, inr, ◌∙◌, subst, sym,
}
use toni_ai_agent.Common.Text.{trim}
use toni_ai_agent.Types.{Result, ok, err}
use toni_ai_agent.Computer.Validator.{ScreenObservation, has_image}
use toni_ai_agent.Vision.PrivacyFilter.{ScreenPrivacyFilter, should_block, filter, without_image}

pub record ScreenOcrPipelineResult : Type 0 where
  pub observation : Option ScreenObservation
  pub privacy_blocked : Bool

abbrev pub blocked_result : ScreenOcrPipelineResult
blocked_result = record { observation = none; privacy_blocked = true }

-- What becomes of an observation with the text that was read off its image.
unfoldable pub with_text : ScreenObservation → Option String → ScreenObservation
with_text o none = o
with_text o (some text) =
    if str_eq (trim text) "" then o else record o { visible_text = some (trim text) }

module _ {S : Type 0} (lower : String → String)
    (extract_text : Option (ScreenObservation → S → Result (Option String) × S)) where
  unfoldable pub enrich_screen_observation : ScreenObservation → S → Result ScreenObservation × S
  unfolding with_text
  enrich_screen_observation o s = elim extract_text [
    | none ↦ (ok o, s)
    | some extract ↦
        let (text, s') = extract o s in
        if not (has_image o)
        then (ok o, s)
        else (elim text [ err e ↦ err e | ok t ↦ ok (with_text o t) ], s')
  ]

  -- what passes the filter
  unfoldable pub filtered : ScreenPrivacyFilter → ScreenObservation → ScreenOcrPipelineResult
  unfolding filter
  filtered f o = elim (filter lower f o) [
    | none ↦ blocked_result
    | some safe ↦ record { observation = some safe; privacy_blocked = false }
  ]

  -- the observation with its text, or as it came if the text cannot be read
  unfoldable pub enriched : ScreenObservation → Result ScreenObservation → ScreenObservation
  enriched o (err e) = o
  enriched o (ok o') = o'

  unfoldable pub process : ScreenPrivacyFilter → ScreenObservation → S → ScreenOcrPipelineResult × S
  unfolding enrich_screen_observation filtered enriched
  process f o s =
      let (read, s') = enrich_screen_observation o s in
      if should_block lower f o then (blocked_result, s) else (filtered f (enriched o read), s')

-- A result that passes on nothing, or an observation without an image that the filter lets pass.
abbrev pub IsSafe : (String → String) → ScreenPrivacyFilter → ScreenOcrPipelineResult → Type 0
IsSafe lower f r = elim r.observation [
  | none ↦ r.privacy_blocked ≡ true
  | some o ↦ (r.privacy_blocked ≡ false) × (has_image o ≡ false) × (should_block lower f o ≡ false)
]

module _ {S : Type 0} (lower : String → String)
    (extract_text : Option (ScreenObservation → S → Result (Option String) × S))
    (f : ScreenPrivacyFilter) where
  should_block-without_image :
      (o : ScreenObservation) → should_block lower f (without_image o) ≡ should_block lower f o
  unfolding should_block without_image
  should_block-without_image o = refl

  filtered-blocked :
      (o : ScreenObservation)
      → should_block lower f o ≡ true
      → filtered lower extract_text f o ≡ blocked_result
  unfolding filtered filter
  filtered-blocked o e = ground (arith, e)

  filtered-passed :
      (o : ScreenObservation)
      → should_block lower f o ≡ false
      → filtered lower extract_text f o
        ≡ record { observation = some (without_image o); privacy_blocked = false }
  unfolding filtered filter
  filtered-passed o e = ground (arith, e)

  filtered-IsSafe : (o : ScreenObservation) → IsSafe lower f (filtered lower extract_text f o)
  unfolding without_image
  filtered-IsSafe o = elim (Bool-cases (should_block lower f o)) [
    | inl e ↦ subst (IsSafe lower f) (sym (filtered-blocked o e)) refl
    | inr e ↦
        subst (IsSafe lower f) (sym (filtered-passed o e))
          (refl, refl, should_block-without_image o ∙ e)
  ]

  process-passed :
      (o : ScreenObservation) (s : S) → IsSafe lower f (process lower extract_text f o s).0
  unfolding process
  process-passed o s =
      if_cases {A = ScreenOcrPipelineResult × S} (should_block lower f o) (λ r. IsSafe lower f r.0)
        (λ _. refl)
        (λ _.
          filtered-IsSafe
            (enriched lower extract_text o (enrich_screen_observation lower extract_text o s).0))

  process-blocked :
      (o : ScreenObservation) (s : S)
      → should_block lower f o ≡ true
      → process lower extract_text f o s ≡ (blocked_result, s)
  unfolding process
  process-blocked o s e = rw e refl

  -- What the pipeline passes on carries no image and nothing that the filter blocks, whatever text
  -- was read off the image; otherwise it reports that it was blocked. Of a screen that the filter
  -- blocks from the start no text is read: the host is left as it was.
  pub process-IsSafe :
      (o : ScreenObservation) (s : S)
      → IsSafe lower f (process lower extract_text f o s).0
        × ((should_block lower f o ≡ false)
            ⊎ (process lower extract_text f o s ≡ (blocked_result, s)))
  process-IsSafe o s = (
    process-passed o s,
    elim (Bool-cases (should_block lower f o)) [
      | inl e ↦ inr (process-blocked o s e)
      | inr e ↦ inl e
    ],
  )
