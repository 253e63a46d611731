-- ===== src/Coding/VerificationEngine/Steps.antt =====
-- The steps that a verification takes.
use toni_ai_agent.Common.{
  ℕ, Bool, true, false, ◌&&◌, Option, none, some, List, [], ◌∷◌, ◌++◌, map, all, String, ◌≡◌, ◌≢◌,
  ◌⊎◌, inl, inr, refl, sym, ◌∙◌, ap, arith, if_cases,
}
use toni_ai_agent.Coding.SelfDebugger.{DebugFailure, RepairPlan}
use mathlib.Core.List.{append-nil}
use toni_ai_agent.Coding.VerificationEngine.{
  VerificationCommand, VerificationResult, VerificationStepResult, VerificationRunnerResult,
  steps_from, step_of, verify, available_commands,
}

abbrev pub step_ok : VerificationStepResult → Bool
step_ok step = step.ok

abbrev pub command_of : VerificationStepResult → String
command_of step = step.command

abbrev pub text_of : VerificationCommand → String
text_of item = item.command

all-append :
    (xs ys : List VerificationStepResult)
    → all step_ok (xs ++ ys) ≡ (all step_ok xs && all step_ok ys)
all-append [] ys = refl
all-append (x ∷ xs) ys = ground (arith, all-append xs ys)

append_assoc :
    (xs : List VerificationStepResult) (y : VerificationStepResult)
    (zs : List VerificationStepResult)
    → ((xs ++ y ∷ []) ++ zs) ≡ (xs ++ y ∷ zs)
append_assoc [] y zs = refl
append_assoc (x ∷ xs) y zs = ap (λ t. x ∷ t) (append_assoc xs y zs)

List-cases : {A : Type 0} (xs : List A) → (xs ≡ []) ⊎ ((x : A) × (rest : List A) × (xs ≡ x ∷ rest))
List-cases [] = inl refl
List-cases (x ∷ rest) = inr (x, rest, refl)

module _ {S : Type 0} (show : Option ℕ → String)
    (runner : String → S → VerificationRunnerResult × S)
    (analyse : Option (DebugFailure → RepairPlan)) where
  steps-ok :
      (steps : List VerificationStepResult) (items : List VerificationCommand) (s : S)
      → all step_ok steps ≡ true
      → (steps_from show runner analyse steps items s).0.ok
        ≡ all step_ok (steps_from show runner analyse steps items s).0.steps
  unfolding steps_from step_of
  steps-ok steps [] s h = sym h
  steps-ok steps (item ∷ rest) s h =
      let step = step_of item (runner item.command s).0 in
      let appended = all-append steps (step ∷ []) in
      if_cases (runner item.command s).0.ok
        (λ (p : VerificationResult × S). p.0.ok ≡ all step_ok p.0.steps)
        (λ good.
          steps-ok (steps ++ step ∷ []) rest (runner item.command s).1
            (ground (arith, appended, h, good)))
        (λ bad. sym (ground (arith, appended, h, bad)))

  -- Every command is run once, in order, whatever comes of it.
  pub run_all : List VerificationCommand → S → List VerificationStepResult × S
  run_all [] s = ([], s)
  run_all (item ∷ rest) s =
      let (steps, s') = run_all rest (runner item.command s).1 in
      (step_of item (runner item.command s).0 ∷ steps, s')

  -- How the steps `taken` end: all succeeded, and nothing is left; or the last one failed, and it is
  -- the only one that did.
  pub data EndsBy (taken : List VerificationStepResult) (rest : List VerificationCommand)
      (v : VerificationResult) : Type 0 where
    all_passed :
        v.ok ≡ true
        → rest ≡ []
        → all step_ok taken ≡ true
        → v.failed_step ≡ none
        → EndsBy taken rest v
    stopped_at :
        (passed : List VerificationStepResult) (last : VerificationStepResult)
        → v.ok ≡ false
        → taken ≡ (passed ++ last ∷ [])
        → all step_ok passed ≡ true
        → last.ok ≡ false
        → v.failed_step ≡ some last
        → EndsBy taken rest v

  -- The commands `ran` are those of the given ones up to the first that failed; they were run once
  -- each, nothing else was, and their steps, with their texts, are the ones reported after the `steps` before them.
  abbrev pub StopsAtFailure :
      List VerificationStepResult → List VerificationCommand → S → VerificationResult × S → Type 0
  StopsAtFailure steps items s (v, s') =
      (ran : List VerificationCommand) × (rest : List VerificationCommand) × (items ≡ (ran ++ rest))
      × (v.steps ≡ (steps ++ (run_all ran s).0))
      × (map command_of (run_all ran s).0 ≡ map text_of ran)
      × (s' ≡ (run_all ran s).1)
      × EndsBy (run_all ran s).0 rest v

  one_more :
      (step : VerificationStepResult) (taken : List VerificationStepResult)
      (rest : List VerificationCommand) (v : VerificationResult)
      → step.ok ≡ true
      → EndsBy taken rest v
      → EndsBy (step ∷ taken) rest v
  one_more step taken rest v good (all_passed o r p f) = all_passed o r (ground arith) f
  one_more step taken rest v good (stopped_at passed last o e p l f) =
      stopped_at (step ∷ passed) last o (ap (λ t. step ∷ t) e) (ground arith) l f

  steps-StopsAtFailure :
      (steps : List VerificationStepResult) (items : List VerificationCommand) (s : S)
      → StopsAtFailure steps items s (steps_from show runner analyse steps items s)
  unfolding steps_from step_of run_all
  steps-StopsAtFailure steps [] s =
      ([], [], refl, sym (append-nil steps), refl, refl, all_passed refl refl refl refl)
  steps-StopsAtFailure steps (item ∷ rest) s =
      let step = step_of item (runner item.command s).0 in
      if_cases (runner item.command s).0.ok
        (λ (p : VerificationResult × S). StopsAtFailure steps (item ∷ rest) s p)
        (λ good.
          let (ran, left, e, told, texts, state, ends) =
            steps-StopsAtFailure (steps ++ step ∷ []) rest (runner item.command s).1 in
          (
            item ∷ ran,
            left,
            ap (λ t. item ∷ t) e,
            told ∙ append_assoc steps step _,
            ap (λ t. item.command ∷ t) texts,
            state,
            one_more step _ left _ good ends,
          ))
        (λ bad.
          (item ∷ [], rest, refl, refl, refl, refl, stopped_at [] step refl refl refl bad refl))

  module _ (scripts : String → Option String) (s : S) where
    -- A verification is a success exactly when every step that it took was one.
    pub verify-ok :
        (verify show runner analyse scripts s).0.ok
        ≡ all step_ok (verify show runner analyse scripts s).0.steps
    unfolding verify
    verify-ok = elim (List-cases (available_commands scripts)) [
      | inl e ↦ rw (e, verify) refl
      | inr (item, rest, e) ↦ rw (e, verify) (steps-ok [] (item ∷ rest) s refl)
    ]

    -- Where scripts are configured, a verification runs the available commands in their order, each
    -- once and nothing else, up to the first that fails, and reports their steps. It succeeds where
    -- none fails, and then all have been run; otherwise it fails, its last step is the only one
    -- that failed, and that is the failed step that it names.
    pub verify-StopsAtFailure :
        available_commands scripts ≢ []
        → StopsAtFailure [] (available_commands scripts) s (verify show runner analyse scripts s)
    unfolding verify
    verify-StopsAtFailure configured = elim (List-cases (available_commands scripts)) [
      | inl e ↦ absurd (configured e)
      | inr (item, rest, e) ↦ rw (e, verify) (steps-StopsAtFailure [] (item ∷ rest) s)
    ]
