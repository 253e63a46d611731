-- ===== src/Computer/VerificationPolicy.antt =====
-- agent/computer/ComputerVerificationPolicy.ts, and the loop of `approveAndVerify` of
-- agent/computer/ComputerActionWorkflow.ts that it bounds. Attempts are natural numbers.
use toni_ai_agent.Common.{
  ℕ, zero, suc, ◌+◌, ◌≤◌, ◌<◌, Bool, true, false, ◌||◌, Option, none, some, ltb, if◌then◌else◌, ◌≡◌,
  refl, ap, ◌∙◌, arith, if_cases, inl, inr,
}
use toni_ai_agent.Types.{Result, ok, err, plain_error, Result-cases}
use toni_ai_agent.Computer.Validator.{
  PostConditionStatus, confirmed, not_confirmed, inconclusive, ComputerPostConditionValidation,
}

pub data ComputerVerificationDecision : Type 0 where
  complete observe_again stop : ComputerVerificationDecision

abbrev or_two : Option ℕ → ℕ
or_two none = 2
or_two (some n) = n

-- the constructor's check
unfoldable pub create : Option ℕ → Result ℕ
create maximum =
    let m = or_two maximum in
    if ltb m 1 || ltb 3 m
    then err (plain_error "maxObservationAttempts must be an integer between 1 and 3.")
    else ok m

unfoldable pub decide_status : ℕ → PostConditionStatus → ℕ → ComputerVerificationDecision
decide_status maximum confirmed attempt = complete
decide_status maximum not_confirmed attempt = stop
decide_status maximum inconclusive attempt = if ltb attempt maximum then observe_again else stop

unfoldable pub decide :
    ℕ → ComputerPostConditionValidation → ℕ → Result ComputerVerificationDecision
unfolding decide_status
decide maximum validation attempt =
    if ltb attempt 1
    then err (plain_error "observationAttempt must be a positive integer.")
    else ok (decide_status maximum validation.status attempt)

abbrev again : ComputerVerificationDecision → Bool
again observe_again = true
again complete = false
again stop = false

-- Whether another observation follows; without a policy none does.
unfoldable pub goes_on : Option ℕ → ComputerPostConditionValidation → ℕ → Result Bool
unfolding decide
goes_on none validation attempt = ok false
goes_on (some maximum) validation attempt = elim (decide maximum validation attempt) [
  | ok decision ↦ ok (again decision)
  | err e ↦ err e
]

-- the validation, with the number of observations
abbrev pub counted :
    Result ComputerPostConditionValidation → ℕ → Result (ComputerPostConditionValidation × ℕ)
counted (err e) n = err e
counted (ok validation) n = ok (validation, n)

-- The loop of `approveAndVerify`: `observe` captures and validates an observation, or throws.
-- `none` stands for fuel that has run out.
module _ {S : Type 0} (policy : Option ℕ)
    (observe : S → Result ComputerPostConditionValidation × S) where
  unfoldable pub observations :
      ℕ → ℕ → S → Option (Result (ComputerPostConditionValidation × ℕ) × S)
  unfolding goes_on
  observations zero attempts s = none
  observations (suc fuel) attempts s =
      let (observed, s') = observe s in
      let rest = observations fuel (suc attempts) s' in
      elim observed [
        | err e ↦ some (err e, s')
        | ok validation ↦ elim (goes_on policy validation (suc attempts)) [
          | err e ↦ some (err e, s')
          | ok more ↦ if more then rest else some (ok (validation, suc attempts), s')
        ]
      ]

-- how many observations a policy allows
abbrev pub bound : Option ℕ → ℕ
bound none = 1
bound (some m) = m

goes_on-ok :
    (policy : Option ℕ) (validation : ComputerPostConditionValidation) (a : ℕ)
    → (more : Bool) × (goes_on policy validation (suc a) ≡ ok more)
      × (more ≡ true → (suc a < bound policy) × (validation.status ≡ inconclusive))
      × (more ≡ false → validation.status ≡ inconclusive → bound policy ≤ suc a)
unfolding goes_on decide decide_status
goes_on-ok none validation a = (false, refl, λ h. absurd cc, λ h i. omega arith)
goes_on-ok (some m) validation a = (
  again (decide_status m validation.status (suc a)),
  ground arith,
  λ h. ground arith,
  λ h i. ground (arith, i),
)

-- The outcome of the observation that follows `k` others, and the state after it.
abbrev pub nth_observation :
    {S : Type 0}
    → (S → Result ComputerPostConditionValidation × S)
    → ℕ
    → S
    → Result ComputerPostConditionValidation × S
nth_observation observe zero s = observe s
nth_observation observe (suc k) s = nth_observation observe k (observe s).1

module _ {S : Type 0} (policy : Option ℕ)
    (observe : S → Result ComputerPostConditionValidation × S) where
  -- The loop has ended with the observation that follows `k` others, which all returned and were
  -- inconclusive, and no other has been made. `before` is the number of earlier ones.
  abbrev pub Ends : ℕ → S → Option (Result (ComputerPostConditionValidation × ℕ) × S) → Type 0
  Ends before s r =
      (k : ℕ) × (r
        ≡ some (
          counted (nth_observation observe k s).0 (suc k + before),
          (nth_observation observe k s).1,
        ))
      × (suc k + before ≤ bound policy)
      × ((j : ℕ)
          → j < k
          → (v : ComputerPostConditionValidation) × ((nth_observation observe j s).0 ≡ ok v)
            × (v.status ≡ inconclusive))
      × ((v : ComputerPostConditionValidation)
          → (nth_observation observe k s).0 ≡ ok v
          → v.status ≡ inconclusive
          → suc k + before ≡ bound policy)

  -- One more observation before those of a loop.
  Ends-later :
      (before : ℕ) (s : S) (v : ComputerPostConditionValidation)
      (r : Option (Result (ComputerPostConditionValidation × ℕ) × S))
      → (observe s).0 ≡ ok v
      → v.status ≡ inconclusive
      → Ends (suc before) (observe s).1 r
      → Ends before s r
  Ends-later before s v r told unclear (k, e, within, earlier, last) = (
    suc k,
    rw e (
        ap
          (λ n. some (
            counted (nth_observation observe k (observe s).1).0 n,
            (nth_observation observe k (observe s).1).1,
          ))
          (omega arith)),
    omega (arith, within),
    earlier_ones,
    λ w is i. omega (arith, last w is i),
  )
    where
      earlier_ones :
          (j : ℕ)
          → j < suc k
          → (w : ComputerPostConditionValidation) × ((nth_observation observe j s).0 ≡ ok w)
            × (w.status ≡ inconclusive)
      earlier_ones zero h = (v, told, unclear)
      earlier_ones (suc j) h = earlier j (omega (arith, h))

  observations-Ends :
      (fuel attempts : ℕ) (s : S)
      → attempts < bound policy
      → bound policy ≤ fuel + attempts
      → Ends attempts s (observations policy observe fuel attempts s)
  unfolding observations
  observations-Ends zero attempts s below enough = absurd (omega (arith, below, enough))
  observations-Ends (suc fuel) attempts s below enough = elim (Result-cases (observe s).0) [
    | inl (e, threw) ↦ (
      zero,
      rw (threw, observations) refl,
      omega (arith, below),
      λ j h. absurd (omega (arith, h)),
      λ v is i. cc,
    )
    | inr (v, told) ↦
        let (more, e, under, over) = goes_on-ok policy v attempts in
        rw (told, e, observations)
          (if_cases more (Ends attempts s)
            (λ goes. Ends-later attempts s v _ told (under goes).1 (
              observations-Ends fuel (suc attempts) (observe s).1 (under goes).0
                (omega (arith, enough))))
            (λ stops. (
              zero,
              rw told (ap (λ n. some (ok (v, n), (observe s).1)) (omega arith)),
              omega (arith, below),
              λ j h. absurd (omega (arith, h)),
              λ w is i.
                  let same : v ≡ w = cc in
                  omega (
                    arith,
                    over stops (ap (λ (u : ComputerPostConditionValidation). u.status) same ∙ i),
                    below,
                  ),
            )))
  ]

  -- With three rounds of fuel, which every policy that can be created needs at most, the
  -- verification loop ends with an observation that throws or that is validated: it has made no
  -- other observations than that one and those before it, which were inconclusive, and no more than
  -- the policy allows, one without a policy; it reports how many it has made, and it leaves the
  -- post-condition inconclusive only when it has made as many as the policy allows.
  pub observations-end :
      (s : S) → 1 ≤ bound policy → bound policy ≤ 3 → Ends 0 s (observations policy observe 3 0 s)
  observations-end s low high = observations-Ends 3 0 s (omega (arith, low)) (omega (arith, high))

  -- What one observation keeps, a number of them keeps.
  pub nth_observation-keeps {ℓ} :
      (P : S → Type ℓ)
      → ((s : S) → P s → P (observe s).1)
      → (k : ℕ) (s : S) → P s
      → P (nth_observation observe k s).1
  nth_observation-keeps P kept zero s h = kept s h
  nth_observation-keeps P kept (suc k) s h = nth_observation-keeps P kept k (observe s).1 (kept s h)
