-- ===== src/Vision/Suggestions.antt =====
-- agent/vision/ScreenSuggestionController.ts and agent/vision/ScreenSuggestionDebouncer.ts. The
-- clock's readings are arguments.
use Prim.Native.String.{◌++◌ as ◌+++◌}
use toni_ai_agent.Common.{
  ℕ, ◌+◌, ◌<◌, Bool, true, false, ◌&&◌, Option, none, some, List, [], ◌∷◌, All, String, str_eq, ltb,
  if◌then◌else◌, ◌≡◌, refl, eq_refl, arith, map, ap,
}
use toni_ai_agent.Vision.ContextAssistant.{
  ScreenContextKind, school, business, coding, general, ScreenSuggestion,
}

pub data ScreenSuggestionDecision : Type 0 where
  idle accepted dismissed : ScreenSuggestionDecision

pub record ScreenSuggestionState : Type 0 where
  pub suggestion : Option ScreenSuggestion
  pub decision : ScreenSuggestionDecision

unfoldable pub create : ScreenSuggestionState
create = record { suggestion = none; decision = idle }

unfoldable pub publish : ScreenSuggestion → ScreenSuggestionState → ScreenSuggestionState
publish suggestion s = record { suggestion = some suggestion; decision = idle }

unfoldable pub accept : ScreenSuggestionState → ScreenSuggestionState
accept s = elim s.suggestion [ none ↦ s | some _ ↦ record s { decision = accepted } ]

unfoldable pub dismiss : ScreenSuggestionState → ScreenSuggestionState
dismiss s = elim s.suggestion [ none ↦ s | some _ ↦ record s { decision = dismissed } ]

unfoldable pub clear : ScreenSuggestionState → ScreenSuggestionState
clear s = record { suggestion = none; decision = idle }

pub record ScreenSuggestionDebouncer : Type 0 where
  pub cooldown_ms : ℕ
  pub last_key : Option String
  pub last_shown_at : ℕ

unfoldable pub create_debouncer : Option ℕ → ScreenSuggestionDebouncer
create_debouncer cooldown = record {
  cooldown_ms = elim cooldown [ none ↦ 60000 | some ms ↦ ms ];
  last_key = none;
  last_shown_at = 0;
}

unfoldable pub kind_text : ScreenContextKind → String
kind_text school = "school"
kind_text business = "business"
kind_text coding = "coding"
kind_text general = "general"

unfoldable pub key_of : ScreenSuggestion → String → String
unfolding kind_text
key_of suggestion context =
    kind_text suggestion.kind +++ ":" +++ suggestion.action +++ ":" +++ context

unfoldable pub is_last : Option String → String → Bool
is_last none key = false
is_last (some last) key = str_eq key last

-- `now - last < cooldown` is `now < last + cooldown`.
unfoldable pub should_show :
    ℕ → ScreenSuggestion → String → ScreenSuggestionDebouncer → Bool × ScreenSuggestionDebouncer
unfolding key_of is_last
should_show now suggestion context d =
    let key = key_of suggestion context in
    if is_last d.last_key key && ltb now (d.last_shown_at + d.cooldown_ms)
    then (false, d)
    else (true, record d { last_key = some key; last_shown_at = now })

unfoldable pub reset : ScreenSuggestionDebouncer → ScreenSuggestionDebouncer
reset d = record d { last_key = none; last_shown_at = 0 }

-- The answers to one suggestion in one context at a list of times, and where they leave.
unfoldable pub polls :
    ScreenSuggestion
    → String
    → List ℕ
    → ScreenSuggestionDebouncer
    → List Bool × ScreenSuggestionDebouncer
unfolding should_show
polls suggestion context [] d = ([], d)
polls suggestion context (now ∷ times) d =
    let (shown, d1) = should_show now suggestion context d in
    let (rest, d2) = polls suggestion context times d1 in (shown ∷ rest, d2)

module _ (suggestion : ScreenSuggestion) (context : String) where
  polls_held :
      (times : List ℕ) (d : ScreenSuggestionDebouncer)
      → is_last d.last_key (key_of suggestion context) ≡ true
      → All (λ t. t < d.last_shown_at + d.cooldown_ms) times
      → polls suggestion context times d ≡ (map (λ t. false) times, d)
  unfolding polls should_show
  polls_held [] d e h = refl
  polls_held (now ∷ times) d e h =
      let (soon, later) = h in let rest = polls_held times d e later in ground (arith, rest)

  should_show-shown :
      (now : ℕ) (d : ScreenSuggestionDebouncer)
      → (should_show now suggestion context d).0 ≡ true
      → (should_show now suggestion context d).1
        ≡ record d { last_key = some (key_of suggestion context); last_shown_at = now }
  unfolding should_show
  should_show-shown now d h = ground arith

  -- Once a suggestion has been shown, it is not shown again in the same context before the cooldown
  -- has passed, however often it is polled.
  pub polls-should_show :
      (now : ℕ) (times : List ℕ) (d : ScreenSuggestionDebouncer)
      → (should_show now suggestion context d).0 ≡ true
      → All (λ t. t < now + d.cooldown_ms) times
      → (polls suggestion context times (should_show now suggestion context d).1).0
        ≡ map (λ t. false) times
  unfolding is_last
  polls-should_show now times d shown h = rw (should_show-shown now d shown) (
      ap (λ r. r.0)
        (polls_held times
          (record d { last_key = some (key_of suggestion context); last_shown_at = now })
          (eq_refl (key_of suggestion context)) h))
