-- ===== src/Vision/PrivacyFilter.antt =====
-- agent/vision/ScreenPrivacyFilter.ts; `lower` stands for `toLocaleLowerCase("fi-FI")`.
use Prim.Native.String.{◌++◌ as ◌+++◌}
use toni_ai_agent.Common.{
  Bool, true, Option, none, some, List, [], ◌∷◌, map, any, String, if◌then◌else◌,
}
use toni_ai_agent.Common.Text.{includes}
use toni_ai_agent.Computer.Validator.{ScreenObservation}

pub record ScreenPrivacyFilter : Type 0 where
  pub blocked_window_signals : List String
  pub blocked_text_signals : List String

-- `value ?? ""`
unfoldable pub or_empty : Option String → String
or_empty none = ""
or_empty (some text) = text

abbrev pub default_window_signals : List String
default_window_signals =
    "password" ∷ "salasana" ∷ "credential" ∷ "credentials" ∷ "login" ∷ "kirjautuminen" ∷ "bank"
    ∷ "pankki" ∷ "payment" ∷ "maksu" ∷ "private" ∷ "yksityinen" ∷ "incognito" ∷ []

abbrev pub default_text_signals : List String
default_text_signals =
    "password" ∷ "salasana" ∷ "api key" ∷ "apikey" ∷ "access token" ∷ "refresh token"
    ∷ "authorization: bearer" ∷ "mfa" ∷ "otp" ∷ "verification code" ∷ "vahvistuskoodi" ∷ []

-- `options.signals ?? defaults`
unfoldable pub signals : List String → Option (List String) → List String
signals defaults none = defaults
signals defaults (some given) = given

unfoldable pub without_image : ScreenObservation → ScreenObservation
without_image o = record o { image_data_url = none }

module _ (lower : String → String) where
  unfoldable pub create : Option (List String) → Option (List String) → ScreenPrivacyFilter
  unfolding signals
  create windows texts = record {
    blocked_window_signals = map lower (signals default_window_signals windows);
    blocked_text_signals = map lower (signals default_text_signals texts);
  }

  unfoldable pub should_block : ScreenPrivacyFilter → ScreenObservation → Bool
  unfolding or_empty
  should_block f o =
      let window_text =
        lower (or_empty o.active_window_title +++ " " +++ or_empty o.active_application) in
      let visible_text = lower (or_empty o.visible_text) in
      if any (λ signal. includes window_text signal) f.blocked_window_signals
      then true
      else any (λ signal. includes visible_text signal) f.blocked_text_signals

  unfoldable pub filter : ScreenPrivacyFilter → ScreenObservation → Option ScreenObservation
  unfolding should_block without_image
  filter f o = if should_block f o then none else some (without_image o)
