-- ===== src/Browser.antt =====
-- agent/browser/BrowserController.ts. The browser is a `Host` that acts on a state of its own: a page
-- is a value of the host's, an operation on it that rejects gives an `err`. Two calls do not overlap.
-- `show` stands for the text of a number; lengths count code points.
pub mod Actions
use Prim.Native.String.{◌++◌ as ◌+++◌}
use toni_ai_agent.Common.{
  ℕ, zero, suc, ◌+◌, Bool, true, false, not, ◌||◌, Option, none, some, List, [], ◌∷◌, length, min,
  max, ltb, leb, String, str_eq, if◌then◌else◌,
}
use toni_ai_agent.Common.Text.{codes, trim, member}
use toni_ai_agent.Common.JsMap.{JsMap, get, set, delete, keys}
use toni_ai_agent.Types.{Result, ok, err, plain_error}

pub record BrowserTabSnapshot : Type 0 where
  pub id : String
  pub url : String
  pub title : String

pub record BrowserObservation : Type 0 where
  pub tab : BrowserTabSnapshot
  pub text : String
  pub screenshot_data_url : Option String

-- what `new URL` reads of a text
pub record Url : Type 0 where
  pub protocol : String
  pub username : String
  pub password : String

pub record Host (P W : Type 0) : Type 0 where
  pub launch : W → Result (Unit {0}) × W
  pub shut : W → W
  pub new_page : W → Result P × W
  pub goto : P → String → ℕ → W → Result (Unit {0}) × W
  pub body_text : P → ℕ → W → Result String × W
  pub screenshot : P → W → Result String × W
  pub click_first : P → String → ℕ → W → Result (Unit {0}) × W
  pub fill_first : P → String → String → ℕ → W → Result (Unit {0}) × W
  pub close_page : P → W → Result (Unit {0}) × W
  pub url_of : P → W → String
  pub title_of : P → W → String
  pub read_url : String → Option Url

pub record BrowserController (P W : Type 0) : Type 0 where
  pub max_tabs : ℕ
  pub navigation_timeout_ms : ℕ
  pub started : Bool
  pub pages : JsMap P
  pub next_tab : ℕ
  pub world : W

unfoldable pub create : {P W : Type 0} → Option ℕ → Option ℕ → W → BrowserController P W
create tabs timeout w = record {
  max_tabs = max 1 (min 8 (elim tabs [ none ↦ 6 | some n ↦ n ]));
  navigation_timeout_ms = max 1000 (min 120000 (elim timeout [ none ↦ 30000 | some n ↦ n ]));
  started = false;
  pages = [];
  next_tab = 1;
  world = w;
}

-- `assertSelector`
unfoldable pub assert_selector : String → Result (Unit {0})
unfolding trim codes
assert_selector selector =
    if str_eq (trim selector) ""
    then err (plain_error "Browser selector is required")
    else if ltb 1000 (length (codes selector))
    then err (plain_error "Browser selector is too long")
    else ok tt

module _ {P W : Type 0} (host : Host P W) (show : ℕ → String) where
  -- `assertSafeUrl`
  unfoldable pub assert_safe_url : String → Result (Unit {0})
  unfolding member
  assert_safe_url url = elim (host.read_url url) [
    | none ↦ err (plain_error "Invalid browser URL")
    | some u ↦
        if not (member u.protocol ("http:" ∷ "https:" ∷ []))
        then err (plain_error "Only http/https browser URLs are allowed")
        else if not (str_eq u.username "") || not (str_eq u.password "")
        then err (plain_error "Embedded browser credentials are not allowed")
        else ok tt
  ]

  -- `registerPage`
  unfoldable pub register_page : P → BrowserController P W → String × BrowserController P W
  unfolding set
  register_page page b = (
    "tab-" +++ show b.next_tab,
    record b { pages = set b.pages ("tab-" +++ show b.next_tab) page; next_tab = b.next_tab + 1 },
  )

  unfoldable pub get_page : String → BrowserController P W → Result P
  unfolding get
  get_page id b = elim (get b.pages id) [
    | none ↦ err (plain_error ("Browser tab not found: " +++ id))
    | some page ↦ ok page
  ]

  unfoldable pub open_page : BrowserController P W → Result String × BrowserController P W
  unfolding register_page
  open_page b =
      let (made, w) = host.new_page b.world in
      let b' = record b { world = w } in
      elim made [
        | err e ↦ (err e, b')
        | ok page ↦ (ok (register_page page b').0, (register_page page b').1)
      ]

  -- `start`; a launch that fails leaves no context
  unfoldable pub start : BrowserController P W → Result (Unit {0}) × BrowserController P W
  unfolding open_page
  start b =
      let (launched, w) = host.launch b.world in
      let (opened, b') = open_page (record b { world = w; started = true }) in
      if b.started then (ok tt, b) else elim launched [
        | err e ↦ (err e, record b { world = w })
        | ok _ ↦ (elim opened [ err e ↦ err e | ok id ↦ ok tt ], b')
      ]

  unfoldable pub stop : BrowserController P W → BrowserController P W
  stop b = record b { pages = []; started = false; world = host.shut b.world }

  unfoldable pub snapshot : String → BrowserController P W → Result BrowserTabSnapshot
  unfolding get_page
  snapshot id b = elim (get_page id b) [
    | err e ↦ err e
    | ok page ↦
        ok (record { id = id; url = host.url_of page b.world; title = host.title_of page b.world })
  ]
