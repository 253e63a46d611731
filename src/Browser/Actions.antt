-- ===== src/Browser/Actions.antt =====
-- The operations on tabs of agent/browser/BrowserController.ts.
use Prim.Native.String.{◌++◌ as ◌+++◌}
use toni_ai_agent.Common.{
  ℕ, zero, suc, Bool, Option, none, some, List, [], ◌∷◌, length, ltb, leb, String, if◌then◌else◌,
}
use toni_ai_agent.Common.Text.{codes}
use toni_ai_agent.Common.JsMap.{delete, keys}
use toni_ai_agent.Types.{Result, ok, err, plain_error}
use toni_ai_agent.Browser.{
  BrowserTabSnapshot, BrowserObservation, Host, BrowserController, assert_selector, assert_safe_url,
  get_page, open_page, start, snapshot,
}

-- `text.slice(0, n)`
unfoldable pub slice : ℕ → String → String
slice zero s = String.[]
slice (suc n) String.[] = String.[]
slice (suc n) (String.◌∷◌ c s) = String.◌∷◌ c (slice n s)

module _ {P W : Type 0} (host : Host P W) (show : ℕ → String) where
  -- the snapshot after an action on the page
  unfoldable pub after :
      String
      → Result (Unit {0})
      → BrowserController P W
      → Result BrowserTabSnapshot × BrowserController P W
  unfolding snapshot
  after id (err e) b = (err e, b)
  after id (ok _) b = (snapshot host show id b, b)

  unfoldable pub navigate :
      String → String → BrowserController P W → Result BrowserTabSnapshot × BrowserController P W
  unfolding get_page assert_safe_url after
  navigate id url b = elim (get_page host show id b) [
    | err e ↦ (err e, b)
    | ok page ↦ elim (assert_safe_url host show url) [
      | err e ↦ (err e, b)
      | ok _ ↦
          let (went, w) = host.goto page url b.navigation_timeout_ms b.world in
          after id went (record b { world = w })
    ]
  ]

  -- `newTab`, once the browser runs and has room
  unfoldable pub add_tab :
      Option String → BrowserController P W → Result BrowserTabSnapshot × BrowserController P W
  unfolding open_page navigate snapshot
  add_tab url b =
      let (opened, b') = open_page host show b in
      elim opened [
        | err e ↦ (err e, b')
        | ok id ↦ elim url [ none ↦ (snapshot host show id b', b') | some u ↦ navigate id u b' ]
      ]

  unfoldable pub new_tab :
      Option String → BrowserController P W → Result BrowserTabSnapshot × BrowserController P W
  unfolding start add_tab
  new_tab url b =
      let (started, b') = start host show b in
      elim started [
        | err e ↦ (err e, b')
        | ok _ ↦
            if leb b'.max_tabs (length b'.pages)
            then (
              err (plain_error ("Maximum browser tabs reached (" +++ show b'.max_tabs +++ ")")),
              b',
            )
            else add_tab url b'
      ]

  -- the observation with its picture, if one is asked for
  unfoldable pub with_picture :
      Bool
      → P
      → BrowserTabSnapshot
      → String
      → BrowserController P W
      → Result BrowserObservation × BrowserController P W
  with_picture wanted page tab text b =
      let (taken, w) = host.screenshot page b.world in
      if wanted
      then (
        elim taken [
          | err e ↦ err e
          | ok bytes ↦ ok (record {
            tab = tab;
            text = text;
            screenshot_data_url = some ("data:image/png;base64," +++ bytes);
          })
        ],
        record b { world = w },
      )
      else (ok (record { tab = tab; text = text; screenshot_data_url = none }), b)

  unfoldable pub observe :
      String → Bool → BrowserController P W → Result BrowserObservation × BrowserController P W
  unfolding get_page snapshot with_picture slice
  observe id wanted b = elim (get_page host show id b) [
    | err e ↦ (err e, b)
    | ok page ↦ elim (snapshot host show id b) [
      | err e ↦ (err e, b)
      | ok tab ↦
          let (read, w) = host.body_text page b.navigation_timeout_ms b.world in
          elim read [
            | err e ↦ (err e, record b { world = w })
            | ok text ↦ with_picture wanted page tab (slice 50000 text) (record b { world = w })
          ]
    ]
  ]

  unfoldable pub click :
      String → String → BrowserController P W → Result BrowserTabSnapshot × BrowserController P W
  unfolding get_page assert_selector after
  click id selector b = elim (get_page host show id b) [
    | err e ↦ (err e, b)
    | ok page ↦ elim (assert_selector selector) [
      | err e ↦ (err e, b)
      | ok _ ↦
          let (clicked, w) = host.click_first page selector b.navigation_timeout_ms b.world in
          after id clicked (record b { world = w })
    ]
  ]

  unfoldable pub type_text :
      String
      → String
      → String
      → BrowserController P W
      → Result BrowserTabSnapshot × BrowserController P W
  unfolding get_page assert_selector after codes
  type_text id selector text b = elim (get_page host show id b) [
    | err e ↦ (err e, b)
    | ok page ↦ elim (assert_selector selector) [
      | err e ↦ (err e, b)
      | ok _ ↦
          let (filled, w) = host.fill_first page selector text b.navigation_timeout_ms b.world in
          if ltb 10000 (length (codes text))
          then (err (plain_error "Browser input is limited to 10,000 characters"), b)
          else after id filled (record b { world = w })
    ]
  ]

  -- the snapshots of the tabs under some names
  unfoldable pub snapshots : List String → BrowserController P W → Result (List BrowserTabSnapshot)
  unfolding snapshot
  snapshots [] b = ok []
  snapshots (id ∷ ids) b =
      let rest = snapshots ids b in
      elim (snapshot host show id b) [
        | err e ↦ err e
        | ok tab ↦ elim rest [ err e ↦ err e | ok tabs ↦ ok (tab ∷ tabs) ]
      ]

  unfoldable pub tabs :
      BrowserController P W → Result (List BrowserTabSnapshot) × BrowserController P W
  unfolding start snapshots keys
  tabs b =
      let (started, b') = start host show b in
      (elim started [ err e ↦ err e | ok _ ↦ snapshots (keys b'.pages) b' ], b')

  unfoldable pub close_tab :
      String → BrowserController P W → Result (Unit {0}) × BrowserController P W
  unfolding get_page delete
  close_tab id b = elim (get_page host show id b) [
    | err e ↦ (err e, b)
    | ok page ↦
        let (closed, w) = host.close_page page b.world in
        elim closed [
          | err e ↦ (err e, record b { world = w })
          | ok _ ↦ (ok tt, record b { world = w; pages = delete b.pages id })
        ]
  ]
