-- ===== src/Common/JsMap.antt =====
-- A JavaScript `Map` with text keys: its entries in the order of their first insertion.
use Prim.Native.String.{String}
use mathlib.Core.Path.{◌≡◌, refl, subst₂}
use mathlib.Core.Bool.{Bool, false}
use mathlib.Core.Logic.{inl, inr, ◌≢◌}
use mathlib.Core.Option.{Option, none, some}
use mathlib.Core.List.{List, [], ◌∷◌}
use native.Mathlib.Omega.{arith}
use text.Mathlib.Text.{◌==◌ as str_eq}
use text.Mathlib.TextEquality.{eq_iff}
use toni_ai_agent.Common.Tests.{if◌then◌else◌, is_some, Bool-cases}

abbrev pub JsMap {ℓ} : Type ℓ → Type ℓ
JsMap V = List (String × V)

module _ {ℓ} {V : Type ℓ} where
  unfoldable pub get : JsMap V → String → Option V
  get [] k = none
  get ((j, v) ∷ m) k = if str_eq j k then some v else get m k

  -- An existing key keeps its place.
  unfoldable pub set : JsMap V → String → V → JsMap V
  set [] k v = (k, v) ∷ []
  set ((j, w) ∷ m) k v = let rest = set m k v in if str_eq j k then (j, v) ∷ m else (j, w) ∷ rest

  unfoldable pub delete : JsMap V → String → JsMap V
  delete [] k = []
  delete ((j, v) ∷ m) k = let rest = delete m k in if str_eq j k then rest else (j, v) ∷ rest

  unfoldable pub has : JsMap V → String → Bool
  unfolding get
  has m k = is_some (get m k)

  unfoldable pub keys : JsMap V → List String
  keys [] = []
  keys ((k, v) ∷ m) = k ∷ keys m

  unfoldable pub values : JsMap V → List V
  values [] = []
  values ((k, v) ∷ m) = v ∷ values m

  pub get-set :
      (m : JsMap V) (k : String) (v : V) (j : String)
      → get (set m k v) j ≡ (if str_eq k j then some v else get m j)
  unfolding get set
  get-set [] k v j = refl
  get-set ((i, w) ∷ m) k v j = ground (arith, eq_iff k j, eq_iff i k, eq_iff i j, get-set m k v j)

  pub get-delete :
      (m : JsMap V) (k j : String) → get (delete m k) j ≡ (if str_eq k j then none else get m j)
  unfolding get delete
  get-delete [] k j = ground arith
  get-delete ((i, w) ∷ m) k j = ground (arith, eq_iff k j, eq_iff i k, eq_iff i j, get-delete m k j)

  pub has-eq_is_some : (m : JsMap V) (k : String) → has m k ≡ is_some (get m k)
  unfolding has
  has-eq_is_some m k = refl

-- No key stands twice.
abbrev pub IsMap {ℓ} : {V : Type ℓ} → JsMap V → Type 0
IsMap [] = Unit
IsMap ((k, v) ∷ m) = (has m k ≡ false) × IsMap m

-- What holds of every entry.
abbrev pub Entries {ℓ κ} : {V : Type ℓ} → (String → V → Type κ) → JsMap V → Type κ
Entries P [] = Unit
Entries P ((k, v) ∷ m) = P k v × Entries P m

module _ {ℓ} {V : Type ℓ} where
  pub IsMap-set : (m : JsMap V) (k : String) (v : V) → IsMap m → IsMap (set m k v)
  unfolding set has get
  IsMap-set [] k v h = (refl, tt)
  IsMap-set ((i, w) ∷ m) k v (fresh, h) = elim (Bool-cases (str_eq i k)) [
    | inl e ↦ rw e (fresh, h)
    | inr e ↦ rw e (ground (arith, get-set m k v i, eq_iff i k, eq_iff k i), IsMap-set m k v h)
  ]

  pub IsMap-delete : (m : JsMap V) (k : String) → IsMap m → IsMap (delete m k)
  unfolding delete has
  IsMap-delete [] k h = tt
  IsMap-delete ((i, w) ∷ m) k (fresh, h) = elim (Bool-cases (str_eq i k)) [
    | inl e ↦ rw e (IsMap-delete m k h)
    | inr e ↦ rw e (ground (arith, get-delete m k i, eq_iff i k, eq_iff k i), IsMap-delete m k h)
  ]

  module _ {κ} (P : String → V → Type κ) where
    pub Entries-set :
        (m : JsMap V) (k : String) (v : V) → Entries P m → P k v → Entries P (set m k v)
    unfolding set
    Entries-set [] k v h p = (p, tt)
    Entries-set ((i, w) ∷ m) k v (q, h) p = elim (Bool-cases (str_eq i k)) [
      | inl e ↦ rw e (rw ((eq_iff i k).0 e) p, h)
      | inr e ↦ rw e (q, Entries-set m k v h p)
    ]

    pub Entries-delete : (m : JsMap V) (k : String) → Entries P m → Entries P (delete m k)
    unfolding delete
    Entries-delete [] k h = tt
    Entries-delete ((i, w) ∷ m) k (q, h) = elim (Bool-cases (str_eq i k)) [
      | inl e ↦ rw e (Entries-delete m k h)
      | inr e ↦ rw e (q, Entries-delete m k h)
    ]

    pub get-Entries : (m : JsMap V) (k : String) (v : V) → Entries P m → get m k ≡ some v → P k v
    unfolding get
    get-Entries [] k v h e = cc
    get-Entries ((i, w) ∷ m) k v (q, h) e = elim (Bool-cases (str_eq i k)) [
      | inl same ↦ subst₂ P ((eq_iff i k).0 same) (ground arith) q
      | inr other ↦ get-Entries m k v h (rw other at e)
    ]

  pub Entries-imp {κ μ} :
      {P : String → V → Type κ} {Q : String → V → Type μ} (m : JsMap V)
      → ((k : String) (v : V) → P k v → Q k v)
      → Entries P m
      → Entries Q m
  Entries-imp [] f h = tt
  Entries-imp ((k, v) ∷ m) f (p, h) = (f k v p, Entries-imp m f h)

  pub get-none-Entries : (m : JsMap V) (k : String) → get m k ≡ none → Entries (λ j v. j ≢ k) m
  unfolding get
  get-none-Entries [] k e = tt
  get-none-Entries ((i, w) ∷ m) k e = elim (Bool-cases (str_eq i k)) [
    | inl same ↦ cc
    | inr other ↦ (ground (arith, eq_iff i k), get-none-Entries m k (rw other at e))
  ]

  -- In a map without double keys, every entry under a key is what `get` returns.
  pub get-some-Entries :
      (m : JsMap V) (k : String) (r : V)
      → IsMap m
      → get m k ≡ some r
      → Entries (λ j v. j ≡ k → v ≡ r) m
  unfolding get has
  get-some-Entries [] k r h e = tt
  get-some-Entries ((i, w) ∷ m) k r (fresh, h) e = elim (Bool-cases (str_eq i k)) [
    | inl same ↦ (
      λ _. ground arith,
      Entries-imp m (λ j v ne p. absurd (ne p)) (get-none-Entries m k (ground (arith, eq_iff i k))),
    )
    | inr other ↦ (λ p. ground (arith, eq_iff i k), get-some-Entries m k r h (rw other at e))
  ]

pub ruleset map_laws = (get-set, get-delete)
