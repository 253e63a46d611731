-- ===== src/Audit/Chain/Tamper.antt =====
-- What a verification of the audit rows of storage/repositories/AuditRepository.ts is evidence of.
use toni_ai_agent.Common.{
  ℕ, ◌+◌, Bool, true, false, ◌&&◌, Option, none, some, List, [], ◌∷◌, map, length, String, str_eq,
  ◌≡◌, ◌≢◌, ◌⊎◌, refl, sym, ap, ◌∙◌, Bool-cases, inl, inr, eq_refl, eq_iff, arith, ◌==◌,
}
use toni_ai_agent.Audit.Chain.{
  AuditRow, HashInput, intact, or_empty, last_hash, input_of, verify_rows, verify,
}

-- The columns of a row besides its number and its hash; a predecessor that is missing counts as the
-- empty one.
abbrev pub Columns : Type 0
Columns =
    String × Option String × Option String × Option String × Option String × String × ℕ × String

-- `previous_hash ?? ""`
abbrev pub predecessor : AuditRow → String
predecessor row = elim row.previous_hash [ none ↦ "" | some h ↦ h ]

abbrev pub columns : AuditRow → Columns
columns row = (
  row.event_type,
  row.user_id,
  row.session_id,
  row.action_id,
  row.tool_name,
  row.message,
  row.created_at,
  predecessor row,
)

-- What a row says besides its number.
abbrev pub content : AuditRow → Columns × String
content row = (columns row, row.hash)

abbrev pub contents : List AuditRow → List (Columns × String)
contents rows = map content rows

-- What is digested for a row that says this.
abbrev pub digested : AuditRow → HashInput
digested row = record {
  kind = row.event_type;
  user_id = row.user_id;
  session_id = row.session_id;
  action_id = row.action_id;
  tool_name = row.tool_name;
  message = row.message;
  created_at = row.created_at;
  previous_hash = predecessor row;
}

-- The two logs themselves show a collision of the digest: two rows at one place that differ in
-- their columns and have one digest.
abbrev pub Collide : (HashInput → String) → List AuditRow → List AuditRow → Type 0
Collide hash [] rows' = ⊥
Collide hash (row ∷ rows) [] = ⊥
Collide hash (row ∷ rows) (row' ∷ rows') =
    ((columns row ≢ columns row') × (hash (digested row) ≡ hash (digested row')))
    ⊎ Collide hash rows rows'

same_text : Option String → Option String → Bool
same_text none none = true
same_text (some a) (some b) = str_eq a b
same_text _ _ = false

same_text-eq : (a b : Option String) → same_text a b ≡ true → a ≡ b
unfolding same_text
same_text-eq none none h = refl
same_text-eq none (some b) h = cc
same_text-eq (some a) none h = cc
same_text-eq (some a) (some b) h = ap some ((eq_iff a b).0 h)

same_text_refl : (a : Option String) → same_text a a ≡ true
unfolding same_text
same_text_refl none = refl
same_text_refl (some a) = eq_refl a

same_input : HashInput → HashInput → Bool
unfolding same_text
same_input a b =
    str_eq a.kind b.kind
    && (same_text a.user_id b.user_id
        && (same_text a.session_id b.session_id
            && (same_text a.action_id b.action_id
                && (same_text a.tool_name b.tool_name
                    && (str_eq a.message b.message
                        && ((a.created_at == b.created_at)
                            && str_eq a.previous_hash b.previous_hash))))))

same_input_refl : (a : HashInput) → same_input a a ≡ true
unfolding same_input
same_input_refl a = ground (
  arith,
  eq_refl a.kind,
  same_text_refl a.user_id,
  same_text_refl a.session_id,
  same_text_refl a.action_id,
  same_text_refl a.tool_name,
  eq_refl a.message,
  eq_refl a.previous_hash,
)

same_input-eq : (a b : HashInput) → same_input a b ≡ true → a ≡ b
unfolding same_input
same_input-eq a b h = ground (
  arith,
  eq_iff a.kind b.kind,
  same_text-eq a.user_id b.user_id,
  same_text-eq a.session_id b.session_id,
  same_text-eq a.action_id b.action_id,
  same_text-eq a.tool_name b.tool_name,
  eq_iff a.message b.message,
  eq_iff a.previous_hash b.previous_hash,
)

columns-digested : (row row' : AuditRow) → columns row ≡ columns row' → digested row ≡ digested row'
columns-digested row row' e = ground arith

digested-columns : (row row' : AuditRow) → digested row ≡ digested row' → columns row ≡ columns row'
digested-columns row row' e = ground arith

-- Two rows have the same columns or differ in them.
same_or_other : (row row' : AuditRow) → (columns row ≡ columns row') ⊎ (columns row ≢ columns row')
same_or_other row row' = elim (Bool-cases (same_input (digested row) (digested row'))) [
  | inl same ↦ inl (digested-columns row row' (same_input-eq (digested row) (digested row') same))
  | inr other ↦ inr (λ p. cc (
    ap (same_input (digested row)) (columns-digested row row' p),
    same_input_refl (digested row),
    other,
  ))
]

-- What a verification digests for a row in order is the row's columns.
input_of-digested :
    (row : AuditRow) (p : String) → or_empty row.previous_hash ≡ p → input_of p row ≡ digested row
unfolding input_of or_empty
input_of-digested row p e = ground arith

module _ (hash : HashInput → String) (show : ℕ → String) where
  row-intact :
      (row : AuditRow) (rows : List AuditRow) (previous : String) (n m : ℕ)
      → verify_rows hash show previous n (row ∷ rows) ≡ intact m
      → (or_empty row.previous_hash ≡ previous)
        × (hash (input_of previous row) ≡ row.hash)
        × (verify_rows hash show row.hash (n + 1) rows ≡ intact m)
  unfolding verify_rows
  row-intact row rows previous n m h = (
    ground (arith, eq_iff (or_empty row.previous_hash) previous),
    ground (arith, eq_iff (hash (input_of previous row)) row.hash),
    ground arith,
  )

  verify_rows-length :
      (rows : List AuditRow) (previous : String) (n m : ℕ)
      → verify_rows hash show previous n rows ≡ intact m
      → m ≡ n + length rows
  unfolding verify_rows
  verify_rows-length [] previous n m h = ground arith
  verify_rows-length (row ∷ rows) previous n m h =
      let rest =
        verify_rows-length rows row.hash (n + 1) m (row-intact row rows previous n m h).2 in
      omega (arith, rest)

  same_end :
      (rows rows' : List AuditRow) (p p' : String) (n m : ℕ)
      → length rows ≡ length rows'
      → verify_rows hash show p n rows ≡ intact m
      → verify_rows hash show p' n rows' ≡ intact m
      → last_hash p rows ≡ last_hash p' rows'
      → Collide hash rows rows' ⊎ ((p ≡ p') × (contents rows ≡ contents rows'))
  unfolding last_hash or_empty
  same_end [] [] p p' n m l v v' e = inr (e, refl)
  same_end [] (row' ∷ rows') p p' n m l v v' e = absurd (omega (arith, l))
  same_end (row ∷ rows) [] p p' n m l v v' e = absurd (omega (arith, l))
  same_end (row ∷ rows) (row' ∷ rows') p p' n m l v v' e =
      let (q, d, w) = row-intact row rows p n m v in
      let (q', d', w') = row-intact row' rows' p' n m v' in
      elim (same_end rows rows' row.hash row'.hash (n + 1) m (omega (arith, l)) w w' e) [
        | inl later ↦ inl (inr later)
        | inr (h, rest) ↦ elim (same_or_other row row') [
          | inr other ↦ inl (
              inl (
                other,
                ap hash (sym (input_of-digested row p q))
                    ∙ d
                    ∙ h
                    ∙ sym d'
                    ∙ ap hash (input_of-digested row' p' q'),
              ))
          | inl same ↦
              inr (sym q ∙ ap (λ (c : Columns). c.7) same ∙ q', λ i. (same i, h i) ∷ rest i)
        ]
      ]

  -- Two logs that verify with one count and end in one hash agree, row by row, in every column but
  -- the row's number, or at some place they hold two rows that differ in such a column besides the
  -- hash and have one digest.
  pub verify-tamper :
      (rows rows' : List AuditRow) (n : ℕ)
      → verify hash show rows ≡ intact n
      → verify hash show rows' ≡ intact n
      → last_hash "" rows ≡ last_hash "" rows'
      → Collide hash rows rows' ⊎ (contents rows ≡ contents rows')
  unfolding verify
  verify-tamper rows rows' n v v' e =
      let l = verify_rows-length rows "" 0 n v in
      let l' = verify_rows-length rows' "" 0 n v' in
      elim (same_end rows rows' "" "" 0 n (omega (arith, l, l')) v v' e) [
        | inl c ↦ inl c
        | inr both ↦ inr both.1
      ]
