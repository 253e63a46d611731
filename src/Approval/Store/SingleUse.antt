-- ===== src/Approval/Store/SingleUse.antt =====
-- An approval of the file-backed store is consumed at most once.
use toni_ai_agent.Common.{
  ℕ, ◌<◌, Bool, true, false, none, some, List, [], ◌∷◌, All, String, eq_iff, eq_refl, ◌≡◌, ◌≢◌, ◌↔◌,
  refl, arith, Option-cases, inl, inr,
}
use toni_ai_agent.Common.JsMap
use toni_ai_agent.Common.JsMap.{get-set, get-delete}
use toni_ai_agent.Types.{ok, err, plain_error}
use toni_ai_agent.Approval.Record.{ApprovalRecord, ApprovalInput}
use toni_ai_agent.Approval.Store.{
  ApprovalStore, init, put, consume, consume_found, new_record, get, Call, started, stored, claimed,
  call, run,
}

-- The approval that a claim may consume at `now`: it is there, unused, not expired, and of the same
-- session, action and argument hash.
pub record IsConsumable (now : ℕ) (id session action hash : String) (s : ApprovalStore)
    (r : ApprovalRecord) : Type 0 where
  pub found : JsMap.get s.records id ≡ some r
  pub unused : r.used ≡ false
  pub live : now < r.expires_at
  pub same_session : r.session_id ≡ session
  pub same_action : r.action_id ≡ action
  pub same_hash : r.argument_hash ≡ hash

module _ (now : ℕ) (written : Bool) (id session action hash : String) (s : ApprovalStore) where
  -- `consume` returns a record exactly when the store is loaded, its file can be written, and
  -- it holds an approval that is unused, not expired, and of the same session, action and
  -- argument hash; the record returned is that approval, marked as used.
  pub consume-ok_iff :
      (q : ApprovalRecord)
      → ((consume now written id session action hash s).0 ≡ ok q) ↔ (
          (s.loaded ≡ true)
          × (written ≡ true)
          × ((r : ApprovalRecord) × IsConsumable now id session action hash s r
              × (q ≡ record r { used = true })))
  unfolding consume consume_found
  consume-ok_iff q = elim (Option-cases (JsMap.get s.records id)) [
    | inl e ↦ (λ h. ground arith, λ h. ground arith)
    | inr (r, e) ↦ (
      λ h. (
        ground arith,
        ground arith,
        (
          r,
          ground (
            arith,
            eq_iff r.session_id session,
            eq_iff r.action_id action,
            eq_iff r.argument_hash hash,
          ),
          ground arith,
        ),
      ),
      λ h.
          let (loaded, wrote, here) = h in
          let (x, c, taken) = here in
          ground (
            arith,
            c,
            eq_iff r.session_id session,
            eq_iff r.action_id action,
            eq_iff r.argument_hash hash,
          ),
    )
  ]

-- `id` has been consumed in `s`.
pub record IsSpent (s : ApprovalStore) (id : String) : Type 0 where
  pub loaded : s.loaded ≡ true
  pub taken : ApprovalRecord
  pub found : JsMap.get s.records id ≡ some taken
  pub used : taken.used ≡ true

-- The call does not put a new approval under the name.
abbrev pub Leaves : String → Call → Type 0
Leaves id (stored now written input) = input.approval_id ≢ id
Leaves id _ = Unit

consume-IsSpent_self :
    (now : ℕ) (written : Bool) (id session action hash : String) (s : ApprovalStore)
    (q : ApprovalRecord)
    → (consume now written id session action hash s).0 ≡ ok q
    → IsSpent (consume now written id session action hash s).1 id
unfolding consume consume_found
consume-IsSpent_self now written id session action hash s q h =
    let (loaded, wrote, here) = (consume-ok_iff now written id session action hash s q).0 h in
    let (r, c, taken) = here in
    record {
      loaded = ground (arith, c);
      taken = record r { used = true };
      found = ground (
        arith,
        c,
        get-set s.records id (record r { used = true }) id,
        eq_refl id,
        eq_iff r.session_id session,
        eq_iff r.action_id action,
        eq_iff r.argument_hash hash,
      );
      used = refl;
    }

module _ (s : ApprovalStore) (id : String) (h : IsSpent s id) where
  init-IsSpent : (now : ℕ → ℕ) (written : Bool) → IsSpent (init now written s).1 id
  unfolding init
  init-IsSpent now written = record {
    loaded = ground (arith, h.loaded);
    taken = h.taken;
    found = ground (arith, h.loaded, h.found);
    used = h.used;
  }

  put-IsSpent :
      (now : ℕ) (written : Bool) (input : ApprovalInput)
      → input.approval_id ≢ id
      → IsSpent (put now written input s).1 id
  unfolding put
  put-IsSpent now written input fresh = record {
    loaded = ground (arith, h.loaded);
    taken = h.taken;
    found = ground (
      arith,
      h.loaded,
      h.found,
      eq_iff input.approval_id id,
      get-set s.records input.approval_id (new_record now s.ttl_ms input) id,
    );
    used = h.used;
  }

  consume-IsSpent :
      (now : ℕ) (written : Bool) (other session action hash : String)
      → IsSpent (consume now written other session action hash s).1 id
  unfolding consume consume_found
  consume-IsSpent now written other session action hash =
      elim (Option-cases (JsMap.get s.records other)) [
        | inl e ↦ record {
          loaded = ground (arith, h.loaded);
          taken = h.taken;
          found = ground (arith, h.loaded, h.found);
          used = h.used;
        }
        | inr (r, e) ↦ record {
          loaded = ground (arith, h.loaded);
          taken = h.taken;
          found = ground (
            arith,
            h.loaded,
            h.found,
            h.used,
            eq_iff other id,
            get-set s.records other (record r { used = true }) id,
            get-delete s.records other id,
          );
          used = h.used;
        }
      ]

call-IsSpent :
    (c : Call) (s : ApprovalStore) (id : String)
    → Leaves id c
    → IsSpent s id
    → IsSpent (call c s) id
unfolding call
call-IsSpent (started now written) s id l h = init-IsSpent s id h now written
call-IsSpent (stored now written input) s id l h = put-IsSpent s id h now written input l
call-IsSpent (claimed now written other session action hash) s id l h =
    consume-IsSpent s id h now written other session action hash

run-IsSpent :
    (calls : List Call) (s : ApprovalStore) (id : String)
    → All (Leaves id) calls
    → IsSpent s id
    → IsSpent (run calls s) id
unfolding run
run-IsSpent [] s id l h = h
run-IsSpent (c ∷ rest) s id (l, ls) h = run-IsSpent rest (call c s) id ls (call-IsSpent c s id l h)

refused_of_IsSpent :
    (now : ℕ) (written : Bool) (id session action hash : String) (s : ApprovalStore)
    → IsSpent s id
    → (consume now written id session action hash s
        ≡ (err (plain_error "Approval has already been used."), s))
      × (get now id s ≡ ok none)
unfolding consume consume_found get
refused_of_IsSpent now written id session action hash s h = ground (arith, h)

-- Once an approval has been consumed, it stays so: after any further calls, none of which puts a
-- new approval under its name, every claim to it is refused with "Approval has already been used."
-- and changes nothing, and `get` does not return it.
pub consume_once :
    (now later : ℕ) (written written' : Bool)
    (id session action hash session' action' hash' : String) (s : ApprovalStore)
    (q : ApprovalRecord) (calls : List Call)
    → (consume now written id session action hash s).0 ≡ ok q
    → All (Leaves id) calls
    → let t = run calls (consume now written id session action hash s).1 in
      (consume later written' id session' action' hash' t
        ≡ (err (plain_error "Approval has already been used."), t))
      × (get later id t ≡ ok none)
consume_once now later written written' id session action hash session' action' hash' s q calls h
      l =
    refused_of_IsSpent later written' id session' action' hash' _
      (run-IsSpent calls _ id l (consume-IsSpent_self now written id session action hash s q h))
