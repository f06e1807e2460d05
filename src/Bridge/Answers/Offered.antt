-- ===== src/Bridge/Answers/Offered.antt =====
-- What an approval may grant (service.py).
use mathlib.Core.Option.{some-injective}
use server_fs_mcp.Bridge.Errors
use server_fs_mcp.Bridge.Errors.{ok, ok-injective, >>=-eq-ok, Result, pure, raise}
use mathlib.Core.List.{Mem}
use server_fs_mcp.Prelude.{
  String, false, Option, List, none, some, [], ◌∷◌, ◌≡◌, ◌⊎◌, ◌==◌, refl, Bool-cases, Option-cases,
  inl, inr, subst, any, not, ◌&&◌, Bool, ap, if◌then◌else◌, sym, ◌∙◌, true, eq_iff,
}
use server_fs_mcp.Bridge.Answers.{
  InteractionPayload, Resolution, chosen_option, cancelled_by_client, decided, ApprovalDecision,
  decision_value, has, check_approval, is_nonempty, decide, decision_of, decide_text, decide_native,
  choose_option, or_no_permissions, approve_once, approve_session, deny, cancel_task,
}
use server_fs_mcp.Bridge.Answers.Exact.{has-Mem, offered_iff}
use server_fs_mcp.Bridge.Answers.Respond.{open_request, settle}
use server_fs_mcp.Bridge.Answers.Cancel.{respond_approval, cancel_where}
use server_fs_mcp.Bridge.Answers.Desk.{AnswerHost, Desk, Responded, is_cancel, lift}
use server_fs_mcp.Bridge.Store.Tables.{PendingRequest, Timestamp, of_request, pending}
use server_fs_mcp.Sql.{select_one}
use server_fs_mcp.Bridge.Answers.Settled.{requests_of, IsResolved, settle-IsResolved}
use server_fs_mcp.Bridge.Answers.Opened.{open_request-IsOpened}
use server_fs_mcp.Bridge.Recovery.{approval_resolved}

-- an approval by option: one of those that the request offers and nothing else, or the cancellation of
-- the task and nothing else
abbrev pub ChoosesOption :
    List String → Option String → Option String → Option (List String) → Resolution → Type 0
ChoosesOption options decision option_id granted r =
    (granted ≡ none)
    × (((o : String) × (option_id ≡ some o)
          × (decision ≡ none)
          × Mem o options
          × (r ≡ chosen_option o))
        ⊎ ((option_id ≡ none) × (decision ≡ some "cancel_task") × (r ≡ cancelled_by_client)))

-- an approval by decision: one that is known, that the request lists, if it lists any, and with
-- permissions that it asks for only
abbrev pub Decides :
    InteractionPayload → Option String → Option String → Option (List String) → Resolution → Type 0
Decides payload decision option_id granted r =
    (option_id ≡ none)
    × ((d : ApprovalDecision) × (decision ≡ some (decision_value d))
        × ((payload.available_decisions ≡ []) ⊎ Mem (decision_value d) payload.available_decisions)
        × ((id : String)
            → Mem id (or_no_permissions granted)
            → Mem id payload.requested_permissions)
        × (r ≡ decided d (or_no_permissions granted)))

-- what an approval asks for is what the request offers, and the resolution is that
abbrev pub IsOffered :
    InteractionPayload → Option String → Option String → Option (List String) → Resolution → Type 0
IsOffered payload decision option_id granted r =
    ((options : List String) × (payload.response_options ≡ some options)
      × ChoosesOption options decision option_id granted r)
    ⊎ ((payload.response_options ≡ none) × Decides payload decision option_id granted r)

available :
    (d : String) (ds : List String)
    → (is_nonempty ds && not (has d ds)) ≡ false
    → (ds ≡ []) ⊎ Mem d ds
available d [] h = inl refl
available d (x ∷ xs) h = elim (Bool-cases (has d (x ∷ xs))) [
  | inl e ↦ inr ((has-Mem d (x ∷ xs)).0 e)
  | inr e ↦ cc (rw e at h)
]

decide-Decides :
    (payload : InteractionPayload) (granted : Option (List String)) (d : ApprovalDecision)
    (r : Resolution)
    → decide payload (or_no_permissions granted) d ≡ ok r
    → Decides payload (some (decision_value d)) none granted r
decide-Decides payload granted d r h =
    let ids = or_no_permissions granted in
    elim (Bool-cases (
      is_nonempty payload.available_decisions
      && not (has (decision_value d) payload.available_decisions))) [
        | inl e ↦ cc (rw e at h)
        | inr e ↦ elim (Bool-cases (any (λ p. not (has p payload.requested_permissions)) ids)) [
          | inl f ↦ cc (rw (e, f) at h)
          | inr f ↦ (
            refl,
            (
              d,
              refl,
              available (decision_value d) payload.available_decisions e,
              (offered_iff ids payload.requested_permissions).0 f,
              sym (ok-injective (decided d ids) r (rw (e, f) at h)),
            ),
          )
        ]
      ]

choose_option-ChoosesOption :
    (options : List String) (decision option_id : Option String) (granted : Option (List String))
    (r : Resolution)
    → choose_option options decision option_id granted ≡ ok r
    → ChoosesOption options decision option_id granted r
choose_option-ChoosesOption options decision option_id (some g) r h = cc h
choose_option-ChoosesOption options none none none r h = cc h
choose_option-ChoosesOption options (some d) (some o) none r h = cc h
choose_option-ChoosesOption options none (some o) none r h = elim (Bool-cases (has o options)) [
  | inr e ↦ cc (rw e at h)
  | inl e ↦ (
    refl,
    inl (
      o,
      refl,
      refl,
      (has-Mem o options).0 e,
      sym (ok-injective (chosen_option o) r (rw e at h)),
    ),
  )
]
choose_option-ChoosesOption options (some d) none none r h =
    elim (Bool-cases (d == "cancel_task")) [
      | inr e ↦ cc (rw e at h)
      | inl e ↦ (
        refl,
        inr (
          refl,
          ap some ((eq_iff d "cancel_task").0 e),
          sym (ok-injective cancelled_by_client r (rw e at h)),
        ),
      )
    ]

-- a decision is read from its own text
decision_of-value :
    (text : String) (d : ApprovalDecision) → decision_of text ≡ some d → text ≡ decision_value d
decision_of-value text d h = elim (Bool-cases (text == "approve_once")) [
  | inl e ↦
      let k : some approve_once ≡ some d = rw e at h in
      (eq_iff text "approve_once").0 e ∙ ap decision_value (some-injective approve_once d k)
  | inr e ↦ elim (Bool-cases (text == "approve_session")) [
    | inl f ↦
        let k : some approve_session ≡ some d = rw (e, f) at h in
        (eq_iff text "approve_session").0 f ∙ ap decision_value (some-injective approve_session d k)
    | inr f ↦ elim (Bool-cases (text == "deny")) [
      | inl g ↦
          let k : some deny ≡ some d = rw (e, f, g) at h in
          (eq_iff text "deny").0 g ∙ ap decision_value (some-injective deny d k)
      | inr g ↦ elim (Bool-cases (text == "cancel_task")) [
        | inl i ↦
            let k : some cancel_task ≡ some d = rw (e, f, g, i) at h in
            (eq_iff text "cancel_task").0 i ∙ ap decision_value (some-injective cancel_task d k)
        | inr i ↦ cc (rw (e, f, g, i) at h)
      ]
    ]
  ]
]

decide_native-Decides :
    (payload : InteractionPayload) (decision option_id : Option String)
    (granted : Option (List String)) (r : Resolution)
    → decide_native payload decision option_id granted ≡ ok r
    → Decides payload decision option_id granted r
decide_native-Decides payload decision (some o) granted r h = cc h
decide_native-Decides payload none none granted r h = cc h
decide_native-Decides payload (some text) none granted r h =
    elim (Option-cases (decision_of text)) [
      | inl e ↦ cc (subst (λ o. decide_text payload (or_no_permissions granted) o ≡ ok r) e h)
      | inr (d, e) ↦
          subst (λ (t : String). Decides payload (some t) none granted r)
            (sym (decision_of-value text d e))
            (decide-Decides payload granted d r
              (subst (λ o. decide_text payload (or_no_permissions granted) o ≡ ok r) e h))
    ]

check_approval-IsOffered :
    (payload : InteractionPayload) (decision option_id : Option String)
    (granted : Option (List String)) (r : Resolution)
    → check_approval payload decision option_id granted ≡ ok r
    → IsOffered payload decision option_id granted r
unfolding check_approval
check_approval-IsOffered payload decision option_id granted r h =
    elim (Option-cases payload.response_options) [
      | inl e ↦ inr (
        e,
        decide_native-Decides payload decision option_id granted r (rw (e, check_approval) at h),
      )
      | inr (options, e) ↦ inl (
        options,
        e,
        choose_option-ChoosesOption options decision option_id granted r
            (rw (e, check_approval) at h),
      )
    ]

-- an approval was accepted
pub record IsGranted (host : AnswerHost) (request_id : String) (decision option_id : Option String)
    (granted : Option (List String)) (before after : Desk) : Type 0 where
  pub row : PendingRequest
  pub asked : select_one (of_request request_id) (requests_of before) ≡ some row
  pub open_until_now : row.status ≡ pending
  pub resolution : Resolution
  pub offered : IsOffered (host.read_payload row.payload) decision option_id granted resolution
  pub kept :
      is_cancel resolution ≡ false
      → (text : String) × (host.encode_resolution resolution ≡ some text)
        × IsResolved request_id text after

module _ (host : AnswerHost) (meanwhile : Desk → Desk) where
  not_cancelled :
      (cancels : Bool) (id : String) (now cutoff : Timestamp) (d after : Desk) (u : Unit {0})
      → cancels ≡ false
      → cancel_where host meanwhile cancels id now cutoff d ≡ (ok u, after)
      → d ≡ after
  unfolding cancel_where
  not_cancelled true id now cutoff d after u stays h = cc stays
  not_cancelled false id now cutoff d after u stays h = ap (λ (m : Result (Unit {0}) × Desk). m.1) h

  -- An approval that `respond_approval` accepts was for a request that was pending, and asks for what
  -- the request offers: where the request has options, one of them and nothing else, or the cancellation
  -- of the task; or else a known decision that the request lists, if it lists any, with permissions that
  -- it asks for only. Unless the resolution that this makes cancels the task, the request is resolved
  -- with the text of that resolution.
  pub respond_approval-IsGranted :
      (id request_id : String) (decision option_id : Option String) (granted : Option (List String))
      (now cutoff : Timestamp) (d after : Desk) (response : Responded)
      → respond_approval host meanwhile id request_id decision option_id granted now cutoff d
        ≡ (ok response, after)
      → IsGranted host request_id decision option_id granted d after
  unfolding respond_approval
  respond_approval-IsGranted id request_id decision option_id granted now cutoff d after response
        h =
      let (opened, d1, e1, h1) =
        >>=-eq-ok (open_request host meanwhile id request_id now) _ d after response h in
      let o = open_request-IsOpened host meanwhile id request_id now d d1 opened e1 in
      let (u, d2, e2, h2) =
        >>=-eq-ok
          (if opened.0.kind == "approval" then pure tt else raise Errors.invalid_approval_decision)
          _ d1 after response h1 in
      let (r, d3, e3, h3) =
        >>=-eq-ok
          (lift (check_approval (host.read_payload opened.0.payload) decision option_id granted)) _
          d2 after response h2 in
      let (v, d4, e4, h4) =
        >>=-eq-ok (settle host meanwhile id request_id r (approval_resolved option_id decision) now)
          _ d3 after response h3 in
      let (w, d5, e5, h5) =
        >>=-eq-ok (cancel_where host meanwhile (is_cancel r) id now cutoff) _ d4 after response
          h4 in
      let last : d5 ≡ after = ap (λ (m : Result Responded × Desk). m.1) h5 in
      let (text, encoded, is_resolved) =
        settle-IsResolved host meanwhile id request_id r (approval_resolved option_id decision) now
          d3 d4 v e4 in
      record {
        row = o.row;
        asked = o.found;
        open_until_now = ap PendingRequest.status (sym o.read) ∙ o.waiting;
        resolution = r;
        offered =
            subst
              (λ (p : PendingRequest).
                IsOffered (host.read_payload p.payload) decision option_id granted r)
              o.read
              (check_approval-IsOffered (host.read_payload opened.0.payload) decision option_id
                granted r (ap (λ (m : Result Resolution × Desk). m.0) e3));
        kept = λ goes_on. (
          text,
          encoded,
          subst (IsResolved request_id text)
              (not_cancelled (is_cancel r) id now cutoff d4 d5 w goes_on e5 ∙ last) is_resolved,
        );
      }
