-- ===== src/Fetch/Transports.antt =====
-- Which transports a fetch uses, and that its trace says so.
use agent_first_http.Prelude.{
  ◌≤◌, ◌<◌, ◌≡◌, ◌≢◌, refl, ap, ◌⊎◌, inl, inr, Text, Bool, true, false, Option, none, some, [], ◌∷◌,
  ltb, if◌then◌else◌, Bool-cases, Option-cases, arith,
}
use agent_first_http.Errors.{ErrorCode, new, invalid_argument, is_code, Result, ok, err}
use agent_first_http.Pages.Classification.{
  DocumentCopy, PageClassification, classify_http_body, looks_like_empty_html_shell,
}
use agent_first_http.Fetch.Execute.{
  RenderMode, none_, auto, always, Reason, challenge, empty_html_shell, requested_content_artifact,
  http_status, http_failed, FetchBuilder, FetchResult, HttpOnlyOutcome, over_http, over_browser,
  Stages, Run, RenderTrace, execute, execute_with_jar, execute_prepared, execute_mode, execute_auto,
  execute_http, execute_always, auto_resendable, auto_success, escalate, method_is_idempotent,
  reject_http_only_evaluate, result_of, then_result, decide_http,
}

-- What the HTTP attempt must have been for the browser to be used for a reason.
abbrev pub Justifies :
    (Text → DocumentCopy) → FetchBuilder → Result HttpOnlyOutcome → Reason → Type 0
Justifies copy b (err e) (http_failed code) = (code ≡ e.error_code) × (code ≢ invalid_argument)
Justifies copy b (ok o) (http_status status) = (status ≡ o.result.status) × (400 ≤ status)
Justifies copy b (ok o) (challenge code) =
    (o.result.status < 400)
    × (c : PageClassification) × (classify_http_body copy o.body o.content_type ≡ some c)
    × (code ≡ c.code)
Justifies copy b (ok o) empty_html_shell =
    (o.result.status < 400) × (looks_like_empty_html_shell o.body o.content_type ≡ true)
Justifies copy b (ok o) requested_content_artifact =
    (o.result.status < 400) × (b.wants_content ≡ true)
Justifies copy b _ _ = ⊥

abbrev pub is_error : Result FetchResult → Bool
is_error (ok _) = false
is_error (err _) = true

-- The four ways in which a fetch can have used its transports, each with what its trace says; the
-- HTTP attempt, if it was made, came to `http`.
pub data Account (copy : Text → DocumentCopy) (b : FetchBuilder) (st : Stages)
    (http : Result HttpOnlyOutcome) (r : Run) : Type 0 where
  nothing_sent :
      r.sent ≡ []
      → is_error r.result ≡ true
      → r.trace.render_used ≡ false
      → r.trace.escalation_reason ≡ none
      → Account copy b st http r
  http_alone :
      b.render ≢ always
      → r.sent ≡ over_http ∷ []
      → (r.result ≡ result_of http) ⊎ (r.result ≡ err (new invalid_argument))
      → r.trace.render_used ≡ false
      → r.trace.escalation_reason ≡ none
      → Account copy b st http r
  browser_alone :
      b.render ≡ always
      → r.sent ≡ over_browser none ∷ []
      → r.result ≡ st.browser_path none
      → r.trace.render_used ≡ true
      → r.trace.escalation_reason ≡ none
      → Account copy b st http r
  http_then_browser :
      (why : Reason)
      → b.render ≡ auto
      → method_is_idempotent b ≡ true
      → Justifies copy b http why
      → r.sent ≡ over_http ∷ over_browser (some why) ∷ []
      → r.result ≡ st.browser_path (some why)
      → r.trace.render_used ≡ true
      → r.trace.escalation_reason ≡ some why
      → Account copy b st http r

not_is_code : (a b : ErrorCode) → is_code a b ≡ false → a ≢ b
unfolding is_code
not_is_code a b h e = ground arith

-- A trace that says that HTTP was chosen.
abbrev IsPlain : RenderTrace → Type 0
IsPlain t = (t.render_used ≡ false) × (t.escalation_reason ≡ none)

module _ (copy : Text → DocumentCopy) (b : FetchBuilder) (st : Stages) where
  -- The run of `execute_http` and of the arm that cannot escalate, in either mode.
  http_only-Account :
      (evaluates : Bool) (http : Result HttpOnlyOutcome) (t : RenderTrace)
      → b.render ≢ always
      → st.http ≡ http
      → IsPlain t
      → Account copy b st http (execute_http st evaluates t)
  unfolding execute_http reject_http_only_evaluate
  http_only-Account true http t mode e plain = nothing_sent refl refl refl plain.1
  http_only-Account false http t mode e plain =
      http_alone mode refl (inl (ap (λ (h : Result HttpOnlyOutcome). result_of h) e)) refl plain.1

  module _ (mode : b.render ≡ auto) where
    not_always : b.render ≢ always
    not_always = ground arith

    module _ (safe : method_is_idempotent b ≡ true) where
      escalate-Account :
          (http : Result HttpOnlyOutcome) (why : Reason) (t : RenderTrace)
          → Justifies copy b http why
          → Account copy b st http (escalate st why t (over_http ∷ []))
      unfolding escalate
      escalate-Account http why t j = http_then_browser why mode safe j refl refl refl refl

      last_check :
          (evaluates : Bool) (o : HttpOnlyOutcome) (t : RenderTrace)
          → IsPlain t
          → Account copy b st (ok o) (record {
            result = then_result (reject_http_only_evaluate evaluates) o.result;
            trace = t;
            sent = over_http ∷ [];
          })
      unfolding reject_http_only_evaluate
      last_check true o t plain = http_alone not_always refl (inr refl) plain.0 plain.1
      last_check false o t plain = http_alone not_always refl (inl refl) plain.0 plain.1

      -- The last two branches, by what `wants_content` is.
      wanted :
          (want evaluates : Bool) (o : HttpOnlyOutcome) (t : RenderTrace)
          → b.wants_content ≡ want
          → IsPlain t
          → o.result.status < 400
          → Account copy b st (ok o) (
              if want then escalate st requested_content_artifact t (over_http ∷ []) else record {
                result = then_result (reject_http_only_evaluate evaluates) o.result;
                trace = t;
                sent = over_http ∷ [];
              })
      wanted true evaluates o t w plain fine =
          escalate-Account (ok o) requested_content_artifact t (fine, w)
      wanted false evaluates o t w plain fine = last_check evaluates o t plain

      unclassified :
          (evaluates : Bool) (o : HttpOnlyOutcome) (t : RenderTrace)
          → IsPlain t
          → o.result.status < 400
          → classify_http_body copy o.body o.content_type ≡ none
          → Account copy b st (ok o) (auto_success copy b st evaluates o t)
      unfolding auto_success
      unclassified evaluates o t plain fine n =
          rw (n, auto_success)
            (elim (Bool-cases (looks_like_empty_html_shell o.body o.content_type)) [
              | inl e ↦ rw e (escalate-Account (ok o) empty_html_shell t (fine, e))
              | inr e ↦ rw e (wanted b.wants_content evaluates o t refl plain fine)
            ])

      success-Account :
          (evaluates : Bool) (o : HttpOnlyOutcome) (t : RenderTrace)
          → IsPlain t
          → o.result.status < 400
          → Account copy b st (ok o) (auto_success copy b st evaluates o t)
      unfolding auto_success
      success-Account evaluates o t plain fine =
          elim (Option-cases (classify_http_body copy o.body o.content_type)) [
            | inl n ↦ unclassified evaluates o t plain fine n
            | inr (c, e) ↦
                rw (e, auto_success)
                  (escalate-Account (ok o) (challenge c.code) t (fine, c, e, refl))
          ]

      resendable-Account :
          (evaluates : Bool) (http : Result HttpOnlyOutcome) (t : RenderTrace)
          → IsPlain t
          → Account copy b st http (auto_resendable copy b st evaluates http t)
      unfolding auto_resendable
      resendable-Account evaluates (ok o) t plain = elim (Bool-cases (ltb o.result.status 400)) [
        | inl e ↦ rw e (success-Account evaluates o t plain (ground arith))
        | inr e ↦
            rw e (escalate-Account (ok o) (http_status o.result.status) t (refl, ground arith))
      ]
      resendable-Account evaluates (err e) t plain =
          elim (Bool-cases (is_code e.error_code invalid_argument)) [
            | inl c ↦ rw c (http_alone not_always refl (inl refl) plain.0 plain.1)
            | inr c ↦ rw c (
                escalate-Account (err e) (http_failed e.error_code) t
                  (refl, not_is_code e.error_code invalid_argument c))
          ]

    auto-Account :
        (evaluates : Bool) (t : RenderTrace)
        → IsPlain t
        → Account copy b st st.http (execute_auto copy b st evaluates t)
    unfolding execute_auto execute_http reject_http_only_evaluate
    auto-Account evaluates t plain = elim (Bool-cases (method_is_idempotent b)) [
      | inl safe ↦
          rw safe (resendable-Account safe evaluates st.http (decide_http t) (refl, plain.1))
      | inr unsafe ↦ rw unsafe (http_only-Account evaluates st.http t not_always refl plain)
    ]

  mode-Account :
      (mode : RenderMode) (evaluates : Bool) (t : RenderTrace)
      → b.render ≡ mode
      → IsPlain t
      → Account copy b st st.http (execute_mode copy mode b st evaluates t)
  unfolding execute_mode execute_always
  mode-Account none_ evaluates t e plain =
      http_only-Account evaluates st.http t (ground arith) refl plain
  mode-Account auto evaluates t e plain = auto-Account e evaluates t plain
  mode-Account always evaluates t e plain = browser_alone e refl refl refl plain.1

  prepared-Account :
      (prepared : Result Bool) (t : RenderTrace)
      → IsPlain t
      → Account copy b st st.http (execute_prepared copy b st prepared t)
  unfolding execute_prepared
  prepared-Account (err e) t plain = nothing_sent refl refl plain.0 plain.1
  prepared-Account (ok evaluates) t plain = mode-Account b.render evaluates t refl plain

  jar-Account :
      (jar : Result (Option Text × Option Text))
      → Account copy b st st.http (execute_with_jar copy b st jar)
  unfolding execute_with_jar
  jar-Account (err e) = nothing_sent refl refl refl refl
  jar-Account (ok (path, warning)) = prepared-Account st.prepared _ (refl, refl)

-- A fetch sends nothing and fails; or sends over HTTP alone, in no mode but `none` and `auto`, and
-- returns that result or refuses the script; or uses the browser alone, in mode `always`; or, in mode
-- `auto` with an idempotent method, uses the browser after HTTP for a reason that the HTTP attempt
-- justifies. `render_used` and `escalation_reason` of the trace say which.
pub execute-Account :
    (copy : Text → DocumentCopy) (b : FetchBuilder) (st : Stages)
    → Account copy b st st.http (execute copy b st)
unfolding execute
execute-Account copy b st = jar-Account copy b st st.cookie_jar
