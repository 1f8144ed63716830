-- ===== src/Bridge/CallTool/Auditing.antt =====
-- The audit records of an attempt of `handle_call_tool`, in sentinelmcp/gateway/bridge.py.
use sentinel_mcp.Prelude.{
  ◌≡◌, ◌≢◌, ◌↔◌, refl, arith, ◌∙◌, Bool, true, false, Option, none, some, List, [], ◌∷◌, ◌++◌,
  String,
}
use mathlib.Core.Path.{subst}
use sentinel_mcp.Json.{Fields}
use sentinel_mcp.Exec.{Exn, cancelled_error, timeout_error, error, Outcome, ok, raised}
use sentinel_mcp.Limits.Concurrency
use sentinel_mcp.Policy.Engine.{Violation, message}
use sentinel_mcp.Audit.Record.{
  AuditOutcome, rate_limited, policy_denied, schema_rejected, concurrency_rejected,
  upstream_success, upstream_error, upstream_timeout, cancelled, internal_error, Category,
}
use sentinel_mcp.Bridge.Results.{
  CallToolResult, denied_result, schema_invalid_result, policy_invalid_result, rate_limited_result,
  concurrency_rejected_result, upstream_timeout_result, upstream_error_result, finalize,
}
use sentinel_mcp.Bridge.State.{Gateway, Runtime, Config, Surroundings, Locals, Turn}
use sentinel_mcp.Bridge.Cache.Laws.{log-get}
use sentinel_mcp.Bridge.Turns.{initial, outcome_of, within}
use sentinel_mcp.Bridge.CallTool.{
  audit_record, line_of, reject, conclude, recover, pipeline, attempt,
}
use sentinel_mcp.Bridge.CallTool.Exits
use sentinel_mcp.Bridge.CallTool.Forwarding
use sentinel_mcp.Bridge.CallTool.Exits.Reached.{pipeline-Exit}

module _ (rt : Runtime) (config : Config) (s : Surroundings) (principal tool_name : String)
    (arguments : Fields) where
  -- What the upstream gives for the call, within the timeout.
  abbrev pub heard : Outcome CallToolResult
  heard = within config.upstream_call_timeout (s.called tool_name arguments)

  -- What the caller gets, beside the outcome and the category that are recorded and whether the record
  -- says that the upstream was attempted. Where it was, what it gave decides.
  pub data Story : AuditOutcome → Option Category → Bool → Outcome CallToolResult → Type 0 where
    limited :
        Story rate_limited none false
          (ok (finalize s.correlation_id (rate_limited_result tool_name)))
    denied :
        Story policy_denied none false (ok (finalize s.correlation_id (denied_result tool_name)))
    bad_schema :
        (reason : String)
        → Story schema_rejected none false
            (ok (finalize s.correlation_id (schema_invalid_result tool_name reason)))
    bad_arguments :
        (violation : Violation)
        → Story policy_denied none false (
            ok (
              finalize s.correlation_id
                (policy_invalid_result tool_name (message rt.repr violation))))
    busy :
        Story concurrency_rejected none false
          (ok (finalize s.correlation_id (concurrency_rejected_result tool_name)))
    succeeded :
        (result : CallToolResult)
        → heard ≡ ok result
        → Story upstream_success
            (some Category.success)
            true
            (ok (finalize s.correlation_id result))
    timed_out :
        heard ≡ raised timeout_error
        → Story upstream_timeout
            (some Category.timeout)
            true
            (ok (finalize s.correlation_id (upstream_timeout_result tool_name)))
    errored :
        (reason : String)
        → heard ≡ raised (error reason)
        → Story upstream_error
            (some Category.error)
            true
            (ok (finalize s.correlation_id (upstream_error_result tool_name reason)))
    cancelled_upstream :
        heard ≡ raised cancelled_error
        → Story cancelled (some Category.stopped) true (raised cancelled_error)
    cancelled_before : Story cancelled none false (raised cancelled_error)
    gave_up : (e : Exn) → e ≢ cancelled_error → Story internal_error none false (raised e)

  raised-Story : (e : Exn) → Story (outcome_of e) none false (raised e)
  raised-Story cancelled_error = cancelled_before
  raised-Story timeout_error = gave_up timeout_error (λ h. ground arith)
  raised-Story (error reason) = gave_up (error reason) (λ h. ground arith)

  abbrev line : AuditOutcome → Bool → Option Category → Locals → String
  line out att cat l =
      line_of rt config s principal tool_name arguments
        (audit_record rt config s principal tool_name arguments out att cat l)

  -- One line more than `before`, whose record tells what the caller gets, and says `attempted` of the upstream.
  pub record Told (before after : List String) (o : Outcome CallToolResult) (attempted : Bool)
      : Type 0 where
    pub outcome : AuditOutcome
    pub category : Option Category
    pub locals : Locals
    pub story : Story outcome category attempted o
    pub appended :
        after
        ≡ before
          ++ line_of rt config s principal tool_name arguments (
              audit_record rt config s principal tool_name arguments outcome attempted category
                locals)
            ∷ []

  abbrev pub recovered : Outcome CallToolResult × Turn → Outcome CallToolResult × Turn
  recovered (o, t) = recover rt config s principal tool_name arguments o t

  abbrev TellsOf : Bool → List String → Outcome CallToolResult × Turn → Type 0
  TellsOf attempted before r = Told before r.1.gateway.log r.0 attempted

  reject-Told :
      (out : AuditOutcome) (result : CallToolResult) (t : Turn)
      → t.locals.disk ≡ []
      → Story out none false (ok (finalize s.correlation_id result))
      → TellsOf false t.gateway.log
          (recovered (reject rt config s principal tool_name arguments out result t))
  unfolding reject recover
  reject-Told out result t fine story = record {
    outcome = out;
    category = none;
    locals = t.locals;
    story = rw fine story;
    appended = rw fine refl;
  }

  raise-Told :
      (e : Exn) (t : Turn)
      → t.locals.disk ≡ []
      → t.locals.audit_emitted ≡ false
      → TellsOf false t.gateway.log (recovered (raised e, t))
  unfolding recover
  raise-Told e t fine quiet = record {
    outcome = outcome_of e;
    category = none;
    locals = t.locals;
    story = rw (quiet, fine) (raised-Story e);
    appended = rw (quiet, fine) refl;
  }

  abbrev pub released : Turn → Turn
  released t = record t {
    gateway = record t.gateway {
      concurrency_limiter = Concurrency.release t.gateway.concurrency_limiter principal;
    };
  }

  abbrev pub concluded : Outcome CallToolResult → Turn → Outcome CallToolResult × Turn
  concluded o t =
      let (r, t') = conclude rt config s principal tool_name arguments o t in (r, released t')

  conclude-Told :
      (o : Outcome CallToolResult) (t : Turn)
      → t.locals.disk ≡ []
      → heard ≡ o
      → TellsOf true t.gateway.log (recovered (concluded o t))
  unfolding conclude recover
  conclude-Told (ok result) t fine same = record {
    outcome = upstream_success;
    category = some Category.success;
    locals = t.locals;
    story = rw fine (succeeded result same);
    appended = rw fine refl;
  }
  conclude-Told (raised timeout_error) t fine same = record {
    outcome = upstream_timeout;
    category = some Category.timeout;
    locals = t.locals;
    story = rw fine (timed_out same);
    appended = rw fine refl;
  }
  conclude-Told (raised cancelled_error) t fine same = record {
    outcome = cancelled;
    category = some Category.stopped;
    locals = t.locals;
    story = rw fine (cancelled_upstream same);
    appended = rw fine refl;
  }
  conclude-Told (raised (error reason)) t fine same = record {
    outcome = upstream_error;
    category = some Category.error;
    locals = t.locals;
    story = rw fine (errored reason same);
    appended = rw fine refl;
  }

  module _ (g : Gateway) where
    abbrev pub Crash : Exn → Gateway → Locals → Type 0
    Crash = Exits.Crash rt config s principal tool_name arguments g

    abbrev pub Rejection : AuditOutcome → CallToolResult → Gateway → Locals → Type 0
    Rejection = Exits.Rejection rt config s principal tool_name arguments g

    abbrev limited_gateway : Gateway
    limited_gateway = Exits.limited_gateway rt config s principal tool_name arguments g

    -- Up to the first audit write: no line yet, and no write used up.
    abbrev pub IsQuiet : Gateway → Locals → Type 0
    IsQuiet gx l = (gx.log ≡ g.log) × (l.disk ≡ s.disk) × (l.audit_emitted ≡ false)

    pub listing-log : (Exits.listing rt config s principal tool_name arguments g).1.log ≡ g.log
    listing-log = log-get s.lock_wait s.listed limited_gateway

    pub Crash-IsQuiet : {e : Exn} {gx : Gateway} {l : Locals} → Crash e gx l → IsQuiet gx l
    Crash-IsQuiet (Exits.limiter_failed broken) = (refl, refl, refl)
    Crash-IsQuiet (Exits.listing_failed rule granted resolved broken) = (listing-log, refl, refl)

    pub Rejection-IsQuiet :
        {out : AuditOutcome} {result : CallToolResult} {gx : Gateway} {l : Locals}
        → Rejection out result gx l
        → IsQuiet gx l
    Rejection-IsQuiet (Exits.limited e) = (refl, refl, refl)
    Rejection-IsQuiet (Exits.no_rule granted e) = (refl, refl, refl)
    Rejection-IsQuiet (Exits.no_tool rule tools listed e) = (listing-log, refl, refl)
    Rejection-IsQuiet (Exits.bad_schema rule tools tool reason listed found e) =
        (listing-log, refl, refl)
    Rejection-IsQuiet (Exits.bad_arguments rule violation sch e) = (listing-log, refl, refl)
    Rejection-IsQuiet (Exits.busy rule sch sat full) = (listing-log, refl, refl)

    Rejection-Story :
        {out : AuditOutcome} {result : CallToolResult} {gx : Gateway} {l : Locals}
        → Rejection out result gx l
        → Story out none false (ok (finalize s.correlation_id result))
    Rejection-Story (Exits.limited e) = limited
    Rejection-Story (Exits.no_rule granted e) = denied
    Rejection-Story (Exits.no_tool rule tools listed e) = denied
    Rejection-Story (Exits.bad_schema rule tools tool reason listed found e) = bad_schema reason
    Rejection-Story (Exits.bad_arguments rule violation sch e) = bad_arguments violation
    Rejection-Story (Exits.busy rule sch sat full) = busy

    abbrev answer : Outcome CallToolResult
    answer = Exits.answer rt config s principal tool_name arguments g

    abbrev answered : Turn
    answered = Exits.answered_turn rt config s principal tool_name arguments g

    abbrev piped : Outcome CallToolResult × Turn
    piped =
        pipeline rt config s principal tool_name arguments
          (record { gateway = g; locals = initial s })

    abbrev IsPermitted : Type 0
    IsPermitted = Forwarding.Permitted rt config s principal tool_name arguments g

    abbrev ToldOf : Outcome CallToolResult × Turn → Type 0
    ToldOf r = (attempted : Bool) × ((attempted ≡ true) ↔ IsPermitted) × TellsOf attempted g.log r

    -- A record without an attempt, where the exit rules out that every check passed.
    not_attempted :
        ¬ Exits.Cleared rt config s principal tool_name arguments g → (false ≡ true) ↔ IsPermitted
    not_attempted missed = (
      (λ e. cc e),
      λ m.
          absurd
            (missed (Forwarding.Permitted-Cleared rt config s principal tool_name arguments g m)),
    )

    piped-Told : s.disk ≡ [] → ToldOf (recovered piped)
    piped-Told fine = elim (pipeline-Exit rt config s principal tool_name arguments g) [
      | Exits.crashed e gx l crash same ↦
          let (log, disk, quiet) = Crash-IsQuiet crash in
          (
            false,
            not_attempted
                (Forwarding.Crash-Cleared rt config s principal tool_name arguments g crash),
            rw (same, ← log)
                (raise-Told e (record { gateway = gx; locals = l }) (disk ∙ fine) quiet),
          )
      | Exits.rejected out result gx l rejection same ↦
          let (log, disk, quiet) = Rejection-IsQuiet rejection in
          (
            false,
            not_attempted (
                Forwarding.Rejection-Cleared rt config s principal tool_name arguments g rejection),
            rw (same, ← log)
                (reject-Told out result (record { gateway = gx; locals = l }) (disk ∙ fine)
                  (Rejection-Story rejection)),
          )
      | Exits.executed c same ↦ (
        true,
        (
          (λ e. Forwarding.Cleared-Permitted rt config s principal tool_name arguments g c),
          λ m. refl,
        ),
        rw same (
            subst
              (λ (before : List String).
                TellsOf true before (recovered (concluded answer answered)))
              listing-log (conclude-Told answer answered fine refl)),
      )
    ]

    pub attempt-Told :
        s.disk ≡ []
        → (attempted : Bool) × ((attempted ≡ true)
            ↔ Forwarding.Permitted rt config s principal tool_name arguments g)
          × Told g.log
              (attempt rt config s principal tool_name arguments g).1.log
              (attempt rt config s principal tool_name arguments g).0
              attempted
    unfolding attempt
    attempt-Told fine = piped-Told fine
