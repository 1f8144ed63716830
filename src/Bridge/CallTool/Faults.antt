-- ===== src/Bridge/CallTool/Faults.antt =====
-- `handle_call_tool` of sentinelmcp/gateway/bridge.py where audit writes fail.
use sentinel_mcp.Prelude.{
  ℕ, ◌+◌, ◌≤◌, ◌≡◌, ◌≢◌, refl, ap, ◌∙◌, Bool, true, false, Option, none, some, List, [], ◌∷◌, ◌++◌,
  String, arith, length, length-append,
}
use sentinel_mcp.Json.{Fields}
use sentinel_mcp.Exec.{◌>>◌, Exn, cancelled_error, timeout_error, error, Outcome, ok, raised}
use sentinel_mcp.Audit.Record.{AuditOutcome, Category}
use sentinel_mcp.Bridge.Results.{CallToolResult}
use sentinel_mcp.Bridge.State.{
  Tool, Gateway, Runtime, Config, Surroundings, Fate, written, lost, written_but, Locals, Turn,
}
use sentinel_mcp.Limits.RateLimiter
use sentinel_mcp.Limits.Concurrency
use sentinel_mcp.Limits.Concurrency.{ConcurrencyLimiter}
use sentinel_mcp.Bridge.Turns.{initial, write}
use sentinel_mcp.Bridge.CallTool.{emit, reject, conclude, recover, pipeline, attempt}
use sentinel_mcp.Bridge.CallTool.Exits
use sentinel_mcp.Bridge.CallTool.Exits.Reached.{pipeline-Exit}
use sentinel_mcp.Bridge.CallTool.Auditing

-- How many lines `n` writes in a row leave, and the number of lines of a turn.
abbrev lines : Turn → ℕ
lines t = length t.gateway.log

-- What one write adds, whatever its fate.
abbrev added : List Fate → ℕ
added [] = 1
added (written ∷ rest) = 1
added (lost e ∷ rest) = 0
added (written_but e ∷ rest) = 1

-- What an attempt's writes add, if it ends with a first write whose success ends it.
abbrev added_in_all : List Fate → ℕ
added_in_all [] = 1
added_in_all (written ∷ rest) = 1
added_in_all (lost e ∷ rest) = added rest
added_in_all (written_but e ∷ rest) = 1 + added rest

added_le : (disk : List Fate) → added disk ≤ 1
added_le [] = omega arith
added_le (written ∷ rest) = omega arith
added_le (lost e ∷ rest) = omega arith
added_le (written_but e ∷ rest) = omega arith

added_in_all_le :
    (disk : List Fate)
    → ((e : Exn) (rest : List Fate) → disk ≢ written_but e ∷ rest)
    → added_in_all disk ≤ 1
added_in_all_le [] whole = omega arith
added_in_all_le (written ∷ rest) whole = omega arith
added_in_all_le (lost e ∷ rest) whole = added_le rest
added_in_all_le (written_but e ∷ rest) whole = absurd (whole e rest refl)

lines-append : (log : List String) (line : String) → length (log ++ line ∷ []) ≡ length log + 1
lines-append log line = omega (arith, length-append log (line ∷ []))

lines-write : (line : String) (t : Turn) → lines (write line t).1 ≡ lines t + added t.locals.disk
unfolding write
lines-write line t = ground (arith, lines-append t.gateway.log line)

lines-append_two :
    (log : List String) (a b : String) → length ((log ++ a ∷ []) ++ b ∷ []) ≡ length log + 2
lines-append_two log a b = omega (arith, lines-append (log ++ a ∷ []) b, lines-append log a)

-- A turn before its first audit write.
abbrev quiet : Gateway → Locals → List Fate → Turn
quiet gx l disk = record { gateway = gx; locals = record l { disk = disk; audit_emitted = false } }

module _ (rt : Runtime) (config : Config) (s : Surroundings) (principal tool_name : String)
    (arguments : Fields) where
  abbrev recovered : Outcome CallToolResult × Turn → Outcome CallToolResult × Turn
  recovered = Auditing.recovered rt config s principal tool_name arguments

  abbrev concluded : Outcome CallToolResult → Turn → Outcome CallToolResult × Turn
  concluded = Auditing.concluded rt config s principal tool_name arguments

  lines-raise :
      (e : Exn) (gx : Gateway) (l : Locals) (disk : List Fate)
      → lines (recovered (raised e, quiet gx l disk)).1 ≡ lines (quiet gx l disk) + added disk
  unfolding recover
  lines-raise e gx l [] = lines-append gx.log _
  lines-raise e gx l (written ∷ rest) = lines-append gx.log _
  lines-raise e gx l (lost f ∷ rest) = omega arith
  lines-raise e gx l (written_but f ∷ rest) = lines-append gx.log _

  abbrev give_back : ConcurrencyLimiter → ConcurrencyLimiter
  give_back limiter = Concurrency.release limiter principal

  lines-recover :
      (o : Outcome CallToolResult) (t : Turn)
      → t.locals.audit_emitted ≡ true
      → lines (recovered (o, t)).1 ≡ lines t
  unfolding recover
  lines-recover (ok result) t h = refl
  lines-recover (raised e) t h = rw h refl

  -- A turn whose limiter is updated, as a release does.
  abbrev updated : (ConcurrencyLimiter → ConcurrencyLimiter) → Turn → Turn
  updated f t = record t {
    gateway = record t.gateway { concurrency_limiter = f t.gateway.concurrency_limiter };
  }

  -- An `emit`, what follows where it succeeds, and the end of the attempt.
  abbrev emit_then :
      (ConcurrencyLimiter → ConcurrencyLimiter)
      → AuditOutcome
      → Bool
      → Option Category
      → Outcome CallToolResult
      → Turn
      → Outcome CallToolResult × Turn
  emit_then f out att cat o t =
      let (r, t') = (emit rt config s principal tool_name arguments out att cat >> λ u. (o, u)) t in
      recovered (r, updated f t')

  lines-emit_then :
      (f : ConcurrencyLimiter → ConcurrencyLimiter) (out : AuditOutcome) (att : Bool)
      (cat : Option Category) (o : Outcome CallToolResult) (gx : Gateway) (l : Locals)
      (disk : List Fate)
      → lines (emit_then f out att cat o (quiet gx l disk)).1
        ≡ lines (quiet gx l disk) + added_in_all disk
  unfolding emit recover
  lines-emit_then f out att cat o gx l [] = lines-recover o _ refl ∙ lines-append gx.log _
  lines-emit_then f out att cat o gx l (written ∷ rest) =
      lines-recover o _ refl ∙ lines-append gx.log _
  lines-emit_then f out att cat o gx l (lost e ∷ []) = lines-append gx.log _
  lines-emit_then f out att cat o gx l (lost e ∷ written ∷ rest) = lines-append gx.log _
  lines-emit_then f out att cat o gx l (lost e ∷ lost e' ∷ rest) = omega arith
  lines-emit_then f out att cat o gx l (lost e ∷ written_but e' ∷ rest) = lines-append gx.log _
  lines-emit_then f out att cat o gx l (written_but e ∷ []) = lines-append_two gx.log _ _
  lines-emit_then f out att cat o gx l (written_but e ∷ written ∷ rest) =
      lines-append_two gx.log _ _
  lines-emit_then f out att cat o gx l (written_but e ∷ lost e' ∷ rest) = lines-append gx.log _
  lines-emit_then f out att cat o gx l (written_but e ∷ written_but e' ∷ rest) =
      lines-append_two gx.log _ _

  lines-reject :
      (out : AuditOutcome) (result : CallToolResult) (gx : Gateway) (l : Locals) (disk : List Fate)
      → lines
          (recovered
            (reject rt config s principal tool_name arguments out result (quiet gx l disk))).1
        ≡ lines (quiet gx l disk) + added_in_all disk
  unfolding reject
  lines-reject out result gx l disk = lines-emit_then (λ x. x) out false none _ gx l disk

  lines-conclude :
      (o : Outcome CallToolResult) (gx : Gateway) (l : Locals) (disk : List Fate)
      → lines (recovered (concluded o (quiet gx l disk))).1
        ≡ lines (quiet gx l disk) + added_in_all disk
  unfolding conclude
  lines-conclude (ok result) gx l disk =
      lines-emit_then give_back _ true (some Category.success) _ gx l disk
  lines-conclude (raised cancelled_error) gx l disk =
      lines-emit_then give_back _ true (some Category.stopped) _ gx l disk
  lines-conclude (raised timeout_error) gx l disk =
      lines-emit_then give_back _ true (some Category.timeout) _ gx l disk
  lines-conclude (raised (error reason)) gx l disk =
      lines-emit_then give_back _ true (some Category.error) _ gx l disk

  module _ (g : Gateway) where
    -- A quiet turn, from what is known of its parts.
    quiet_turn :
        (gx : Gateway) (l : Locals)
        → l.disk ≡ s.disk
        → l.audit_emitted ≡ false
        → quiet gx l s.disk ≡ record { gateway = gx; locals = l }
    quiet_turn gx l h k = cc (h, k)

    abbrev limiter_answer : Outcome Bool
    limiter_answer =
        (RateLimiter.try_acquire config.token g.rate_limiter principal s.created s.now).1

    abbrev listing : Outcome (List Tool) × Gateway
    listing = Exits.listing rt config s principal tool_name arguments g

    rejected-lines :
        (out : AuditOutcome) (result : CallToolResult) (gx : Gateway) (l : Locals)
        → Exits.Rejection rt config s principal tool_name arguments g out result gx l
        → lines
            (recovered (
              reject rt config s principal tool_name arguments out result
                (record { gateway = gx; locals = l }))).1
          ≡ length g.log + added_in_all s.disk
    rejected-lines out result gx l rejection =
        let (log, disk, silent) =
          Auditing.Rejection-IsQuiet rt config s principal tool_name arguments g rejection in
        rw (← quiet_turn gx l disk silent) (lines-reject out result gx l s.disk)
        ∙ ap (λ (x : List String). length x + added_in_all s.disk) log

    executed-lines :
        lines
          (recovered (
            concluded
              (Exits.answer rt config s principal tool_name arguments g)
              (Exits.answered_turn rt config s principal tool_name arguments g))).1
        ≡ length g.log + added_in_all s.disk
    executed-lines =
        let answered = Exits.answered_turn rt config s principal tool_name arguments g in
        lines-conclude _ answered.gateway answered.locals s.disk
        ∙ ap (λ (x : List String). length x + added_in_all s.disk)
            (Auditing.listing-log rt config s principal tool_name arguments g)

    -- The lines of an attempt are those of the exit of its pipeline, recovered from.
    attempt-lines :
        (r : Outcome CallToolResult × Turn)
        → pipeline rt config s principal tool_name arguments
            (record { gateway = g; locals = initial s })
          ≡ r
        → length (attempt rt config s principal tool_name arguments g).1.log ≡ lines (recovered r).1
    unfolding attempt
    attempt-lines r same = ap (λ (x : Outcome CallToolResult × Turn). lines (recovered x).1) same

    -- An attempt that gets as far as a verdict, by the number of lines that it writes.
    pub length-log-attempt :
        (granted : Bool) (tools : List Tool)
        → limiter_answer ≡ ok granted
        → listing.0 ≡ ok tools
        → length (attempt rt config s principal tool_name arguments g).1.log
          ≡ length g.log + added_in_all s.disk
    length-log-attempt granted tools answered had =
        elim (pipeline-Exit rt config s principal tool_name arguments g) [
          | Exits.crashed e gx l (Exits.limiter_failed broken) same ↦ cc (broken, answered)
          | Exits.crashed e gx l (Exits.listing_failed rule token resolved broken) same ↦
              cc (broken, had)
          | Exits.rejected out result gx l rejection same ↦
              attempt-lines _ same ∙ rejected-lines out result gx l rejection
          | Exits.executed c same ↦ attempt-lines _ same ∙ executed-lines
        ]

    -- If the first audit write puts its line in the file and raises all the same, as it does when the
    -- caller is cancelled while the thread writes, and the next one succeeds, then an attempt for which
    -- the limiter and the tool list gave answers writes two records.
    pub length-log_duplicated :
        (e : Exn) (granted : Bool) (tools : List Tool)
        → s.disk ≡ written_but e ∷ []
        → limiter_answer ≡ ok granted
        → listing.0 ≡ ok tools
        → length (attempt rt config s principal tool_name arguments g).1.log ≡ length g.log + 2
    length-log_duplicated e granted tools interrupted answered had =
        omega (arith, length-log-attempt granted tools answered had, ap added_in_all interrupted)

    crashed-lines :
        (e : Exn) (gx : Gateway) (l : Locals)
        → Exits.Crash rt config s principal tool_name arguments g e gx l
        → lines (recovered (raised e, record { gateway = gx; locals = l })).1
          ≡ length g.log + added s.disk
    crashed-lines e gx l crash =
        let (log, disk, silent) =
          Auditing.Crash-IsQuiet rt config s principal tool_name arguments g crash in
        rw (← quiet_turn gx l disk silent) (lines-raise e gx l s.disk)
        ∙ ap (λ (x : List String). length x + added s.disk) log

    -- With a first audit write that is not interrupted so, whatever else fails, an attempt writes at
    -- most one record.
    pub length-log-attempt_le :
        ((e : Exn) (rest : List Fate) → s.disk ≢ written_but e ∷ rest)
        → length (attempt rt config s principal tool_name arguments g).1.log ≤ length g.log + 1
    length-log-attempt_le whole = elim (pipeline-Exit rt config s principal tool_name arguments g) [
      | Exits.crashed e gx l crash same ↦
          omega (arith, attempt-lines _ same, crashed-lines e gx l crash, added_le s.disk)
      | Exits.rejected out result gx l rejection same ↦ omega (
        arith,
        attempt-lines _ same,
        rejected-lines out result gx l rejection,
        added_in_all_le s.disk whole,
      )
      | Exits.executed c same ↦
          omega (arith, attempt-lines _ same, executed-lines, added_in_all_le s.disk whole)
    ]
