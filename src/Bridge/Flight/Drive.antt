-- ===== src/Bridge/Flight/Drive.antt =====
-- The rest of a request alone at the gateway, as the machine of Flight runs it: to the end of the
-- handler's records and its `except` clauses (sentinelmcp/gateway/bridge.py).
use sentinel_mcp.Prelude.{
  ℕ, zero, suc, ◌≡◌, refl, sym, ap, ◌∙◌, Bool, true, false, Option, none, some, arith,
  if◌then◌else◌,
}
use sentinel_mcp.Exec.{Exn, Outcome, ok, raised, Exec, raise, continue, ◌>>◌}
use sentinel_mcp.Audit.Record.{AuditOutcome, Category}
use sentinel_mcp.Bridge.Results.{CallToolResult}
use sentinel_mcp.Bridge.State.{Gateway, Runtime, Config, Request, Locals, Turn}
use sentinel_mcp.Bridge.Turns.{outcome_of, write}
use sentinel_mcp.Bridge.CallTool.{emit, reject, recover}
use sentinel_mcp.Bridge.Flight.{
  Shared, Point, rejecting, emitting, recovering, done, after_emit, after_recovery, leave, advance,
}

abbrev pub free : Gateway → Shared
free g = record { gateway = g; locked = false }

abbrev pub turn : Gateway → Locals → Turn
turn g l = record { gateway = g; locals = l }

abbrev pub ended : Outcome CallToolResult × Gateway → Point × Shared
ended (o, g) = (done o, free g)

module _ (rt : Runtime) (config : Config) (r : Request) where
  -- The task takes its steps, at most so many.
  unfoldable pub drive : ℕ → Point × Shared → Point × Shared
  drive zero at = at
  drive (suc n) (p, sh) = elim (advance rt config r p sh) [
    | none ↦ (p, sh)
    | some next ↦ drive n next
  ]

  -- The end of the handler: the outer `except` clauses, with what is left.
  abbrev pub closed : Outcome CallToolResult × Turn → Outcome CallToolResult × Gateway
  closed (o, t) =
      let (o', t') = recover rt config r.surroundings r.principal r.tool_name r.arguments o t in
      (o', t'.gateway)

  drive-done :
      (n : ℕ) (o : Outcome CallToolResult) (sh : Shared) → drive n (done o, sh) ≡ (done o, sh)
  unfolding drive advance
  drive-done zero o sh = refl
  drive-done (suc n) o sh = refl

  abbrev left_over : Outcome CallToolResult × Turn → Outcome CallToolResult × Gateway
  left_over (o, t) = (o, t.gateway)

  if_not : {A : Type 0} (b : Bool) (x y : A) → b ≡ false → (if b then x else y) ≡ y
  if_not true x y h = ground arith
  if_not false x y h = refl

  if_so : {A : Type 0} (b : Bool) (x y : A) → b ≡ true → (if b then x else y) ≡ x
  if_so true x y h = refl
  if_so false x y h = ground arith

  abbrev again : Exn → Turn → Outcome CallToolResult × Turn
  again e t =
      (emit rt config r.surroundings r.principal r.tool_name r.arguments (outcome_of e) false none
          >> raise e)
        t

  closed-unsaid :
      (e : Exn) (t : Turn)
      → t.locals.audit_emitted ≡ false
      → closed (raised e, t) ≡ left_over (again e t)
  unfolding recover
  closed-unsaid e t h = ap left_over (if_not t.locals.audit_emitted (raised e, t) (again e t) h)

  closed-said :
      (e : Exn) (t : Turn)
      → t.locals.audit_emitted ≡ true
      → closed (raised e, t) ≡ (raised e, t.gateway)
  unfolding recover
  closed-said e t h = ap left_over (if_so t.locals.audit_emitted (raised e, t) (again e t) h)

  -- The outer clause's record, and the exception again.
  recovered :
      (e : Exn) (w : Outcome (Unit {0}) × Turn)
      → (done (after_recovery rt config r w.0 e), free w.1.gateway)
        ≡ ended (left_over (continue {S = Turn} {B = CallToolResult} w.0 (λ u. raise e) w.1))
  recovered e (ok u, t) = refl
  recovered e (raised e', t) = refl

  pub drive-recovering :
      (n : ℕ) (e : Exn) (l : Locals) (g : Gateway)
      → l.audit_emitted ≡ false
      → drive (suc n) (recovering e l, free g)
        ≡ ended (closed (raised e, record { gateway = g; locals = l }))
  unfolding drive advance
  drive-recovering n e l g unsaid =
      let t = turn g l in
      drive-done n _ _
      ∙ recovered e (
          emit rt config r.surroundings r.principal r.tool_name r.arguments (outcome_of e) false
            none t)
      ∙ sym (ap ended (closed-unsaid e t unsaid))

  -- Whether a write came to its end.
  abbrev said : Outcome (Unit {0}) → Bool
  said (ok u) = true
  said (raised e) = false

  emit-said :
      (out : AuditOutcome) (att : Bool) (cat : Option Category) (t : Turn)
      → t.locals.audit_emitted ≡ false
      → (emit rt config r.surroundings r.principal r.tool_name r.arguments out att cat
          t).1.locals.audit_emitted
        ≡ said (emit rt config r.surroundings r.principal r.tool_name r.arguments out att cat t).0
  unfolding emit write
  emit-said out att cat t unsaid = ground arith

  abbrev back : Outcome CallToolResult → Exec Turn CallToolResult
  back result t = (result, t)

  -- What holds a slot gives it back.
  abbrev pub left_of : Bool → Outcome CallToolResult × Turn → Outcome CallToolResult × Turn
  left_of held (o, t) = (o, record t { gateway = leave rt config r held t.gateway })

  drive-after_emit :
      (n : ℕ) (held : Bool) (result : Outcome CallToolResult) (w : Outcome (Unit {0}) × Turn)
      → w.1.locals.audit_emitted ≡ said w.0
      → drive
          (suc n)
          (after_emit rt config r w.0 result w.1.locals, free (leave rt config r held w.1.gateway))
        ≡ ended (closed (left_of held (continue {S = Turn} w.0 (λ u. back result) w.1)))
  unfolding recover
  drive-after_emit n held (ok result) (ok u, t) h = drive-done (suc n) _ _
  drive-after_emit n held (raised e) (ok u, t) h =
      drive-done (suc n) _ _ ∙ sym (ap ended (closed-said e _ h))
  drive-after_emit n held result (raised e, t) h = drive-recovering n e t.locals _ h

  pub drive-emitting :
      (n : ℕ) (held : Bool) (out : AuditOutcome) (att : Bool) (cat : Option Category)
      (result : Outcome CallToolResult) (l : Locals) (g : Gateway)
      → l.audit_emitted ≡ false
      → drive (suc (suc n)) (emitting held out att cat result l, free g)
        ≡ ended (
            closed (
              left_of held (
                (emit rt config r.surroundings r.principal r.tool_name r.arguments out att cat
                    >> back result)
                  (record { gateway = g; locals = l }))))
  unfolding drive advance
  drive-emitting n held out att cat result l g unsaid =
      drive-after_emit n held result
        (emit rt config r.surroundings r.principal r.tool_name r.arguments out att cat
          (record { gateway = g; locals = l }))
        (emit-said out att cat (record { gateway = g; locals = l }) unsaid)

  pub drive-rejecting :
      (n : ℕ) (out : AuditOutcome) (result : CallToolResult) (l : Locals) (g : Gateway)
      → l.audit_emitted ≡ false
      → drive (suc (suc n)) (rejecting rt config r out result l, free g)
        ≡ ended (
            closed (
              reject rt config r.surroundings r.principal r.tool_name r.arguments out result
                (turn g l)))
  unfolding reject
  drive-rejecting n out result l g unsaid = drive-emitting n false out false none _ l g unsaid
