-- ===== src/Policy/Loading/File/Failing.antt =====
-- How `load_policy` of sentinelmcp/policy/models.py ends.
use sentinel_mcp.Prelude.{◌≡◌, ◌↔◌, ◌⊎◌, inl, inr, refl, arith, Option, none, some, String}
use sentinel_mcp.Json.{Json, null, bool, int, float, str, arr, obj}
use sentinel_mcp.Exec.{Exn}
use sentinel_mcp.Policy.Models.{PolicyConfig}
use sentinel_mcp.Policy.Loading.{model_validate}
use sentinel_mcp.Policy.Loading.Escapes.{model_validate_escape}
use sentinel_mcp.Policy.Loading.Escapes.Raising.{PolicyRaises, model_validate_escape_iff}
use sentinel_mcp.Policy.Loading.Escapes.Absent.{model_validate-silent}
use sentinel_mcp.Policy.Loading.File.{
  Reading, value, os_error, yaml_error, other_error, loaded, escaped, Loader, validated, checked,
  structured, load_from, load_policy,
}

module _ (ld : Loader) where
  -- What reading the file must give for the policy to be loaded.
  abbrev Validates : Reading → PolicyConfig → Type 0
  Validates reading policy =
      (raw : Json) × (reading ≡ value raw) × (model_validate ld.conversions raw ≡ some policy)

  validated-loaded :
      (path : String) (raw : Json) (o : Option PolicyConfig) (policy : PolicyConfig)
      → validated ld path raw o ≡ loaded policy
      → o ≡ some policy
  unfolding validated
  validated-loaded path raw none policy h = ground arith
  validated-loaded path raw (some p) policy h = ground arith

  checked-loaded :
      (path : String) (raw : Json) (o : Option Exn) (policy : PolicyConfig)
      → checked ld path raw o ≡ loaded policy
      → model_validate ld.conversions raw ≡ some policy
  unfolding checked
  checked-loaded path raw none policy h = validated-loaded path raw _ policy h
  checked-loaded path raw (some e) policy h = ground arith

  structured-loaded :
      (path : String) (raw : Json) (policy : PolicyConfig)
      → structured ld path raw ≡ loaded policy
      → model_validate ld.conversions raw ≡ some policy
  unfolding structured
  structured-loaded path (obj fs) policy h = checked-loaded path (obj fs) _ policy h
  structured-loaded path null policy h = ground arith
  structured-loaded path (bool b) policy h = ground arith
  structured-loaded path (int n) policy h = ground arith
  structured-loaded path (float x) policy h = ground arith
  structured-loaded path (str s) policy h = ground arith
  structured-loaded path (arr vs) policy h = ground arith

  structured-validates :
      (path : String) (raw : Json) (policy : PolicyConfig)
      → model_validate ld.conversions raw ≡ some policy
      → structured ld path raw ≡ loaded policy
  unfolding structured checked validated model_validate
  structured-validates path (obj fs) policy h =
      rw (model_validate-silent ld.conversions (obj fs) policy h, h) refl
  structured-validates path null policy h = ground arith
  structured-validates path (bool b) policy h = ground arith
  structured-validates path (int n) policy h = ground arith
  structured-validates path (float x) policy h = ground arith
  structured-validates path (str s) policy h = ground arith
  structured-validates path (arr vs) policy h = ground arith

  load_from-loaded :
      (path : String) (reading : Reading) (policy : PolicyConfig)
      → load_from ld path reading ≡ loaded policy
      → Validates reading policy
  unfolding load_from
  load_from-loaded path (value raw) policy h = (raw, refl, structured-loaded path raw policy h)
  load_from-loaded path (os_error reason) policy h = ground arith
  load_from-loaded path (yaml_error reason) policy h = ground arith
  load_from-loaded path (other_error e) policy h = ground arith

  validated-escaped :
      (path : String) (raw : Json) (o : Option PolicyConfig) (e : Exn)
      → ¬ (validated ld path raw o ≡ escaped e)
  unfolding validated
  validated-escaped path raw none e h = ground arith
  validated-escaped path raw (some p) e h = ground arith

  checked-escaped :
      (path : String) (raw : Json) (o : Option Exn) (e : Exn)
      → checked ld path raw o ≡ escaped e
      → o ≡ some e
  unfolding checked
  checked-escaped path raw none e h = absurd (validated-escaped path raw _ e h)
  checked-escaped path raw (some x) e h = ground arith

  -- What comes out of the validation beside a ValidationError.
  abbrev Escapes : Json → Exn → Type 0
  Escapes raw e = model_validate_escape ld.conversions raw ≡ some e

  structured-escaped :
      (path : String) (raw : Json) (e : Exn) → (structured ld path raw ≡ escaped e) ↔ Escapes raw e
  unfolding structured checked model_validate_escape
  structured-escaped path (obj fs) e = (checked-escaped path (obj fs) _ e, λ h. rw h refl)
  structured-escaped path null e = ground arith
  structured-escaped path (bool b) e = ground arith
  structured-escaped path (int n) e = ground arith
  structured-escaped path (float x) e = ground arith
  structured-escaped path (str s) e = ground arith
  structured-escaped path (arr vs) e = ground arith

  abbrev LetsOut : Reading → Exn → Type 0
  LetsOut reading e =
      (reading ≡ other_error e)
      ⊎ ((raw : Json) × (reading ≡ value raw) × PolicyRaises ld.conversions raw e)

  load_from-escaped :
      (path : String) (reading : Reading) (e : Exn)
      → load_from ld path reading ≡ escaped e
      → LetsOut reading e
  unfolding load_from
  load_from-escaped path (value raw) e h = inr (
    raw,
    refl,
    (model_validate_escape_iff ld.conversions raw e).0 ((structured-escaped path raw e).0 h),
  )
  load_from-escaped path (os_error reason) e h = ground arith
  load_from-escaped path (yaml_error reason) e h = ground arith
  load_from-escaped path (other_error x) e h = inl (ground arith)

  load_from-LetsOut :
      (path : String) (reading : Reading) (e : Exn)
      → LetsOut reading e
      → load_from ld path reading ≡ escaped e
  unfolding load_from
  load_from-LetsOut path reading e (inl read) = rw read refl
  load_from-LetsOut path reading e (inr (raw, read, out)) =
      rw read
        ((structured-escaped path raw e).1 ((model_validate_escape_iff ld.conversions raw e).1 out))

  pub load_policy_iff :
      (path : String)
      → ((policy : PolicyConfig)
          → (load_policy ld path ≡ loaded policy) ↔ Validates (ld.read path) policy)
        × ((e : Exn) → (load_policy ld path ≡ escaped e) ↔ LetsOut (ld.read path) e)
  unfolding load_policy load_from
  load_policy_iff path = (
    (λ policy. (
      load_from-loaded path (ld.read path) policy,
      (λ (raw, read, valid). rw read (structured-validates path raw policy valid)),
    )),
    λ e. (load_from-escaped path (ld.read path) e, load_from-LetsOut path (ld.read path) e),
  )
