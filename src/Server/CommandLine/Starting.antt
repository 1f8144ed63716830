-- ===== src/Server/CommandLine/Starting.antt =====
-- When `main` of sentinelmcp/gateway/server.py comes to serve, and what it serves then.
use sentinel_mcp.Prelude.{
  ◌≡◌, ◌↔◌, refl, sym, ap, ℕ, suc, zero, arith, some, [], String, Option-cases, inl, inr,
}
use sentinel_mcp.Prelude.Int.{ℤ, pos, negsuc}
use sentinel_mcp.Prelude.Dict.{Dict}
use sentinel_mcp.Json.{Json}
use sentinel_mcp.Exec.{Outcome, ok, raised}
use sentinel_mcp.Policy.Models.{PolicyConfig}
use sentinel_mcp.Policy.Loading.{model_validate}
use sentinel_mcp.Policy.Loading.File.{
  Loading, loaded, policy_load_error, escaped, Loader, value, load_policy,
}
use sentinel_mcp.Policy.Loading.File.Failing.{load_policy_iff}
use sentinel_mcp.Limits.RateLimiter
use sentinel_mcp.Limits.Concurrency
use sentinel_mcp.Limits.Concurrency.{ConcurrencyLimiter}
use sentinel_mcp.Identity.Resolver.{Configured, configured, refused, configure}
use sentinel_mcp.Identity.Resolver.StartUp.{IsUsable, configure_iff}
use sentinel_mcp.Bridge.State.{Runtime}
use sentinel_mcp.Server.{
  Scale, App, principal_key_env, build_gateway_server, with_limiter, with_resolver,
  build_gateway_app,
}
use sentinel_mcp.Server.CommandLine.{
  CommandLine, Settings, Numerals, parse_args, Exit, running, serve, with_ceiling, with_policy,
  with_settings, main,
}

module _ (rt : Runtime) (sc : Scale) (num : Numerals) (ld : Loader) (digest : String → String)
    (environ : Dict String) where
  -- The limiter as it is at first.
  abbrev ceiling_of : ℕ → ConcurrencyLimiter
  ceiling_of n = record { max_concurrent = n; active = []; peak = [] }

  -- The application for the settings.
  abbrev pub app_of : Settings → PolicyConfig → ConcurrencyLimiter → Dict String → App
  app_of args policy limiter digests = record {
    digests = digests;
    server =
        build_gateway_server rt sc args.upstream_url policy
          (RateLimiter.create args.rate_limit_capacity args.rate_limit_refill_per_second) limiter
          (record { path = args.audit_log_path; redaction_mode = args.audit_redaction_mode })
          args.upstream_call_timeout_seconds;
    host = args.host;
  }

  -- What a start goes through, to serve `app`.
  pub record Starts (cl : CommandLine) (app : App) : Type 0 where
    pub args : Settings
    pub parsed : parse_args sc num cl ≡ some args
    pub policy : PolicyConfig
    pub loads : load_policy ld args.policy ≡ loaded policy
    pub limiter : ConcurrencyLimiter
    pub limits : Concurrency.create args.max_concurrent_per_principal ≡ ok limiter
    pub digests : Dict String
    pub resolves : configure digest environ (principal_key_env policy) ≡ configured digests
    pub serves : app ≡ app_of args policy limiter digests

  abbrev app_in : App → Exit → App
  app_in other (running app host port) = app
  app_in other _ = other

  module _ (cl : CommandLine) (app : App) (host : String) (port : ℤ) (args : Settings)
      (parsed : parse_args sc num cl ≡ some args) where
    module _ (policy : PolicyConfig) (loads : load_policy ld args.policy ≡ loaded policy)
        (limiter : ConcurrencyLimiter)
        (limits : Concurrency.create args.max_concurrent_per_principal ≡ ok limiter) where
      resolved-Starts :
          (found : Configured)
          → configure digest environ (principal_key_env policy) ≡ found
          → serve rt sc num ld digest environ args (
              with_resolver rt sc args.upstream_url policy args.host
                (RateLimiter.create args.rate_limit_capacity args.rate_limit_refill_per_second)
                (record { path = args.audit_log_path; redaction_mode = args.audit_redaction_mode })
                args.upstream_call_timeout_seconds
                (ok limiter)
                found)
            ≡ running app host port
          → Starts cl app
      unfolding serve with_resolver with_limiter
      resolved-Starts (refused e) found h = ground arith
      resolved-Starts (configured digests) found h = record {
        args = args;
        parsed = parsed;
        policy = policy;
        loads = loads;
        limiter = limiter;
        limits = limits;
        digests = digests;
        resolves = found;
        serves = sym (ap (app_in app) h);
      }

    limited-Starts :
        (policy : PolicyConfig) (o : Outcome ConcurrencyLimiter)
        → load_policy ld args.policy ≡ loaded policy
        → Concurrency.create args.max_concurrent_per_principal ≡ o
        → with_ceiling rt sc num ld digest environ args policy o ≡ running app host port
        → Starts cl app
    unfolding with_ceiling build_gateway_app
    limited-Starts policy (raised e) loads limits h = ground arith
    limited-Starts policy (ok limiter) loads limits h =
        resolved-Starts policy loads limiter limits
          (configure digest environ (principal_key_env policy)) refl h

    loaded-Starts :
        (l : Loading)
        → load_policy ld args.policy ≡ l
        → with_policy rt sc num ld digest environ args l ≡ running app host port
        → Starts cl app
    unfolding with_policy
    loaded-Starts (policy_load_error reason) loads h = ground arith
    loaded-Starts (escaped e) loads h = ground arith
    loaded-Starts (loaded policy) loads h =
        limited-Starts policy (Concurrency.create args.max_concurrent_per_principal) loads refl h

  -- `main` serves an application only after a start for it: the command line is read, the policy loads,
  -- the ceiling and the keys are accepted, and the application is the one that the settings and the policy
  -- ask for.
  pub main-Starts :
      (cl : CommandLine) (app : App) (host : String) (port : ℤ)
      → main rt sc num ld digest environ cl ≡ running app host port
      → Starts cl app
  unfolding main with_settings
  main-Starts cl app host port h = elim (Option-cases (parse_args sc num cl)) [
    | inl unparsed ↦ ground (arith, rw unparsed at h)
    | inr (args, parsed) ↦
        loaded-Starts cl app host port args parsed (load_policy ld args.policy) refl
          (rw (parsed, with_settings) at h)
  ]

  pub Starts-main :
      (cl : CommandLine) (app : App) (s : Starts cl app)
      → main rt sc num ld digest environ cl ≡ running app s.args.host s.args.port
  unfolding main with_settings with_policy with_ceiling build_gateway_app with_resolver with_limiter
      serve
  Starts-main cl app s =
      rw
        (
          s.parsed, with_settings, s.loads, with_policy, s.limits, with_ceiling, s.resolves,
          with_resolver, s.serves,
        )
        refl

  -- The configuration that the command line names is right.
  pub record IsConfigured (cl : CommandLine) : Type 0 where
    pub args : Settings
    pub parsed : parse_args sc num cl ≡ some args
    pub raw : Json
    pub reads : ld.read args.policy ≡ value raw
    pub policy : PolicyConfig
    pub valid : model_validate ld.conversions raw ≡ some policy
    pub below : ℕ
    pub positive : args.max_concurrent_per_principal ≡ pos (suc below)
    pub usable : IsUsable digest environ (principal_key_env policy)

  create_positive :
      (n : ℤ) (limiter : ConcurrencyLimiter)
      → Concurrency.create n ≡ ok limiter
      → (m : ℕ) × (n ≡ pos (suc m))
  unfolding Concurrency.create
  create_positive (negsuc n) limiter h = ground arith
  create_positive (pos zero) limiter h = ground arith
  create_positive (pos (suc m)) limiter h = (m, refl)

  Starts-IsConfigured : (cl : CommandLine) (app : App) → Starts cl app → IsConfigured cl
  Starts-IsConfigured cl app s =
      let (raw, reads, valid) = ((load_policy_iff ld s.args.policy).0 s.policy).0 s.loads in
      let (below, positive) =
        create_positive s.args.max_concurrent_per_principal s.limiter s.limits in
      record {
        args = s.args;
        parsed = s.parsed;
        raw = raw;
        reads = reads;
        policy = s.policy;
        valid = valid;
        below = below;
        positive = positive;
        usable =
            (configure_iff digest environ (principal_key_env s.policy)).0 (s.digests, s.resolves);
      }

  IsConfigured-Starts : (cl : CommandLine) → IsConfigured cl → (app : App) × Starts cl app
  unfolding Concurrency.create
  IsConfigured-Starts cl c =
      let (digests, resolves) =
        (configure_iff digest environ (principal_key_env c.policy)).1 c.usable in
      let limiter = ceiling_of (suc c.below) in
      (
        app_of c.args c.policy limiter digests,
        record {
          args = c.args;
          parsed = c.parsed;
          policy = c.policy;
          loads = ((load_policy_iff ld c.args.policy).0 c.policy).1 (c.raw, c.reads, c.valid);
          limiter = limiter;
          limits = rw c.positive refl;
          digests = digests;
          resolves = resolves;
          serves = refl;
        },
      )

  -- The process comes to serve exactly when the command line is understood, the policy file reads to a
  -- value that validates, the ceiling is positive, every principal's key is set and not empty, and no two
  -- keys have the same digest; in every other case it ends without serving.
  pub main_iff :
      (cl : CommandLine)
      → ((app : App) × (host : String) × (port : ℤ) × (main rt sc num ld digest environ cl
            ≡ running app host port))
        ↔ IsConfigured cl
  main_iff cl = (
    (λ (app, host, port, h). Starts-IsConfigured cl app (main-Starts cl app host port h)),
    λ c.
        let (app, s) = IsConfigured-Starts cl c in
        (app, s.args.host, s.args.port, Starts-main cl app s),
  )
