-- ===== src/Router/Complete.antt =====
-- `complete` of llm/router.py. What it returns of the response is the usage.
use fastcoder.Base.{
  ℕ, String, Bool, not, Option, none, some, ite, if◌then◌else◌, elem, string_discrete,
}
use fastcoder.Circuit.{
  CircuitBreaker, can_execute, record_success as breaker_success, record_failure as breaker_failure,
}
use fastcoder.Circuit.Registry.{get_breaker, store}
use fastcoder.Router.{
  RoutingContext, SelectedModel, Router, Exn, value_error, provider_error, Result, ok, raised,
  route,
}
use fastcoder.Router.Calls.{
  TokenUsage, Environment, calculate_cost, ensure_tracker, charge, Reply, fallback,
}

-- `self._circuit_breakers.get_breaker(name)`, changed by `f` where it stands.
unfoldable pub change_breaker : (CircuitBreaker → CircuitBreaker) → String → Router → Router
unfolding get_breaker store
change_breaker f name r =
    let (registry, breaker) = get_breaker r.circuit_breakers name in
    record r { circuit_breakers = store registry name (f breaker) }

unfoldable pub note_success : ℕ → String → Router → Router
unfolding change_breaker breaker_success
note_success now = change_breaker (breaker_success now)

unfoldable pub note_failure : ℕ → String → Router → Router
unfolding change_breaker breaker_failure
note_failure now = change_breaker (breaker_failure now)

-- `breaker.can_execute()`
unfoldable pub ask_breaker : ℕ → String → Router → Router × Bool
unfolding change_breaker get_breaker can_execute
ask_breaker now name r = (
  change_breaker (λ b. (can_execute now b).0) name r,
  (can_execute now (get_breaker r.circuit_breakers name).1).1,
)

module _ (env : Environment) where
  -- The cost is added to the tracker, and the response returned.
  unfoldable pub charged : Result ℕ → TokenUsage → RoutingContext → Router → Reply TokenUsage
  unfolding charge
  charged (ok cost) usage context r = record {
    router = charge cost r;
    context = context;
    result = ok usage;
  }
  charged (raised e) usage context r = record { router = r; context = context; result = raised e }

  -- What follows the call of a fallback provider.
  unfoldable pub answered :
      (Router → Router)
      → SelectedModel
      → Option TokenUsage
      → RoutingContext
      → Router
      → Reply TokenUsage
  unfolding charged calculate_cost
  answered note m none context r = record {
    router = r;
    context = context;
    result = raised provider_error;
  }
  answered note m (some usage) context r =
      charged (calculate_cost (note r) m.provider m.model usage) usage context (note r)

  -- After the fallback of a provider whose circuit is open.
  unfoldable pub after_open : Result SelectedModel → RoutingContext → Router → Reply TokenUsage
  unfolding answered elem string_discrete note_success
  after_open (raised e) context r = record { router = r; context = context; result = raised e }
  after_open (ok m) context r =
      if elem string_discrete m.provider r.providers
      then answered (note_success env.now m.provider) m (env.responds m.provider m.model) context r
      else record { router = r; context = context; result = raised value_error }

  -- After the fallback of a call that raised `e`.
  unfoldable pub after_failure :
      Exn → SelectedModel → Result SelectedModel → RoutingContext → Router → Reply TokenUsage
  unfolding answered elem string_discrete
  after_failure e selected (raised e') context r = record {
    router = r;
    context = context;
    result = raised e';
  }
  after_failure e selected (ok m) context r =
      ite (string_discrete m.provider selected.provider)
        (record { router = r; context = context; result = raised e })
        (if elem string_discrete m.provider r.providers
          then answered (λ s. s) m (env.responds m.provider m.model) context r
          else record { router = r; context = context; result = raised e })

  -- The `except` block.
  unfoldable pub recover : Exn → SelectedModel → RoutingContext → Router → Reply TokenUsage
  unfolding after_failure fallback note_failure
  recover e selected context r =
      let reply =
        fallback env.healthy selected context (note_failure env.now selected.provider r) in
      after_failure e selected reply.result reply.context reply.router

  unfoldable pub unless_raised :
      Result ℕ → SelectedModel → TokenUsage → RoutingContext → Router → Reply TokenUsage
  unfolding charge recover
  unless_raised (ok cost) selected usage context r = record {
    router = charge cost r;
    context = context;
    result = ok usage;
  }
  unless_raised (raised e) selected usage context r = recover e selected context r

  -- The `try` block, with what the provider answers.
  unfoldable pub attempt :
      SelectedModel → Option TokenUsage → RoutingContext → Router → Reply TokenUsage
  unfolding recover unless_raised calculate_cost note_success
  attempt selected none context r = recover provider_error selected context r
  attempt selected (some usage) context r =
      let r' = note_success env.now selected.provider r in
      unless_raised (calculate_cost r' selected.provider selected.model usage) selected usage
        context r'

  unfoldable pub call : SelectedModel → RoutingContext → Router → Reply TokenUsage
  unfolding ask_breaker after_open fallback attempt ensure_tracker
  call selected context r =
      let (r', allowed) = ask_breaker env.now selected.provider (ensure_tracker r) in
      if not allowed
      then (let reply = fallback env.healthy selected context r' in
          after_open reply.result reply.context reply.router)
      else attempt selected (env.responds selected.provider selected.model) context r'

  unfoldable pub routed : RoutingContext → Router → Result SelectedModel → Reply TokenUsage
  unfolding call elem string_discrete
  routed context r (raised e) = record { router = r; context = context; result = raised e }
  routed context r (ok selected) =
      if elem string_discrete selected.provider r.providers
      then call selected context r
      else record { router = r; context = context; result = raised value_error }

  unfoldable pub complete : RoutingContext → Router → Reply TokenUsage
  unfolding route routed
  complete context r = let (r', result) = route env.healthy context r in routed context r' result
