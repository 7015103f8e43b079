-- ===== src/Router/Failure.antt =====
-- What `complete` of llm/router.py can return: the prices are read from fields that a response's
-- usage does not have.
use fastcoder.Base.{
  String, ◌≡◌, refl, sym, subst, not, Option, none, some, ite_ind, if_ind, elem, string_discrete,
}
use fastcoder.Router.{
  RoutingContext, SelectedModel, Router, Exn, attribute_error, Result, ok, raised, route,
}
use fastcoder.Router.Calls.{
  TokenUsage, Environment, ensure_tracker, get_cost_for_story, Reply, fallback,
}
use fastcoder.Router.Configured.{
  IsConfigured, AreConfigured, IsFallback, Keeps, Keeps-trans, Keeps-refl, route-Keeps,
  note_success-Keeps, note_failure-Keeps, ask_breaker-Keeps, ensure_tracker-Keeps,
  calculate_cost-raised, route-AreConfigured, fallback-IsFallback,
}
use fastcoder.Router.Complete.{
  note_success, note_failure, ask_breaker, charged, answered, after_open, after_failure, recover,
  unless_raised, attempt, call, routed, complete,
}

-- The reply that is no response, from a router with the configurations and costs of `r`.
IsRefusal : Router → Reply TokenUsage → Type 0
IsRefusal r reply = ((e : Exn) × (reply.result ≡ raised e)) × Keeps r reply.router

module _ (env : Environment) (r : Router) where
  refused :
      (e : Exn) (context : RoutingContext) (s : Router)
      → Keeps r s
      → IsRefusal r (record { router = s; context = context; result = raised e })
  unfolding IsRefusal
  refused e context s k = ((e, refl), k)

  answered-IsRefusal :
      (note : Router → Router) (m : SelectedModel) (o : Option TokenUsage)
      (context : RoutingContext) (s : Router)
      → Keeps r s
      → Keeps s (note s)
      → IsConfigured r.provider_configs m
      → IsRefusal r (answered env note m o context s)
  unfolding answered charged
  answered-IsRefusal note m none context s k n c = refused _ context s k
  answered-IsRefusal note m (some usage) context s k n c =
      let k' = Keeps-trans k n in
      subst (λ cost. IsRefusal r (charged env cost usage context (note s)))
        (sym (calculate_cost-raised (note s) r.provider_configs m usage k'.configs c))
        (refused attribute_error context (note s) k')

  after_open-IsRefusal :
      (o : Result SelectedModel) (context : RoutingContext) (s : Router)
      → AreConfigured r.provider_configs o
      → Keeps r s
      → IsRefusal r (after_open env o context s)
  unfolding after_open AreConfigured
  after_open-IsRefusal (raised e) context s c k = refused e context s k
  after_open-IsRefusal (ok m) context s c k =
      if_ind (IsRefusal r) (elem string_discrete m.provider s.providers)
        (λ _.
          answered-IsRefusal (note_success env.now m.provider) m _ context s k
            (note_success-Keeps env.now m.provider s) c)
        (λ _. refused _ context s k)

  after_failure-IsRefusal :
      (e : Exn) (selected : SelectedModel) (o : Result SelectedModel) (context : RoutingContext)
      (s : Router)
      → AreConfigured r.provider_configs o
      → Keeps r s
      → IsRefusal r (after_failure env e selected o context s)
  unfolding after_failure AreConfigured
  after_failure-IsRefusal e selected (raised e') context s c k = refused e' context s k
  after_failure-IsRefusal e selected (ok m) context s c k =
      ite_ind (IsRefusal r) (string_discrete m.provider selected.provider)
        (λ _. refused e context s k)
        (λ _.
          if_ind (IsRefusal r) (elem string_discrete m.provider s.providers)
            (λ _. answered-IsRefusal (λ x. x) m _ context s k (Keeps-refl s) c)
            (λ _. refused e context s k))

  -- What the fallback from a router that keeps `r` gives.
  fallback-Keeps :
      (m : SelectedModel) (context : RoutingContext) (s : Router)
      → Keeps r s
      → let reply = fallback env.healthy m context s in
        AreConfigured r.provider_configs reply.result × Keeps r reply.router
  unfolding IsFallback
  fallback-Keeps m context s k =
      let (c, k') = fallback-IsFallback env.healthy m context s in
      (
        subst (λ cs. AreConfigured cs (fallback env.healthy m context s).result) k.configs c,
        Keeps-trans k k',
      )

  recover-IsRefusal :
      (e : Exn) (selected : SelectedModel) (context : RoutingContext) (s : Router)
      → Keeps r s
      → IsRefusal r (recover env e selected context s)
  unfolding recover
  recover-IsRefusal e selected context s k =
      let s' = note_failure env.now selected.provider s in
      let (c, k') =
        fallback-Keeps selected context s'
          (Keeps-trans k (note_failure-Keeps env.now selected.provider s)) in
      after_failure-IsRefusal e selected _ _ _ c k'

  attempt-IsRefusal :
      (selected : SelectedModel) (o : Option TokenUsage) (context : RoutingContext) (s : Router)
      → Keeps r s
      → IsConfigured r.provider_configs selected
      → IsRefusal r (attempt env selected o context s)
  unfolding attempt unless_raised
  attempt-IsRefusal selected none context s k c = recover-IsRefusal _ selected context s k
  attempt-IsRefusal selected (some usage) context s k c =
      let s' = note_success env.now selected.provider s in
      let k' = Keeps-trans k (note_success-Keeps env.now selected.provider s) in
      subst (λ cost. IsRefusal r (unless_raised env cost selected usage context s'))
        (sym (calculate_cost-raised s' r.provider_configs selected usage k'.configs c))
        (recover-IsRefusal attribute_error selected context s' k')

  call-IsRefusal :
      (selected : SelectedModel) (context : RoutingContext) (s : Router)
      → Keeps r s
      → IsConfigured r.provider_configs selected
      → IsRefusal r (call env selected context s)
  unfolding call
  call-IsRefusal selected context s k c =
      let s' = ensure_tracker s in
      let s'' = (ask_breaker env.now selected.provider s').0 in
      let k' =
        Keeps-trans (Keeps-trans k (ensure_tracker-Keeps s))
          (ask_breaker-Keeps env.now selected.provider s') in
      let (c', k'') = fallback-Keeps selected context s'' k' in
      if_ind (IsRefusal r) (not (ask_breaker env.now selected.provider s').1)
        (λ _. after_open-IsRefusal _ _ _ c' k'')
        (λ _. attempt-IsRefusal selected _ context s'' k' c)

  routed-IsRefusal :
      (o : Result SelectedModel) (context : RoutingContext) (s : Router)
      → Keeps r s
      → AreConfigured r.provider_configs o
      → IsRefusal r (routed env context s o)
  unfolding routed AreConfigured
  routed-IsRefusal (raised e) context s k c = refused e context s k
  routed-IsRefusal (ok selected) context s k c =
      if_ind (IsRefusal r) (elem string_discrete selected.provider s.providers)
        (λ _. call-IsRefusal selected context s k c) (λ _. refused _ context s k)

-- Whatever the configuration, the providers' health and answers, the circuit breakers and the time:
-- `complete` returns no response but raises, and the cost of no story changes.
pub complete_raises :
    (env : Environment) (context : RoutingContext) (r : Router)
    → let reply = complete env context r in
      ((e : Exn) × (reply.result ≡ raised e))
      × ((story_id : Option String)
          → get_cost_for_story story_id reply.router ≡ get_cost_for_story story_id r)
unfolding complete IsRefusal
complete_raises env context r =
    let (failed, kept) =
      routed-IsRefusal env r (route env.healthy context r).1 context (route env.healthy context r).0
        (route-Keeps env.healthy context r) (route-AreConfigured env.healthy context r) in
    (failed, kept.costs)
