-- ===== src/Router/Configured.antt =====
-- The models that llm/router.py selects are configured, and what keeps the costs.
use fastcoder.Base.{
  ℕ, String, ◌≡◌, refl, ap, ◌∙◌, Bool, List, [], ◌∷◌, Option, none, some, arith, string_discrete,
}
use fastcoder.Base.Dict
use fastcoder.Base.Dict.{get-put}
use fastcoder.Circuit.{CircuitBreaker, can_execute, record_success, record_failure}
use fastcoder.Router.{
  ModelTier, low, mid, top, ModelConfig, ProviderConfig, RoutingContext, SelectedModel, CostTracker,
  Router, Candidate, attribute_error, Result, ok, raised, config_named, model_with_id, select_of,
  select_from, create_selected_model, create_or, find_model_in_tier, try_tiers, route,
}
use fastcoder.Router.Calls.{
  TokenUsage, attribute, cost_for, cost_of_tokens, excluded, chained_or, models_of, calculate_cost,
  cost_key, key_discrete, ensured, ensure_tracker, get_cost_for_story, from_chain, any_model, Reply,
  created, without_chain, fallback,
}
use fastcoder.Router.Complete.{change_breaker, note_success, note_failure, ask_breaker}

-- The model is one of the configured ones.
unfoldable pub IsConfigured : List ProviderConfig → SelectedModel → Type 0
unfolding models_of
IsConfigured configs m =
    (c : ModelConfig) × (model_with_id m.model (models_of (config_named m.provider configs))
      ≡ some c)

-- The result is not a model, or one of the configured ones.
unfoldable pub AreConfigured : List ProviderConfig → Result SelectedModel → Type 0
unfolding IsConfigured
AreConfigured configs (ok m) = IsConfigured configs m
AreConfigured configs (raised e) = Unit

create_selected_model-AreConfigured :
    (r : Router) (provider model : String) (tier : ModelTier)
    → AreConfigured r.provider_configs (create_selected_model r provider model tier)
unfolding create_selected_model AreConfigured IsConfigured select_from models_of
create_selected_model-AreConfigured r provider model tier =
    by_config (config_named provider r.provider_configs) refl
  where
    by_model :
        (c : ProviderConfig)
        → config_named provider r.provider_configs ≡ some c
        → (o : Option ModelConfig) → model_with_id model c.models ≡ o
        → AreConfigured r.provider_configs (select_of provider model tier o)
    by_model c e none f = tt
    by_model c e (some m) f = (m, ap (λ o. model_with_id model (models_of o)) e ∙ f)

    by_config :
        (o : Option ProviderConfig)
        → config_named provider r.provider_configs ≡ o
        → AreConfigured r.provider_configs (select_from provider model tier o)
    by_config none e = tt
    by_config (some c) e = by_model c e (model_with_id model c.models) refl

try_tiers-AreConfigured :
    (r : Router) (exclude : List String) (tiers : List ModelTier)
    → AreConfigured r.provider_configs (try_tiers r exclude tiers)
unfolding try_tiers create_or AreConfigured
try_tiers-AreConfigured r exclude [] = tt
try_tiers-AreConfigured r exclude (tier ∷ tiers) =
    by_candidate (try_tiers-AreConfigured r exclude tiers) (find_model_in_tier r tier exclude)
  where
    by_candidate :
        AreConfigured r.provider_configs (try_tiers r exclude tiers)
        → (o : Option Candidate)
        → AreConfigured r.provider_configs (create_or r tier o (try_tiers r exclude tiers))
    by_candidate rest none = rest
    by_candidate rest (some c) = create_selected_model-AreConfigured r c.provider c.model tier

-- The configurations and the recorded costs are those of `r`.
pub record Keeps (r r' : Router) : Type 0 where
  pub configs : r'.provider_configs ≡ r.provider_configs
  pub costs :
      (story_id : Option String) → get_cost_for_story story_id r' ≡ get_cost_for_story story_id r

pub Keeps-trans : {r s t : Router} → Keeps r s → Keeps s t → Keeps r t
Keeps-trans a b = record { configs = b.configs ∙ a.configs; costs = λ k. b.costs k ∙ a.costs k }

pub Keeps-refl : (r : Router) → Keeps r r
Keeps-refl r = record { configs = refl; costs = λ k. refl }

pub route-Keeps :
    (healthy : String → Bool) (context : RoutingContext) (r : Router)
    → Keeps r (route healthy context r).0
unfolding route get_cost_for_story
route-Keeps healthy context r = record { configs = refl; costs = λ k. refl }

change_breaker-Keeps :
    (f : CircuitBreaker → CircuitBreaker) (name : String) (r : Router)
    → Keeps r (change_breaker f name r)
unfolding change_breaker get_cost_for_story
change_breaker-Keeps f name r = record { configs = refl; costs = λ k. refl }

pub note_success-Keeps : (now : ℕ) (name : String) (r : Router) → Keeps r (note_success now name r)
unfolding note_success
note_success-Keeps now = change_breaker-Keeps (record_success now)

pub note_failure-Keeps : (now : ℕ) (name : String) (r : Router) → Keeps r (note_failure now name r)
unfolding note_failure
note_failure-Keeps now = change_breaker-Keeps (record_failure now)

pub ask_breaker-Keeps : (now : ℕ) (name : String) (r : Router) → Keeps r (ask_breaker now name r).0
unfolding ask_breaker
ask_breaker-Keeps now = change_breaker-Keeps (λ b. (can_execute now b).0)

pub ensure_tracker-Keeps : (r : Router) → Keeps r (ensure_tracker r)
unfolding ensure_tracker get_cost_for_story
ensure_tracker-Keeps r = by_tracker (Dict.get key_discrete cost_key r.cost_trackers) refl
  where
    by_tracker :
        (o : Option CostTracker)
        → Dict.get key_discrete cost_key r.cost_trackers ≡ o
        → Keeps r (ensured r o)
    by_tracker (some t) e = Keeps-refl r
    by_tracker none e = record {
      configs = refl;
      costs = λ k. ground (
        arith,
        get-put key_discrete cost_key k (record { total_cost_usd = 0; call_count = 0 })
            r.cost_trackers,
      );
    }

-- The price of a call of a configured model cannot be computed.
pub calculate_cost-raised :
    (r : Router) (configs : List ProviderConfig) (m : SelectedModel) (usage : TokenUsage)
    → r.provider_configs ≡ configs
    → IsConfigured configs m
    → calculate_cost r m.provider m.model usage ≡ raised attribute_error
unfolding calculate_cost IsConfigured cost_for cost_of_tokens attribute string_discrete
calculate_cost-raised r configs m usage e (c, found) =
    ap (λ cs. cost_for usage (model_with_id m.model (models_of (config_named m.provider cs)))) e
    ∙ ap (cost_for usage) found

-- A reply of the fallback.
unfoldable pub IsFallback : Router → Reply SelectedModel → Type 0
IsFallback r reply = AreConfigured r.provider_configs reply.result × Keeps r reply.router

created-AreConfigured :
    (r : Router) (tier : ModelTier) (o : Option (String × String))
    → AreConfigured r.provider_configs (created r tier o)
unfolding created AreConfigured
created-AreConfigured r tier none = tt
created-AreConfigured r tier (some (provider, model)) =
    create_selected_model-AreConfigured r provider model tier

module _ (healthy : String → Bool) where
  pub route-AreConfigured :
      (context : RoutingContext) (r : Router)
      → AreConfigured r.provider_configs (route healthy context r).1
  unfolding route
  route-AreConfigured context r = try_tiers-AreConfigured (route healthy context r).0 _ _

  without_chain-IsFallback :
      (exclude : List String) (tier : ModelTier) (context : RoutingContext) (r : Router)
      → IsFallback r (without_chain healthy exclude tier context r)
  unfolding without_chain IsFallback
  without_chain-IsFallback exclude top context r =
      let context' = record context { exclude_providers = exclude; preferred_tier = some mid } in
      (route-AreConfigured context' r, route-Keeps healthy context' r)
  without_chain-IsFallback exclude mid context r =
      (created-AreConfigured r low (any_model exclude r.provider_configs), Keeps-refl r)
  without_chain-IsFallback exclude low context r =
      (created-AreConfigured r low (any_model exclude r.provider_configs), Keeps-refl r)

  pub fallback-IsFallback :
      (failed_model : SelectedModel) (context : RoutingContext) (r : Router)
      → IsFallback r (fallback healthy failed_model context r)
  unfolding fallback IsFallback
  fallback-IsFallback failed_model context r =
      by_chain (from_chain (excluded failed_model context) r.provider_configs r.fallback_chain)
    where
      by_chain :
          (o : Option (String × String))
          → IsFallback r (chained_or healthy failed_model context r o)
      by_chain (some pair) = (created-AreConfigured r failed_model.tier (some pair), Keeps-refl r)
      by_chain none =
          without_chain-IsFallback (excluded failed_model context) failed_model.tier context r
