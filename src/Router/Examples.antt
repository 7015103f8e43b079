-- ===== src/Router/Examples.antt =====
-- Runs of the router.
use fastcoder.Base.{
  ℕ, ◌≤◌, ◌<◌, String, ◌≡◌, refl, ◌≢◌, ◌⊎◌, Bool, true, false, List, [], ◌∷◌, Memᴰ, Option, none,
  some, elem, string_discrete,
}
use fastcoder.Base.Dict
use fastcoder.Circuit.{default_config}
use fastcoder.Router.{
  ModelTier, low, top, planning, ModelConfig, ProviderConfig, RoutingContext, SelectedModel, Router,
  Exn, ok, raised, value_error, is_tier, spells, task_tier, tier_of_task, preferred_or, select_tier,
  models_in_tier, is_usable, candidates, insert, sort, find_model_in_tier, config_named,
  model_with_id, select_of, select_from, create_selected_model, check_health, tiers_from, create_or,
  try_tiers, route,
}
use fastcoder.Router.Calls.{
  Environment, get_cost_for_story, offered, or_next, chained, from_chain, any_model, created,
  without_chain, chained_or, fallback,
}
use fastcoder.Router.Complete.{complete}
use fastcoder.Router.Selection.{rank, AreNamedApart, IsBest, HasNone, route_lem}
use fastcoder.Router.Fallback.{fallback_avoids}
use fastcoder.Router.Failure.{complete_raises}

abbrev model : String → String → ℕ → ModelConfig
model id tier cost = record {
  id = id;
  tier = tier;
  max_context_tokens = 128000;
  cost_per_1k_input = cost;
  cost_per_1k_output = cost;
}

abbrev configs : List ProviderConfig
configs =
    (record {
      name = "anthropic";
      models = model "opus" "top" 15 ∷ model "haiku" "Low" 1 ∷ [];
      enabled = true;
    })
    ∷ (record { name = "openai"; models = model "gpt" "TOP" 10 ∷ []; enabled = true })
    ∷ (record { name = "ollama"; models = model "llama" "mid" 0 ∷ []; enabled = false })
    ∷ []

abbrev router : Router
router = record {
  provider_configs = configs;
  fallback_chain = [];
  providers = "anthropic" ∷ "openai" ∷ [];
  health_cache = [];
  cost_trackers = [];
  circuit_breakers = record { config = default_config; breakers = [] };
}

abbrev context : RoutingContext
context = record {
  purpose = planning;
  complexity_score = 50;
  preferred_tier = none;
  exclude_providers = [];
}

abbrev healthy : String → Bool
healthy _ = true

abbrev selected : String → String → ModelTier → ℕ → SelectedModel
selected provider id tier cost = record {
  provider = provider;
  model = id;
  tier = tier;
  estimated_cost = cost;
  max_context_tokens = 128000;
}

cheapest_top : (route healthy context router).1 ≡ ok (selected "openai" "gpt" top 20)
unfolding route check_health try_tiers create_or create_selected_model select_from select_of
    model_with_id config_named find_model_in_tier sort insert candidates models_in_tier is_usable
    is_tier spells tiers_from select_tier preferred_or tier_of_task task_tier Dict.get Dict.put elem
    string_discrete
cheapest_top = refl

apart : AreNamedApart configs
unfolding config_named string_discrete
apart = (refl, (refl, (refl, tt)))

route_lem_example :
    let (r', result) = route healthy context router in
    let wanted = rank (select_tier context) in
    ((s : SelectedModel) × (result ≡ ok s)
      × IsBest r' [] s
      × (rank s.tier ≤ wanted)
      × ((t : ModelTier) → rank s.tier < rank t → rank t ≤ wanted → HasNone r' [] t))
    ⊎ ((result ≡ raised value_error) × ((t : ModelTier) → rank t ≤ wanted → HasNone r' [] t))
route_lem_example = route_lem healthy context router apart

next_best :
    (fallback healthy (selected "openai" "gpt" top 20) context router).result
    ≡ ok (selected "anthropic" "haiku" low 2)
unfolding fallback chained_or without_chain created any_model from_chain or_next chained offered
    route check_health try_tiers create_or create_selected_model select_from select_of model_with_id
    config_named find_model_in_tier sort insert candidates models_in_tier is_usable is_tier spells
    tiers_from select_tier preferred_or tier_of_task task_tier Dict.get Dict.put elem
    string_discrete
next_best = refl

fallback_avoids_example : ◌≢◌ {A = String} "anthropic" "openai" × ¬ Memᴰ {A = String} "anthropic" []
fallback_avoids_example =
    fallback_avoids healthy (selected "openai" "gpt" top 20) context router
      (selected "anthropic" "haiku" low 2) next_best

abbrev environment : Environment
environment = record {
  healthy = healthy;
  responds = λ _ _. some (record { input_tokens = 100; output_tokens = 20; total_tokens = 120 });
  now = 0;
}

complete_raises_example :
    let reply = complete environment context router in
    ((e : Exn) × (reply.result ≡ raised e))
    × ((story_id : Option String)
        → get_cost_for_story story_id reply.router ≡ get_cost_for_story story_id router)
complete_raises_example = complete_raises environment context router
