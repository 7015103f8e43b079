-- ===== src/Router/Calls.antt =====
-- `fallback`, `complete` and the costs of llm/router.py. `complete` is given what the providers and
-- the clock say during the call, and returns the router, the context, which `fallback` changes, and
-- the response or what was raised.
use fastcoder.Base.{
  ℕ, ◌+◌, ◌*◌, ◌/◌, String, refl, ap, Bool, true, false, not, ◌&&◌, List, [], ◌∷◌, ◌++◌, Option,
  none, some, ite, if◌then◌else◌, elem, string_discrete,
}
use mathlib.Core.Option.{some-injective}
use fastcoder.Base.Dict
use fastcoder.Router.{
  ModelTier, low, mid, top, ModelConfig, ProviderConfig, RoutingContext, SelectedModel, CostTracker,
  add_cost, Router, value_error, attribute_error, Result, ok, raised, config_named, model_with_id,
  create_selected_model, route,
}

-- `TokenUsage` of types/llm.py.
pub record TokenUsage : Type 0 where
  pub input_tokens : ℕ
  pub output_tokens : ℕ
  pub total_tokens : ℕ

-- `getattr(usage, name)`: the fields that the model declares, and no other.
unfoldable pub attribute : String → TokenUsage → Option ℕ
unfolding string_discrete
attribute name usage = ite (string_discrete name "input_tokens") (some usage.input_tokens) (
    ite (string_discrete name "output_tokens") (some usage.output_tokens)
      (ite (string_discrete name "total_tokens") (some usage.total_tokens) none))

-- `responds provider model` is the usage of the response, or `none` where the call raises.
pub record Environment : Type 0 where
  pub healthy : String → Bool
  pub responds : String → String → Option TokenUsage
  pub now : ℕ

unfoldable pub cost_of_tokens : ModelConfig → Option ℕ → Option ℕ → Result ℕ
cost_of_tokens m (some prompt) (some completion) =
    ok (prompt * m.cost_per_1k_input / 1000 + completion * m.cost_per_1k_output / 1000)
cost_of_tokens m (some prompt) none = raised attribute_error
cost_of_tokens m none _ = raised attribute_error

unfoldable pub cost_for : TokenUsage → Option ModelConfig → Result ℕ
unfolding cost_of_tokens attribute
cost_for usage none = ok 0
cost_for usage (some m) =
    cost_of_tokens m (attribute "prompt_tokens" usage) (attribute "completion_tokens" usage)

unfoldable pub models_of : Option ProviderConfig → List ModelConfig
models_of none = []
models_of (some c) = c.models

unfoldable pub calculate_cost : Router → String → String → TokenUsage → Result ℕ
unfolding cost_for config_named model_with_id models_of
calculate_cost r provider model usage =
    cost_for usage (model_with_id model (models_of (config_named provider r.provider_configs)))

-- `context.metadata.get("story_id") if hasattr(context, "metadata") else None`: a `RoutingContext`
-- has no field `metadata`, so the key is `None`.
abbrev pub cost_key : Option String
cost_key = none

unfoldable pub key_discrete : Discrete (Option String)
unfolding string_discrete
key_discrete none none = yes refl
key_discrete none (some k) = no (λ e. cc)
key_discrete (some j) none = no (λ e. cc)
key_discrete (some j) (some k) = elim (string_discrete j k) [
  | yes e ↦ yes (ap some e)
  | no n ↦ no (λ e. n (some-injective _ _ e))
]

-- `if cost_key not in self._cost_trackers: ...`
unfoldable pub ensured : Router → Option CostTracker → Router
unfolding Dict.put key_discrete
ensured r (some _) = r
ensured r none = record r {
  cost_trackers =
      Dict.put key_discrete cost_key (record { total_cost_usd = 0; call_count = 0 })
        r.cost_trackers;
}

unfoldable pub ensure_tracker : Router → Router
unfolding Dict.get ensured key_discrete
ensure_tracker r = ensured r (Dict.get key_discrete cost_key r.cost_trackers)

unfoldable pub charge : ℕ → Router → Router
unfolding Dict.modify key_discrete add_cost
charge cost r = record r {
  cost_trackers = Dict.modify key_discrete cost_key (add_cost cost) r.cost_trackers;
}

abbrev pub total_of : Option CostTracker → ℕ
total_of none = 0
total_of (some t) = t.total_cost_usd

unfoldable pub get_cost_for_story : Option String → Router → ℕ
unfolding Dict.get key_discrete
get_cost_for_story story_id r = total_of (Dict.get key_discrete story_id r.cost_trackers)

-- The first model of a provider that passes the test, where it has one; or else `rest`.
unfoldable pub offered :
    Bool → String → List ModelConfig → Option (String × String) → Option (String × String)
offered _ name [] rest = rest
offered true name (m ∷ _) rest = some (name, m.id)
offered false name (m ∷ _) rest = rest

-- The first configuration that is named and has a model.
unfoldable pub chained : String → List ProviderConfig → Option (String × String)
unfolding offered string_discrete
chained name [] = none
chained name (c ∷ cs) =
    offered (ite (string_discrete c.name name) true false) c.name c.models (chained name cs)

unfoldable pub or_next :
    Option (String × String) → Option (String × String) → Option (String × String)
or_next none rest = rest
or_next (some pair) rest = some pair

-- The loop on the fallback chain.
unfoldable pub from_chain :
    List String → List ProviderConfig → List String → Option (String × String)
unfolding chained or_next elem string_discrete
from_chain exclude configs [] = none
from_chain exclude configs (name ∷ names) =
    let rest = from_chain exclude configs names in
    if elem string_discrete name exclude then rest else or_next (chained name configs) rest

-- The loop of the last resort.
unfoldable pub any_model : List String → List ProviderConfig → Option (String × String)
unfolding offered elem string_discrete
any_model exclude [] = none
any_model exclude (c ∷ cs) =
    offered (c.enabled && not (elem string_discrete c.name exclude)) c.name c.models
      (any_model exclude cs)

pub record Reply (A : Type 0) : Type 0 where
  pub router : Router
  pub context : RoutingContext
  pub result : Result A

-- `_create_selected_model` on a pair that was found, and the error where none was.
unfoldable pub created : Router → ModelTier → Option (String × String) → Result SelectedModel
unfolding create_selected_model
created r tier none = raised value_error
created r tier (some (provider, model)) = create_selected_model r provider model tier

unfoldable pub without_chain :
    (String → Bool) → List String → ModelTier → RoutingContext → Router → Reply SelectedModel
unfolding route any_model created
without_chain healthy exclude top context r =
    let context' = record context { exclude_providers = exclude; preferred_tier = some mid } in
    let (r', result) = route healthy context' r in
    record { router = r'; context = context'; result = result }
without_chain healthy exclude _ context r = record {
  router = r;
  context = context;
  result = created r low (any_model exclude r.provider_configs);
}

abbrev pub excluded : SelectedModel → RoutingContext → List String
excluded failed_model context = context.exclude_providers ++ failed_model.provider ∷ []

unfoldable pub chained_or :
    (String → Bool)
    → SelectedModel
    → RoutingContext
    → Router
    → Option (String × String)
    → Reply SelectedModel
unfolding without_chain created
chained_or healthy failed_model context r (some pair) = record {
  router = r;
  context = context;
  result = created r failed_model.tier (some pair);
}
chained_or healthy failed_model context r none =
    without_chain healthy (excluded failed_model context) failed_model.tier context r

unfoldable pub fallback :
    (String → Bool) → SelectedModel → RoutingContext → Router → Reply SelectedModel
unfolding from_chain chained_or
fallback healthy failed_model context r =
    chained_or healthy failed_model context r
      (from_chain (excluded failed_model context) r.provider_configs r.fallback_chain)
