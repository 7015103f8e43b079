-- ===== src/Router.antt =====
-- llm/router.py: the choice of a model for a request. What the providers answer is an argument
-- (`Environment`). Prices are whole micro-dollars, and complexities whole tenths.
pub mod Calls
pub mod Complete
pub mod Candidates
pub mod Selection
pub mod Configured
pub mod Fallback
pub mod Failure
mod Examples
use Prim.Native.Char.{Char, code}
use Prim.Native.String.{[] as ε, ◌∷◌ as ◌∷ₛ◌}
use fastcoder.Base.{
  ℕ, ◌+◌, ◌*◌, ◌/◌, String, Bool, true, false, not, ◌&&◌, ◌||◌, List, [], ◌∷◌, ◌++◌, Option, none,
  some, ite, ◌==◌, leb, ltb, if◌then◌else◌, elem, string_discrete,
}
use fastcoder.Base.Dict
use fastcoder.Base.Dict.{Dict}
use fastcoder.Circuit.Registry.{Registry}

pub data ModelTier : Type 0 where
  low mid top : ModelTier

pub data TaskPurpose : Type 0 where
  story_analysis planning code_generation test_generation code_review error_analysis documentation
        commit_message self_reflection :
      TaskPurpose

pub record ModelConfig : Type 0 where
  pub id : String
  pub tier : String
  pub max_context_tokens : ℕ
  pub cost_per_1k_input : ℕ
  pub cost_per_1k_output : ℕ

pub record ProviderConfig : Type 0 where
  pub name : String
  pub models : List ModelConfig
  pub enabled : Bool

pub record RoutingContext : Type 0 where
  pub purpose : TaskPurpose
  pub complexity_score : ℕ
  pub preferred_tier : Option ModelTier
  pub exclude_providers : List String

-- `estimated_cost` is twice `estimated_cost_per_1k_tokens`: the prices' sum, where the code halves it.
pub record SelectedModel : Type 0 where
  pub provider : String
  pub model : String
  pub tier : ModelTier
  pub estimated_cost : ℕ
  pub max_context_tokens : ℕ

pub record CostTracker : Type 0 where
  pub total_cost_usd : ℕ
  pub call_count : ℕ

unfoldable pub add_cost : ℕ → CostTracker → CostTracker
add_cost cost_usd t = record {
  total_cost_usd = t.total_cost_usd + cost_usd;
  call_count = t.call_count + 1;
}

-- `providers` are the names of the providers that were initialised; the cache has whether a
-- provider was healthy.
pub record Router : Type 0 where
  pub provider_configs : List ProviderConfig
  pub fallback_chain : List String
  pub providers : List String
  pub health_cache : Dict String Bool
  pub cost_trackers : Dict (Option String) CostTracker
  pub circuit_breakers : Registry

pub data Exn : Type 0 where
  value_error attribute_error provider_error : Exn

pub data Result (A : Type 0) : Type 0 where
  ok : A → Result A
  raised : Exn → Result A

unfoldable pub task_tier : TaskPurpose → ModelTier
task_tier story_analysis = mid
task_tier planning = top
task_tier code_generation = top
task_tier test_generation = mid
task_tier code_review = top
task_tier error_analysis = top
task_tier documentation = low
task_tier commit_message = low
task_tier self_reflection = mid

unfoldable pub tier_of_task : ℕ → TaskPurpose → ModelTier
unfolding task_tier
tier_of_task score code_generation =
    if ltb 70 score then top else if ltb score 30 then mid else task_tier code_generation
tier_of_task score purpose = task_tier purpose

unfoldable pub preferred_or : ModelTier → Option ModelTier → ModelTier
preferred_or tier none = tier
preferred_or tier (some preferred) = preferred

unfoldable pub select_tier : RoutingContext → ModelTier
unfolding tier_of_task preferred_or
select_tier context =
    preferred_or (tier_of_task context.complexity_score context.purpose) context.preferred_tier

-- Whether `s.lower()` is the text whose letters, small and capital, are given.
unfoldable pub spells : List (Char × Char) → String → Bool
spells [] ε = true
spells [] (c ∷ₛ s) = false
spells (l ∷ ls) ε = false
spells ((small, capital) ∷ ls) (c ∷ₛ s) =
    (code c == code small || code c == code capital) && spells ls s

-- `model.tier.lower() == tier.value`
unfoldable pub is_tier : ModelTier → String → Bool
unfolding spells
is_tier low = spells (("l", "L") ∷ ("o", "O") ∷ ("w", "W") ∷ [])
is_tier mid = spells (("m", "M") ∷ ("i", "I") ∷ ("d", "D") ∷ [])
is_tier top = spells (("t", "T") ∷ ("o", "O") ∷ ("p", "P") ∷ [])

-- A name, an id and the sum of the prices.
pub record Candidate : Type 0 where
  pub provider : String
  pub model : String
  pub cost : ℕ

abbrev pub cost_of : ModelConfig → ℕ
cost_of m = m.cost_per_1k_input + m.cost_per_1k_output

unfoldable pub models_in_tier : ModelTier → String → List ModelConfig → List Candidate
unfolding is_tier
models_in_tier tier name [] = []
models_in_tier tier name (m ∷ ms) =
    let rest = models_in_tier tier name ms in
    if is_tier tier m.tier
    then record { provider = name; model = m.id; cost = cost_of m } ∷ rest
    else rest

abbrev pub not_unhealthy : Option Bool → Bool
not_unhealthy none = true
not_unhealthy (some healthy) = healthy

-- What the loop passes over with `continue`.
unfoldable pub is_usable : Router → List String → ProviderConfig → Bool
unfolding elem Dict.get string_discrete
is_usable r exclude c =
    c.enabled
    && not (elem string_discrete c.name exclude)
    && not_unhealthy (Dict.get string_discrete c.name r.health_cache)

unfoldable pub candidates : Router → ModelTier → List String → List ProviderConfig → List Candidate
unfolding models_in_tier is_usable
candidates r tier exclude [] = []
candidates r tier exclude (c ∷ cs) =
    let rest = candidates r tier exclude cs in
    if is_usable r exclude c then models_in_tier tier c.name c.models ++ rest else rest

-- `candidates.sort(key=lambda x: x[2])`, which is stable.
unfoldable pub insert : Candidate → List Candidate → List Candidate
insert c [] = c ∷ []
insert c (d ∷ ds) = if leb c.cost d.cost then c ∷ d ∷ ds else d ∷ insert c ds

unfoldable pub sort : List Candidate → List Candidate
unfolding insert
sort [] = []
sort (c ∷ cs) = insert c (sort cs)

abbrev pub head? : List Candidate → Option Candidate
head? [] = none
head? (c ∷ _) = some c

unfoldable pub find_model_in_tier : Router → ModelTier → List String → Option Candidate
unfolding candidates sort
find_model_in_tier r tier exclude = head? (sort (candidates r tier exclude r.provider_configs))

-- `next((c for c in configs if c.name == name), None)`
unfoldable pub config_named : String → List ProviderConfig → Option ProviderConfig
unfolding string_discrete
config_named name [] = none
config_named name (c ∷ cs) =
    let rest = config_named name cs in ite (string_discrete c.name name) (some c) rest

unfoldable pub model_with_id : String → List ModelConfig → Option ModelConfig
unfolding string_discrete
model_with_id id [] = none
model_with_id id (m ∷ ms) =
    let rest = model_with_id id ms in ite (string_discrete m.id id) (some m) rest

unfoldable pub select_of : String → String → ModelTier → Option ModelConfig → Result SelectedModel
select_of provider model tier none = raised value_error
select_of provider model tier (some m) = ok (record {
  provider = provider;
  model = model;
  tier = tier;
  estimated_cost = cost_of m;
  max_context_tokens = m.max_context_tokens;
})

unfoldable pub select_from :
    String → String → ModelTier → Option ProviderConfig → Result SelectedModel
unfolding select_of model_with_id
select_from provider model tier none = raised value_error
select_from provider model tier (some c) =
    select_of provider model tier (model_with_id model c.models)

unfoldable pub create_selected_model : Router → String → String → ModelTier → Result SelectedModel
unfolding select_from config_named
create_selected_model r provider model tier =
    select_from provider model tier (config_named provider r.provider_configs)

-- The providers' health checks, in the loop at the beginning of `route`.
unfoldable pub check_health : (String → Bool) → List String → Dict String Bool → Dict String Bool
unfolding Dict.get Dict.put string_discrete
check_health healthy [] cache = cache
check_health healthy (name ∷ names) cache = elim (Dict.get string_discrete name cache) [
  | some _ ↦ check_health healthy names cache
  | none ↦ check_health healthy names (Dict.put string_discrete name (healthy name) cache)
]

-- The tiers that `route` tries, in order.
unfoldable pub tiers_from : ModelTier → List ModelTier
tiers_from top = top ∷ mid ∷ low ∷ []
tiers_from mid = mid ∷ low ∷ []
tiers_from low = low ∷ []

unfoldable pub create_or :
    Router → ModelTier → Option Candidate → Result SelectedModel → Result SelectedModel
unfolding create_selected_model
create_or r tier (some c) otherwise = create_selected_model r c.provider c.model tier
create_or r tier none otherwise = otherwise

unfoldable pub try_tiers : Router → List String → List ModelTier → Result SelectedModel
unfolding create_or find_model_in_tier
try_tiers r exclude [] = raised value_error
try_tiers r exclude (tier ∷ tiers) =
    create_or r tier (find_model_in_tier r tier exclude) (try_tiers r exclude tiers)

unfoldable pub route : (String → Bool) → RoutingContext → Router → Router × Result SelectedModel
unfolding check_health try_tiers tiers_from select_tier
route healthy context r =
    let r' = record r { health_cache = check_health healthy r.providers r.health_cache } in
    (r', try_tiers r' context.exclude_providers (tiers_from (select_tier context)))
