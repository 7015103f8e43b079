-- ===== src/Router/Fallback.antt =====
-- `fallback` of llm/router.py does not select what failed.
use fastcoder.Base.{
  String, ◌≡◌, refl, ◌≢◌, sym, subst, ◌∙◌, inl, inr, Bool, true, false, List, [], ◌∷◌, Memᴰ, Option,
  none, some, arith, if_ind, elem, elem-eq-true_iff, string_discrete,
}
use mathlib.Core.List.Memᴰ
use fastcoder.Router.{
  ModelTier, low, mid, top, ModelConfig, ProviderConfig, RoutingContext, SelectedModel, Router,
  Result, ok, raised, select_of, select_from, create_selected_model, config_named, model_with_id,
  is_usable, create_or, try_tiers, tiers_from, select_tier, route,
}
use fastcoder.Router.Candidates.{find_model_in_tier_cases}
use fastcoder.Router.Calls.{
  offered, or_next, chained, from_chain, any_model, created, without_chain, excluded, chained_or,
  fallback,
}

-- The result is no model, or one of a provider that is not in `exclude`.
IsOutside : List String → Result SelectedModel → Type 0
IsOutside exclude (ok m) = ¬ Memᴰ m.provider exclude
IsOutside exclude (raised e) = Unit

abbrev Outside : List String → Option (String × String) → Type 0
Outside exclude none = Unit
Outside exclude (some (name, _)) = ¬ Memᴰ name exclude

create_selected_model-IsOutside :
    (exclude : List String) (r : Router) (name model : String) (tier : ModelTier)
    → ¬ Memᴰ name exclude
    → IsOutside exclude (create_selected_model r name model tier)
unfolding create_selected_model select_from select_of IsOutside
create_selected_model-IsOutside exclude r name model tier n =
    by_config (config_named name r.provider_configs)
  where
    by_model : (o : Option ModelConfig) → IsOutside exclude (select_of name model tier o)
    by_model none = tt
    by_model (some m) = n

    by_config : (o : Option ProviderConfig) → IsOutside exclude (select_from name model tier o)
    by_config none = tt
    by_config (some c) = by_model (model_with_id model c.models)

created-IsOutside :
    (exclude : List String) (r : Router) (tier : ModelTier) (o : Option (String × String))
    → Outside exclude o
    → IsOutside exclude (created r tier o)
unfolding created IsOutside
created-IsOutside exclude r tier none n = tt
created-IsOutside exclude r tier (some (name, model)) n =
    create_selected_model-IsOutside exclude r name model tier n

elem-false :
    (name : String) (exclude : List String)
    → elem string_discrete name exclude ≡ false
    → ¬ Memᴰ name exclude
elem-false name exclude e m = cc (sym e ∙ (elem-eq-true_iff string_discrete name exclude).1 m)

offered-Outside :
    (exclude : List String) (b : Bool) (name : String) (ms : List ModelConfig)
    (rest : Option (String × String))
    → (b ≡ true → ¬ Memᴰ name exclude)
    → Outside exclude rest
    → Outside exclude (offered b name ms rest)
unfolding offered
offered-Outside exclude b name [] rest n h = h
offered-Outside exclude true name (m ∷ _) rest n h = n refl
offered-Outside exclude false name (m ∷ _) rest n h = h

or_next-Outside :
    (exclude : List String) (o rest : Option (String × String))
    → Outside exclude o
    → Outside exclude rest
    → Outside exclude (or_next o rest)
unfolding or_next
or_next-Outside exclude none rest h h' = h'
or_next-Outside exclude (some pair) rest h h' = h

chained-Outside :
    (exclude : List String) (name : String) (cs : List ProviderConfig)
    → ¬ Memᴰ name exclude
    → Outside exclude (chained name cs)
unfolding chained
chained-Outside exclude name [] n = tt
chained-Outside exclude name (c ∷ cs) n =
    offered-Outside exclude _ c.name c.models (chained name cs)
      (λ e.
        subst (λ x. ¬ Memᴰ x exclude)
          (elim (string_discrete c.name name) [
            | yes same ↦ sym same
            | no other ↦ absurd (ground arith)
          ])
          n)
      (chained-Outside exclude name cs n)

from_chain-Outside :
    (exclude : List String) (cs : List ProviderConfig) (names : List String)
    → Outside exclude (from_chain exclude cs names)
unfolding from_chain
from_chain-Outside exclude cs [] = tt
from_chain-Outside exclude cs (name ∷ names) =
    let rest = from_chain-Outside exclude cs names in
    if_ind (Outside exclude) (elem string_discrete name exclude) (λ _. rest)
      (λ e.
        or_next-Outside exclude (chained name cs) (from_chain exclude cs names)
          (chained-Outside exclude name cs (elem-false name exclude e)) rest)

any_model-Outside :
    (exclude : List String) (cs : List ProviderConfig) → Outside exclude (any_model exclude cs)
unfolding any_model
any_model-Outside exclude [] = tt
any_model-Outside exclude (c ∷ cs) =
    offered-Outside exclude _ c.name c.models (any_model exclude cs)
      (λ e. elem-false c.name exclude (ground arith)) (any_model-Outside exclude cs)

usable-elem :
    (r : Router) (exclude : List String) (c : ProviderConfig)
    → is_usable r exclude c ≡ true
    → elem string_discrete c.name exclude ≡ false
unfolding is_usable
usable-elem r exclude c u = ground arith

try_tiers-IsOutside :
    (r : Router) (exclude : List String) (tiers : List ModelTier)
    → IsOutside exclude (try_tiers r exclude tiers)
unfolding try_tiers create_or IsOutside
try_tiers-IsOutside r exclude [] = tt
try_tiers-IsOutside r exclude (tier ∷ tiers) = elim (find_model_in_tier_cases r tier exclude) [
  | inl (c, m, e, a, _) ↦
      subst (λ o. IsOutside exclude (create_or r tier o (try_tiers r exclude tiers))) (sym e)
        (create_selected_model-IsOutside exclude r c.name m.id tier
          (elem-false c.name exclude (usable-elem r exclude c a.usable)))
  | inr (e, _) ↦
      subst (λ o. IsOutside exclude (create_or r tier o (try_tiers r exclude tiers))) (sym e)
        (try_tiers-IsOutside r exclude tiers)
]

route-IsOutside :
    (healthy : String → Bool) (context : RoutingContext) (r : Router)
    → IsOutside context.exclude_providers (route healthy context r).1
unfolding route
route-IsOutside healthy context r =
    try_tiers-IsOutside (route healthy context r).0 context.exclude_providers
      (tiers_from (select_tier context))

without_chain-IsOutside :
    (healthy : String → Bool) (exclude : List String) (tier : ModelTier) (context : RoutingContext)
    (r : Router)
    → IsOutside exclude (without_chain healthy exclude tier context r).result
unfolding without_chain
without_chain-IsOutside healthy exclude top context r =
    route-IsOutside healthy
      (record context { exclude_providers = exclude; preferred_tier = some mid }) r
without_chain-IsOutside healthy exclude mid context r =
    created-IsOutside exclude r low _ (any_model-Outside exclude r.provider_configs)
without_chain-IsOutside healthy exclude low context r =
    created-IsOutside exclude r low _ (any_model-Outside exclude r.provider_configs)

fallback-IsOutside :
    (healthy : String → Bool) (failed_model : SelectedModel) (context : RoutingContext) (r : Router)
    → IsOutside (excluded failed_model context) (fallback healthy failed_model context r).result
unfolding fallback
fallback-IsOutside healthy failed_model context r =
    by_chain (from_chain exclude r.provider_configs r.fallback_chain)
      (from_chain-Outside exclude r.provider_configs r.fallback_chain)
  where
    exclude : List String
    exclude = excluded failed_model context

    by_chain :
        (o : Option (String × String))
        → Outside exclude o
        → IsOutside exclude (chained_or healthy failed_model context r o).result
    by_chain none h = without_chain-IsOutside healthy exclude failed_model.tier context r
    by_chain (some pair) h = created-IsOutside exclude r failed_model.tier (some pair) h

-- `fallback` never returns a model of the provider that failed, nor of one that the context excludes,
-- whichever of the chain, the middle tier and the last resort it comes from.
pub fallback_avoids :
    (healthy : String → Bool) (failed_model : SelectedModel) (context : RoutingContext) (r : Router)
    (m : SelectedModel)
    → (fallback healthy failed_model context r).result ≡ ok m
    → (m.provider ≢ failed_model.provider) × ¬ Memᴰ m.provider context.exclude_providers
unfolding IsOutside
fallback_avoids healthy failed_model context r m e =
    let n =
      subst (IsOutside (excluded failed_model context)) e
        (fallback-IsOutside healthy failed_model context r) in
    (
      λ same. n (Memᴰ.append_right context.exclude_providers (Memᴰ.head same)),
      λ i. n (Memᴰ.append_left _ i),
    )
