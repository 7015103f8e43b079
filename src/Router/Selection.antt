-- ===== src/Router/Selection.antt =====
-- What `route` and `fallback` of llm/router.py select.
use fastcoder.Base.{
  ℕ, ◌≤◌, ◌<◌, String, ◌≡◌, refl, ap, sym, subst, ◌∙◌, ◌⊎◌, inl, inr, ⊎_elim, Bool, List, [], ◌∷◌,
  Memᴰ, none, some, arith, string_discrete,
}
use mathlib.Core.List.Memᴰ
use fastcoder.Router.{
  ModelTier, low, mid, top, ModelConfig, ProviderConfig, RoutingContext, SelectedModel, Router, ok,
  raised, value_error, select_tier, cost_of, config_named, model_with_id, select_of, select_from,
  create_selected_model, create_or, tiers_from, try_tiers, route,
}
use fastcoder.Router.Candidates.{IsAvailable, find_model_in_tier_cases}

abbrev pub rank : ModelTier → ℕ
rank low = 0
rank mid = 1
rank top = 2

-- No two configurations have the same name.
abbrev pub AreNamedApart : List ProviderConfig → Type 0
AreNamedApart [] = Unit
AreNamedApart (c ∷ cs) = (config_named c.name cs ≡ none) × AreNamedApart cs

config_named-mem :
    (c : ProviderConfig) (cs : List ProviderConfig)
    → AreNamedApart cs
    → Memᴰ c cs
    → config_named c.name cs ≡ some c
unfolding config_named
config_named-mem c [] a m = absurd (Memᴰ.not-nil m)
config_named-mem c (d ∷ cs) (n, a) (Memᴰ.head e) =
    let same : c.name ≡ d.name = ap ProviderConfig.name e in
    let value : some d ≡ some c = ap some (sym e) in ground arith
config_named-mem c (d ∷ cs) (n, a) (Memᴰ.tail m) = ground (arith, config_named-mem c cs a m)

model_with_id-mem :
    (m : ModelConfig) (ms : List ModelConfig)
    → Memᴰ m ms
    → (n : ModelConfig) × (model_with_id m.id ms ≡ some n)
unfolding model_with_id
model_with_id-mem m [] i = absurd (Memᴰ.not-nil i)
model_with_id-mem m (n ∷ ms) i = elim (string_discrete n.id m.id) [
  | yes same ↦ (n, ground arith)
  | no other ↦
      let later =
        ⊎_elim (λ e. absurd (other (ap ModelConfig.id (sym e)))) (λ j. j) (Memᴰ.cases_cons i) in
      let (k, e) = model_with_id-mem m ms later in (k, ground arith)
]

-- A model was selected in `tier`: a cheapest one of those that are available there.
pub record IsBest (r : Router) (exclude : List String) (s : SelectedModel) : Type 0 where
  pub config : ProviderConfig
  pub model : ModelConfig
  pub available : IsAvailable r exclude s.tier config model
  pub provider : s.provider ≡ config.name
  pub id : s.model ≡ model.id
  pub cheapest :
      (d : ProviderConfig) (n : ModelConfig)
      → IsAvailable r exclude s.tier d n
      → cost_of model ≤ cost_of n

-- No model is available in the tier.
abbrev pub HasNone : Router → List String → ModelTier → Type 0
HasNone r exclude tier = (d : ProviderConfig) (n : ModelConfig) → ¬ IsAvailable r exclude tier d n

abbrev IsDescending : List ModelTier → Type 0
IsDescending [] = Unit
IsDescending (t ∷ ts) = ((u : ModelTier) → Memᴰ u ts → rank u ≤ rank t) × IsDescending ts

module _ (r : Router) (exclude : List String) (apart : AreNamedApart r.provider_configs) where
  create-IsBest :
      (tier : ModelTier) (c : ProviderConfig) (m : ModelConfig)
      → IsAvailable r exclude tier c m
      → ((d : ProviderConfig) (n : ModelConfig)
          → IsAvailable r exclude tier d n
          → cost_of m ≤ cost_of n)
      → (s : SelectedModel) × (create_selected_model r c.name m.id tier ≡ ok s)
        × (s.tier ≡ tier)
        × IsBest r exclude s
  unfolding create_selected_model select_from select_of
  create-IsBest tier c m a least =
      let (n, e) = model_with_id-mem m c.models a.offered in
      let e' = config_named-mem c r.provider_configs apart a.configured in
      (
        record {
          provider = c.name;
          model = m.id;
          tier = tier;
          estimated_cost = cost_of n;
          max_context_tokens = n.max_context_tokens;
        },
        ap (select_from c.name m.id tier) e' ∙ ap (select_of c.name m.id tier) e,
        refl,
        record {
          config = c;
          model = m;
          available = a;
          provider = refl;
          id = refl;
          cheapest = least;
        },
      )

  -- The tiers before the one of the selected model have no available model.
  try_tiers_cases :
      (tiers : List ModelTier)
      → IsDescending tiers
      → ((s : SelectedModel) × (try_tiers r exclude tiers ≡ ok s)
          × IsBest r exclude s
          × Memᴰ s.tier tiers
          × ((t : ModelTier) → Memᴰ t tiers → rank s.tier < rank t → HasNone r exclude t))
        ⊎ ((try_tiers r exclude tiers ≡ raised value_error)
            × ((t : ModelTier) → Memᴰ t tiers → HasNone r exclude t))
  unfolding try_tiers create_or
  try_tiers_cases [] d = inr (refl, λ t m. absurd (Memᴰ.not-nil m))
  try_tiers_cases (tier ∷ tiers) (first, d) = elim (find_model_in_tier_cases r tier exclude) [
    | inl (c, m, e, a, least) ↦
        let (s, created, same, best) = create-IsBest tier c m a least in
        inl (
          s,
          ap (λ o. create_or r tier o (try_tiers r exclude tiers)) e ∙ created,
          best,
          Memᴰ.head same,
          λ t i lt. absurd (
              omega (
                arith,
                ap rank same,
                ⊎_elim (λ e. omega (arith, ap rank e)) (first t) (Memᴰ.cases_cons i),
                lt,
              )),
        )
    | inr (e, nothing) ↦
        let skip = ap (λ o. create_or r tier o (try_tiers r exclude tiers)) e in
        elim (try_tiers_cases tiers d) [
          | inl (s, found, best, i, above) ↦ inl (
            s,
            skip ∙ found,
            best,
            Memᴰ.tail i,
            λ t j lt.
                ⊎_elim (λ same. subst (HasNone r exclude) (sym same) nothing) (λ k. above t k lt)
                  (Memᴰ.cases_cons j),
          )
          | inr (failed, none_left) ↦ inr (
            skip ∙ failed,
            λ t j.
                ⊎_elim (λ same. subst (HasNone r exclude) (sym same) nothing) (none_left t)
                  (Memᴰ.cases_cons j),
          )
        ]
  ]

rank_le_cons :
    (tier t : ModelTier) (tiers : List ModelTier)
    → ((u : ModelTier) → Memᴰ u tiers → rank u ≤ rank tier)
    → Memᴰ t (tier ∷ tiers)
    → rank t ≤ rank tier
rank_le_cons tier t tiers h m = ⊎_elim (λ e. omega (arith, ap rank e)) (h t) (Memᴰ.cases_cons m)

below_low : (t : ModelTier) → Memᴰ t (low ∷ []) → rank t ≤ 0
below_low t m = rank_le_cons low t [] (λ u i. absurd (Memᴰ.not-nil i)) m

below_mid : (t : ModelTier) → Memᴰ t (mid ∷ low ∷ []) → rank t ≤ 1
below_mid t m = rank_le_cons mid t (low ∷ []) (λ u i. omega (arith, below_low u i)) m

rank_le_of_mem : (tier t : ModelTier) → Memᴰ t (tiers_from tier) → rank t ≤ rank tier
unfolding tiers_from
rank_le_of_mem low t m = below_low t m
rank_le_of_mem mid t m = below_mid t m
rank_le_of_mem top t m = rank_le_cons top t (mid ∷ low ∷ []) (λ u i. omega (arith, below_mid u i)) m

tiers_from-IsDescending : (tier : ModelTier) → IsDescending (tiers_from tier)
unfolding tiers_from
tiers_from-IsDescending low = (λ u m. absurd (Memᴰ.not-nil m), tt)
tiers_from-IsDescending mid =
    (λ u m. omega (arith, below_low u m), (λ u m. absurd (Memᴰ.not-nil m), tt))
tiers_from-IsDescending top = (
  λ u m. omega (arith, below_mid u m),
  (λ u m. omega (arith, below_low u m), (λ u m. absurd (Memᴰ.not-nil m), tt)),
)

tiers_from-mem : (tier t : ModelTier) → rank t ≤ rank tier → Memᴰ t (tiers_from tier)
unfolding tiers_from
tiers_from-mem top top h = Memᴰ.head refl
tiers_from-mem top mid h = Memᴰ.tail (Memᴰ.head refl)
tiers_from-mem top low h = Memᴰ.tail (Memᴰ.tail (Memᴰ.head refl))
tiers_from-mem mid top h = absurd (omega arith)
tiers_from-mem mid mid h = Memᴰ.head refl
tiers_from-mem mid low h = Memᴰ.tail (Memᴰ.head refl)
tiers_from-mem low top h = absurd (omega arith)
tiers_from-mem low mid h = absurd (omega arith)
tiers_from-mem low low h = Memᴰ.head refl

-- Where no two providers have the same name: `route` returns a model that is available (its provider
-- is enabled, not excluded and not known to be unhealthy), a cheapest one of its tier, and of the
-- highest tier up to the wanted one that has an available model; it raises a ValueError exactly where
-- no tier up to the wanted one has any.
pub route_lem :
    (healthy : String → Bool) (context : RoutingContext) (r : Router)
    → AreNamedApart r.provider_configs
    → let (r', result) = route healthy context r in
      let exclude = context.exclude_providers in
      let wanted = rank (select_tier context) in
      ((s : SelectedModel) × (result ≡ ok s)
        × IsBest r' exclude s
        × (rank s.tier ≤ wanted)
        × ((t : ModelTier) → rank s.tier < rank t → rank t ≤ wanted → HasNone r' exclude t))
      ⊎ ((result ≡ raised value_error) × ((t : ModelTier) → rank t ≤ wanted → HasNone r' exclude t))
unfolding route
route_lem healthy context r apart =
    let r' = (route healthy context r).0 in
    let tier = select_tier context in
    elim (try_tiers_cases r' context.exclude_providers apart (tiers_from tier)
      (tiers_from-IsDescending tier)) [
        | inl (s, found, best, m, above) ↦ inl (
          s,
          found,
          best,
          rank_le_of_mem tier s.tier m,
          λ t lt le. above t (tiers_from-mem tier t le) lt,
        )
        | inr (failed, nothing) ↦ inr (failed, λ t le. nothing t (tiers_from-mem tier t le))
      ]
