-- ===== src/Router/Candidates.antt =====
-- The candidates of a tier in llm/router.py, and the one that `_find_model_in_tier` takes.
use fastcoder.Base.{
  ◌≤◌, String, ◌≡◌, refl, ap, sym, subst, ◌∙◌, ◌⊎◌, inl, inr, ⊎_elim, true, List, [], ◌∷◌, Memᴰ,
  Option, none, some, arith, leb, if_ind, leb→le, All, All-mem, All-append,
}
use mathlib.Core.List.Memᴰ
use fastcoder.Router.{
  ModelTier, ModelConfig, ProviderConfig, Router, Candidate, is_tier, cost_of, models_in_tier,
  is_usable, candidates, insert, sort, head?, find_model_in_tier,
}

-- A model that can be chosen in a tier, with its provider.
pub record IsAvailable (r : Router) (exclude : List String) (tier : ModelTier) (c : ProviderConfig)
    (m : ModelConfig) : Type 0 where
  pub configured : Memᴰ c r.provider_configs
  pub usable : is_usable r exclude c ≡ true
  pub offered : Memᴰ m c.models
  pub in_tier : is_tier tier m.tier ≡ true

abbrev pub candidate : ProviderConfig → ModelConfig → Candidate
candidate c m = record { provider = c.name; model = m.id; cost = cost_of m }

mem-models_in_tier :
    (tier : ModelTier) (name : String) (ms : List ModelConfig) (m : ModelConfig)
    → Memᴰ m ms
    → is_tier tier m.tier ≡ true
    → Memᴰ
        (record { provider = name; model = m.id; cost = cost_of m })
        (models_in_tier tier name ms)
unfolding models_in_tier
mem-models_in_tier tier name [] m i e = absurd (Memᴰ.not-nil i)
mem-models_in_tier tier name (n ∷ ms) m (Memᴰ.head same) e =
    if_ind (Memᴰ _) (is_tier tier n.tier)
      (λ _. Memᴰ.head (ap (λ x. record { provider = name; model = x.id; cost = cost_of x }) same))
      (λ other. absurd (cc (sym other ∙ ap (λ x. is_tier tier x.tier) (sym same) ∙ e)))
mem-models_in_tier tier name (n ∷ ms) m (Memᴰ.tail i) e =
    if_ind (Memᴰ _) (is_tier tier n.tier) (λ _. Memᴰ.tail (mem-models_in_tier tier name ms m i e))
      (λ _. mem-models_in_tier tier name ms m i e)

-- What a candidate comes from.
From : ModelTier → ProviderConfig → Candidate → Type 0
From tier c x =
    (m : ModelConfig) × Memᴰ m c.models × (is_tier tier m.tier ≡ true) × (x ≡ candidate c m)

models_in_tier-From :
    (tier : ModelTier) (c : ProviderConfig) (ms : List ModelConfig)
    → ((m : ModelConfig) → Memᴰ m ms → Memᴰ m c.models)
    → All (From tier c) (models_in_tier tier c.name ms)
unfolding models_in_tier From
models_in_tier-From tier c [] sub = tt
models_in_tier-From tier c (m ∷ ms) sub =
    let rest = models_in_tier-From tier c ms (λ n i. sub n (Memᴰ.tail i)) in
    if_ind (All (From tier c)) (is_tier tier m.tier)
      (λ e. ((m, sub m (Memᴰ.head refl), e, refl), rest)) (λ _. rest)

-- The first candidate after the sort is a cheapest one.
IsCheapest : List Candidate → Option Candidate → Type 0
IsCheapest xs none = xs ≡ []
IsCheapest xs (some x) = Memᴰ x xs × ((y : Candidate) → Memᴰ y xs → x.cost ≤ y.cost)

insert-IsCheapest :
    (c : Candidate) (xs ys : List Candidate)
    → IsCheapest xs (head? ys)
    → IsCheapest (c ∷ xs) (head? (insert c ys))
unfolding insert IsCheapest
insert-IsCheapest c xs [] h = (
  Memᴰ.head refl,
  λ y m.
      ⊎_elim (λ e. omega (arith, ap Candidate.cost e))
        (λ i. absurd (Memᴰ.not-nil (subst (Memᴰ y) h i))) (Memᴰ.cases_cons m),
)
insert-IsCheapest c xs (y ∷ ys) (i, least) =
    if_ind (λ zs. IsCheapest (c ∷ xs) (head? zs)) (leb c.cost y.cost)
      (λ le. (
        Memᴰ.head refl,
        λ z m.
            ⊎_elim (λ e. omega (arith, ap Candidate.cost e))
              (λ j. omega (arith, least z j, leb→le c.cost y.cost le)) (Memᴰ.cases_cons m),
      ))
      (λ gt. (
        Memᴰ.tail i,
        λ z m. ⊎_elim (λ e. ground (arith, ap Candidate.cost e)) (least z) (Memᴰ.cases_cons m),
      ))

sort-IsCheapest : (xs : List Candidate) → IsCheapest xs (head? (sort xs))
unfolding sort IsCheapest
sort-IsCheapest [] = refl
sort-IsCheapest (x ∷ xs) = insert-IsCheapest x xs (sort xs) (sort-IsCheapest xs)

mem-candidates :
    (r : Router) (tier : ModelTier) (exclude : List String) (cs : List ProviderConfig)
    (c : ProviderConfig) (m : ModelConfig)
    → Memᴰ c cs
    → is_usable r exclude c ≡ true
    → Memᴰ m c.models
    → is_tier tier m.tier ≡ true
    → Memᴰ (candidate c m) (candidates r tier exclude cs)
unfolding candidates
mem-candidates r tier exclude [] c m i u j e = absurd (Memᴰ.not-nil i)
mem-candidates r tier exclude (d ∷ cs) c m (Memᴰ.head same) u j e =
    if_ind (Memᴰ (candidate c m)) (is_usable r exclude d)
      (λ _. Memᴰ.append_left _ (
        subst (λ x. Memᴰ (candidate c m) (models_in_tier tier x.name x.models)) same
          (mem-models_in_tier tier c.name c.models m j e)))
      (λ other. absurd (cc (sym other ∙ ap (is_usable r exclude) (sym same) ∙ u)))
mem-candidates r tier exclude (d ∷ cs) c m (Memᴰ.tail i) u j e =
    let rest = mem-candidates r tier exclude cs c m i u j e in
    if_ind (Memᴰ (candidate c m)) (is_usable r exclude d) (λ _. Memᴰ.append_right _ rest)
      (λ _. rest)

-- What a candidate of some configurations comes from.
FromSome : Router → List String → ModelTier → List ProviderConfig → Candidate → Type 0
unfolding From
FromSome r exclude tier cs x =
    (c : ProviderConfig) × Memᴰ c cs × (is_usable r exclude c ≡ true) × From tier c x

All-map {ℓ κ} :
    {A : Type ℓ} (P Q : A → Type κ) (xs : List A) → ((x : A) → P x → Q x) → All P xs → All Q xs
All-map P Q [] f h = tt
All-map P Q (x ∷ xs) f h = (f x h.0, All-map P Q xs f h.1)

candidates-FromSome :
    (r : Router) (exclude : List String) (tier : ModelTier) (cs : List ProviderConfig)
    → All (FromSome r exclude tier cs) (candidates r tier exclude cs)
unfolding candidates FromSome
candidates-FromSome r exclude tier [] = tt
candidates-FromSome r exclude tier (c ∷ cs) =
    let rest =
      All-map (FromSome r exclude tier cs) (FromSome r exclude tier (c ∷ cs)) _
        (λ x (d, i, u, f). (d, Memᴰ.tail i, u, f)) (candidates-FromSome r exclude tier cs) in
    if_ind (All (FromSome r exclude tier (c ∷ cs))) (is_usable r exclude c)
      (λ u.
        All-append _ _ _
          (All-map (From tier c) (FromSome r exclude tier (c ∷ cs)) _
            (λ x f. (c, Memᴰ.head refl, u, f)) (models_in_tier-From tier c c.models (λ m i. i)))
          rest)
      (λ _. rest)

-- Either the result is a cheapest available model of the tier, or none is available.
pub find_model_in_tier_cases :
    (r : Router) (tier : ModelTier) (exclude : List String)
    → ((c : ProviderConfig) × (m : ModelConfig) × (find_model_in_tier r tier exclude
          ≡ some (candidate c m))
        × IsAvailable r exclude tier c m
        × ((d : ProviderConfig) (n : ModelConfig)
            → IsAvailable r exclude tier d n
            → cost_of m ≤ cost_of n))
      ⊎ ((find_model_in_tier r tier exclude ≡ none)
          × ((d : ProviderConfig) (n : ModelConfig) → ¬ IsAvailable r exclude tier d n))
unfolding find_model_in_tier IsCheapest FromSome From
find_model_in_tier_cases r tier exclude = by_head (head? (sort xs)) refl (sort-IsCheapest xs)
  where
    xs : List Candidate
    xs = candidates r tier exclude r.provider_configs

    member :
        (d : ProviderConfig) (n : ModelConfig)
        → IsAvailable r exclude tier d n
        → Memᴰ (candidate d n) xs
    member d n a =
        mem-candidates r tier exclude r.provider_configs d n a.configured a.usable a.offered
          a.in_tier

    by_head :
        (o : Option Candidate)
        → head? (sort xs) ≡ o
        → IsCheapest xs o
        → ((c : ProviderConfig) × (m : ModelConfig) × (head? (sort xs) ≡ some (candidate c m))
            × IsAvailable r exclude tier c m
            × ((d : ProviderConfig) (n : ModelConfig)
                → IsAvailable r exclude tier d n
                → cost_of m ≤ cost_of n))
          ⊎ ((head? (sort xs) ≡ none)
              × ((d : ProviderConfig) (n : ModelConfig) → ¬ IsAvailable r exclude tier d n))
    by_head none e empty =
        inr (e, λ d n a. Memᴰ.not-nil (subst (Memᴰ (candidate d n)) empty (member d n a)))
    by_head (some x) e (i, least) =
        let (c, j, u, (m, k, t, same)) =
          All-mem (FromSome r exclude tier r.provider_configs) xs x
            (candidates-FromSome r exclude tier r.provider_configs) i in
        inl (
          c,
          m,
          e ∙ ap some same,
          record { configured = j; usable = u; offered = k; in_tier = t },
          λ d n a. omega (arith, ap Candidate.cost same, least (candidate d n) (member d n a)),
        )
