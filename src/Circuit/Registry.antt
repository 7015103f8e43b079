-- ===== src/Circuit/Registry.antt =====
-- `CircuitBreakerRegistry` of llm/circuit_breaker.py: the breakers by the provider's name. A breaker
-- that a caller changes stands in the registry, so `store` puts it back. One reading of the clock
-- serves a whole loop over the breakers.
use fastcoder.Base.{
  ℕ, suc, ◌+◌, String, ◌≡◌, refl, ◌≢◌, ◌⊎◌, inl, inr, Bool, true, false, List, [], ◌∷◌, Option,
  none, some, arith, if◌then◌else◌, length, string_discrete,
}
use fastcoder.Base.Dict
use fastcoder.Base.Dict.{Dict, get-put, get-remove}
use fastcoder.Circuit.{
  CircuitState, closed, opened, half_open, CircuitBreakerConfig, CircuitBreaker, Status, new,
  get_state, get_status,
}

pub record Registry : Type 0 where
  pub config : CircuitBreakerConfig
  pub breakers : Dict String CircuitBreaker

unfoldable pub lookup : Registry → String → Option CircuitBreaker
unfolding Dict.get string_discrete
lookup r name = Dict.get string_discrete name r.breakers

unfoldable pub store : Registry → String → CircuitBreaker → Registry
unfolding Dict.put string_discrete
store r name b = record r { breakers = Dict.put string_discrete name b r.breakers }

found_or_made : Registry → String → Option CircuitBreaker → Registry × CircuitBreaker
found_or_made r name (some b) = (r, b)
found_or_made r name none = (store r name (new r.config), new r.config)

unfoldable pub get_breaker : Registry → String → Registry × CircuitBreaker
unfolding lookup store new found_or_made
get_breaker r name = found_or_made r name (lookup r name)

-- `breaker.get_state()` for each breaker.
unfoldable pub refresh_all : ℕ → Dict String CircuitBreaker → Dict String CircuitBreaker
unfolding get_state
refresh_all now [] = []
refresh_all now ((name, b) ∷ d) = (name, get_state now b) ∷ refresh_all now d

unfoldable pub names_where : (CircuitState → Bool) → Dict String CircuitBreaker → List String
names_where test [] = []
names_where test ((name, b) ∷ d) =
    let rest = names_where test d in if test b.state then name ∷ rest else rest

unfoldable pub count_where : (CircuitState → Bool) → Dict String CircuitBreaker → ℕ
count_where test [] = 0
count_where test ((name, b) ∷ d) =
    if test b.state then suc (count_where test d) else count_where test d

abbrev pub is_closed : CircuitState → Bool
is_closed closed = true
is_closed _ = false

abbrev pub is_opened : CircuitState → Bool
is_opened opened = true
is_opened _ = false

abbrev pub is_half_open : CircuitState → Bool
is_half_open half_open = true
is_half_open _ = false

-- `state in (CircuitState.CLOSED, CircuitState.HALF_OPEN)`
abbrev pub is_healthy : CircuitState → Bool
is_healthy closed = true
is_healthy half_open = true
is_healthy opened = false

unfoldable pub get_healthy_providers : ℕ → Registry → Registry × List String
unfolding refresh_all names_where
get_healthy_providers now r =
    let d = refresh_all now r.breakers in (record r { breakers = d }, names_where is_healthy d)

unfoldable pub get_unhealthy_providers : ℕ → Registry → Registry × List String
unfolding refresh_all names_where
get_unhealthy_providers now r =
    let d = refresh_all now r.breakers in (record r { breakers = d }, names_where is_opened d)

unfoldable pub statuses : ℕ → Dict String CircuitBreaker → Dict String Status
unfolding get_status
statuses now [] = []
statuses now ((name, b) ∷ d) = (name, (get_status now b).1) ∷ statuses now d

pub record Summary : Type 0 where
  pub breakers : Dict String Status
  pub total_providers : ℕ
  pub closed_count : ℕ
  pub open_count : ℕ
  pub half_open_count : ℕ
  pub healthy_providers : List String
  pub unhealthy_providers : List String

unfoldable pub get_summary : ℕ → Registry → Registry × Summary
unfolding statuses refresh_all count_where names_where
get_summary now r =
    let d = refresh_all now r.breakers in
    (
      record r { breakers = d },
      record {
        breakers = statuses now r.breakers;
        total_providers = length r.breakers;
        closed_count = count_where is_closed d;
        open_count = count_where is_opened d;
        half_open_count = count_where is_half_open d;
        healthy_providers = names_where is_healthy d;
        unhealthy_providers = names_where is_opened d;
      },
    )

unfoldable pub reset : Registry → Option String → Registry
unfolding Dict.remove string_discrete
reset r none = record r { breakers = [] }
reset r (some name) = record r { breakers = Dict.remove string_discrete name r.breakers }

-- The provider's breaker is the one that was there, or a new one, and is there from then on; the
-- other providers' are as before.
pub get_breaker_lem :
    (r : Registry) (name other : String)
    → let (r', b) = get_breaker r name in
      (lookup r' name ≡ some b)
      × ((lookup r name ≡ some b) ⊎ ((lookup r name ≡ none) × (b ≡ new r.config)))
      × (name ≢ other → lookup r' other ≡ lookup r other)
unfolding get_breaker
get_breaker_lem r name other = found (lookup r name) refl
  where
    found :
        (o : Option CircuitBreaker)
        → lookup r name ≡ o
        → let (r', b) = found_or_made r name o in
          (lookup r' name ≡ some b)
          × ((lookup r name ≡ some b) ⊎ ((lookup r name ≡ none) × (b ≡ new r.config)))
          × (name ≢ other → lookup r' other ≡ lookup r other)
    found (some b) e = (e, inl e, λ _. refl)
    found none e = (rw get-put (ground arith), inr (e, refl), λ n. rw get-put (ground arith))

counts_add_up :
    (d : Dict String CircuitBreaker)
    → (count_where is_closed d + count_where is_opened d + count_where is_half_open d ≡ length d)
      × (length (names_where is_healthy d) ≡ count_where is_closed d + count_where is_half_open d)
      × (length (names_where is_opened d) ≡ count_where is_opened d)
unfolding count_where names_where
counts_add_up [] = omega arith
counts_add_up ((name, b) ∷ d) = ground (arith, counts_add_up d)

length-refresh_all :
    (now : ℕ) (d : Dict String CircuitBreaker) → length (refresh_all now d) ≡ length d
unfolding refresh_all
length-refresh_all now [] = refl
length-refresh_all now (e ∷ d) = omega (arith, length-refresh_all now d)

-- The summary's counts add up: every provider is closed, open or half open, the healthy ones are
-- those that are not open, and the unhealthy ones those that are.
pub get_summary_counts :
    (now : ℕ) (r : Registry)
    → let s = (get_summary now r).1 in
      (s.closed_count + s.open_count + s.half_open_count ≡ s.total_providers)
      × (length s.healthy_providers ≡ s.closed_count + s.half_open_count)
      × (length s.unhealthy_providers ≡ s.open_count)
unfolding get_summary
get_summary_counts now r =
    omega (arith, counts_add_up (refresh_all now r.breakers), length-refresh_all now r.breakers)
