-- ===== src/Base/Dict.antt =====
-- Python's `dict`: an association list in the order of insertion, where a write to a key that is
-- there keeps its place. Keys have a decided equality.
use mathlib.Core.Path.{◌≡◌, refl, ap, ◌∙◌}
use mathlib.Core.Logic.{ite}
use mathlib.Core.Option.{Option, none, some}
use mathlib.Core.Option
use mathlib.Core.List.{List, [], ◌∷◌, Memᴰ}
use fastcoder.Base.Tests.{ite_ind}
use native.Mathlib.Omega.{arith}

abbrev pub Dict {ℓ} : Type ℓ → Type ℓ → Type ℓ
Dict K V = List (K × V)

module _ {ℓ} {K V : Type ℓ} (dec : Discrete K) where
  -- `d.get(k)`
  unfoldable pub get : K → Dict K V → Option V
  get k [] = none
  get k ((j, v) ∷ d) = ite (dec j k) (some v) (get k d)

  -- `d[k] = v`
  unfoldable pub put : K → V → Dict K V → Dict K V
  put k v [] = (k, v) ∷ []
  put k v ((j, w) ∷ d) = ite (dec j k) ((j, v) ∷ d) ((j, w) ∷ put k v d)

  -- `del d[k]` where the key is there, and nothing where it is not
  unfoldable pub remove : K → Dict K V → Dict K V
  remove k [] = []
  remove k ((j, w) ∷ d) = ite (dec j k) (remove k d) ((j, w) ∷ remove k d)

  -- `f(d[k])` changes the value in place where the key is there.
  unfoldable pub modify : K → (V → V) → Dict K V → Dict K V
  modify k f [] = []
  modify k f ((j, v) ∷ d) = ite (dec j k) ((j, f v) ∷ d) ((j, v) ∷ modify k f d)

  -- `for v in d.values(): f(v)`, where `f` changes `v` in place
  unfoldable pub modify_all : (V → V) → Dict K V → Dict K V
  modify_all f [] = []
  modify_all f ((j, v) ∷ d) = (j, f v) ∷ modify_all f d

  pub get-modify_all :
      (k : K) (f : V → V) (d : Dict K V) → get k (modify_all f d) ≡ Option.map f (get k d)
  unfolding get modify_all
  get-modify_all k f [] = refl
  get-modify_all k f ((i, w) ∷ d) = ground (arith, get-modify_all k f d)

  pub get-modify :
      (k j : K) (f : V → V) (d : Dict K V)
      → get j (modify k f d) ≡ ite (dec k j) (Option.map f (get j d)) (get j d)
  unfolding get modify
  get-modify k j f [] = ground arith
  get-modify k j f ((i, w) ∷ d) = ground (arith, get-modify k j f d)

  pub get-put :
      (k j : K) (v : V) (d : Dict K V) → get j (put k v d) ≡ ite (dec k j) (some v) (get j d)
  unfolding get put
  get-put k j v [] = ground arith
  get-put k j v ((i, w) ∷ d) = ground (arith, get-put k j v d)

  pub get-put_same : (k : K) (v : V) (d : Dict K V) → get k (put k v d) ≡ some v
  get-put_same k v d = get-put k k v d ∙ own (dec k k)
    where
      own : (same : Dec (k ≡ k)) → ite same (some v) (get k d) ≡ some v
      own (yes p) = refl
      own (no n) = absurd (n refl)

  pub get-remove : (k j : K) (d : Dict K V) → get j (remove k d) ≡ ite (dec k j) none (get j d)
  unfolding get remove
  get-remove k j [] = ground arith
  get-remove k j ((i, w) ∷ d) = ground (arith, get-remove k j d)

module _ {ℓ} {K V : Type ℓ} (dec : Discrete K) where
  -- No key stands twice.
  abbrev pub IsUnique : Dict K V → Type ℓ
  IsUnique [] = Unit
  IsUnique ((k, v) ∷ d) = (get dec k d ≡ none) × IsUnique d

  pub put-IsUnique : (k : K) (v : V) (d : Dict K V) → IsUnique d → IsUnique (put dec k v d)
  unfolding put get
  put-IsUnique k v [] u = (refl, tt)
  put-IsUnique k v ((j, w) ∷ d) (fresh, u) =
      ite_ind IsUnique (dec j k) (λ _. (fresh, u))
        (λ n. (get-put dec k j v d ∙ missing n, put-IsUnique k v d u))
    where
      missing : ¬ (j ≡ k) → ite (dec k j) (some v) (get dec j d) ≡ none
      missing n = ground arith

  pub remove-IsUnique : (k : K) (d : Dict K V) → IsUnique d → IsUnique (remove dec k d)
  unfolding remove get
  remove-IsUnique k [] u = tt
  remove-IsUnique k ((j, w) ∷ d) (fresh, u) =
      ite_ind IsUnique (dec j k) (λ _. remove-IsUnique k d u)
        (λ _. (get-remove dec k j d ∙ still (dec k j), remove-IsUnique k d u))
    where
      still : (c : Dec (k ≡ j)) → ite c none (get dec j d) ≡ none
      still (yes p) = refl
      still (no n) = fresh

  pub get-eq-some_of_mem :
      (k : K) (v : V) (d : Dict K V) → IsUnique d → Memᴰ (k, v) d → get dec k d ≡ some v
  unfolding get
  get-eq-some_of_mem k v [] u m = elim m [ ]
  get-eq-some_of_mem k v ((j, w) ∷ d) (fresh, u) (Memᴰ.head e) =
      let same : k ≡ j = ap (λ x. x.0) e in let value : v ≡ w = ap (λ x. x.1) e in ground arith
  get-eq-some_of_mem k v ((j, w) ∷ d) (fresh, u) (Memᴰ.tail m) =
      ground (arith, get-eq-some_of_mem k v d u m)

pub ruleset dict_laws = (get-put, get-remove)
