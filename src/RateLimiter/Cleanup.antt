-- ===== src/RateLimiter/Cleanup.antt =====
-- What `_cleanup_stale_buckets` of api/rate_limiter.py drops.
use fastcoder.Base.{
  ℕ, ◌-◌, ◌<◌, String, ◌≡◌, refl, sym, ap, ◌∙◌, Bool, true, false, List, [], ◌∷◌, Option, none,
  some, if◌then◌else◌, ite, ltb, elem, string_discrete, arith,
}
use fastcoder.Base.Dict
use fastcoder.Base.Dict.{Dict, get-put, get-remove, IsUnique, put-IsUnique, remove-IsUnique}
use fastcoder.RateLimiter.{RateLimiter, stale_bucket_ttl, bucket_of, stale_ips, remove_all}

abbrev pub access_of : RateLimiter → String → Option ℕ
access_of r client = Dict.get string_discrete client r.bucket_access_times

-- What a cleanup leaves of a client.
pub remove_all-lookup :
    (ips : List String) (r : RateLimiter) (client : String)
    → let r' = remove_all ips r in
      (bucket_of r' client ≡ (if elem string_discrete client ips then none else bucket_of r client))
      × (access_of r' client
          ≡ (if elem string_discrete client ips then none else access_of r client))
      × (r'.config ≡ r.config)
unfolding remove_all elem bucket_of
remove_all-lookup [] r client = (refl, refl, refl)
remove_all-lookup (ip ∷ ips) r client =
    let r' = record r {
      buckets = Dict.remove string_discrete ip r.buckets;
      bucket_access_times = Dict.remove string_discrete ip r.bucket_access_times;
    } in
    let (b, a, c) = remove_all-lookup ips r' client in
    (
      b
          ∙ ap (λ x. if elem string_discrete client ips then none else x)
              (get-remove string_discrete ip client r.buckets)
          ∙ both (string_discrete ip client) (string_discrete client ip)
              (elem string_discrete client ips) _,
      a
          ∙ ap (λ x. if elem string_discrete client ips then none else x)
              (get-remove string_discrete ip client r.bucket_access_times)
          ∙ both (string_discrete ip client) (string_discrete client ip)
              (elem string_discrete client ips) _,
      c,
    )
  where
    both :
        {A : Type 0} (same : Dec (ip ≡ client)) (back : Dec (client ≡ ip)) (b : Bool) (o : Option A)
        → (if b then none else ite same none o) ≡ (if ite back true b then none else o)
    both (yes p) (yes q) true o = refl
    both (yes p) (yes q) false o = refl
    both (no n) (no m) true o = refl
    both (no n) (no m) false o = refl
    both (yes p) (no m) b o = absurd (m (sym p))
    both (no n) (yes q) b o = absurd (n (sym q))

pub remove_all-IsUnique :
    (ips : List String) (r : RateLimiter)
    → IsUnique string_discrete r.bucket_access_times
    → IsUnique string_discrete (remove_all ips r).bucket_access_times
unfolding remove_all
remove_all-IsUnique [] r u = u
remove_all-IsUnique (ip ∷ ips) r u =
    remove_all-IsUnique ips _ (remove-IsUnique string_discrete ip r.bucket_access_times u)

-- A client that the cleanup drops was last accessed longer ago than the limit.
pub stale_ips-elem :
    (now : ℕ) (d : Dict String ℕ) (client : String)
    → IsUnique string_discrete d
    → elem string_discrete client (stale_ips now d) ≡ true
    → (a : ℕ) × (Dict.get string_discrete client d ≡ some a) × (stale_bucket_ttl < now - a)
unfolding stale_ips elem Dict.get
stale_ips-elem now [] client u h = absurd (ground (arith, h))
stale_ips-elem now ((ip, a) ∷ d) client (fresh, u) h =
    by_entry (string_discrete ip client) (string_discrete client ip)
      (ltb stale_bucket_ttl (now - a)) refl (stale_ips-elem now d client u)
      (sym (of_if (ltb stale_bucket_ttl (now - a))) ∙ h)
  where
    of_if :
        (b : Bool)
        → elem string_discrete client (if b then ip ∷ stale_ips now d else stale_ips now d) ≡ (
            if b
            then ite
                (string_discrete client ip)
                true
                (elem string_discrete client (stale_ips now d))
            else elem string_discrete client (stale_ips now d))
    of_if true = refl
    of_if false = refl

    Found : Option ℕ → Type 0
    Found o = (a' : ℕ) × (o ≡ some a') × (stale_bucket_ttl < now - a')

    elsewhere : ip ≡ client → Found (Dict.get string_discrete client d) → ⊥
    elsewhere p (a', e, l) =
        absurd (ground (arith, sym e ∙ ap (λ x. Dict.get string_discrete x d) (sym p) ∙ fresh))

    by_entry :
        (same : Dec (ip ≡ client)) (back : Dec (client ≡ ip)) (stale : Bool)
        → ltb stale_bucket_ttl (now - a) ≡ stale
        → (elem string_discrete client (stale_ips now d) ≡ true
            → Found (Dict.get string_discrete client d))
        → (if stale
            then ite back true (elem string_discrete client (stale_ips now d))
            else elem string_discrete client (stale_ips now d))
          ≡ true
        → Found (ite same (some a) (Dict.get string_discrete client d))
    by_entry (yes p) _ true e later k = (a, refl, ground (arith, e))
    by_entry (yes p) _ false e later k = absurd (elsewhere p (later k))
    by_entry (no n) (yes q) _ e later k = absurd (n (sym q))
    by_entry (no n) (no m) true e later k = later k
    by_entry (no n) (no m) false e later k = later k
