-- ===== src/Wal/Grouping.antt =====
-- The dictionary in which `recover` of orchestrator/wal.py collects the entries of each story.
use fastcoder.Base.{
  String, ◌≡◌, refl, sym, ap, subst, ◌∙◌, Bool, true, false, List, [], ◌∷◌, ◌++◌, Option, none,
  some, if◌then◌else◌, ite, string_discrete, last?, All, arith,
}
use fastcoder.Base.Dict
use fastcoder.Base.Dict.{IsUnique, put-IsUnique, get-put}
use fastcoder.Story.{StoryState, StoryState-discrete, done, failed}
use fastcoder.Wal.{WalEntry, Entries, add_entry, is_open, incomplete}
use mathlib.Core.Option.{get_or}
use mathlib.Core.List.{append_assoc, append-nil}

-- The entries of one story, in their order.
unfoldable pub of_story : String → List WalEntry → List WalEntry
of_story s [] = []
of_story s (e ∷ es) = ite (string_discrete e.story_id s) (e ∷ of_story s es) (of_story s es)

pub of_story-append :
    (s : String) (xs ys : List WalEntry) → of_story s (xs ++ ys) ≡ of_story s xs ++ of_story s ys
unfolding of_story
of_story-append s [] ys = refl
of_story-append s (e ∷ xs) ys = ground (arith, of_story-append s xs ys)

abbrev pub group : String → Entries → List WalEntry
group s d = get_or (Dict.get string_discrete s d) []

unfoldable pub add_all : Entries → List WalEntry → Entries
add_all d [] = d
add_all d (e ∷ es) = add_all (add_entry e d) es

group-add_entry :
    (s : String) (e : WalEntry) (d : Entries)
    → group s (add_entry e d) ≡ group s d ++ of_story s (e ∷ [])
unfolding add_entry of_story
group-add_entry s e d = rw get-put (by_story (string_discrete e.story_id s))
  where
    by_story :
        (same : Dec (e.story_id ≡ s))
        → get_or
            (ite same
              (some (get_or (Dict.get string_discrete e.story_id d) [] ++ e ∷ []))
              (Dict.get string_discrete s d))
            []
          ≡ group s d ++ ite same (e ∷ []) []
    by_story (yes p) = ap (λ x. group x d ++ e ∷ []) p
    by_story (no n) = sym (append-nil _)

pub group-add_all :
    (s : String) (es : List WalEntry) (d : Entries)
    → group s (add_all d es) ≡ group s d ++ of_story s es
unfolding add_all of_story
group-add_all s [] d = sym (append-nil _)
group-add_all s (e ∷ es) d =
    group-add_all s es (add_entry e d)
    ∙ ap (λ x. x ++ of_story s es) (group-add_entry s e d)
    ∙ append_assoc (group s d) _ _
    ∙ ap (λ x. group s d ++ x) (sym (of_story-append s (e ∷ []) es))

-- Every list of the dictionary holds entries of its own key only.
abbrev pub IsFiled : Entries → Type 0
IsFiled = All (λ (kv : String × List WalEntry).
    (s : String) → of_story s kv.1 ≡ ite (string_discrete kv.0 s) kv.1 [])

-- A dictionary that the loop of `recover` may have made.
pub record IsGrouped (d : Entries) : Type 0 where
  pub unique : IsUnique string_discrete d
  pub filed : IsFiled d

pub empty-IsGrouped : IsGrouped []
empty-IsGrouped = record { unique = tt; filed = tt }

add_own-filed :
    (s : String) (es : List WalEntry) (e : WalEntry)
    → of_story s es ≡ ite (string_discrete e.story_id s) es []
    → of_story s (es ++ e ∷ []) ≡ ite (string_discrete e.story_id s) (es ++ e ∷ []) []
unfolding of_story
add_own-filed s es e h =
    rw (of_story-append s es (e ∷ []), h) (by_key (string_discrete e.story_id s))
  where
    by_key :
        (same : Dec (e.story_id ≡ s))
        → ite same es [] ++ ite same (e ∷ []) [] ≡ ite same (es ++ e ∷ []) []
    by_key (yes p) = refl
    by_key (no n) = refl

add-filed :
    (k s : String) (es : List WalEntry) (e : WalEntry)
    → e.story_id ≡ k
    → of_story s es ≡ ite (string_discrete k s) es []
    → of_story s (es ++ e ∷ []) ≡ ite (string_discrete k s) (es ++ e ∷ []) []
add-filed k s es e at h =
    subst (λ x. of_story s (es ++ e ∷ []) ≡ ite (string_discrete x s) (es ++ e ∷ []) []) at
      (add_own-filed s es e
        (subst (λ x. of_story s es ≡ ite (string_discrete x s) es []) (sym at) h))

none_filed : {A : Type 0} (d : Dec A) → ◌≡◌ {A = List WalEntry} [] (ite d [] [])
none_filed (yes p) = refl
none_filed (no n) = refl

put-IsFiled :
    (e : WalEntry) (d : Entries)
    → IsFiled d
    → IsFiled (
        Dict.put string_discrete e.story_id
          (get_or (Dict.get string_discrete e.story_id d) [] ++ e ∷ [])
          d)
unfolding Dict.put Dict.get of_story
put-IsFiled e [] f =
    (λ s. add-filed e.story_id s [] e refl (none_filed (string_discrete e.story_id s)), tt)
put-IsFiled e ((k, es) ∷ d) (h, f) = by_key (string_discrete k e.story_id) (put-IsFiled e d f)
  where
    by_key :
        (same : Dec (k ≡ e.story_id))
        → IsFiled (
            Dict.put string_discrete e.story_id
              (get_or (Dict.get string_discrete e.story_id d) [] ++ e ∷ [])
              d)
        → IsFiled (
            ite same
              ((k, get_or (ite same (some es) (Dict.get string_discrete e.story_id d)) [] ++ e ∷ [])
                ∷ d)
              ((k, es)
                ∷ Dict.put string_discrete e.story_id
                    (get_or (ite same (some es) (Dict.get string_discrete e.story_id d)) []
                      ++ e ∷ [])
                    d))
    by_key (yes p) rest = (λ s. add-filed k s es e (sym p) (h s), f)
    by_key (no n) rest = (h, rest)

add_entry-IsGrouped : (e : WalEntry) (d : Entries) → IsGrouped d → IsGrouped (add_entry e d)
unfolding add_entry
add_entry-IsGrouped e d g = record {
  unique = put-IsUnique string_discrete e.story_id _ d g.unique;
  filed = put-IsFiled e d g.filed;
}

pub add_all-IsGrouped : (es : List WalEntry) (d : Entries) → IsGrouped d → IsGrouped (add_all d es)
unfolding add_all
add_all-IsGrouped [] d g = g
add_all-IsGrouped (e ∷ es) d g = add_all-IsGrouped es (add_entry e d) (add_entry-IsGrouped e d g)

-- Whether there is a last entry, which leads to neither `done` nor `failed`.
abbrev pub unfinished : Option WalEntry → Bool
unfinished none = false
unfinished (some e) =
    ite (StoryState-discrete e.state_to done) false
      (ite (StoryState-discrete e.state_to failed) false true)

is_open-unfinished : (o : Option WalEntry) → is_open o ≡ unfinished o
is_open-unfinished none = refl
is_open-unfinished (some e) = by_state e.state_to refl
  where
    by_state : (t : StoryState) → e.state_to ≡ t → is_open (some e) ≡ unfinished (some e)
    by_state done p = ground (arith, p)
    by_state failed p = ground (arith, p)
    by_state _ p = ground (arith, p)

-- What is recovered of a story's entries: all of them if the last one is not terminal.
abbrev pub recoverable : List WalEntry → List WalEntry
recoverable es = if unfinished (last? es) then es else []

pub of_story-incomplete :
    (s : String) (d : Entries)
    → IsUnique string_discrete d
    → IsFiled d
    → of_story s (incomplete d) ≡ recoverable (group s d)
unfolding incomplete of_story Dict.get
of_story-incomplete s [] u f = refl
of_story-incomplete s ((k, es) ∷ d) (fresh, u) (h, f) =
    ap (λ b. of_story s ((if b then es else []) ++ incomplete d)) (is_open-unfinished (last? es))
    ∙ of_story-append s (recoverable es) (incomplete d)
    ∙ ap (λ x. of_story s (recoverable es) ++ x) (of_story-incomplete s d u f)
    ∙ by_key (string_discrete k s) (h s)
  where
    open_or_not : (b : Bool) → of_story s (if b then es else []) ≡ (if b then of_story s es else [])
    open_or_not true = refl
    open_or_not false = refl

    by_key :
        (same : Dec (k ≡ s))
        → of_story s es ≡ ite same es []
        → of_story s (recoverable es) ++ recoverable (group s d)
          ≡ recoverable (get_or (ite same (some es) (Dict.get string_discrete s d)) [])
    by_key (yes p) e =
        rw
          (
            open_or_not (unfinished (last? es)),
            e,
            sym (ap (λ x. Dict.get string_discrete x d) p) ∙ fresh,
          )
          (append-nil _)
    by_key (no n) e = rw (open_or_not (unfinished (last? es)), e) (by_open (unfinished (last? es)))
      where
        by_open :
            (b : Bool) → (if b then [] else []) ++ recoverable (group s d) ≡ recoverable (group s d)
        by_open true = refl
        by_open false = refl
