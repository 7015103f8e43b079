-- ===== src/Codebase/Cycles/Search.antt =====
-- What the variables of `dfs` hold, from one call to the next.
use fastcoder.Base.{
  ◌≤◌, ◌<◌, String, ◌≡◌, refl, ap, sym, subst, ◌∙◌, ◌↔◌, ◌⊎◌, inl, inr, ⊎_elim, true, false, List,
  [], ◌∷◌, ◌++◌, Memᴰ, some, arith, remove_first, Memᴰ-cons, Memᴰ-snoc, string_discrete,
}
use mathlib.Core.List.Memᴰ
use mathlib.Core.Option
use fastcoder.Base.Dict
use fastcoder.Codebase.{Nodes, lookup, contains}
use fastcoder.Codebase.Impact.Loop.{contains-snoc, fresh, fresh-snoc-lt}
use fastcoder.Codebase.Cycles.{State, is_known, pop, enter, leave}
use fastcoder.Codebase.Cycles.Acyclic.{IsChain, IsCycle, Ends}

abbrev pub keys : Nodes → List String
keys [] = []
keys ((f, _) ∷ nodes) = f ∷ keys nodes

pub mem-keys_iff : (nodes : Nodes) (f : String) → (is_known nodes f ≡ true) ↔ Memᴰ f (keys nodes)
unfolding is_known lookup Dict.get
mem-keys_iff [] f = (λ h. cc, λ m. absurd (Memᴰ.not-nil m))
mem-keys_iff ((g, node) ∷ nodes) f =
    ground (arith, mem-keys_iff nodes f, Memᴰ-cons f g (keys nodes))

pub pop-snoc : (xs : List String) (f : String) → pop (xs ++ f ∷ []) ≡ some xs
unfolding pop
pop-snoc [] f = refl
pop-snoc (x ∷ []) f = refl
pop-snoc (x ∷ y ∷ xs) f = ap (Option.map (λ rest. x ∷ rest)) (pop-snoc (y ∷ xs) f)

remove_first-snoc :
    (xs : List String) (f : String)
    → ¬ Memᴰ f xs
    → remove_first string_discrete f (xs ++ f ∷ []) ≡ xs
unfolding remove_first
remove_first-snoc [] f n = ground arith
remove_first-snoc (x ∷ xs) f n =
    ground (arith, remove_first-snoc xs f (λ m. n (Memᴰ.tail m)), Memᴰ-cons f x xs)

pub leave-snoc :
    (f : String) (p : List String) (s : State)
    → s.path ≡ p ++ f ∷ []
    → s.rec_stack ≡ p ++ f ∷ []
    → ¬ Memᴰ f p
    → leave f s ≡ some (record s { path = p; rec_stack = p })
unfolding leave
leave-snoc f p s e h n = ground (arith, pop-snoc p f, remove_first-snoc p f n, contains-snoc f f p)

module _ (nodes : Nodes) where
  -- The stack is the path, which is a chain of imports through visited files; what is reported is a
  -- cycle; and while nothing is reported, the chains from a visited file that is not on the path end.
  pub record Inv (s : State) : Type 0 where
    pub stack : s.rec_stack ≡ s.path
    pub entered : (f : String) → Memᴰ f s.path → contains f s.visited ≡ true
    pub finished :
        s.cycles ≡ [] → (f : String) → contains f s.visited ≡ true → Memᴰ f s.path ⊎ Ends nodes f
    pub cyclic : (c : List String) → Memᴰ c s.cycles → IsCycle nodes c
    pub chain : IsChain nodes s.path

  -- What a part of the search changes from `s` to `t`.
  pub record Grows (s t : State) : Type 0 where
    pub same_path : t.path ≡ s.path
    pub visits : (f : String) → contains f s.visited ≡ true → contains f t.visited ≡ true
    pub fewer : fresh (keys nodes) t.visited ≤ fresh (keys nodes) s.visited
    pub silent : t.cycles ≡ [] → s.cycles ≡ []

  pub Grows-refl : (s : State) → Grows s s
  Grows-refl s = record {
    same_path = refl;
    visits = λ f h. h;
    fewer = omega arith;
    silent = λ h. h;
  }

  pub Grows-trans : {s t u : State} → Grows s t → Grows t u → Grows s u
  Grows-trans a b = record {
    same_path = b.same_path ∙ a.same_path;
    visits = λ f h. b.visits f (a.visits f h);
    fewer = omega (arith, a.fewer, b.fewer);
    silent = λ h. a.silent (b.silent h);
  }

  pub Inv-enter :
      (f : String) (s : State) → Inv s → IsChain nodes (s.path ++ f ∷ []) → Inv (enter f s)
  Inv-enter f s h c = record {
    stack = ap (λ p. p ++ f ∷ []) stack;
    entered = λ g m. ground (arith, Memᴰ-snoc g f s.path, contains-snoc g f s.visited, entered g);
    finished =
        λ e g v. ground (arith, Memᴰ-snoc g f s.path, contains-snoc g f s.visited, finished e g);
    cyclic = cyclic;
    chain = c;
  }
    where
      open h use {stack, entered, finished, cyclic}

  pub fresh-enter :
      (f : String) (s : State)
      → is_known nodes f ≡ true
      → contains f s.visited ≡ false
      → fresh (keys nodes) (enter f s).visited < fresh (keys nodes) s.visited
  fresh-enter f s k n = fresh-snoc-lt (keys nodes) s.visited f ((mem-keys_iff nodes f).0 k) n

  -- `t` is the state where the loop on the neighbours of `f` ends.
  pub Inv-leave :
      (f : String) (s t : State)
      → Inv s
      → contains f s.visited ≡ false
      → Inv t
      → t.path ≡ s.path ++ f ∷ []
      → (t.cycles ≡ [] → Ends nodes f)
      → Inv (record t { path = s.path; rec_stack = s.path })
  Inv-leave f s t hs n ht e ends = record {
    stack = refl;
    entered = λ g m. ht.entered g (subst (Memᴰ g) (sym e) (Memᴰ.append_left _ m));
    finished = λ quiet g v.
        ⊎_elim
          (λ m.
            ⊎_elim inl (λ same. inr (subst (Ends nodes) (sym same) (ends quiet)))
              ((Memᴰ-snoc g f s.path).0 (subst (Memᴰ g) e m)))
          inr (ht.finished quiet g v);
    cyclic = ht.cyclic;
    chain = hs.chain;
  }
