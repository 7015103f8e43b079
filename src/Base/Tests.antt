-- ===== src/Base/Tests.antt =====
-- Boolean tests on numbers and texts, and the branch on them.
use Prim.Native.Nat.{ℕ, ◌≤◌, ◌<◌, compare, Ordering}
use Prim.Native.String.{String}
use mathlib.Core.Path.{◌≡◌, refl}
use mathlib.Core.Logic.{◌⊎◌, inl, inr, ite}
use mathlib.Core.Bool.{Bool, true, false}
use native.Mathlib.Omega.{arith}
use text.Mathlib.Text.{◌==◌ as str_eq}
use text.Mathlib.TextEquality.{eq_iff}

abbrev pub ltb : ℕ → ℕ → Bool
ltb a b = elim (compare a b) [ Ordering.lt ↦ true | _ ↦ false ]

abbrev pub leb : ℕ → ℕ → Bool
leb a b = elim (compare a b) [ Ordering.gt ↦ false | _ ↦ true ]

infix 50 ◌==◌
abbrev pub ◌==◌ : ℕ → ℕ → Bool
a == b = elim (compare a b) [ Ordering.eq ↦ true | _ ↦ false ]

infix 1 if◌then◌else◌
abbrev pub if◌then◌else◌ {ℓ} : {A : Type ℓ} → Bool → A → A → A
if true then x else y = x
if false then x else y = y

pub Bool-cases : (b : Bool) → (b ≡ true) ⊎ (b ≡ false)
Bool-cases true = inl refl
Bool-cases false = inr refl

pub leb→le : (a b : ℕ) → leb a b ≡ true → a ≤ b
leb→le a b h = ground arith

pub le→leb : (a b : ℕ) → a ≤ b → leb a b ≡ true
le→leb a b h = ground arith

pub lt→leb-false : (a b : ℕ) → b < a → leb a b ≡ false
lt→leb-false a b h = ground arith

dec_of_iff : (s t : String) (b : Bool) → (b ≡ true → s ≡ t) → (s ≡ t → b ≡ true) → Dec (s ≡ t)
dec_of_iff s t true f g = yes (f refl)
dec_of_iff s t false f g = no (λ e. absurd (ground (arith, g e)))

-- Equality of texts, decided.
unfoldable pub string_discrete : Discrete String
unfolding dec_of_iff
string_discrete s t = dec_of_iff s t (str_eq s t) (eq_iff s t).0 (eq_iff s t).1

-- To prove a property of a branch on a decision.
pub ite_ind {ℓ κ μ} :
    {A : Type ℓ} {B : Type κ} (Q : B → Type μ) (d : Dec A) {x y : B}
    → (A → Q x)
    → (¬ A → Q y)
    → Q (ite d x y)
ite_ind Q (yes a) qx qy = qx a
ite_ind Q (no n) qx qy = qy n

pub if_ind {ℓ κ} :
    {B : Type ℓ} (Q : B → Type κ) (b : Bool) {x y : B}
    → (b ≡ true → Q x)
    → (b ≡ false → Q y)
    → Q (if b then x else y)
if_ind Q true qx qy = qx refl
if_ind Q false qx qy = qy refl
