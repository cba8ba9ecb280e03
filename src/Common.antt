-- ===== src/Common.antt =====
-- Names that every module shares: the libraries', passed on, Boolean tests, and text in the parts
-- of JavaScript's String that the program calls (=== , toUpperCase, toLowerCase, includes).
pub use Prim.Native.Nat.{ℕ, zero, suc, ◌+◌, ◌-◌, ◌*◌, ◌^◌, ◌≤◌, ◌<◌}
pub use Prim.Native.String.{String, ◌++◌}
pub use mathlib.Core.Path.{◌≡◌, refl, subst, sym, ap, ap₂, ◌∙◌}
pub use mathlib.Core.Logic.{◌≢◌, ◌↔◌, ◌⊎◌, inl, inr}
pub use mathlib.Core.Bool.{Bool, true, false, not, ◌&&◌, ◌||◌}
pub use mathlib.Core.Option.{Option, none, some}
pub use mathlib.Core.List.{List, [], ◌∷◌, map}
pub use native.Mathlib.Omega.{arith}
pub use text.Mathlib.Text.{starts_with}
pub use text.Mathlib.TextEquality.{eq_iff}
use Prim.Native.Nat.{compare, Ordering}
use Prim.Native.Char.{Char, code}
use Prim.Native.String.{char_at}
use text.Mathlib.Text.{◌==◌ as text_eq}

infix 50 ◌==◌
abbrev pub ◌==◌ : String → String → Bool
s == t = text_eq s t

abbrev pub leb : ℕ → ℕ → Bool
leb a b = elim (compare a b) [ Ordering.gt ↦ false | _ ↦ true ]

abbrev pub ltb : ℕ → ℕ → Bool
ltb a b = elim (compare a b) [ Ordering.lt ↦ true | _ ↦ false ]

abbrev pub eqb : ℕ → ℕ → Bool
eqb a b = elim (compare a b) [ Ordering.eq ↦ true | _ ↦ false ]

infix 1 if◌then◌else◌
abbrev pub if◌then◌else◌ {ℓ} : {A : Type ℓ} → Bool → A → A → A
if true then x else y = x
if false then x else y = y

pub false-true : false ≢ true
false-true e = cc

pub both : (a b : Bool) → (a && b) ≡ true → (a ≡ true) × (b ≡ true)
both true b h = (refl, h)
both false b h = absurd (false-true h)

pub Bool-cases : (b : Bool) → (b ≡ true) ⊎ (b ≡ false)
Bool-cases true = inl refl
Bool-cases false = inr refl

pub Option-cases {ℓ} : {A : Type ℓ} (o : Option A) → (o ≡ none) ⊎ ((a : A) × (o ≡ some a))
Option-cases none = inl refl
Option-cases (some a) = inr (a, refl)

module _ {ℓ} {A : Type ℓ} where
  infixr 64 ◌+++◌
  abbrev pub ◌+++◌ : List A → List A → List A
  [] +++ ys = ys
  (x ∷ xs) +++ ys = x ∷ (xs +++ ys)

  abbrev pub all : (A → Bool) → List A → Bool
  all p [] = true
  all p (x ∷ xs) = p x && all p xs

  abbrev pub any : (A → Bool) → List A → Bool
  any p [] = false
  any p (x ∷ xs) = p x || any p xs

  abbrev pub length : List A → ℕ
  length [] = 0
  length (x ∷ xs) = suc (length xs)

  abbrev pub count : (A → Bool) → List A → ℕ
  count p [] = 0
  count p (x ∷ xs) = (if p x then 1 else 0) + count p xs

-- `list.includes(text)`
abbrev pub includes : List String → String → Bool
includes xs s = any (λ x. x == s) xs

-- The letters of ASCII change case, every other character stays.
upper_char : Char → Char
upper_char c =
    if leb b'a' (code c) && leb (code c) b'z'
    then char_at "ABCDEFGHIJKLMNOPQRSTUVWXYZ" (code c - b'a')
    else c

lower_char : Char → Char
lower_char c =
    if leb b'A' (code c) && leb (code c) b'Z'
    then char_at "abcdefghijklmnopqrstuvwxyz" (code c - b'A')
    else c

-- `text.toUpperCase()`
unfoldable pub to_upper_case : String → String
unfolding upper_char
to_upper_case String.[] = ""
to_upper_case (String.◌∷◌ c s) = String.◌∷◌ (upper_char c) (to_upper_case s)

-- `text.toLowerCase()`
unfoldable pub to_lower_case : String → String
unfolding lower_char
to_lower_case String.[] = ""
to_lower_case (String.◌∷◌ c s) = String.◌∷◌ (lower_char c) (to_lower_case s)

-- `text.includes(part)`
unfoldable pub contains : String → String → Bool
contains String.[] part = starts_with "" part
contains (String.◌∷◌ c s) part = starts_with (String.◌∷◌ c s) part || contains s part

upper_test : to_upper_case "Apa-9" ≡ "APA-9"
unfolding to_upper_case
upper_test = refl

contains_test : contains "BRITAM_airtel" "airtel" ≡ true
unfolding contains
contains_test = refl
