-- ===== src/Value.antt =====
-- Values of JavaScript as the program meets them: JSON of requests and replies, and what is read
-- from an object whose fields may be absent.
use aspin_partners_bridge.Common.{
  ℕ, ◌-◌, ◌*◌, ◌^◌, String, Bool, true, false, not, ◌&&◌, ◌||◌, List, [], ◌∷◌, Option, none, some,
  ◌==◌, leb, eqb, if◌then◌else◌,
}

-- A finite JSON number, kept as the decimal numeral that it is: unscaled / 10 ^ scale.
pub record Decimal : Type 0 where
  pub negative : Bool
  pub unscaled : ℕ
  pub scale : ℕ

mutual
  pub data Value : Type 0 where
    undefined null : Value
    bool : Bool → Value
    num : Decimal → Value
    str : String → Value
    arr : Items → Value
    obj : Fields → Value

  pub data Fields : Type 0 where
    end : Fields
    field : String → Value → Fields → Fields

  pub data Items : Type 0 where
    nil : Items
    cons : Value → Items → Items

abbrev pub whole : ℕ → Decimal
whole n = record { negative = false; unscaled = n; scale = 0 }

abbrev pub fields_of : List (String × Value) → Fields
fields_of [] = end
fields_of ((k, v) ∷ r) = field k v (fields_of r)

-- An object literal.
abbrev pub object : List (String × Value) → Value
object r = obj (fields_of r)

-- `!!v`
abbrev pub truthy : Value → Bool
truthy undefined = false
truthy null = false
truthy (bool b) = b
truthy (num n) = not (eqb n.unscaled 0)
truthy (str s) = not (s == "")
truthy (arr _) = true
truthy (obj _) = true

-- `a || b`
abbrev pub or_else : Value → Value → Value
or_else a b = if truthy a then a else b

-- `v === 'text'`
abbrev pub is_text : Value → String → Bool
is_text (str s) t = s == t
is_text undefined t = false
is_text null t = false
is_text (bool _) t = false
is_text (num _) t = false
is_text (arr _) t = false
is_text (obj _) t = false

abbrev pub is_nullish : Value → Bool
is_nullish undefined = true
is_nullish null = true
is_nullish (bool _) = false
is_nullish (num _) = false
is_nullish (str _) = false
is_nullish (arr _) = false
is_nullish (obj _) = false

abbrev pub lookup : String → Fields → Value
lookup k end = undefined
lookup k (field j v r) = if j == k then v else lookup k r

-- `v?.key`: own properties of objects only.
abbrev pub optional : Value → String → Value
optional (obj fs) k = lookup k fs
optional undefined k = undefined
optional null k = undefined
optional (bool _) k = undefined
optional (num _) k = undefined
optional (str _) k = undefined
optional (arr _) k = undefined

abbrev pub without : String → Fields → Fields
without k end = end
without k (field j v r) = if j == k then without k r else field j v (without k r)

-- The rest of `const { key, ...rest } = v`.
abbrev pub rest_of : Value → String → Value
rest_of (obj fs) k = obj (without k fs)
rest_of v k = obj end

-- An absent optional as a value.
abbrev pub text_or_undefined : Option String → Value
text_or_undefined none = undefined
text_or_undefined (some s) = str s

-- `(b - a) / 1000` for two times in milliseconds.
abbrev pub seconds_between : ℕ → ℕ → Decimal
seconds_between a b =
    if leb a b
    then record { negative = false; unscaled = b - a; scale = 3 }
    else record { negative = true; unscaled = a - b; scale = 3 }

-- `value >= n` for a natural n.
abbrev pub at_least : Decimal → ℕ → Bool
at_least d n =
    if eqb n 0
    then not d.negative || eqb d.unscaled 0
    else not d.negative && leb (n * 10 ^ d.scale) d.unscaled
