-- ===== src/Bootstrap.antt =====
-- main.ts: which origins the server answers, and infrastructure/database/redis.provider.ts: where
-- Redis is.
use aspin_partners_bridge.Common.{
  String, ◌++◌, Bool, true, false, false-true, not, ◌&&◌, ◌||◌, all, both, ◌≡◌, refl, ap, ◌∙◌,
  Option, none, some, List, [], ◌∷◌, ◌==◌, includes, eqb, if◌then◌else◌,
}
use aspin_partners_bridge.Value.{Value, str, num, whole, or_else}
use aspin_partners_bridge.Effects.{Services, to_text}
use aspin_partners_bridge.Queue.Setup.{RedisConnection}
use text.Mathlib.TextLemmas.{nil-append, cons-append}
use Prim.Native.Char.{Char, code}
use Prim.Native.String.{char_at}

-- `text.split(',')`
abbrev pub prepend : Char → List String → List String
prepend c [] = String.◌∷◌ c "" ∷ []
prepend c (t ∷ l) = String.◌∷◌ c t ∷ l

abbrev pub split_commas : String → List String
split_commas String.[] = "" ∷ []
split_commas (String.◌∷◌ c s) =
    let rest = split_commas s in if eqb (code c) b',' then "" ∷ rest else prepend c rest

-- `allowedOrigins.indexOf(origin) !== -1 || !origin`: the condition under which the callback of
-- `enableCors` allows a request; the other requests get the error 'Not allowed by CORS'.
unfoldable pub is_origin_allowed : List String → Option String → Bool
is_origin_allowed allowed none = true
is_origin_allowed allowed (some origin) = includes allowed origin || origin == ""

module _ (s : Services) where
  -- `getRedisOptions`
  unfoldable pub get_redis_options : RedisConnection
  get_redis_options = record {
    host = or_else (s.config_get "REDIS_HOST") (str "localhost");
    port = or_else (s.config_get "REDIS_PORT") (num (whole 6379));
  }

  -- The URL that `onModuleInit` connects to.
  unfoldable pub redis_url : Value
  redis_url = or_else (s.config_get "REDIS_URL") (
      str (
        "redis://"
        ++ to_text s.host get_redis_options.host
        ++ ":"
        ++ to_text s.host get_redis_options.port))

-- An origin as it is written in the list.
abbrev pub is_comma_free : String → Bool
is_comma_free String.[] = true
is_comma_free (String.◌∷◌ c s) = not (eqb (code c) b',') && is_comma_free s

abbrev pub join_commas : List String → String
join_commas [] = ""
join_commas (t ∷ []) = t
join_commas (t ∷ (u ∷ l)) = t ++ ("," ++ join_commas (u ∷ l))

-- A character that is no comma, in front of a text.
split-char :
    (c : Char) (s : String) (t : String) (l : List String)
    → not (eqb (code c) b',') ≡ true
    → split_commas s ≡ t ∷ l
    → split_commas (String.◌∷◌ c s) ≡ String.◌∷◌ c t ∷ l
split-char c s t l h e = at (eqb (code c) b',') h
  where
    at :
        (b : Bool)
        → not b ≡ true
        → (if b then "" ∷ split_commas s else prepend c (split_commas s)) ≡ String.◌∷◌ c t ∷ l
    at true k = absurd (false-true k)
    at false k = ap (prepend c) e

split-comma_free : (t : String) → is_comma_free t ≡ true → split_commas t ≡ t ∷ []
split-comma_free String.[] h = refl
split-comma_free (String.◌∷◌ c s) h =
    let b = both (not (eqb (code c) b',')) (is_comma_free s) h in
    split-char c s s [] b.0 (split-comma_free s b.1)

split-append :
    (t u : String) → is_comma_free t ≡ true → split_commas (t ++ ("," ++ u)) ≡ t ∷ split_commas u
split-append String.[] u h =
    ap split_commas
      (nil-append ("," ++ u) ∙ cons-append _ "" u ∙ ap (String.◌∷◌ (char_at "," 0)) (nil-append u))
split-append (String.◌∷◌ c s) u h =
    let b = both (not (eqb (code c) b',')) (is_comma_free s) h in
    ap split_commas (cons-append c s ("," ++ u))
    ∙ split-char c (s ++ ("," ++ u)) s (split_commas u) b.0 (split-append s u b.1)

split-join :
    (x : String) (xs : List String)
    → all is_comma_free (x ∷ xs) ≡ true
    → split_commas (join_commas (x ∷ xs)) ≡ x ∷ xs
split-join x [] h = split-comma_free x (both (is_comma_free x) true h).0
split-join x (y ∷ l) h =
    let b = both (is_comma_free x) (all is_comma_free (y ∷ l)) h in
    split-append x (join_commas (y ∷ l)) b.0 ∙ ap (λ z. x ∷ z) (split-join y l b.1)

-- The origins of ALLOWED_ORIGINS are read back as they were listed: of a list of texts without
-- commas, joined by commas, exactly the listed origins are allowed, and requests without an origin
-- or with an empty one.
pub listed_origins_are_allowed :
    (x : String) (xs : List String)
    → all is_comma_free (x ∷ xs) ≡ true
    → (origin : Option String)
    → is_origin_allowed (split_commas (join_commas (x ∷ xs))) origin
      ≡ (elim origin [ none ↦ true | some o ↦ includes (x ∷ xs) o || o == "" ])
unfolding is_origin_allowed
listed_origins_are_allowed x xs h none = refl
listed_origins_are_allowed x xs h (some o) = ap (λ l. includes l o || o == "") (split-join x xs h)
