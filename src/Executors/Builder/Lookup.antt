-- ===== src/Executors/Builder/Lookup.antt =====
-- Which executor a partner and a channel get.
use aspin_partners_bridge.Common.{
  String, ◌++◌, Option, none, some, ◌==◌, ◌≡◌, refl, sym, ◌∙◌, ap, ◌⊎◌, inl, inr, arith,
  to_upper_case, Bool-cases, eq_iff, if◌then◌else◌,
}
use aspin_partners_bridge.Value.{str}
use aspin_partners_bridge.Errors.{Error, raised, partner_executor_not_found}
use aspin_partners_bridge.Effects.{ret, throw, or_throw, Host, to_text}
use aspin_partners_bridge.Executors.Defs.{
  Executor, apa_mpesa, britam_mpesa, britam_airtel, get_partner, get_channel,
}
use aspin_partners_bridge.Executors.Builder.{
  get_entry, executor_key, register, executors, get_executor_key, get_executor, upper_case_of,
}

abbrev key_of : Executor → String
key_of x = executor_key (get_partner x) (get_channel x)

-- The key of each executor finds it.
own_entry : (x : Executor) → get_entry (key_of x) executors ≡ some x
unfolding executor_key get_partner get_channel executors register to_upper_case
own_entry apa_mpesa = refl
own_entry britam_mpesa = refl
own_entry britam_airtel = refl

-- What follows for an entry that is found first or later.
found_entry :
    (k j : String) (x y : Executor) (rest : Option Executor)
    → j ≡ key_of x
    → (rest ≡ some y → k ≡ key_of y)
    → (if j == k then some x else rest) ≡ some y
    → k ≡ key_of y
found_entry k j x y rest e later h = elim (Bool-cases (j == k)) [
  | inl t ↦ sym ((eq_iff j k).0 t) ∙ e ∙ ap (λ z. key_of z) (ground (arith, t, h))
  | inr f ↦ later (ground (arith, f, h))
]

-- Nothing else finds it.
entry_key : (k : String) (x : Executor) → get_entry k executors ≡ some x → k ≡ key_of x
unfolding executor_key get_partner get_channel executors register to_upper_case
entry_key k x = found_entry k (key_of britam_mpesa) britam_mpesa x _ refl (
    found_entry k (key_of apa_mpesa) apa_mpesa x _ refl
      (found_entry k (key_of britam_airtel) britam_airtel x _ refl (λ h. ground (arith, h))))

lookup_answer :
    (k : String) (e : Error) (o : Option Executor)
    → get_entry k executors ≡ o
    → ((x : Executor) × (k ≡ key_of x) × (or_throw o e ≡ ret x))
      ⊎ (((x : Executor) → ¬ (k ≡ key_of x)) × (or_throw o e ≡ throw e))
unfolding or_throw
lookup_answer k e (some x) h = inl (x, entry_key k x h, refl)
lookup_answer k e none h =
    inr (λ x q. ground (arith, ap (λ z. get_entry z executors) q, own_entry x, h), refl)

-- The registry is asked with the partner in upper case, an underscore and the channel as it is.
-- Either this is the key of an executor, which is then returned, or it is the key of none, and
-- PartnerExecutorNotFound is thrown with both names in its message.
pub get_executor_lem :
    (h : Host) (partner channel : String)
    → ((x : Executor) × (executor_key partner channel
          ≡ executor_key (get_partner x) (get_channel x))
        × (get_executor h (str partner) (str channel) ≡ ret x))
      ⊎ (((x : Executor)
            → ¬ (executor_key partner channel ≡ executor_key (get_partner x) (get_channel x)))
          × (get_executor h (str partner) (str channel)
              ≡ throw (
                  raised (
                    partner_executor_not_found (
                      "No executor found for partner " ++ partner ++ " and channel " ++ channel)))))
unfolding get_executor get_executor_key upper_case_of to_text executor_key
get_executor_lem h partner channel =
    lookup_answer (executor_key partner channel) _
      (get_entry (executor_key partner channel) executors) refl
