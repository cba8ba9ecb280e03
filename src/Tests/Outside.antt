-- ===== src/Tests/Outside.antt =====
-- The list of origins, and what is sent to the hub, at examples.
use aspin_partners_bridge.Common.{
  ℕ, ◌+◌, if◌then◌else◌, ap, String, none, some, List, [], ◌∷◌, ◌==◌, ◌||◌, includes, ◌≡◌, ◌⊎◌,
  refl,
}
use aspin_partners_bridge.Value.{str, num, whole}
use aspin_partners_bridge.Domain.{MpesaStkPushPayload, AirtelDirectDebitPayload}
use aspin_partners_bridge.Effects.Run.{Environment, run, trace}
use aspin_partners_bridge.Effects.Logic.{Post, observe}
use aspin_partners_bridge.Channels.Mpesa.{stk_push}
use aspin_partners_bridge.Channels.Airtel.{direct_debit}
use aspin_partners_bridge.Channels.Pushes.{sent, IsPush, IsDebit, pushes_send_the_order}
use aspin_partners_bridge.Bootstrap.{
  split_commas, join_commas, is_origin_allowed, get_redis_options, redis_url,
  listed_origins_are_allowed,
}
use aspin_partners_bridge.Errors.{Error, foreign}
use aspin_partners_bridge.Effects.{ok, err, Call, Reply, save_payment}
use aspin_partners_bridge.Executors.{britam_mpesa}
use aspin_partners_bridge.Executors.Initiate.{initiate}
use aspin_partners_bridge.Executors.Initiate.Columns.{
  has_required_columns, RequiresColumns, initiations_lack_a_column,
}
use aspin_partners_bridge.Tests.{services, outside, reply, initiation}

abbrev push : MpesaStkPushPayload
push = record {
  phone_number = "254700000007";
  amount = num (whole 250);
  account_reference = "policy-7";
  transaction_desc = none;
  partner_id = str "BRITAM";
}

abbrev debit : AirtelDirectDebitPayload
debit = record {
  phone_number = "254700000007";
  amount = num (whole 250);
  reference = "policy-7";
  partner_id = str "BRITAM";
}

pushes_send_the_order_example :
    Post
      (λ _. IsPush services push)
      (λ _ l. (l ≡ []) ⊎ IsPush services push l)
      (run outside (stk_push services push) 0)
      (observe sent [] (trace outside (stk_push services push) 0))
    × Post
        (λ _. IsDebit services debit)
        (λ _ l. (l ≡ []) ⊎ IsDebit services debit l)
        (run outside (direct_debit services debit) 0)
        (observe sent [] (trace outside (direct_debit services debit) 0))
pushes_send_the_order_example = pushes_send_the_order outside 0 services push debit

abbrev origins : List String
origins = "https://partners.aspin.com" ∷ "https://bridge.aspin.com" ∷ []

listed_origins_are_allowed_example :
    is_origin_allowed (split_commas (join_commas origins)) (some "https://bridge.aspin.com")
    ≡ (includes origins "https://bridge.aspin.com" || "https://bridge.aspin.com" == "")
listed_origins_are_allowed_example =
    listed_origins_are_allowed "https://partners.aspin.com" ("https://bridge.aspin.com" ∷ []) refl
      (some "https://bridge.aspin.com")

redis_url_test : redis_url services ≡ str "secret"
unfolding redis_url get_redis_options
redis_url_test = refl

-- The example's outside with a database that requires the columns of the entity.
abbrev missing_column : Error
missing_column = foreign (record {
  message = some "null value in column violates not-null constraint";
  status_code = none;
  response_status = none;
  code = none;
})

abbrev strict_reply : (c : Call) → ℕ → Reply c
strict_reply (save_payment p) n = if has_required_columns p then ok tt else err missing_column
strict_reply c n = reply c n

abbrev strict_outside : Environment ℕ
strict_outside = record { answer = strict_reply; after = λ c n. n + 1 }

strict : RequiresColumns strict_outside
strict = record {
  refuses = λ r p w absent same incomplete.
      (missing_column, ap (λ b. if b then ok tt else err missing_column) incomplete);
}

initiations_lack_a_column_example :
    (e : Error) × (run strict_outside (initiate britam_mpesa initiation) 0 ≡ err e)
initiations_lack_a_column_example =
    initiations_lack_a_column strict_outside strict 0 britam_mpesa initiation
