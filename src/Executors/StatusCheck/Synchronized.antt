-- ===== src/Executors/StatusCheck/Synchronized.antt =====
-- What `statusCheck` has done when it ends.
use aspin_partners_bridge.Common.{◌≡◌}
use aspin_partners_bridge.Value.{Value}
use aspin_partners_bridge.Domain.{PaymentEntity, PartialPayment}
use aspin_partners_bridge.Effects.{Services, ◌>>=◌, ◌>>◌}
use aspin_partners_bridge.Executors.StatusCheck.Stages.{Check, publishing}

module _ (s : Services) (id : Value) where
  -- The publication, which starts with the look at the channel.
  module _ (p : PaymentEntity) (answer : Value) (c : PartialPayment) where
    abbrev IsBegun : Check → Type 0
    IsBegun σ = σ ≡ publishing p answer id c
