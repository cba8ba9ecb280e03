-- ===== src/Executors.antt =====
-- infrastructure/executors: the payment executors. BasePaymentExecutor holds the handlers; each
-- class of executors/partners gives it a partner, a channel name and a channel.
pub mod Payload
pub mod Footprint
pub mod Bounds
pub mod Publish
pub mod Lock
pub mod Initiate
pub mod StatusCheck
pub mod Callback
pub mod Builder
pub use Defs.{Executor, apa_mpesa, britam_mpesa, britam_airtel}
unfoldable pub use Defs.{get_partner, get_channel, get_channel_implementation}
pub mod Defs
