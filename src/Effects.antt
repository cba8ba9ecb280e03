-- ===== src/Effects.antt =====
-- A handler as a program over the calls that it makes: `ask` makes a call and goes on with the
-- reply, `ret` resolves the promise and `throw` rejects it. The databases, queues and services on
-- the other side of a call are third-party, so a reply is never computed here: a property holds
-- for every reply, or an environment is its parameter.
pub mod Bound
pub mod Threads
pub mod Run
pub mod Logic
pub mod Footprint
pub use Defs.{
  Result, ok, err, HttpRequest, JobSpec, Measure, inc, set, observe, MetricUpdate, Call,
  find_by_transaction_id, find_by_reference, save_payment, update_payment, redis_set_nx, redis_del,
  add_job, has_amqp_channel, amqp_publish, http_request, metric, now, Reply, Prog, ret, throw, ask,
  ◌>>=◌, ◌>>◌, try_catch, try_finally, Host, Services,
}
unfoldable pub use Defs.{lift, call, attempt, or_throw, throw_if, read, to_text, effects}
mod Defs
