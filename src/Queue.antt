-- ===== src/Queue.antt =====
-- Durable full runs over the Redis queue: the lock and the jobs, which runs may be queued again, the
-- worker, and the inspection of the queue.
pub mod Broker
pub mod Eligibility
pub mod Requeue
pub mod Worker
