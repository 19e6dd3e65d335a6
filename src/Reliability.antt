-- ===== src/Reliability.antt =====
-- reliability.py: deadlines, the retry policy and the in-process circuit breaker.
-- A time is a number of microseconds on the monotonic clock, and each reading of the clock is an
-- argument, in the order in which the code reads it. A float of seconds is such a number too.
pub mod Circuit
pub mod Deadline
pub mod Failure
mod Tests
