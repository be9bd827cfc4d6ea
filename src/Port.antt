-- ===== src/Port.antt =====
-- domain/src/port: the traits through which the services reach the outside. `Port.Types` has the
-- values and errors of the traits, `Port.Call` their methods as data, and what a service does with
-- them as an action on the history of the calls made so far.
pub mod Types
pub mod Call
pub mod Queries
pub mod Trace
pub mod Rules
