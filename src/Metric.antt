-- ===== src/Metric.antt =====
-- pkg/metric: the rolling counter, from its buckets up.
mod Tests
pub mod Window
pub mod Policy
pub mod Rotation
pub mod Ring
pub mod Roll
pub mod Reduce
pub mod Counter
pub mod Refine
pub mod Adds
pub mod Reads
pub mod Reduces
pub mod Events
pub mod History
pub mod Totals
