-- ===== src/Suggest.antt =====
-- The arithmetic behind the suggestions: stellar/src/suggest/amount.ts (rounding), stats.ts
-- (percentiles and outliers) and, of suggest.ts, the pool of records and the first run of a proposed
-- schedule. Amounts of settled payments and times are natural numbers; where the code tests a sign,
-- the argument is an integer. `Number.isInteger` of a percentile is its type.
pub mod Rounding
pub mod Stats
pub mod Slots
pub mod Pool
mod Tests
