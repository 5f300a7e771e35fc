-- ===== src/Calendar.antt =====
-- Billing dates: src/common/utils/billing-date.util.ts.
pub mod Date
pub mod Billing
pub mod Months
pub mod Due
pub mod Next
