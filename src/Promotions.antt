-- ===== src/Promotions.antt =====
-- The promotions of a store (modules/promotions): the discount of one promotion, the promotions that
-- apply together, and the evaluation of a cart.
pub mod Model
pub mod Discount
pub mod Stacking
pub mod Evaluation
pub mod Bounds
pub mod Eligibility
pub mod Totals
pub mod Combination
pub mod Limits
pub mod Stacks
pub mod Resolution
