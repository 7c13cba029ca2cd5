-- ===== src/Expression.antt =====
-- The search for the end and the start of a bracketed expression in build_support/cpplint.py:
-- `FindEndOfExpressionInLine`, `CloseExpression`, `FindStartOfExpressionInLine`,
-- `ReverseCloseExpression`.
pub mod Stack
pub mod Forward
pub mod Backward
mod Bottom
pub mod Closing
pub mod Balanced
pub mod Moves
