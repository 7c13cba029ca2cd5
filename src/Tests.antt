-- ===== src/Tests.antt =====
-- Runs of the models on small inputs, and the theorems at concrete data.
mod Reports
mod Includes
mod Functions
mod Cleansing
mod Expressions
mod Nesting
mod Formats
mod WholeFiles
mod Running
mod LineReports
mod LineTheorems
mod LanguageReports
mod IncludeLines
