-- ===== src/Lib.antt =====
-- Verification of the Python tooling of netier (build_support/): the C++ style checker cpplint.py
-- and run_clang_format.py.
--
-- cpplint.py reads the lines of a C++ file, cleans them of strings and comments, runs many checks
-- on each line, and hands what they find to `Error`, which decides by NOLINT comments, verbosity
-- and filters whether it is printed and counted. The modules follow these parts.
--
--   Base         Python's lists and `str` over native numbers: a text is a list of code points
--   Regex        `Match`, `Search`, `ReplaceAll`: a backtracking matcher for Python's `re`, and a
--                reader of its patterns, so that the models quote the patterns of the source
--   Categories   the tables of error categories
--   Suppress     `ParseNolintSuppressions`, `ProcessGlobalSuppresions` and the lookup
--   LintState    `_CppLintState`: filters, counters, output
--   Report       `_ShouldPrintError`, `Error`
--   IncludeState `_IncludeState`: the order of include lines
--   FunctionState `_FunctionState`, `CheckForFunctionLengths`
--   Cleanse      `CleanseRawStrings`, `RemoveMultiLineComments`, `CleanseComments`, `CleansedLines`
--   Expression   `CloseExpression`, `ReverseCloseExpression`
--   Nesting      `_BlockInfo` and its subclasses, `NestingState`: blocks, preprocessor sections,
--                `Update`
--   Checks       `CheckForCopyright`, `CheckForBadCharacters`, `CheckForNewlineAtEOF`
--   LineChecks   the checks of one line: `CheckStyle` with all the checks that it calls, and
--                `CheckForNonStandardConstructs` and its like
--   Language     the checks of one line that `ProcessLine` calls behind `CheckStyle`: casts, strings,
--                references, redundant words, C++11 headers
--   Includes     `FileInfo`, `_ClassifyInclude`, `CheckIncludeLine`, and `CheckLanguage` as a whole
--   Format       `check` and the main loop of run_clang_format.py
--   Tests        runs on small inputs
--
-- A method that changes an object is a function from its record to the new record. The `error`
-- callback of a check is the list of reports that the check returns, which `Report.errors` takes in
-- order. An exception is a case of the result: none for an AssertionError or an IndexError.
-- The tools that run_clang_format.py calls are functions of the record `Format.Tools`.
-- The dicts of the source are association lists; -1 for "not found" is none.
--
-- Fuel: the matcher gives a repeat as many rounds as characters are left and two more. The loop of
-- `RemoveMultiLineComments` gets one round more than there are lines, and moves at least one line
-- on. `CleanseRawStrings`, `_CollapseStrings` and the loops of `NestingState.Update` get one round
-- more than the line has characters: each of their rounds takes at least one away.
-- `InTemplateArgumentList` gets one round for each character and each line, and one more. The loops
-- of `CheckOperatorSpacing` and `CheckCheck` get one round more than the text has characters: a round
-- turns a character into an underscore, or takes one away.
--
-- The loops of `RepositoryName` go up one directory in a round and get more rounds than the path has
-- characters. Out of rounds is none in these, in the loops for raw strings and for collapsed strings,
-- in that of `InTemplateArgumentList` and in those of `CheckOperatorSpacing` and `CheckCheck`. Only the
-- loop of `RepositoryName` for SVN can come to it; where the others hand on a plain value, the case for
-- none stands in a helper named for its result.
--
-- Not modelled: letters and case outside of ASCII (`\w` and `lower` know only ASCII), verbosity
-- levels below 0, `FormatJUnitXML`, `CheckForIncludeWhatYouUse`, the indentation in namespaces, header
-- guards, the command line and reading files; run_clang_tidy.py; the server in C++, which is
-- made of calls of the operating system. `CheckStyle` takes the widths of characters, the line length
-- and the header guard of the file as arguments, and makes events of what it calls, since
-- `CheckTrailingSemicolon` also reads NOLINT comments. `CheckIncludeLine` takes the function from a
-- file name to its `RepositoryName` as an argument. What is used of os.path is that of a POSIX system,
-- and a set is a list in the order in which Python goes through it.
pub mod Base
pub mod Regex
pub mod Categories
pub mod Suppress
pub mod LintState
pub mod Report
pub mod IncludeState
pub mod FunctionState
pub mod Cleanse
pub mod Expression
pub mod Nesting
pub mod Checks
pub mod LineChecks
pub mod Includes
pub mod Language
pub mod Format
pub mod Tests
