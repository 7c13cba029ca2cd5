-- ===== src/Nesting/Preprocessor.antt =====
-- `UpdatePreprocessor`.
use netier.Base.{true, false, List, [], ◌∷◌, Text, txt, if◌then◌else◌}
use netier.Regex.{is_match}
use netier.Nesting.Blocks.{BlockInfo}
use netier.Nesting.State.{PreprocessorInfo, NestingState}

-- What a line is to the preprocessor
pub data Directive : Type 0 where
  starts_if starts_else ends_if none_of_these : Directive

unfoldable pub directive_of : Text → Directive
directive_of line =
    if is_match (txt "^\\s*#\\s*(if|ifdef|ifndef)\\b") line
    then starts_if
    else if is_match (txt "^\\s*#\\s*(else|elif)\\b") line
    then starts_else
    else if is_match (txt "^\\s*#\\s*endif\\b") line
    then ends_if
    else none_of_these

-- The first `#else` of a section remembers the stack.
unfoldable pub see_else : List BlockInfo → PreprocessorInfo → PreprocessorInfo
see_else stack info =
    if info.seen_else then info else record info { seen_else = true; stack_before_else = stack }

unfoldable pub update_else : List PreprocessorInfo → NestingState → NestingState
update_else [] s = s
update_else (info ∷ infos) s = record s {
  stack = info.stack_before_if;
  pp_stack = see_else s.stack info ∷ infos;
}

unfoldable pub update_endif : List PreprocessorInfo → NestingState → NestingState
update_endif [] s = s
update_endif (info ∷ infos) s = record s {
  stack = if info.seen_else then info.stack_before_else else s.stack;
  pp_stack = infos;
}

-- `_PreprocessorInfo(stack_before_if)`
unfoldable pub new_preprocessor_info : List BlockInfo → PreprocessorInfo
new_preprocessor_info stack = record {
  stack_before_if = stack;
  stack_before_else = [];
  seen_else = false;
}

unfoldable pub update_branch : Directive → NestingState → NestingState
update_branch starts_if s = record s { pp_stack = new_preprocessor_info s.stack ∷ s.pp_stack }
update_branch starts_else s = update_else s.pp_stack s
update_branch ends_if s = update_endif s.pp_stack s
update_branch none_of_these s = s

unfoldable pub update_preprocessor : Text → NestingState → NestingState
update_preprocessor line s = update_branch (directive_of line) s
