-- ===== src/Format/Directories.antt =====
-- How the results for the source directories combine.
use netier.Base.{ℕ, Bool, List, [], ◌∷◌, ◌++◌, ◌≡◌, refl, Text, ◌∙◌}
use netier.Format.{
  Tools, Arguments, Output, Result, raised, done, after, check_directory, check_directories,
}

after-done : (r : Result) → after r done ≡ r
unfolding after
after-done (raised out) = refl
after-done (done error out) = refl

after-after :
    (r : Result) (f g h : Bool → Output → Result)
    → ((error : Bool) (out : Output) → f error out ≡ after (g error out) h)
    → after r f ≡ after (after r g) h
unfolding after
after-after (raised out) f g h e = refl
after-after (done error out) f g h e = e error out

check_directories-append :
    (tools : Tools) (args : Arguments) (dirs more : List Text) (had_err : Bool) (out : Output)
    → check_directories tools args (dirs ++ more) had_err out
      ≡ after (check_directories tools args dirs had_err out) (check_directories tools args more)
unfolding check_directories after
check_directories-append tools args [] more had_err out = refl
check_directories-append tools args ([] ∷ dirs) more had_err out =
    check_directories-append tools args dirs more had_err out
check_directories-append tools args ((c ∷ dir) ∷ dirs) more had_err out =
    after-after (check_directory tools args (c ∷ dir) out) _ _ (check_directories tools args more)
      (check_directories-append tools args dirs more)

-- Where the checks of the directories in front of it raise no exception, the result of the script,
-- and so its exit status, is that of the check of the last directory, if this has a name, whatever
-- the checks before found.
pub check_directories-last :
    (tools : Tools) (args : Arguments) (dirs : List Text) (c : ℕ) (dir : Text) (had_err : Bool)
    (out out' : Output) (found : Bool)
    → check_directories tools args dirs had_err out ≡ done found out'
    → check_directories tools args (dirs ++ (c ∷ dir) ∷ []) had_err out
      ≡ check_directory tools args (c ∷ dir) out'
unfolding check_directories after
check_directories-last tools args dirs c dir had_err out out' found h =
    check_directories-append tools args dirs ((c ∷ dir) ∷ []) had_err out
    ∙ rw (h, after) (after-done (check_directory tools args (c ∷ dir) out'))
