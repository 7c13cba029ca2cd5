-- ===== src/Language/Proper/Casts.antt =====
-- The reports of `CheckCasts`.
use netier.Base.{ℕ, ◌<◌, refl, Bool, true, false, Option, none, some, List, [], ◌∷◌, Text, arith}
use netier.Regex.{Found}
use netier.Suppress.{Report}
use netier.Cleanse.{CleansedLines}
use netier.LineChecks.Proper.{
  AreProper, proper, nil, AreProper-append, AreProperIf, known_reports, if-AreProperIf,
}
use netier.LineChecks.Constructs.{behind}
use netier.Language.Casts.{
  cast_reports, check_c_style_cast, or_else_reports, c_style_reports, conversion_reports,
  address_report, address_reports, casts_of, check_casts,
}

module _ {n last : ℕ} (h : n < last) where
  cast_reports-AreProper :
      (elided : List Text) (cast_type line : Text) (m : Option Found)
      → AreProper n last (cast_reports elided n cast_type line m)
  unfolding cast_reports
  cast_reports-AreProper elided cast_type line none = nil
  cast_reports-AreProper elided cast_type line (some m) = search (proper, arith)

  check_c_style_cast-AreProper :
      (c : CleansedLines) (cast_type pattern : Text)
      → AreProper n last (check_c_style_cast c n cast_type pattern)
  unfolding check_c_style_cast
  check_c_style_cast-AreProper c cast_type pattern = cast_reports-AreProper _ _ _ _

  or_else_reports-AreProper :
      {rs qs : List Report}
      → AreProper n last rs
      → AreProper n last qs
      → AreProper n last (or_else_reports rs qs)
  or_else_reports-AreProper {rs = []} h h' = h'
  or_else_reports-AreProper {rs = _ ∷ _} h h' = h

  c_style_reports-AreProper : (c : CleansedLines) → AreProper n last (c_style_reports c n)
  unfolding c_style_reports
  c_style_reports-AreProper c =
      search (proper, arith, check_c_style_cast-AreProper, or_else_reports-AreProper)

  conversion_reports-AreProper :
      (line : Text) (m : Found) → AreProper n last (conversion_reports n line m)
  unfolding conversion_reports
  conversion_reports-AreProper line m = search (proper, arith)

  pub behind-AreProperIf :
      {first : List Report} (rest : Option (List Report))
      → AreProper n last first
      → AreProperIf n last rest
      → AreProperIf n last (behind first rest)
  behind-AreProperIf none h h' = λ qs e. ground arith
  behind-AreProperIf (some rs) h h' = known_reports (AreProper-append h (h' rs refl))

  address_report-AreProperIf : (b : Option Bool) → AreProperIf n last (address_report n b)
  address_report-AreProperIf none = λ qs e. ground arith
  address_report-AreProperIf (some true) = known_reports (search (proper, arith))
  address_report-AreProperIf (some false) = known_reports (search (proper, arith))

  address_reports-AreProperIf : (c : CleansedLines) → AreProperIf n last (address_reports c n)
  unfolding address_reports
  address_reports-AreProperIf c =
      if-AreProperIf _ (address_report-AreProperIf _) (known_reports nil)

  casts_of-AreProperIf :
      (c : CleansedLines) (line : Text) (m : Option Found)
      → AreProperIf n last (casts_of c n line m)
  unfolding casts_of
  casts_of-AreProperIf c line none =
      behind-AreProperIf _ (c_style_reports-AreProper c) (address_reports-AreProperIf c)
  casts_of-AreProperIf c line (some m) =
      if-AreProperIf _
        (behind-AreProperIf _ (c_style_reports-AreProper c) (address_reports-AreProperIf c))
        (if-AreProperIf _ (known_reports nil) (
          behind-AreProperIf _
            (AreProper-append (conversion_reports-AreProper line m) (c_style_reports-AreProper c))
            (address_reports-AreProperIf c)))

  pub check_casts-AreProperIf : (c : CleansedLines) → AreProperIf n last (check_casts c n)
  unfolding check_casts
  check_casts-AreProperIf c = casts_of-AreProperIf c _ _
