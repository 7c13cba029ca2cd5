-- ===== src/Regex/Tests.antt =====
-- Runs of the matcher on patterns of the source.
use netier.Base.{◌≡◌, refl, none, some, [], true, false, txt, Text}
use netier.Regex.{match_re, search_re, replace_all, is_match, is_found, group_or_empty}

abbrev group_in : Text → Text → Text
group_in p s = elim (search_re p s) [ some m ↦ group_or_empty 1 m | none ↦ txt "-" ]

nolint :
    group_in (txt "\\bNOLINT(NEXTLINE)?\\b(\\([^)]+\\))?") (txt "int x; // NOLINTNEXTLINE(a/b)")
    ≡ txt "NEXTLINE"
unfolding search_re txt
nolint = refl

comments :
    replace_all
      (txt
        "(\\s*/\\*(?:[^*]|\\*(?!/))*\\*/\\s*$|/\\*(?:[^*]|\\*(?!/))*\\*/\\s+|\\s+/\\*(?:[^*]|\\*(?!/))*\\*/(?=\\W)|/\\*(?:[^*]|\\*(?!/))*\\*/)")
      []
      (txt "f(a /* b */, /* c */ d) /* e */")
    ≡ txt "f(a, d)"
unfolding replace_all txt
comments = refl

misc :
    (is_match (txt " {6}\\w") (txt "      x") ≡ true)
    × (is_found (txt "\\b([A-Za-z0-9_]*_)\\(\\1\\)") (txt "foo_(foo_)") ≡ true)
    × (is_found (txt "\\b([A-Za-z0-9_]*_)\\(\\1\\)") (txt "foo_(bar_)") ≡ false)
    × (is_found (txt "(;|})") (txt "a{") ≡ false)
    × (is_match (txt "[A-Z_]+$") (txt "TEST_F") ≡ true)
    × (is_match (txt "^([-+]?(\\d+|0[xX][0-9a-fA-F]+)[lLuU]{0,3}|\".*\"|\\'.*\\')$") (txt "0x1fUL")
        ≡ true)
unfolding search_re match_re txt
misc = (refl, refl, refl, refl, refl, refl)

lazy :
    group_in (txt "^(.*?)\\b(?:R|u8R|uR|UR|LR)\"([^\\s\\\\()]*)\\((.*)$") (txt "x = R\"(a)\";")
    ≡ txt "x = "
unfolding search_re txt
lazy = refl
