-- ===== src/IncludeState/Order.antt =====
-- The order of all the include lines of a section.
use netier.Base.{
  ◌≤◌, List, [], ◌∷◌, ◌++◌, ◌≡◌, ◌↔◌, refl, arith, leb, if◌then◌else◌, ap, subst, sym, Text,
}
use netier.IncludeState.{
  HeaderType, c_sys, cpp_sys, likely_my, possible_my, other, Section, initial, my_h, c, cpp,
  other_h, rank, IncludeState, reset_section, move_to, too_late, check_next_include_order,
}
use netier.IncludeState.Steps.{IsLate, order_message-ne-nil}

-- No call gets a message, when these headers come one after the other.
abbrev pub IsQuiet : List HeaderType → IncludeState → Type 0
IsQuiet [] s = Unit
IsQuiet (t ∷ ts) s =
    ((check_next_include_order t s).1 ≡ []) × IsQuiet ts (check_next_include_order t s).0

abbrev pub AllOf : (HeaderType → Type 0) → List HeaderType → Type 0
AllOf P [] = Unit
AllOf P (t ∷ ts) = P t × AllOf P ts

abbrev pub IsMine : HeaderType → Type 0
IsMine likely_my = Unit
IsMine possible_my = Unit
IsMine _ = ⊥

abbrev pub IsC : HeaderType → Type 0
IsC c_sys = Unit
IsC _ = ⊥

abbrev pub IsCpp : HeaderType → Type 0
IsCpp cpp_sys = Unit
IsCpp _ = ⊥

abbrev pub IsOwn : HeaderType → Type 0
IsOwn c_sys = ⊥
IsOwn cpp_sys = ⊥
IsOwn _ = Unit

-- C++ system headers, and then headers that are no system headers.
abbrev pub CppPart : List HeaderType → Type 0
CppPart ts =
    (cpps : List HeaderType) × (rest : List HeaderType) × (ts ≡ cpps ++ rest)
    × AllOf IsCpp cpps
    × AllOf IsOwn rest

-- C system headers, and then such a part.
abbrev pub CPart : List HeaderType → Type 0
CPart ts =
    (cs : List HeaderType) × (rest : List HeaderType) × (ts ≡ cs ++ rest)
    × AllOf IsC cs
    × CppPart rest

-- The file's own headers, C system headers, C++ system headers, and others.
abbrev pub InOrder : List HeaderType → Type 0
InOrder ts =
    (mine : List HeaderType) × (rest : List HeaderType) × (ts ≡ mine ++ rest)
    × AllOf IsMine mine
    × CPart rest

-- The section after a header that is not late.
abbrev next : HeaderType → Section → Section
next c_sys s = c
next cpp_sys s = cpp
next likely_my s = if leb (rank s) 1 then my_h else other_h
next possible_my s = if leb (rank s) 1 then my_h else other_h
next other s = other_h

abbrev QuietFrom : List HeaderType → Section → Type 0
QuietFrom [] s = Unit
QuietFrom (t ∷ ts) s = (¬ IsLate t s) × QuietFrom ts (next t s)

check_next-next :
    (t : HeaderType) (s : IncludeState)
    → (((check_next_include_order t s).1 ≡ []) ↔ (¬ IsLate t s.section))
      × (¬ IsLate t s.section → (check_next_include_order t s).0.section ≡ next t s.section)
unfolding check_next_include_order move_to too_late rank
check_next-next c_sys s = ground (arith, order_message-ne-nil c_sys s.section)
check_next-next cpp_sys s = ground (arith, order_message-ne-nil cpp_sys s.section)
check_next-next _ s = ground arith

IsQuiet-QuietFrom :
    (ts : List HeaderType) (s : IncludeState) → IsQuiet ts s ↔ QuietFrom ts s.section
IsQuiet-QuietFrom [] s = (λ h. tt, λ h. tt)
IsQuiet-QuietFrom (t ∷ ts) s =
    let ((to, from), step) = check_next-next t s in
    let ih = IsQuiet-QuietFrom ts (check_next_include_order t s).0 in
    (
      λ h. (to h.0, subst (QuietFrom ts) (step (to h.0)) (ih.0 h.1)),
      λ h. (from h.0, ih.1 (subst (QuietFrom ts) (sym (step h.0)) h.1)),
    )

-- From quiet to in order, one part after the other.
own_from : (ts : List HeaderType) → QuietFrom ts other_h → AllOf IsOwn ts
unfolding rank
own_from [] h = tt
own_from (c_sys ∷ ts) h = absurd (h.0 (omega arith))
own_from (cpp_sys ∷ ts) h = absurd (h.0 (omega arith))
own_from (likely_my ∷ ts) h = (tt, own_from ts h.1)
own_from (possible_my ∷ ts) h = (tt, own_from ts h.1)
own_from (other ∷ ts) h = (tt, own_from ts h.1)

cpp_from : (ts : List HeaderType) → QuietFrom ts cpp → CppPart ts
unfolding rank
cpp_from [] h = ([], [], refl, tt, tt)
cpp_from (c_sys ∷ ts) h = absurd (h.0 (omega arith))
cpp_from (cpp_sys ∷ ts) h =
    let (cpps, rest, e, a, b) = cpp_from ts h.1 in
    (cpp_sys ∷ cpps, rest, ap (◌∷◌ cpp_sys) e, (tt, a), b)
cpp_from (t ∷ ts) h = ([], t ∷ ts, refl, tt, (tt, own_from ts h.1))

c_from : (ts : List HeaderType) → QuietFrom ts c → CPart ts
unfolding rank
c_from [] h = ([], [], refl, tt, ([], [], refl, tt, tt))
c_from (c_sys ∷ ts) h =
    let (cs, rest, e, a, b) = c_from ts h.1 in (c_sys ∷ cs, rest, ap (◌∷◌ c_sys) e, (tt, a), b)
c_from (cpp_sys ∷ ts) h =
    let (cpps, rest, e, a, b) = cpp_from ts h.1 in
    ([], cpp_sys ∷ ts, refl, tt, (cpp_sys ∷ cpps, rest, ap (◌∷◌ cpp_sys) e, (tt, a), b))
c_from (t ∷ ts) h = ([], t ∷ ts, refl, tt, ([], t ∷ ts, refl, tt, (tt, own_from ts h.1)))

next_mine : (s : Section) → rank s ≤ 1 → (if leb (rank s) 1 then my_h else other_h) ≡ my_h
next_mine s h = ground arith

prepend_mine : (t : HeaderType) (ts : List HeaderType) → IsMine t → InOrder ts → InOrder (t ∷ ts)
prepend_mine t ts m (mine, rest, e, a, b) = (t ∷ mine, rest, ap (◌∷◌ t) e, (m, a), b)

initial_from : (s : Section) (ts : List HeaderType) → rank s ≤ 1 → QuietFrom ts s → InOrder ts
unfolding rank
initial_from s [] r h = ([], [], refl, tt, ([], [], refl, tt, ([], [], refl, tt, tt)))
initial_from s (c_sys ∷ ts) r h =
    let (cs, rest, e, a, b) = c_from ts h.1 in
    ([], c_sys ∷ ts, refl, tt, (c_sys ∷ cs, rest, ap (◌∷◌ c_sys) e, (tt, a), b))
initial_from s (cpp_sys ∷ ts) r h =
    let (cpps, rest, e, a, b) = cpp_from ts h.1 in
    (
      [],
      cpp_sys ∷ ts,
      refl,
      tt,
      ([], cpp_sys ∷ ts, refl, tt, (cpp_sys ∷ cpps, rest, ap (◌∷◌ cpp_sys) e, (tt, a), b)),
    )
initial_from s (likely_my ∷ ts) r h =
    prepend_mine likely_my ts tt
      (initial_from my_h ts (omega arith) (subst (QuietFrom ts) (next_mine s r) h.1))
initial_from s (possible_my ∷ ts) r h =
    prepend_mine possible_my ts tt
      (initial_from my_h ts (omega arith) (subst (QuietFrom ts) (next_mine s r) h.1))
initial_from s (other ∷ ts) r h =
    let b = own_from ts h.1 in
    ([], other ∷ ts, refl, tt, ([], other ∷ ts, refl, tt, ([], other ∷ ts, refl, tt, (tt, b))))

-- From in order to quiet.
own_to : (ts : List HeaderType) (s : Section) → AllOf IsOwn ts → QuietFrom ts s
own_to [] s h = tt
own_to (c_sys ∷ ts) s h = absurd h.0
own_to (cpp_sys ∷ ts) s h = absurd h.0
own_to (t ∷ ts) s h = (λ l. l, own_to ts _ h.1)

cpp_to :
    (cpps rest : List HeaderType) (s : Section)
    → rank s ≤ 3
    → AllOf IsCpp cpps
    → AllOf IsOwn rest
    → QuietFrom (cpps ++ rest) s
unfolding rank
cpp_to [] rest s r a b = own_to rest s b
cpp_to (cpp_sys ∷ ts) rest s r a b = (λ l. omega arith, cpp_to ts rest cpp (omega arith) a.1 b)
cpp_to (c_sys ∷ ts) rest s r a b = absurd a.0
cpp_to (likely_my ∷ ts) rest s r a b = absurd a.0
cpp_to (possible_my ∷ ts) rest s r a b = absurd a.0
cpp_to (other ∷ ts) rest s r a b = absurd a.0

c_to :
    (cs ts : List HeaderType) (s : Section)
    → rank s ≤ 2
    → AllOf IsC cs
    → CppPart ts
    → QuietFrom (cs ++ ts) s
unfolding rank
c_to [] ts s r a (cpps, rest, e, k, b) = rw e (cpp_to cpps rest s (omega arith) k b)
c_to (c_sys ∷ cs) ts s r a b = (λ l. omega arith, c_to cs ts c (omega arith) a.1 b)
c_to (cpp_sys ∷ cs) ts s r a b = absurd a.0
c_to (likely_my ∷ cs) ts s r a b = absurd a.0
c_to (possible_my ∷ cs) ts s r a b = absurd a.0
c_to (other ∷ cs) ts s r a b = absurd a.0

mine_to :
    (mine ts : List HeaderType) (s : Section)
    → rank s ≤ 1
    → AllOf IsMine mine
    → CPart ts
    → QuietFrom (mine ++ ts) s
unfolding rank
mine_to [] ts s r a (cs, rest, e, k, b) = rw e (c_to cs rest s (omega arith) k b)
mine_to (likely_my ∷ mine) ts s r a b = (
  λ l. l,
  subst (QuietFrom (mine ++ ts)) (sym (next_mine s r)) (mine_to mine ts my_h (omega arith) a.1 b),
)
mine_to (possible_my ∷ mine) ts s r a b = (
  λ l. l,
  subst (QuietFrom (mine ++ ts)) (sym (next_mine s r)) (mine_to mine ts my_h (omega arith) a.1 b),
)
mine_to (c_sys ∷ mine) ts s r a b = absurd a.0
mine_to (cpp_sys ∷ mine) ts s r a b = absurd a.0
mine_to (other ∷ mine) ts s r a b = absurd a.0

-- After a reset the headers of a section get no message exactly when they are the file's own
-- headers, then C system headers, then C++ system headers, and then headers that are no system
-- headers, where each part may be empty.
pub IsQuiet-InOrder :
    (directive : Text) (s : IncludeState) (ts : List HeaderType)
    → IsQuiet ts (reset_section directive s) ↔ InOrder ts
unfolding reset_section rank
IsQuiet-InOrder directive s ts = (
  λ h. initial_from initial ts (omega arith) ((IsQuiet-QuietFrom ts _).0 h),
  λ (mine, rest, e, a, b).
      (IsQuiet-QuietFrom ts _).1
        (subst (λ l. QuietFrom l initial) (sym e) (mine_to mine rest initial (omega arith) a b)),
)
