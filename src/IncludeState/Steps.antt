-- ===== src/IncludeState/Steps.antt =====
-- One include line.
use netier.Base.{◌<◌, [], ◌≢◌, txt}
use netier.IncludeState.{HeaderType, c_sys, cpp_sys, Section, rank, IncludeState, order_message}

pub order_message-ne-nil : (t : HeaderType) (s : Section) → order_message t s ≢ []
unfolding order_message txt
order_message-ne-nil t s h = cc

-- A C header is late behind a C++ or other header, a C++ header behind an other one.
abbrev pub IsLate : HeaderType → Section → Type 0
IsLate c_sys s = 2 < rank s
IsLate cpp_sys s = 3 < rank s
IsLate _ s = ⊥
