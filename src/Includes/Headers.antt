-- ===== src/Includes/Headers.antt =====
-- Which headers and extensions build_support/cpplint.py knows.
use netier.Base.{
  Bool, List, [], ◌∷◌, ◌++◌, Text, txt, has_text, elem, strip, split_on, map, if◌then◌else◌,
}

-- `_CPP_HEADERS`
unfoldable pub cpp_headers : List Text
cpp_headers =
    txt "algobase.h"
    ∷ txt "algo.h"
    ∷ txt "alloc.h"
    ∷ txt "builtinbuf.h"
    ∷ txt "bvector.h"
    ∷ txt "complex.h"
    ∷ txt "defalloc.h"
    ∷ txt "deque.h"
    ∷ txt "editbuf.h"
    ∷ txt "fstream.h"
    ∷ txt "function.h"
    ∷ txt "hash_map"
    ∷ txt "hash_map.h"
    ∷ txt "hash_set"
    ∷ txt "hash_set.h"
    ∷ txt "hashtable.h"
    ∷ txt "heap.h"
    ∷ txt "indstream.h"
    ∷ txt "iomanip.h"
    ∷ txt "iostream.h"
    ∷ txt "istream.h"
    ∷ txt "iterator.h"
    ∷ txt "list.h"
    ∷ txt "map.h"
    ∷ txt "multimap.h"
    ∷ txt "multiset.h"
    ∷ txt "ostream.h"
    ∷ txt "pair.h"
    ∷ txt "parsestream.h"
    ∷ txt "pfstream.h"
    ∷ txt "procbuf.h"
    ∷ txt "pthread_alloc"
    ∷ txt "pthread_alloc.h"
    ∷ txt "rope"
    ∷ txt "rope.h"
    ∷ txt "ropeimpl.h"
    ∷ txt "set.h"
    ∷ txt "slist"
    ∷ txt "slist.h"
    ∷ txt "stack.h"
    ∷ txt "stdiostream.h"
    ∷ txt "stl_alloc.h"
    ∷ txt "stl_relops.h"
    ∷ txt "streambuf.h"
    ∷ txt "stream.h"
    ∷ txt "strfile.h"
    ∷ txt "strstream.h"
    ∷ txt "tempbuf.h"
    ∷ txt "tree.h"
    ∷ txt "type_traits.h"
    ∷ txt "vector.h"
    ∷ txt "algorithm"
    ∷ txt "array"
    ∷ txt "atomic"
    ∷ txt "bitset"
    ∷ txt "chrono"
    ∷ txt "codecvt"
    ∷ txt "complex"
    ∷ txt "condition_variable"
    ∷ txt "deque"
    ∷ txt "exception"
    ∷ txt "forward_list"
    ∷ txt "fstream"
    ∷ txt "functional"
    ∷ txt "future"
    ∷ txt "initializer_list"
    ∷ txt "iomanip"
    ∷ txt "ios"
    ∷ txt "iosfwd"
    ∷ txt "iostream"
    ∷ txt "istream"
    ∷ txt "iterator"
    ∷ txt "limits"
    ∷ txt "list"
    ∷ txt "locale"
    ∷ txt "map"
    ∷ txt "memory"
    ∷ txt "mutex"
    ∷ txt "new"
    ∷ txt "numeric"
    ∷ txt "ostream"
    ∷ txt "queue"
    ∷ txt "random"
    ∷ txt "ratio"
    ∷ txt "regex"
    ∷ txt "scoped_allocator"
    ∷ txt "set"
    ∷ txt "sstream"
    ∷ txt "stack"
    ∷ txt "stdexcept"
    ∷ txt "streambuf"
    ∷ txt "string"
    ∷ txt "strstream"
    ∷ txt "system_error"
    ∷ txt "thread"
    ∷ txt "tuple"
    ∷ txt "typeindex"
    ∷ txt "typeinfo"
    ∷ txt "type_traits"
    ∷ txt "unordered_map"
    ∷ txt "unordered_set"
    ∷ txt "utility"
    ∷ txt "valarray"
    ∷ txt "vector"
    ∷ txt "shared_mutex"
    ∷ txt "any"
    ∷ txt "charconv"
    ∷ txt "codecvt"
    ∷ txt "execution"
    ∷ txt "filesystem"
    ∷ txt "memory_resource"
    ∷ txt "optional"
    ∷ txt "string_view"
    ∷ txt "variant"
    ∷ txt "cassert"
    ∷ txt "ccomplex"
    ∷ txt "cctype"
    ∷ txt "cerrno"
    ∷ txt "cfenv"
    ∷ txt "cfloat"
    ∷ txt "cinttypes"
    ∷ txt "ciso646"
    ∷ txt "climits"
    ∷ txt "clocale"
    ∷ txt "cmath"
    ∷ txt "csetjmp"
    ∷ txt "csignal"
    ∷ txt "cstdalign"
    ∷ txt "cstdarg"
    ∷ txt "cstdbool"
    ∷ txt "cstddef"
    ∷ txt "cstdint"
    ∷ txt "cstdio"
    ∷ txt "cstdlib"
    ∷ txt "cstring"
    ∷ txt "ctgmath"
    ∷ txt "ctime"
    ∷ txt "cuchar"
    ∷ txt "cwchar"
    ∷ txt "cwctype"
    ∷ []

-- The extensions that the flags --headers and --extensions give. A set is a list in the order in
-- which Python goes through it.
pub record Extensions : Type 0 where
  pub hpp_headers : List Text
  pub valid_extensions : List Text

abbrev or_default : List Text → List Text → List Text
or_default default [] = default
or_default default (x ∷ xs) = x ∷ xs

-- The members with an 'h' in them
unfoldable pub with_h : List Text → List Text
with_h [] = []
with_h (ext ∷ exts) = if has_text ext (txt "h") then ext ∷ with_h exts else with_h exts

abbrev valid_headers : List Text → List Text
valid_headers [] = txt "h" ∷ txt "hh" ∷ txt "hpp" ∷ txt "hxx" ∷ txt "h++" ∷ txt "cuh" ∷ []
valid_headers (ext ∷ exts) = with_h (ext ∷ exts)

unfoldable pub get_header_extensions : Extensions → List Text
get_header_extensions e = or_default (valid_headers e.valid_extensions) e.hpp_headers

-- The members that are not in the other set
unfoldable pub difference : List Text → List Text → List Text
difference [] other = []
difference (x ∷ xs) other = if elem x other then difference xs other else x ∷ difference xs other

unfoldable pub get_all_extensions : Extensions → List Text
get_all_extensions e =
    let headers = get_header_extensions e in
    headers
    ++ difference
        (or_default (txt "c" ∷ txt "cc" ∷ txt "cpp" ∷ txt "cxx" ∷ txt "c++" ∷ txt "cu" ∷ [])
          e.valid_extensions)
        headers

unfoldable pub get_non_header_extensions : Extensions → List Text
get_non_header_extensions e = difference (get_all_extensions e) (get_header_extensions e)

unfoldable pub is_header_extension : Extensions → Text → Bool
is_header_extension e file_extension = elem file_extension (get_header_extensions e)

-- The values of the flags
unfoldable pub extensions_of : Text → List Text
extensions_of val = map strip (split_on b',' val)

unfoldable pub process_hpp_headers_option : Text → Extensions → Extensions
process_hpp_headers_option val e = record e { hpp_headers = extensions_of val }

unfoldable pub process_extensions_option : Text → Extensions → Extensions
process_extensions_option val e = record e { valid_extensions = extensions_of val }
