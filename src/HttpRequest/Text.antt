-- ===== src/HttpRequest/Text.antt =====
-- `CaseKeyCmp` of http/tnet_http.h, and the lines that http/httprequest.cpp and http/httpresponse.cpp
-- write.
use libtnet.Base.{Bool, [], ◌∷◌, ◌++◌, ltb, ◌==◌, if◌then◌else◌, length, take}
use libtnet.Base.Bytes.{Bytes}
use libtnet.Base.Multimap.{Multimap, less}
use libtnet.Base.Outcome.{Outcome, ret, fault, out_of_bounds, ◌>>=◌}
use libtnet.StringUtil.{lower}

-- `c_str()`, read as far as the first byte 0
unfoldable pub c_str : Bytes → Bytes
c_str [] = []
c_str (c ∷ s) = let rest = c ∷ c_str s in if c == 0 then [] else rest

-- `CaseKeyCmp`
unfoldable pub case_less : Bytes → Bytes → Bool
unfolding less c_str
case_less a b = less (lower (c_str a)) (lower (c_str b))

-- `snprintf` into `char buf[1024]`, and `append(buf, n)`: of 1024 bytes the last is a byte 0.
unfoldable pub printed : Bytes → Outcome Bytes
printed text =
    if ltb (length text) 1024
    then ret text
    else if length text == 1024
    then ret (take 1023 text ++ (0 ∷ []))
    else fault out_of_bounds

abbrev pub line_end : Bytes
line_end = 13 ∷ 10 ∷ []

abbrev pub colon : Bytes
colon = b':' ∷ 32 ∷ []

-- The line of a header.
unfoldable pub header_line : Bytes × Bytes → Bytes
unfolding c_str
header_line (name, value) = c_str name ++ (colon ++ (c_str value ++ line_end))

-- The loop over the headers in `dump`.
unfoldable pub dump_headers : Multimap → Outcome Bytes
unfolding header_line printed
dump_headers [] = ret []
dump_headers (h ∷ hs) = do
  line ← printed (header_line h)
  rest ← dump_headers hs
  ret (line ++ rest)
