-- ===== src/HttpUtil.antt =====
-- http/httputil.h and http/httputil.cpp: percent escapes, the names of headers, and the
-- texts of codes and methods.
-- A `char` is signed: a byte of 128 or more is a negative index, and reading a table with it is a
-- read out of bounds.
pub mod Examples
pub mod Escape
pub mod Header
use libtnet.Base.{
  ℕ, ◌+◌, ◌-◌, ◌*◌, ◌/◌, ◌%◌, Bool, true, false, ◌&&◌, ◌||◌, List, [], ◌∷◌, ◌++◌, Option, none,
  some, leb, ltb, ◌==◌, if◌then◌else◌,
}
use libtnet.Base.Bytes.{Bytes, codes}
use libtnet.Base.Outcome.{Outcome, ret, fault, out_of_bounds, ◌>>=◌}
use libtnet.StringUtil.{to_upper, lower}

-- `HEX2DEC[c]`, of which `none` is -1
pub hex2dec : ℕ → Option ℕ
hex2dec c =
    if leb b'0' c && leb c b'9'
    then some (c - b'0')
    else if leb b'A' c && leb c b'F'
    then some (c - b'A' + 10)
    else if leb b'a' c && leb c b'f'
    then some (c - b'a' + 10)
    else none

-- A byte as an index of a table of 256.
pub in_table : ℕ → Bool
in_table c = ltb c 128

-- The byte that `%` and two digits stand for.
pub decoded : Option ℕ → Option ℕ → Option ℕ
decoded (some hi) (some lo) = some (hi * 16 + lo)
decoded _ _ = none

abbrev pub cons_to : ℕ → Outcome Bytes → Outcome Bytes
cons_to c r = do s ← r; ret (c ∷ s)

unfoldable pub unescape : Bytes → Outcome Bytes
unfolding hex2dec in_table decoded
unescape [] = ret []
unescape (a ∷ []) = ret (a ∷ [])
unescape (a ∷ b ∷ []) = ret (a ∷ b ∷ [])
unescape (a ∷ b ∷ c ∷ rest) = elim (a == b'%') [
  | false ↦ cons_to a (unescape (b ∷ c ∷ rest))
  | true ↦ elim (in_table b && in_table c) [
    | false ↦ fault out_of_bounds
    | true ↦ elim (decoded (hex2dec b) (hex2dec c)) [
      | none ↦ cons_to a (unescape (b ∷ c ∷ rest))
      | some d ↦ cons_to d (unescape rest)
    ]
  ]
]

-- `SAFE[c]`
pub safe : ℕ → Bool
safe c = leb b'0' c && leb c b'9' || leb b'A' c && leb c b'Z' || leb b'a' c && leb c b'z'

-- `DEC2HEX[n]`
pub dec2hex : ℕ → ℕ
dec2hex n = if ltb n 10 then b'0' + n else b'A' + (n - 10)

-- What one byte becomes.
pub escape_byte : ℕ → Bytes
unfolding safe dec2hex
escape_byte c = if safe c then c ∷ [] else b'%' ∷ dec2hex (c / 16) ∷ dec2hex (c % 16) ∷ []

unfoldable pub escape : Bytes → Outcome Bytes
unfolding escape_byte in_table
escape [] = ret []
escape (c ∷ cs) = elim (in_table c) [
  | false ↦ fault out_of_bounds
  | true ↦ do r ← escape cs; ret (escape_byte c ++ r)
]

-- The loop of `normalizeHeader`; the flag says that the byte before was `-`, or that there is none.
pub capitalise : Bool → Bytes → Bytes
unfolding to_upper
capitalise up [] = []
capitalise up (c ∷ cs) = let c' = if up then to_upper c else c in c' ∷ capitalise (c' == b'-') cs

unfoldable pub normalize_header : Bytes → Bytes
unfolding capitalise lower
normalize_header src = capitalise true (lower src)

-- What `m_reasons` is filled with.
abbrev pub reasons : List (ℕ × Bytes)
reasons =
    (100, codes "Continue")
    ∷ (101, codes "Switching Protocols")
    ∷ (200, codes "OK")
    ∷ (201, codes "Created")
    ∷ (202, codes "Accepted")
    ∷ (203, codes "Non-Authoritative Information")
    ∷ (204, codes "No Content")
    ∷ (205, codes "Reset Content")
    ∷ (206, codes "Partial Content")
    ∷ (300, codes "Multiple Choices")
    ∷ (301, codes "Moved Permanently")
    ∷ (302, codes "Found")
    ∷ (303, codes "See Other")
    ∷ (304, codes "Not Modified")
    ∷ (305, codes "Use Proxy")
    ∷ (307, codes "Temporary Redirect")
    ∷ (400, codes "Bad Request")
    ∷ (401, codes "Unauthorized")
    ∷ (402, codes "Payment Required")
    ∷ (403, codes "Forbidden")
    ∷ (404, codes "Not Found")
    ∷ (405, codes "Method Not Allowed")
    ∷ (406, codes "Not Acceptable")
    ∷ (407, codes "Proxy Authentication Required")
    ∷ (408, codes "Request Time-out")
    ∷ (409, codes "Conflict")
    ∷ (410, codes "Gone")
    ∷ (411, codes "Length Required")
    ∷ (412, codes "Precondition Failed")
    ∷ (413, codes "Request Entity Too Large")
    ∷ (414, codes "Request-URI Too Large")
    ∷ (415, codes "Unsupported Media Type")
    ∷ (416, codes "Requested range not satisfiable")
    ∷ (417, codes "Expectation Failed")
    ∷ (500, codes "Internal Server Error")
    ∷ (501, codes "Not Implemented")
    ∷ (502, codes "Bad Gateway")
    ∷ (503, codes "Service Unavailable")
    ∷ (504, codes "Gateway Time-out")
    ∷ (505, codes "HTTP Version not supported")
    ∷ []

pub reason_in : List (ℕ × Bytes) → ℕ → Bytes
reason_in [] code = codes "Unknown Error"
reason_in ((c, text) ∷ rest) code =
    let later = reason_in rest code in if c == code then text else later

-- `codeReason`: a code for which there is no entry is unknown, below and above 600 alike.
pub code_reason : ℕ → Bytes
unfolding reason_in
code_reason code = reason_in reasons code

-- `methodStr`; the third-party `http_method_str` is the parameter.
pub method_str : (ℕ → Bytes) → ℕ → Bytes
method_str http_method_str method = http_method_str (method % 256)
