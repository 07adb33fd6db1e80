-- ===== src/HttpResponse.antt =====
-- http/httpresponse.h and http/httpresponse.cpp. The status code and the size of the body fit an
-- `int`, and the code is not negative.
use libtnet.Base.{ℕ, Bool, [], ◌∷◌, ◌++◌, if◌then◌else◌, length}
use libtnet.Base.Bytes.{Bytes, codes}
use libtnet.Base.Decimal.{show}
use libtnet.Base.Multimap.{Multimap, insert}
use libtnet.Base.Outcome.{Outcome, ret, ◌>>=◌}
use libtnet.HttpRequest.Text.{case_less, printed, line_end, dump_headers}
use libtnet.HttpUtil.{code_reason}

pub record HttpResponse : Type 0 where
  pub status_code : ℕ
  pub body : Bytes
  pub headers : Multimap

unfoldable pub make : HttpResponse
make = record { status_code = 200; body = []; headers = [] }

unfoldable pub make_with : ℕ → Multimap → Bytes → HttpResponse
make_with code headers body = record { status_code = code; body = body; headers = headers }

unfoldable pub clear : HttpResponse → HttpResponse
unfolding make
clear r = make

pub status_line : ℕ → Bytes
status_line code = codes "HTTP/1.1 " ++ (show code ++ (32 ∷ (code_reason code ++ line_end)))

pub length_line : Bytes → Bytes
length_line body = codes "Content-Length: " ++ (show (length body) ++ line_end)

unfoldable pub dump : HttpResponse → Outcome Bytes
unfolding status_line length_line
dump r = do
  first ← printed (status_line r.status_code)
  lines ← dump_headers r.headers
  size ← printed (length_line r.body)
  ret (first ++ (lines ++ (size ++ (line_end ++ r.body))))

pub set_content_type : Bytes → HttpResponse → HttpResponse
set_content_type content_type r = record r {
  headers = insert case_less (codes "Content-Type") content_type r.headers;
}

pub set_keep_alive : Bool → HttpResponse → HttpResponse
set_keep_alive on r =
    let value = if on then codes "Keep-Alive" else codes "close" in
    record r { headers = insert case_less (codes "Connection") value r.headers }

-- `enableDate`; the text that `strftime` makes is an argument.
pub enable_date : Bytes → HttpResponse → HttpResponse
enable_date date r = record r { headers = insert case_less (codes "Date") date r.headers }
