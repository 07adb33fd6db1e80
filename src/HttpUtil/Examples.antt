-- ===== src/HttpUtil/Examples.antt =====
-- Texts that are escaped, and names of headers.
use libtnet.Base.{◌≡◌, ◌↔◌, All, arith}
use libtnet.Base.Bytes.{Bytes, codes}
use libtnet.Base.Outcome.{ret}
use libtnet.HttpUtil.{escape, unescape, normalize_header}
use libtnet.HttpUtil.Escape
use libtnet.HttpUtil.Header
use libtnet.StringUtil.{lower}

unescape-escape_example :
    (e : Bytes) × (escape (codes "a b%") ≡ ret e)
    × All Escape.IsPlain e
    × (unescape e ≡ ret (codes "a b%"))
unescape-escape_example = Escape.unescape-escape (codes "a b%") (ground arith)

normalize_header_canonical_example :
    ((normalize_header (codes "content-TYPE") ≡ normalize_header (codes "Content-type"))
      ↔ (lower (codes "content-TYPE") ≡ lower (codes "Content-type")))
    × (normalize_header (normalize_header (codes "content-TYPE"))
        ≡ normalize_header (codes "content-TYPE"))
normalize_header_canonical_example =
    Header.normalize_header_canonical (codes "content-TYPE") (codes "Content-type")
