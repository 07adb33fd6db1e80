-- ===== src/StringUtil/Examples.antt =====
-- A text that is split.
use libtnet.Base.{◌≤◌, ◌≡◌, refl, ◌⊎◌, List, [], ◌∷◌, All, length}
use libtnet.Base.Bytes.{Bytes, codes}
use libtnet.Base.Outcome.{ret}
use libtnet.StringUtil.{split}
use libtnet.StringUtil.Split.{HasBytes, IsWord, limit_of, text_of, concat}
use libtnet.StringUtil.Split

abbrev line : Bytes
line = codes ",a,,b c,d,"

-- A limit of two parts.
split_limited : split line (codes ",") 2 ≡ ret (codes "a" ∷ codes "b c,d," ∷ [])
unfolding split
split_limited = refl

split_parts_example :
    (ts : List Bytes) × (split line (codes ",") 0 ≡ ret ts)
    × All HasBytes ts
    × (length ts ≤ limit_of 0)
    × ((length ts ≡ limit_of 0) ⊎ All (IsWord (codes ",")) ts)
    × (text_of (codes ",") (concat ts) ≡ text_of (codes ",") line)
split_parts_example = Split.split_parts line (codes ",") 0
