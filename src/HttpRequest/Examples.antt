-- ===== src/HttpRequest/Examples.antt =====
-- A form of one field.
use libtnet.Base.{◌≡◌, [], ◌∷◌, ◌++◌}
use libtnet.Base.Bytes.{Bytes, codes}
use libtnet.Base.Outcome.{fault, unfinished}
use libtnet.HttpRequest.Form.{parse_form_data}
use libtnet.HttpRequest.Form.Ends

abbrev form : Bytes
form = codes "name=\"k\"" ++ (13 ∷ 10 ∷ []) ++ codes "v--b--"

parse_form_data_ends_example : ¬ (parse_form_data form (codes "--b") [] ≡ fault unfinished)
parse_form_data_ends_example = Ends.parse_form_data_ends form (codes "--b") []
