-- ===== src/Tests/Naming.antt =====
-- Examples of account and routine names.
use myrest.Prelude.{◌≡◌, ◌≢◌, refl, true, ◌∷◌, ◌++◌, ok}
use myrest.Text.{codes, split}
use myrest.Names.{
  Role, cut_last, is_quotable_rune, all_quotable, check_quotable, check_host, check_role,
  parse_role, two_parts, split_pre_request,
}
use myrest.Names.Sound.{Lacks, IsQuotable, Spells, parse_role-eq-ok, split_pre_request-eq-ok}

abbrev web_role : Role
web_role = record { name = codes "web@app"; host = codes "10.0.0.1"; has_host = true }

parse_role-web : parse_role (codes "web@app@10.0.0.1") ≡ ok web_role
unfolding parse_role cut_last check_role check_host check_quotable all_quotable is_quotable_rune
parse_role-web = refl

parse_role-eq-ok_example :
    IsQuotable (codes "web@app") × Spells (codes "web@app@10.0.0.1") web_role true
parse_role-eq-ok_example =
    parse_role-eq-ok (codes "web@app@10.0.0.1") {role = web_role} parse_role-web

split_pre_request-check : split_pre_request (codes "shop.check") ≡ ok (codes "shop", codes "check")
unfolding split_pre_request two_parts split
split_pre_request-check = refl

split_pre_request-eq-ok_example :
    (codes "shop.check" ≡ codes "shop" ++ b'.' ∷ codes "check")
    × (codes "shop" ≢ codes "")
    × (codes "check" ≢ codes "")
    × Lacks b'.' (codes "shop")
    × Lacks b'.' (codes "check")
split_pre_request-eq-ok_example =
    split_pre_request-eq-ok (codes "shop.check") {found = (codes "shop", codes "check")}
      split_pre_request-check
