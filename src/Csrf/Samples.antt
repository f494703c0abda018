-- ===== src/Csrf/Samples.antt =====
-- Examples: a page, and the form that it was rendered with.
use meetkai.Common.{◌≡◌, refl, none, some, [], ◌∷◌}
use meetkai.Csrf.{
  Request, to_app, transport, is_safe_method, is_exempt, header_token, handle_unsafe, handle_safe,
  call,
}
use meetkai.Csrf.Checked.{IsChecked, handle_unsafe-IsChecked, call-accepts_token}

abbrev page : Request
page = record {
  method = "get";
  path = "/login";
  headers = [];
  messages = [];
  form_field = λ body. none;
}

abbrev form : Request
form = record page { method = "POST"; headers = ("X-CSRF-Token", "t0") ∷ [] }

handle_unsafe-IsChecked_example : IsChecked form (some "t0") transport
unfolding is_exempt handle_unsafe
handle_unsafe-IsChecked_example =
    handle_unsafe-IsChecked form (some "t0") (some "t0") transport refl refl

call-accepts_token_example :
    (call "t1" form (call "t0" page none).1).0 ≡ to_app (some "t0") transport
unfolding is_safe_method call handle_safe header_token
call-accepts_token_example =
    call-accepts_token "t0" "t1" "t0" page form none refl refl refl refl refl refl
