-- ===== src/Addresses/Tests.antt =====
-- Addresses of images and of a server, with the theorems there.
use rtxag.Prelude.{String, ◌≡◌, refl, false}
use rtxag.Prelude.Text.{drop_prefix}
use rtxag.Error.{ok}
use rtxag.Addresses.{is_valid_data_uri, split_url, base64_body}
use rtxag.Addresses.Images.{is_valid_data_uri-IsImage, IsImage}

abbrev png : String
png = "data:image/png;base64,iVBORw=="

no_gif : is_valid_data_uri "data:image/gif;base64,iVBORw==" ≡ false
unfolding is_valid_data_uri
no_gif = refl

split_png : split_url png ≡ ok ("png", "iVBORw==")
unfolding split_url
split_png = refl

is_valid_data_uri-IsImage_example : (format : String) × (body : String) × IsImage png format body
unfolding is_valid_data_uri drop_prefix base64_body
is_valid_data_uri-IsImage_example = is_valid_data_uri-IsImage png refl
