-- ===== src/Server/Print.antt =====
-- internal/server/printpage.go: the card with the code that guests scan.
use photo_server.Base.{
  ℕ, Option, none, some, List, [], ◌∷◌, ◌++◌, Text, bytes, is_empty, if◌then◌else◌,
}
use photo_server.Server.Gate.{key_name}
use photo_server.Server.Http.{Reply, failed, answered}
use photo_server.Server.Admin.{Admission, refused, admitted}

-- What `net/url` does: `set_query url k v` is the address `url` with the query's `k` set to `v`, and
-- `host` that of an address; `none` is an address that does not parse. And the encoder of the code, the
-- base64 of Go's library and the template.
pub record Printing : Type 0 where
  pub set_query : Text → Text → Text → Option Text
  pub host : Text → Option Text
  pub qr : Text → Option Text
  pub base64 : Text → Text

abbrev pub or_text : Option Text → Text → Text
or_text none t = t
or_text (some u) t = u

unfoldable pub app_host : Printing → Text → Text
app_host lib base_url = if is_empty base_url then [] else or_text (lib.host base_url) []

unfoldable pub entry_url : Printing → Text → Text → Text
entry_url lib base_url password =
    if is_empty password
    then base_url
    else or_text (lib.set_query base_url key_name password) base_url

unfoldable pub data_png : Printing → Text → Text
data_png lib png = bytes "data:image/png;base64," ++ lib.base64 png

pub record PrintData : Type 0 where
  pub base_url : Text
  pub host : Text
  pub entry_url : Text
  pub password : Text
  pub qr : Text
  pub cards : List ℕ

-- The page that asks for a base address, or the cards.
pub data PrintPage : Type 0 where
  unset : PrintPage
  cards : PrintData → PrintPage

abbrev card : Printing → Text → Text → Text → PrintData
card lib base_url password png = record {
  base_url = base_url;
  host = app_host lib base_url;
  entry_url = entry_url lib base_url password;
  password = password;
  qr = data_png lib png;
  cards = 0 ∷ 1 ∷ 2 ∷ 3 ∷ [];
}

abbrev printed : Printing → Text → Text → Option Text → Reply PrintPage
printed lib base_url password none = failed 500
printed lib base_url password (some png) = answered (cards (card lib base_url password png))

unfoldable pub handle_print_page : Printing → Text → Text → Admission → Reply PrintPage
unfolding app_host entry_url data_png
handle_print_page lib base_url password (refused status) = failed status
handle_print_page lib base_url password (admitted cookie) =
    if is_empty base_url
    then answered unset
    else printed lib base_url password (lib.qr (entry_url lib base_url password))
