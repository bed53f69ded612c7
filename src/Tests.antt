-- ===== src/Tests.antt =====
-- Concrete inputs on which the theorems are applied: a small instance of the URL interface, in which
-- a URL is a text `scheme:host`, and one of the header map, in which a map is its list of entries.
pub mod OnCore
pub mod OnNet
pub mod OnFeeds
pub mod OnIngest
pub mod OnWorker
pub mod OnAi
use inoreader.Prelude.{
  ◌++◌, ℕ, ◌≡◌, refl, true, false, not, Option, none, some, List, [], ◌∷◌, arith, Eq, ◌==◌, ◌!=◌,
  nat_eq, list_eq, if◌then◌else◌,
}
use inoreader.Prelude.Text.{Text, codes}
use inoreader.Prelude.Url.{UrlApi}
use inoreader.Net.Redirect.{HeaderApi, Header, filter}

abbrev pub before_colon : Text → Text
before_colon [] = []
before_colon (c ∷ s) = let rest = before_colon s in if c == b':' then [] else c ∷ rest

abbrev pub after_colon : Text → Text
after_colon [] = []
after_colon (c ∷ s) = let rest = after_colon s in if c == b':' then s else rest

abbrev pub toy_urls : UrlApi
toy_urls = record {
  Url = Text;
  url_eq = list_eq;
  parse = λ t. some t;
  as_str = λ u. u;
  scheme = before_colon;
  host_str = λ u. some (after_colon u);
  username = λ u. [];
  password = λ u. none;
  port_or_known_default = λ u. some 443;
  join = λ u location. some location;
}

-- The first entry is moved to the end, as a removal may change the order.
abbrev pub rotate : List Header → List Header
rotate [] = []
rotate (h ∷ hs) = hs ++ h ∷ []

abbrev pub toy_headers : HeaderApi
toy_headers = record {
  HeaderMap = List Header;
  entries = λ m. m;
  remove = λ m name. rotate (filter (λ h. h.name != name) m);
}

abbrev pub feed : Text
feed = codes "https:a.org"

abbrev pub other_feed : Text
other_feed = codes "https:b.org"
