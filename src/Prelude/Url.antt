-- ===== src/Prelude/Url.antt =====
-- The `url` crate, as an interface: the type of parsed URLs and the operations that the program
-- calls. `parse` is `Url::parse(..).ok()` and `join` is `Url::join(..).ok()`.
use Prim.Native.Nat.{ℕ}
use mathlib.Core.Path.{◌≡◌}
use mathlib.Core.Option.{Option, some}
use inoreader.Prelude.Equality.{Eq}
use inoreader.Prelude.Text.{Text}

pub record UrlApi : Type 1 where
  pub Url : Type 0
  pub url_eq : Eq Url
  pub parse : Text → Option Url
  pub as_str : Url → Text
  pub scheme : Url → Text
  pub host_str : Url → Option Text
  pub username : Url → Text
  pub password : Url → Option Text
  pub port_or_known_default : Url → Option ℕ
  pub join : Url → Text → Option Url

-- Documented of the crate: the serialization of a URL parses to that URL.
abbrev pub Serializes : UrlApi → Type 0
Serializes api = (u : api.Url) → api.parse (api.as_str u) ≡ some u
