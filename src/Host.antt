-- ===== src/Host.antt =====
-- What the server stands on and does not implement: MySQL's collation, OpenSSL's digest, jsoncpp.

use lite_chat_server.Common.{Bool, Option, Str, length, true, ℕ, ℤ, ◌≡◌}
use lite_chat_server.Json.{Json}

-- jsoncpp's operations that may throw return an `Option`, with `none` for the exception.
pub record Host : Type 0 where
  -- Equality of two texts under the collation of the columns, utf8mb4_unicode_ci: an equivalence.
  pub collate : Str → Str → Bool
  pub collate_refl : (s : Str) → collate s s ≡ true
  pub collate_sym : (s t : Str) → collate s t ≡ true → collate t s ≡ true
  pub collate_trans : (s t u : Str) → collate s t ≡ true → collate t u ≡ true → collate s u ≡ true
  -- EVP_md5: the bytes of the digest, of which there are 16.
  pub md5 : Str → Str
  pub md5_length : (s : Str) → length (md5 s) ≡ 16
  -- Json::FastWriter::write and Json::Reader::parse
  pub write_json : Json → Str
  pub parse_json : Str → Option Json
  -- value[key], isMember, asString, asInt
  pub member : Json → Str → Option Json
  pub is_member : Json → Str → Option Bool
  pub as_string : Json → Option Str
  pub as_int : Json → Option ℤ
  -- How a DATETIME reads when it is fetched as a string.
  pub datetime_text : ℕ → Str
  -- What an `int` holds that nothing has initialised.
  pub indeterminate : ℤ
