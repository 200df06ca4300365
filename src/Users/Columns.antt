-- ===== src/Users/Columns.antt =====
-- The checks of the user manager against the widths of the columns of `users`.
use lite_chat_server.Common.{
  All, Str, [], any, arith, false, length, none, refl, true, ℕ, ◌%◌, ◌*◌, ◌/◌, ◌<◌, ◌∙◌, ◌∷◌, ◌≡◌,
  ◌≢◌, ◌≤◌,
}
use lite_chat_server.Host.{Host}
use lite_chat_server.Database.{Database, char_count, has_name, insert_user_row, int_max}
use lite_chat_server.Users.{every, hex_bytes, hex_digit, md5_encrypt, name_char, validate_username}

-- Bytes of ASCII are characters.
abbrev Ascii : Str → Type 0
Ascii = All (λ c. c < 128)

char_count-Ascii : (s : Str) → Ascii s → char_count s ≡ length s
unfolding char_count
char_count-Ascii [] a = refl
char_count-Ascii (c ∷ s) (b, a) = ground (arith, char_count-Ascii s a)

name_char-Ascii : (c : ℕ) → name_char c ≡ true → c < 128
name_char-Ascii c e = ground arith

every-Ascii : (s : Str) → every name_char s ≡ true → Ascii s
every-Ascii [] e = tt
every-Ascii (c ∷ s) e = (name_char-Ascii c (ground arith), every-Ascii s (ground arith))

name-fits : (name : Str) → validate_username name ≡ true → char_count name ≤ 20
unfolding validate_username
name-fits name e =
    let p : char_count name ≡ length name =
      char_count-Ascii name (every-Ascii name (ground arith)) in
    ground (arith, p)

hex_digit-Ascii : (n : ℕ) → n < 16 → hex_digit n < 128
hex_digit-Ascii n small = ground arith

hex_bytes-Ascii : (digest : Str) → Ascii (hex_bytes digest)
hex_bytes-Ascii [] = tt
hex_bytes-Ascii (b ∷ digest) = (
  hex_digit-Ascii (b / 16 % 16) (omega arith),
  (hex_digit-Ascii (b % 16) (omega arith), hex_bytes-Ascii digest),
)

length-hex_bytes : (digest : Str) → length (hex_bytes digest) ≡ 2 * length digest
length-hex_bytes [] = omega arith
length-hex_bytes (b ∷ digest) = omega (arith, length-hex_bytes digest)

module _ ⦃host : Host⦄ where
  digest-fits : (password : Str) → char_count (md5_encrypt password) ≡ 32
  unfolding md5_encrypt
  digest-fits password =
      char_count-Ascii (hex_bytes (host.md5 password)) (hex_bytes-Ascii (host.md5 password))
      ∙ omega (arith, length-hex_bytes (host.md5 password), host.md5_length password)

  -- The checks of a registration are enough for the columns: the row of a valid name that no user has,
  -- with the digest of any password, is refused only when the ids have run out.
  pub insert_user_row-accepts :
      (name password : Str) (db : Database)
      → validate_username name ≡ true
      → any (has_name name) db.users ≡ false
      → db.next_user ≤ int_max
      → insert_user_row name (md5_encrypt password) db ≢ none
  unfolding insert_user_row
  insert_user_row-accepts name password db valid free room e =
      ground (arith, name-fits name valid, digest-fits password)
