-- ===== src/Header.antt =====
-- easyrpc/base/header.hpp: the constants and the two packet headers, with the image that they have
-- in memory, which is what both sides send and copy back with `memcpy`.
pub mod Layout
use easyrpc.Prelude.{ℕ, ◌+◌, ◌*◌, ◌/◌, ◌%◌, [], ◌∷◌, ◌++◌, Bytes, get_or, ◌==◌, if◌then◌else◌}

abbrev pub max_buffer_len : ℕ
max_buffer_len = 8 * 1024 * 1024

abbrev pub request_header_len : ℕ
request_header_len = 12

abbrev pub response_header_len : ℕ
response_header_len = 4

-- `enum class call_mode : unsigned int` holds any word; `unnamed` is one that has no enumerator.
pub data CallMode : Type 0 where
  raw non_raw : CallMode
  unnamed : ℕ → CallMode

unfoldable pub mode_word : CallMode → ℕ
mode_word raw = 0
mode_word non_raw = 1
mode_word (unnamed w) = w

unfoldable pub mode_of_word : ℕ → CallMode
mode_of_word w = if w == 0 then raw else if w == 1 then non_raw else unnamed w

pub record RequestHeader : Type 0 where
  pub protocol_len : ℕ
  pub body_len : ℕ
  pub mode : CallMode

pub record ResponseHeader : Type 0 where
  pub body_len : ℕ

-- A header is sent in the byte order of the machine that sends it.
pub data ByteOrder : Type 0 where
  little_endian big_endian : ByteOrder

pub word_bytes : ByteOrder → ℕ → Bytes
word_bytes little_endian w =
    (w % 256) ∷ (w / 256 % 256) ∷ (w / 65536 % 256) ∷ (w / 16777216 % 256) ∷ []
word_bytes big_endian w =
    (w / 16777216 % 256) ∷ (w / 65536 % 256) ∷ (w / 256 % 256) ∷ (w % 256) ∷ []

join_bytes : ByteOrder → ℕ → ℕ → ℕ → ℕ → ℕ
join_bytes little_endian a b c d = a + 256 * b + 65536 * c + 16777216 * d
join_bytes big_endian a b c d = 16777216 * a + 65536 * b + 256 * c + d

-- The word at an offset of a buffer.
pub word_at : ByteOrder → Bytes → ℕ → ℕ
unfolding join_bytes
word_at o bs i =
    join_bytes o (get_or bs i 0) (get_or bs (i + 1) 0) (get_or bs (i + 2) 0) (get_or bs (i + 3) 0)

unfoldable pub request_bytes : ByteOrder → RequestHeader → Bytes
unfolding word_bytes mode_word
request_bytes o h =
    word_bytes o h.protocol_len ++ word_bytes o h.body_len ++ word_bytes o (mode_word h.mode)

unfoldable pub request_of_bytes : ByteOrder → Bytes → RequestHeader
unfolding word_at mode_of_word
request_of_bytes o bs = record {
  protocol_len = word_at o bs 0;
  body_len = word_at o bs 4;
  mode = mode_of_word (word_at o bs 8);
}

unfoldable pub response_bytes : ByteOrder → ResponseHeader → Bytes
unfolding word_bytes
response_bytes o h = word_bytes o h.body_len

unfoldable pub response_of_bytes : ByteOrder → Bytes → ResponseHeader
unfolding word_at
response_of_bytes o bs = record { body_len = word_at o bs 0 }
