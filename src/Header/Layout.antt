-- ===== src/Header/Layout.antt =====
-- The bytes of the headers, written and read back (easyrpc/base/header.hpp).
use easyrpc.Prelude.{ℕ, ◌≡◌, refl, ◌≢◌, ◌<◌, ◌^◌, length, arith, ap, ◌∙◌}
use easyrpc.Header.{
  ByteOrder, little_endian, big_endian, CallMode, raw, non_raw, unnamed, mode_word, mode_of_word,
  RequestHeader, ResponseHeader, request_header_len, response_header_len, word_bytes, word_at,
  request_bytes, request_of_bytes, response_bytes, response_of_bytes,
}

-- A word of the enumeration: below 2^32, and `unnamed` only where no enumerator has it.
abbrev pub IsModeWord : CallMode → Type 0
IsModeWord raw = Unit {0}
IsModeWord non_raw = Unit {0}
IsModeWord (unnamed w) = (w < 2 ^ 32) × (w ≢ 0) × (w ≢ 1)

-- Fields of type `unsigned int`.
pub record IsRequest (h : RequestHeader) : Type 0 where
  pub protocol_fits : h.protocol_len < 2 ^ 32
  pub body_fits : h.body_len < 2 ^ 32
  pub mode_fits : IsModeWord h.mode

word_lem : (o : ByteOrder) (w : ℕ) → w < 2 ^ 32 → word_at o (word_bytes o w) 0 ≡ w
unfolding word_at word_bytes
word_lem little_endian w h = omega arith
word_lem big_endian w h = omega arith

length-word_bytes : (o : ByteOrder) (w : ℕ) → length (word_bytes o w) ≡ 4
unfolding word_bytes
length-word_bytes little_endian w = refl
length-word_bytes big_endian w = refl

pub mode_of_word-mode_word : (m : CallMode) → IsModeWord m → mode_of_word (mode_word m) ≡ m
unfolding mode_of_word mode_word
mode_of_word-mode_word raw h = refl
mode_of_word-mode_word non_raw h = refl
mode_of_word-mode_word (unnamed w) h = ground arith

mode_word-lt : (m : CallMode) → IsModeWord m → mode_word m < 2 ^ 32
unfolding mode_word
mode_word-lt raw h = omega arith
mode_word-lt non_raw h = omega arith
mode_word-lt (unnamed w) h = h.0

-- The three words of a request image, whatever follows.
request_words :
    (o : ByteOrder) (h : RequestHeader)
    → (word_at o (request_bytes o h) 0 ≡ word_at o (word_bytes o h.protocol_len) 0)
      × (word_at o (request_bytes o h) 4 ≡ word_at o (word_bytes o h.body_len) 0)
      × (word_at o (request_bytes o h) 8 ≡ word_at o (word_bytes o (mode_word h.mode)) 0)
unfolding request_bytes word_at word_bytes
request_words little_endian h = (refl, refl, refl)
request_words big_endian h = (refl, refl, refl)

length-request_bytes :
    (o : ByteOrder) (h : RequestHeader) → length (request_bytes o h) ≡ request_header_len
unfolding request_bytes word_bytes
length-request_bytes little_endian h = refl
length-request_bytes big_endian h = refl

request_of_bytes-request_bytes :
    (o : ByteOrder) (h : RequestHeader) → IsRequest h → request_of_bytes o (request_bytes o h) ≡ h
unfolding request_of_bytes
request_of_bytes-request_bytes o h v =
    let (first, second, third) = request_words o h in
    λ i. record {
      protocol_len = (first ∙ word_lem o h.protocol_len v.protocol_fits) i;
      body_len = (second ∙ word_lem o h.body_len v.body_fits) i;
      mode =
          (ap mode_of_word (third ∙ word_lem o (mode_word h.mode) (mode_word-lt h.mode v.mode_fits))
              ∙ mode_of_word-mode_word h.mode v.mode_fits)
            i;
    }

-- A request header is `request_header_len` bytes, and copying these bytes back on a machine of the
-- same byte order gives the header, for all field values that an `unsigned int` can hold.
pub request_round_trip :
    (o : ByteOrder) (h : RequestHeader)
    → IsRequest h
    → (length (request_bytes o h) ≡ request_header_len)
      × (request_of_bytes o (request_bytes o h) ≡ h)
request_round_trip o h v = (length-request_bytes o h, request_of_bytes-request_bytes o h v)

-- A response header is `response_header_len` bytes, and copying these bytes back on a machine of
-- the same byte order gives the header, if its length is one that an `unsigned int` can hold.
pub response_round_trip :
    (o : ByteOrder) (h : ResponseHeader)
    → h.body_len < 2 ^ 32
    → (length (response_bytes o h) ≡ response_header_len)
      × (response_of_bytes o (response_bytes o h) ≡ h)
unfolding response_bytes response_of_bytes
response_round_trip o h v =
    (length-word_bytes o h.body_len, λ i. record { body_len = word_lem o h.body_len v i })
