-- ===== src/Connection/Bounds.antt =====
-- Which requests the two sides accept, and which memory the server reads for them
-- (easyrpc/server/connection.hpp, easyrpc/client/rpc_session.hpp).
use easyrpc.Prelude.{
  ℕ, ◌+◌, ◌≤◌, ◌<◌, ◌^◌, ◌≡◌, ◌↔◌, ap, ◌∙◌, true, none, some, Bytes, length, take, drop, arith,
  length-drop, take-length,
}
use easyrpc.Header.{RequestHeader, max_buffer_len}
use easyrpc.Header.Layout.{IsRequest}
use easyrpc.Connection.{request_len, head_accepted, string_at}

take_all : (s : Bytes) (n : ℕ) → length s ≡ n → take n s ≡ s
take_all s n e = rw (← e) (take-length s)

string_at_inside :
    (buffer : Bytes) (from n : ℕ)
    → from + n ≤ length buffer
    → string_at buffer from n ≡ some (take n (drop from buffer))
unfolding string_at
string_at_inside buffer from n h = ground arith

string_at_outside :
    (buffer : Bytes) (from n : ℕ) → length buffer < from + n → string_at buffer from n ≡ none
unfolding string_at
string_at_outside buffer from n h = ground arith

-- A header that the server accepts announces a request of at least one byte and of less than
-- `max_buffer_len` bytes, counted in `unsigned int`; every other header is refused.
pub head_accepted_bounds :
    (h : RequestHeader)
    → (head_accepted h ≡ true) ↔ ((0 < request_len h) × (request_len h < max_buffer_len))
unfolding head_accepted
head_accepted_bounds h = ground arith

-- The whole of the buffer, cut at the first length.
pub string_at_parts :
    (buffer : Bytes) (p b : ℕ)
    → length buffer ≡ p + b
    → (string_at buffer 0 p ≡ some (take p buffer)) × (string_at buffer p b ≡ some (drop p buffer))
string_at_parts buffer p b e = (
  string_at_inside buffer 0 p (omega arith),
  string_at_inside buffer p b (omega arith) ∙ ap some (take_all (drop p buffer) b whole),
)
  where
    whole : length (drop p buffer) ≡ b
    whole = omega (arith, length-drop p buffer)

-- `none`: the cut of the protocol leaves the buffer.
pub wrapped_outside :
    (h : RequestHeader) (buffer : Bytes)
    → IsRequest h
    → length buffer ≡ request_len h
    → 2 ^ 32 ≤ h.protocol_len + h.body_len
    → string_at buffer 0 h.protocol_len ≡ none
wrapped_outside h buffer v e wrapped =
    string_at_outside buffer 0 h.protocol_len (omega (arith, v.protocol_fits, v.body_fits))
