-- ===== src/Server/Reuse.antt =====
-- An address that is listened on twice (easyrpc/server/server.hpp, easyrpc/base/string_util.hpp).
use easyrpc.Prelude.{ℕ, ◌≡◌, refl, [], ◌∷◌, ◌++◌, Bytes, codes, arith}
use easyrpc.Asio.{Asio}
use easyrpc.StringUtil.{mem_byte, split_text}
use easyrpc.StringUtil.Split.{IsToken, IsWord, IsCText}
use easyrpc.StringUtil.Overwrite.{split_text_pair, contains_missing}
use easyrpc.Number.{to_string}
use easyrpc.Number.RoundTrip.{to_string-IsDigits, to_string-ne-nil}
use easyrpc.Server.{Server, listen, listen_texts}
use easyrpc.Server.Address.{colon, digits-IsWord, digits-IsCText}

IsWord-append : (d s t : Bytes) → IsWord d s → IsWord d t → IsWord d (s ++ t)
IsWord-append d [] t hs ht = ht
IsWord-append d (c ∷ s) t hs ht = (hs.0, IsWord-append d s t hs.1 ht)

-- If a program listens on a host, a colon and a port in decimal, and then again on the same text,
-- which the first call has left with a terminator in place of its colon, then the second call takes
-- the whole of this text for a port, on every interface. The host is not empty and has no colon and
-- no terminator.
pub listen_twice :
    {a : Asio} (host : Bytes) (port : ℕ) (s : Server a)
    → IsToken colon host
    → IsCText host
    → listen (split_text (host ++ b':' ∷ to_string port) colon) s
      ≡ listen_texts (codes "0.0.0.0") (host ++ 0 ∷ to_string port) s
unfolding listen mem_byte
listen_twice host port s h hc =
    let digits = to_string-IsDigits port in
    let left =
      split_text_pair host (to_string port) colon b':' h
        (to_string-ne-nil port, digits-IsWord (to_string port) digits) hc
        (digits-IsCText (to_string port) digits) ((λ e. omega arith), tt) refl (λ e. omega arith) in
    let missing = contains_missing b':' (host ++ 0 ∷ to_string port) (
      IsWord-append colon host (0 ∷ to_string port) h.1
        (refl, digits-IsWord (to_string port) digits)) in
    rw (left, missing)
