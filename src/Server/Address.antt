-- ===== src/Server/Address.antt =====
-- The addresses that `listen` reads (easyrpc/server/server.hpp).
use easyrpc.Prelude.{
  ℕ, ◌<◌, ◌^◌, ◌≡◌, refl, [], ◌∷◌, ◌++◌, Bytes, codes, length, arith, if◌then◌else◌, Bool-cases,
  inl, inr,
}
use easyrpc.Prelude.Exec.{ok}
use easyrpc.Asio.{Asio}
use easyrpc.StringUtil
use easyrpc.StringUtil.{npos, mem_byte}
use easyrpc.StringUtil.Split.{IsToken, IsWord, IsCText, split_pair}
use easyrpc.StringUtil.Search.{contains_byte, mem_byte-append}
use easyrpc.Number.{to_string, is_digit}
use easyrpc.Number.RoundTrip.{IsDigits, stoi-to_string, to_string-IsDigits, to_string-ne-nil}
use easyrpc.Server.{Server, listen, listen_texts}

abbrev pub colon : Bytes
colon = codes ":"

pub digits-IsWord : (s : Bytes) → IsDigits s → IsWord colon s
unfolding mem_byte is_digit
digits-IsWord [] h = tt
digits-IsWord (c ∷ s) (d, ds) = (ground arith, digits-IsWord s ds)

pub digits-IsCText : (s : Bytes) → IsDigits s → IsCText s
unfolding is_digit
digits-IsCText [] h = tt
digits-IsCText (c ∷ s) (d, ds) = ((λ e. ground arith), digits-IsCText s ds)

IsCText-append : (s t : Bytes) → IsCText s → IsCText t → IsCText (s ++ t)
IsCText-append [] t hs ht = ht
IsCText-append (c ∷ s) t hs ht = (hs.0, IsCText-append s t hs.1 ht)

pub split_host_port :
    (host : Bytes) (port : ℕ)
    → IsToken colon host
    → IsCText host
    → StringUtil.split (host ++ b':' ∷ to_string port) colon ≡ host ∷ to_string port ∷ []
unfolding mem_byte
split_host_port host port h hc =
    split_pair host (to_string port) colon b':' h
      (to_string-ne-nil port, digits-IsWord (to_string port) (to_string-IsDigits port))
      (IsCText-append host (b':' ∷ to_string port) hc
        ((λ e. omega arith), digits-IsCText (to_string port) (to_string-IsDigits port)))
      ((λ e. omega arith), tt) refl

listen_texts_port :
    {a : Asio} (ip : Bytes) (port : ℕ) (s : Server a)
    → port < 2 ^ 16
    → listen_texts ip (to_string port) s ≡ (ok tt, record s { ip = ip; port = port })
unfolding listen_texts
listen_texts_port ip port s small = let (read, same) = stoi-to_string port small in rw (read, same)

-- The address that stands for a host.
abbrev pub ip_of : Bytes → Bytes
ip_of host =
    if StringUtil.equals_ignore_case host (codes "localhost") then codes "127.0.0.1" else host

-- `listen` on a host, a colon and a port below 2^16 in decimal sets this host, or 127.0.0.1 for
-- localhost in any case of letters, and this port, and changes nothing else. The host is not empty
-- and has no colon and no terminator, and the address is shorter than `npos`.
listen_host_port :
    {a : Asio} (host : Bytes) (port : ℕ) (s : Server a)
    → IsToken colon host
    → IsCText host
    → port < 2 ^ 16
    → length (host ++ b':' ∷ to_string port) < npos
    → listen (host ++ b':' ∷ to_string port) s ≡ (ok tt, record s { ip = ip_of host; port = port })
unfolding listen
listen_host_port host port s h hc small short =
    rw
      (
        contains_byte b':' (host ++ b':' ∷ to_string port)
            (mem_byte-append b':' host (to_string port)) short,
        split_host_port host port h hc,
      )
      (elim (Bool-cases (StringUtil.equals_ignore_case host (codes "localhost"))) [
        | inl e ↦ rw e (listen_texts_port (codes "127.0.0.1") port s small)
        | inr e ↦ rw e (listen_texts_port host port s small)
      ])
