-- ===== src/Client/Address.antt =====
-- The addresses that a client connects to (easyrpc/client/client.hpp).
use easyrpc.Prelude.{ℕ, ◌≡◌, ◌≢◌, refl, List, [], ◌∷◌, ◌++◌, Bytes, length}
use easyrpc.Prelude.Exec.{throw, invalid_argument}
use easyrpc.Asio.{Asio}
use easyrpc.StringUtil
use easyrpc.StringUtil.Split.{IsToken, IsCText}
use easyrpc.Number.{to_string}
use easyrpc.Server.Address.{colon, split_host_port}
use easyrpc.RpcSession.{RpcSession}
use easyrpc.Client.{connect, connect_tokens, connect_port}

-- `connect` on a host, a colon and a port in decimal is `connect` on the host and the port. The host
-- is not empty and has no colon and no terminator.
pub connect_host_port :
    {a : Asio} (host : Bytes) (port : ℕ) (s : RpcSession a)
    → IsToken colon host
    → IsCText host
    → connect (host ++ b':' ∷ to_string port) s ≡ connect_port host port s
unfolding connect connect_tokens connect_port
connect_host_port host port s h hc = rw (split_host_port host port h hc) refl

refuse_tokens :
    {a : Asio} (tokens : List Bytes) (s : RpcSession a)
    → length tokens ≢ 2
    → connect_tokens tokens s ≡ (throw (invalid_argument "Address format error"), s)
unfolding connect_tokens
refuse_tokens [] s ne = refl
refuse_tokens (x ∷ []) s ne = refl
refuse_tokens (x ∷ y ∷ []) s ne = absurd (ne refl)
refuse_tokens (x ∷ y ∷ z ∷ tokens) s ne = refl

-- `connect` throws on an address that has not two parts between colons, and resolves nothing.
pub connect_refuses :
    {a : Asio} (address : Bytes) (s : RpcSession a)
    → length (StringUtil.split address colon) ≢ 2
    → connect address s ≡ (throw (invalid_argument "Address format error"), s)
unfolding connect
connect_refuses address s ne = refuse_tokens (StringUtil.split address colon) s ne
