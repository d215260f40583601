-- ===== src/Client.antt =====
-- easyrpc/client/client.hpp and easyrpc/client/protocol.hpp: a call connects, sends its request,
-- waits for the response and disconnects. The state is the session; the mutex makes each call one
-- step of the client.
pub mod Calls
pub mod Address
pub mod Threads
use easyrpc.Prelude.{ℕ, Option, List, [], ◌∷◌, Bytes, codes}
use easyrpc.Prelude.Exec.{Exec, Result, ok, throw, invalid_argument, pure, lift, raise, ◌>>=◌, ◌>>◌}
use easyrpc.Prelude.Outcome.{Outcome}
use easyrpc.Header.{ByteOrder, raw, non_raw}
use easyrpc.ScopeGuard.{make_guard, with_guard}
use easyrpc.Asio.{Asio}
use easyrpc.EasyPack.{EasyPack}
use easyrpc.StringUtil
use easyrpc.Number.{to_string}
use easyrpc.RpcSession
use easyrpc.RpcSession.{RpcSession}

-- `protocol_define<Return(Args...)>`; `none` is a void result.
pub record ProtocolDefine (p : EasyPack) : Type 0 where
  pub name : Bytes
  pub arg_types : List p.Ty
  pub return_type : Option p.Ty

module _ (p : EasyPack) where
  unfoldable pub pack : List p.Value → Result Bytes
  pack args = p.pack_args args

  unpack_with : p.Ty → Result p.Unpacker → Result p.Value
  unpack_with ty (ok up) = p.unpack_args ty up
  unpack_with ty (throw e) = throw e

  unfoldable pub unpack : p.Ty → Bytes → Result p.Value
  unfolding unpack_with
  unpack ty text = unpack_with ty (p.unpack text)

module _ {a : Asio} where
  pub destroy : RpcSession a → RpcSession a
  destroy s = RpcSession.stop s

  -- `connect(ip, port)` on two texts
  pub connect_texts : Bytes → Bytes → Exec (RpcSession a) Unit
  connect_texts ip port = RpcSession.resolve ip port

  pub connect_tokens : List Bytes → Exec (RpcSession a) Unit
  connect_tokens (ip ∷ port ∷ []) = connect_texts ip port
  connect_tokens tokens = raise (invalid_argument "Address format error")

  pub connect : Bytes → Exec (RpcSession a) Unit
  unfolding connect_tokens
  connect address = connect_tokens (StringUtil.split address (codes ":"))

  pub connect_port : Bytes → ℕ → Exec (RpcSession a) Unit
  connect_port ip port = connect_texts ip (to_string port)

  unfoldable pub timeout : ℕ → RpcSession a → RpcSession a
  timeout timeout_milli s = RpcSession.timeout timeout_milli s

  unfoldable pub run : RpcSession a → Outcome (RpcSession a)
  run s = RpcSession.run s

  pub stop : RpcSession a → RpcSession a
  stop s = RpcSession.stop s

  -- `session_.connect()`, and the guard that disconnects at the end of the call.
  unfoldable pub connected : {A : Type 0} → Exec (RpcSession a) A → Exec (RpcSession a) A
  connected m = do RpcSession.connect; with_guard (make_guard RpcSession.disconnect) m

  -- `call_raw<one_way>`
  unfoldable pub call_raw_one_way : ByteOrder → Bytes → Bytes → Exec (RpcSession a) Unit
  unfolding connected
  call_raw_one_way o protocol body = connected (do RpcSession.call o protocol raw body; pure tt)

  -- `call_raw<two_way>`
  unfoldable pub call_raw : ByteOrder → Bytes → Bytes → Exec (RpcSession a) Bytes
  unfolding connected
  call_raw o protocol body = connected (RpcSession.call o protocol raw body)

module _ {a : Asio} {p : EasyPack} where
  -- `call` of a protocol whose result is void
  unfoldable pub call_void : ByteOrder → ProtocolDefine p → List p.Value → Exec (RpcSession a) Unit
  unfolding connected pack
  call_void o protocol args =
      connected
        (do packed ← lift (pack p args); RpcSession.call o protocol.name non_raw packed; pure tt)

  -- `call` of a protocol with a result of the type `ty`
  unfoldable pub call :
      ByteOrder → ProtocolDefine p → p.Ty → List p.Value → Exec (RpcSession a) p.Value
  unfolding connected pack unpack
  call o protocol ty args = connected (do
    packed ← lift (pack p args)
    ret ← RpcSession.call o protocol.name non_raw packed
    lift (unpack p ty ret))
