-- ===== src/Client/Calls.antt =====
-- What a call of the client leaves behind, and what it returns (easyrpc/client/client.hpp).
use easyrpc.Prelude.{◌+◌, ◌≤◌, ◌≡◌, ◌∙◌, false, List, Bytes, length, arith}
use easyrpc.Prelude.Exec.{Exception, Exec, ok, throw}
use easyrpc.Header.{raw, ByteOrder, non_raw, max_buffer_len, response_bytes}
use easyrpc.Asio.{Asio, AsioLaws}
use easyrpc.EasyPack.{EasyPack, PacksOne}
use easyrpc.RpcSession
use easyrpc.RpcSession.{RpcSession, get_buffer}
use easyrpc.RpcSession.Timeouts.{disconnect-closed}
use easyrpc.RpcSession.Exchange.{Answers, request_head, response_head, call-Answers}
use easyrpc.Client.{
  ProtocolDefine, pack, unpack, connected, call, call_void, call_raw, call_raw_one_way,
}

module _ {a : Asio} where
  connected-closed :
      (laws : AsioLaws a) {A : Type 0} (m : Exec (RpcSession a) A) (s : RpcSession a) (k : a.Socket)
      → a.connect s.endpoint_iter s.socket ≡ (ok tt, k)
      → a.is_open (connected m s).1.socket ≡ false
  unfolding connected RpcSession.connect
  connected-closed laws m s k e = rw e (disconnect-closed laws (m (record s { socket = k })).1)

  -- Once it has connected, a call closes its socket, whatever it sends and however it ends; this
  -- holds of the four ways to call.
  pub calls_disconnect :
      (laws : AsioLaws a) (o : ByteOrder) (p : EasyPack) (protocol : ProtocolDefine p) (ty : p.Ty)
      (args : List p.Value) (name body : Bytes) (s : RpcSession a) (k : a.Socket)
      → a.connect s.endpoint_iter s.socket ≡ (ok tt, k)
      → (a.is_open (call o protocol ty args s).1.socket ≡ false)
        × (a.is_open (call_void o protocol args s).1.socket ≡ false)
        × (a.is_open (call_raw o name body s).1.socket ≡ false)
        × (a.is_open (call_raw_one_way o name body s).1.socket ≡ false)
  unfolding call call_void call_raw call_raw_one_way
  calls_disconnect laws o p protocol ty args name body s k e = (
    connected-closed laws _ s k e,
    connected-closed laws _ s k e,
    connected-closed laws _ s k e,
    connected-closed laws _ s k e,
  )

  -- If it cannot connect, a call throws what `connect` threw and does nothing else.
  pub connected_refused :
      {A : Type 0} (m : Exec (RpcSession a) A) (s : RpcSession a) (k : a.Socket) (x : Exception)
      → a.connect s.endpoint_iter s.socket ≡ (throw x, k)
      → connected m s ≡ (throw x, record s { socket = k })
  unfolding connected RpcSession.connect
  connected_refused m s k x e = rw e

  connected-result :
      {A : Type 0} (m : Exec (RpcSession a) A) (s : RpcSession a) (k : a.Socket)
      → a.connect s.endpoint_iter s.socket ≡ (ok tt, k)
      → (connected m s).0 ≡ (m (record s { socket = k })).0
  unfolding connected RpcSession.connect
  connected-result m s k e = rw e

  -- Calls to a peer that answers with any body that fits: without a result they return, with one
  -- they return what is unpacked from this body.
  pub call-Answers_text :
      (o : ByteOrder) (p : EasyPack) (protocol : ProtocolDefine p) (ty : p.Ty) (args : List p.Value)
      (text answer : Bytes) (s : RpcSession a) (k : a.Socket)
      → p.pack_args args ≡ ok text
      → a.connect s.endpoint_iter s.socket ≡ (ok tt, k)
      → length protocol.name + length text ≤ max_buffer_len
      → length answer ≤ max_buffer_len
      → Answers a k
          (get_buffer o (request_head protocol.name non_raw text) protocol.name text)
          (response_bytes o (response_head answer))
          answer
      → ((call o protocol ty args s).0 ≡ unpack p ty answer)
        × ((call_void o protocol args s).0 ≡ ok tt)
  unfolding call call_void pack
  call-Answers_text o p protocol ty args text answer s k packed e hp ha n =
      let (returned, _) =
        call-Answers o protocol.name non_raw text answer (record s { socket = k }) hp ha n in
      (
        connected-result _ s k e ∙ rw packed (ground (arith, returned)),
        connected-result _ s k e ∙ rw packed (ground (arith, returned)),
      )

  -- Raw calls to a peer that answers with any body that fits: the two-way call returns this body.
  pub call_raw-Answers :
      (o : ByteOrder) (name body answer : Bytes) (s : RpcSession a) (k : a.Socket)
      → a.connect s.endpoint_iter s.socket ≡ (ok tt, k)
      → length name + length body ≤ max_buffer_len
      → length answer ≤ max_buffer_len
      → Answers a k
          (get_buffer o (request_head name raw body) name body)
          (response_bytes o (response_head answer))
          answer
      → ((call_raw o name body s).0 ≡ ok answer) × ((call_raw_one_way o name body s).0 ≡ ok tt)
  unfolding call_raw call_raw_one_way
  call_raw-Answers o name body answer s k e hp ha n =
      let (returned, _) = call-Answers o name raw body answer (record s { socket = k }) hp ha n in
      (connected-result _ s k e ∙ returned, connected-result _ s k e ∙ ground (arith, returned))

  -- A call whose arguments are packed into `text`, to a peer that answers with a body from which a
  -- value of the protocol's result type is unpacked, returns this value.
  pub call-Answers_value :
      (o : ByteOrder) (p : EasyPack) (protocol : ProtocolDefine p) (ty : p.Ty) (args : List p.Value)
      (text : Bytes) (v : p.Value) (s : RpcSession a) (k : a.Socket)
      → (ret : PacksOne p ty v) → p.pack_args args ≡ ok text
      → a.connect s.endpoint_iter s.socket ≡ (ok tt, k)
      → length protocol.name + length text ≤ max_buffer_len
      → length ret.text ≤ max_buffer_len
      → Answers a k
          (get_buffer o (request_head protocol.name non_raw text) protocol.name text)
          (response_bytes o (response_head ret.text))
          ret.text
      → (call o protocol ty args s).0 ≡ ok v
  unfolding call pack unpack
  call-Answers_value o p protocol ty args text v s k ret packed e hp ha n =
      let (returned, _) =
        call-Answers o protocol.name non_raw text ret.text (record s { socket = k }) hp ha n in
      connected-result _ s k e ∙ rw packed (ground (arith, returned, ret.opened, ret.unpacked))
