-- ===== src/Router/Invoker/Invoke.antt =====
-- How a worker answers a request (easyrpc/server/router.hpp, `operator()` of the invokers).
use easyrpc.Prelude.{
  ◌≤◌, ◌<◌, ◌^◌, ◌≡◌, refl, false, Option, none, some, List, [], ◌∷◌, Bytes, length, arith, ◌⊎◌,
  inl, inr,
}
use easyrpc.Prelude.Exec.{
  Exception, Exec, Result, ok, lift, Result-cases, bind-ok, try_catch, ◌>>=◌,
}
use easyrpc.Header.{ByteOrder, max_buffer_len}
use easyrpc.Asio.{in_memory, Asio, AsioLaws}
use easyrpc.EasyPack.{EasyPack, Yields}
use easyrpc.Connection
use easyrpc.Connection.{Connection, get_buffer}
use easyrpc.Connection.Head.{disconnect-closed}
use easyrpc.Connection.Reply.{write_fits, Sent, write-Sent}
use easyrpc.Router.Invoker.{
  Function, value_function, InvokerFunction, InvokerFunctionRaw, Frame, Site, param_types, apply,
  invoke, invoke_raw, apply_raw, RawFunction, void_raw, value_raw, run_func, run_func_raw, RawFrame,
  on_conn, give_up,
}
use easyrpc.Router.Invoker.Apply.{apply_value, Throws, apply-Throws}

-- What `bind` puts into the map.
abbrev pub bound : {p : EasyPack} {W : Type 0} → Function p W → InvokerFunction p W
bound f = record { func = some (apply f (param_types f) []); param_size = length (param_types f) }

-- What `bind_raw` puts into the map.
abbrev pub bound_raw : {W : Type 0} → RawFunction W → InvokerFunctionRaw W
bound_raw f = record { func = some (apply_raw f) }

-- What a raw function returns for a body; one without a result stands for an empty one.
abbrev pub RawReturns : {W : Type 0} → RawFunction W → Bytes → W → Bytes → W → Type 0
RawReturns (void_raw f) body w result w' = (f body w ≡ (ok tt, w')) × (result ≡ [])
RawReturns (value_raw f) body w result w' = f body w ≡ (ok result, w')

module _ {a : Asio} (p : EasyPack) {W : Type 0} where
  -- The arguments are read, the function returns, and its packed result fits: it is sent, and what
  -- the function did to the user's objects stands.
  pub invoke_value :
      (o : ByteOrder) (tys : List p.Ty) (fn : List p.Value → Exec W p.Value) (vs : List p.Value)
      (body bytes : Bytes) (reader : p.Unpacker) (v : p.Value) (w : W) (s : Site a W) (k : a.Socket)
      → p.unpack body ≡ ok reader
      → Yields p reader tys vs
      → fn vs s.world ≡ (ok v, w)
      → p.pack_args (v ∷ []) ≡ ok bytes
      → length bytes ≤ max_buffer_len
      → a.write
          (in_memory a (get_buffer o (record { body_len = length bytes }) bytes))
          s.conn.socket
        ≡ (none, k)
      → invoke o (bound {p = p} (value_function tys fn)) body s
        ≡ (ok tt, record { conn = record s.conn { socket = k }; world = w })
  unfolding invoke
  invoke_value o tys fn vs body bytes reader v w s k opened y ran packed h wrote =
      let (u, applied) =
        apply_value {p = p} tys tys fn vs (record { parser = reader; result = []; world = s.world })
          v w bytes y ran packed in
      rw (opened, applied, write_fits o bytes s.conn k h wrote)

  -- If the arguments are read and the bound function throws, whether it has a result or not, and if
  -- the socket takes what is sent, then the caller is sent an empty body, the connection is kept, and
  -- what the function wrote before it threw stays written.
  pub invoke-Throws :
      (o : ByteOrder) (f : Function p W) (vs : List p.Value) (body : Bytes) (reader : p.Unpacker)
      (x : Exception) (w : W) (s : Site a W) (k : a.Socket)
      → p.unpack body ≡ ok reader
      → Yields p reader (param_types f) vs
      → Throws f vs s.world x w
      → a.write (in_memory a (get_buffer o (record { body_len = 0 }) [])) s.conn.socket ≡ (none, k)
      → invoke o (bound {p = p} f) body s
        ≡ (ok tt, record { conn = record s.conn { socket = k }; world = w })
  unfolding invoke
  invoke-Throws o f vs body reader x w s k opened y ran wrote =
      let (u, applied) =
        apply-Throws {p = p} f (param_types f) vs
          (record { parser = reader; result = []; world = s.world }) x w y ran in
      rw (opened, applied, write_fits o [] s.conn k (omega arith) wrote)

-- The two ways in which a task may end.
abbrev pub Ends :
    {a : Asio} {W : Type 0} → ByteOrder → Site a W → Result (Unit {0}) × Site a W → Type 0
Ends {a} o s (r, s') = (r ≡ ok tt) × (Sent o s.conn s'.conn ⊎ (a.is_open s'.conn.socket ≡ false))

module _ {a : Asio} {W : Type 0} where
  -- The work of a task under its `catch`, which leaves the connection alone until it writes.
  caught :
      (laws : AsioLaws a) (o : ByteOrder) (m : Exec (Site a W) Unit) (s : Site a W)
      → ((m s).0 ≡ ok tt → Sent o s.conn (m s).1.conn)
      → Ends o s (try_catch m give_up s)
  caught laws o m s sent =
      let (r, s') = m s in
      elim (Result-cases r) [
        | inl (u, e) ↦ rw e (refl, inl (sent e))
        | inr (x, e) ↦ rw e (refl, inr (disconnect-closed laws s'.conn))
      ]

  pub conn-run_func_raw :
      (func : Option (Bytes → Exec (RawFrame W) Unit)) (body : Bytes) (s : Site a W)
      → (run_func_raw func body s).1.conn ≡ s.conn
  unfolding run_func_raw
  conn-run_func_raw none body s = refl
  conn-run_func_raw (some func) body s = ground arith

  -- A result that is computed without touching the connection, and then sent.
  bind-Sent :
      (o : ByteOrder) (m : Exec (Site a W) Bytes) (s : Site a W)
      → (m s).1.conn ≡ s.conn
      → ((result : Bytes) → (m s).0 ≡ ok result → length result < 2 ^ 32)
      → ((m >>= λ result. on_conn (Connection.write o result)) s).0 ≡ ok tt
      → Sent o s.conn ((m >>= λ result. on_conn (Connection.write o result)) s).1.conn
  bind-Sent o m s same fits e =
      let (result, s', ran) = bind-ok m (λ result. on_conn (Connection.write o result)) s e in
      let e' : (Connection.write o result s'.conn).0 ≡ ok tt = rw ran at e in
      let kept : s'.conn ≡ s.conn = rw ran at same in
      rw (ran, ← kept) (write-Sent o result s'.conn (fits result (rw ran)) e')

module _ {a : Asio} {p : EasyPack} {W : Type 0} where
  conn-run_func :
      (func : Option (Exec (Frame p W) Unit)) (parser : p.Unpacker) (s : Site a W)
      → (run_func func parser s).1.conn ≡ s.conn
  unfolding run_func
  conn-run_func none parser s = refl
  conn-run_func (some func) parser s = ground arith

  -- Opening the body and running the function.
  abbrev pub result_of : InvokerFunction p W → Bytes → Exec (Site a W) Bytes
  result_of inv body = do parser ← lift (p.unpack body); run_func inv.func parser

  pub conn-result_of :
      (inv : InvokerFunction p W) (body : Bytes) (s : Site a W)
      → (result_of inv body s).1.conn ≡ s.conn
  conn-result_of inv body s = elim (Result-cases (p.unpack body)) [
    | inl (parser, e) ↦ rw e (conn-run_func inv.func parser s)
    | inr (x, e) ↦ rw e
  ]

  pub invoke-result_of :
      (o : ByteOrder) (inv : InvokerFunction p W) (body : Bytes) (s : Site a W)
      → invoke o inv body s
        ≡ try_catch (result_of inv body >>= λ result. on_conn (Connection.write o result)) give_up s
  unfolding invoke
  invoke-result_of o inv body s = elim (Result-cases (p.unpack body)) [
    | inl (parser, e) ↦ rw e
    | inr (x, e) ↦ rw e
  ]

  -- Whatever function is bound, and whatever body has come, the task of a request ends without an
  -- exception, and either a body was sent in full, behind what was found in place of its header, and
  -- the connection is otherwise as it was, or the connection is closed. (Results of 2^32 bytes or more are left out:
  -- their length would wrap.)
  pub invoke-Ends :
      (laws : AsioLaws a) (o : ByteOrder) (inv : InvokerFunction p W) (body : Bytes) (s : Site a W)
      → ((result : Bytes) → (result_of inv body s).0 ≡ ok result → length result < 2 ^ 32)
      → Ends o s (invoke o inv body s)
  invoke-Ends laws o inv body s fits = rw (invoke-result_of o inv body s) (
      caught laws o (result_of inv body >>= λ result. on_conn (Connection.write o result)) s
        (bind-Sent o (result_of inv body) s (conn-result_of inv body s) fits))

module _ {a : Asio} {W : Type 0} where
  -- Whatever raw function is bound, and whatever body has come, the task of a raw request ends
  -- without an exception, and either a body was sent in full, behind what was found in place of its
  -- header, and the connection is otherwise as it was, or the connection is closed. (Results of 2^32 bytes or more are left
  -- out: their length would wrap.)
  pub invoke_raw-Ends :
      (laws : AsioLaws a) (o : ByteOrder) (inv : InvokerFunctionRaw W) (body : Bytes) (s : Site a W)
      → ((result : Bytes) → (run_func_raw inv.func body s).0 ≡ ok result → length result < 2 ^ 32)
      → Ends o s (invoke_raw o inv body s)
  unfolding invoke_raw
  invoke_raw-Ends laws o inv body s fits =
      caught laws o (run_func_raw inv.func body >>= λ result. on_conn (Connection.write o result)) s
        (bind-Sent o (run_func_raw inv.func body) s (conn-run_func_raw inv.func body s) fits)

  -- A raw function returns, and what it returns fits: it is sent as it is.
  pub invoke_raw_result :
      (o : ByteOrder) (f : RawFunction W) (body result : Bytes) (w : W) (s : Site a W)
      (k : a.Socket)
      → RawReturns f body s.world result w
      → length result ≤ max_buffer_len
      → a.write
          (in_memory a (get_buffer o (record { body_len = length result }) result))
          s.conn.socket
        ≡ (none, k)
      → invoke_raw o (bound_raw f) body s
        ≡ (ok tt, record { conn = record s.conn { socket = k }; world = w })
  unfolding invoke_raw apply_raw
  invoke_raw_result o (void_raw f) body result w s k (ran, none_) h wrote =
      rw (ran, ← none_, write_fits o result s.conn k h wrote)
  invoke_raw_result o (value_raw f) body result w s k ran h wrote =
      rw (ran, write_fits o result s.conn k h wrote)
