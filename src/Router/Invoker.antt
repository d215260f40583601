-- ===== src/Router/Invoker.antt =====
-- router.hpp, the invokers: a bound function behind the parsing of its arguments and the packing of
-- its result. `W` is what the functions of the user work on, their objects included.
pub mod Apply
pub mod Invoke
use easyrpc.Prelude.{ℕ, Option, none, some, List, [], ◌∷◌, ◌++◌, Bytes}
use easyrpc.Prelude.Exec.{
  Exception, Exec, Result, ok, throw, library, pure, raise, lift, modify, ◌>>=◌, ◌>>◌, try_catch,
}
use easyrpc.Header.{ByteOrder}
use easyrpc.Asio.{Asio}
use easyrpc.EasyPack.{EasyPack}
use easyrpc.Connection
use easyrpc.Connection.{Connection}

-- Which overload of `call` is taken depends on the result type alone; `function_traits` gives the
-- types of the arguments.
pub data Function (p : EasyPack) (W : Type 0) : Type 0 where
  void_function : List p.Ty → (List p.Value → Exec W Unit) → Function p W
  value_function : List p.Ty → (List p.Value → Exec W p.Value) → Function p W

-- A member function, which takes the object that it is called on.
pub data MemberFunction (p : EasyPack) (Self W : Type 0) : Type 0 where
  void_member : List p.Ty → (Self → List p.Value → Exec W Unit) → MemberFunction p Self W
  value_member : List p.Ty → (Self → List p.Value → Exec W p.Value) → MemberFunction p Self W

pub data RawFunction (W : Type 0) : Type 0 where
  void_raw : (Bytes → Exec W Unit) → RawFunction W
  value_raw : (Bytes → Exec W Bytes) → RawFunction W

pub data RawMemberFunction (Self W : Type 0) : Type 0 where
  void_raw_member : (Self → Bytes → Exec W Unit) → RawMemberFunction Self W
  value_raw_member : (Self → Bytes → Exec W Bytes) → RawMemberFunction Self W

-- The references that an invoker is given, `parser` and `result`, and the user's objects.
pub record Frame (p : EasyPack) (W : Type 0) : Type 0 where
  pub parser : p.Unpacker
  pub result : Bytes
  pub world : W

-- The same for a raw invoker.
pub record RawFrame (W : Type 0) : Type 0 where
  pub result : Bytes
  pub world : W

-- `catch (std::exception& e) { log_warn(e.what()); }`
abbrev pub try_log : {S : Type 0} → Exec S Unit → Exec S Unit
try_log m = try_catch m (λ e. pure tt)

module _ {p : EasyPack} {W : Type 0} where
  abbrev pub param_types : Function p W → List p.Ty
  param_types (void_function tys f) = tys
  param_types (value_function tys f) = tys

  -- Runs a function of the user, inside of a frame.
  abbrev pub on_world : {A : Type 0} → Exec W A → Exec (Frame p W) A
  on_world m s = let (r, world) = m s.world in (r, record s { world = world })

  abbrev pub set_result : Result Bytes → Exec (Frame p W) Unit
  set_result packed = do bytes ← lift packed; modify (λ s. record s { result = bytes })

  -- parser_util.hpp, `get`
  unfoldable pub got : Result (p.Value × p.Unpacker) → Exec (Frame p W) p.Value
  got (ok (v, parser)) s = (ok v, record s { parser = parser })
  got (throw e) s = (throw e, s)

  unfoldable pub get : p.Ty → Exec (Frame p W) p.Value
  unfolding got
  get ty s = got (p.unpack_top ty s.parser) s

  unfoldable pub call : Function p W → List p.Value → Exec (Frame p W) Unit
  call (void_function tys f) args = do on_world (f args); set_result (p.pack_args [])
  call (value_function tys f) args = do ret ← on_world (f args); set_result (p.pack_args (ret ∷ []))

  -- `invoker<Function, I, N>::apply`: `tys` are the types from `I` on, `args` what is parsed so far.
  unfoldable pub apply : Function p W → List p.Ty → List p.Value → Exec (Frame p W) Unit
  unfolding get call
  apply f [] args = try_log (call f args)
  apply f (ty ∷ tys) args = try_log (do v ← get ty; apply f tys (args ++ v ∷ []))

  unfoldable pub call_member :
      {Self : Type 0} → MemberFunction p Self W → Self → List p.Value → Exec (Frame p W) Unit
  call_member (void_member tys f) self args = do on_world (f self args); set_result (p.pack_args [])
  call_member (value_member tys f) self args = do
    ret ← on_world (f self args)
    set_result (p.pack_args (ret ∷ []))

  abbrev pub member_types : {Self : Type 0} → MemberFunction p Self W → List p.Ty
  member_types (void_member tys f) = tys
  member_types (value_member tys f) = tys

  unfoldable pub apply_member :
      {Self : Type 0}
      → MemberFunction p Self W
      → Self
      → List p.Ty
      → List p.Value
      → Exec (Frame p W) Unit
  unfolding get call_member
  apply_member f self [] args = try_log (call_member f self args)
  apply_member f self (ty ∷ tys) args =
      try_log (do v ← get ty; apply_member f self tys (args ++ v ∷ []))

-- The raw invokers: the body goes to the function as it came.
module _ {W : Type 0} where
  abbrev pub on_raw_world : {A : Type 0} → Exec W A → Exec (RawFrame W) A
  on_raw_world m s = let (r, world) = m s.world in (r, record s { world = world })

  abbrev pub set_raw_result : Bytes → Exec (RawFrame W) Unit
  set_raw_result bytes = modify (λ s. record s { result = bytes })

  unfoldable pub call_raw : RawFunction W → Bytes → Exec (RawFrame W) Unit
  call_raw (void_raw f) body = do on_raw_world (f body); set_raw_result []
  call_raw (value_raw f) body = do bytes ← on_raw_world (f body); set_raw_result bytes

  unfoldable pub apply_raw : RawFunction W → Bytes → Exec (RawFrame W) Unit
  unfolding call_raw
  apply_raw f body = try_log (call_raw f body)

  unfoldable pub call_member_raw :
      {Self : Type 0} → RawMemberFunction Self W → Self → Bytes → Exec (RawFrame W) Unit
  call_member_raw (void_raw_member f) self body = do on_raw_world (f self body); set_raw_result []
  call_member_raw (value_raw_member f) self body = do
    bytes ← on_raw_world (f self body)
    set_raw_result bytes

  unfoldable pub apply_member_raw :
      {Self : Type 0} → RawMemberFunction Self W → Self → Bytes → Exec (RawFrame W) Unit
  unfolding call_member_raw
  apply_member_raw f self body = try_log (call_member_raw f self body)

-- `invoker_function` and `invoker_function_raw`; `none` is the null `std::function`.
pub record InvokerFunction (p : EasyPack) (W : Type 0) : Type 0 where
  pub func : Option (Exec (Frame p W) Unit)
  pub param_size : ℕ

pub record InvokerFunctionRaw (W : Type 0) : Type 0 where
  pub func : Option (Bytes → Exec (RawFrame W) Unit)

-- What a worker works on: the connection that asked, and the user's objects.
pub record Site (a : Asio) (W : Type 0) : Type 0 where
  pub conn : Connection a
  pub world : W

abbrev bad_function_call : Exception
bad_function_call = library "bad_function_call"

module _ {a : Asio} {W : Type 0} where
  abbrev pub on_conn : {A : Type 0} → Exec (Connection a) A → Exec (Site a W) A
  on_conn m s = let (r, conn) = m s.conn in (r, record s { conn = conn })

  -- `log_warn(e.what()); conn->disconnect();`
  abbrev pub give_up : Exception → Exec (Site a W) Unit
  give_up e = modify (λ s. record s { conn = Connection.disconnect s.conn })

  -- The call of `func_`, which leaves its result in a fresh string.
  unfoldable pub run_func_raw :
      Option (Bytes → Exec (RawFrame W) Unit) → Bytes → Exec (Site a W) Bytes
  run_func_raw none body s = raise bad_function_call s
  run_func_raw (some func) body s =
      let (r, frame) = func body (record { result = []; world = s.world }) in
      (do lift r; pure frame.result) (record s { world = frame.world })

  -- `invoker_function_raw::operator()`
  unfoldable pub invoke_raw : ByteOrder → InvokerFunctionRaw W → Bytes → Exec (Site a W) Unit
  unfolding run_func_raw
  invoke_raw o inv body =
      try_catch (do result ← run_func_raw inv.func body; on_conn (Connection.write o result))
        give_up

module _ {a : Asio} {p : EasyPack} {W : Type 0} where
  unfoldable pub run_func : Option (Exec (Frame p W) Unit) → p.Unpacker → Exec (Site a W) Bytes
  run_func none parser s = raise bad_function_call s
  run_func (some func) parser s =
      let (r, frame) = func (record { parser = parser; result = []; world = s.world }) in
      (do lift r; pure frame.result) (record s { world = frame.world })

  -- `invoker_function::operator()`
  unfoldable pub invoke : ByteOrder → InvokerFunction p W → Bytes → Exec (Site a W) Unit
  unfolding run_func
  invoke o inv body =
      try_catch
        (do
          parser ← lift (p.unpack body)
          result ← run_func inv.func parser
          on_conn (Connection.write o result))
        give_up
