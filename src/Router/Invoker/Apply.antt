-- ===== src/Router/Invoker/Apply.antt =====
-- The recursion over the arguments and the call of the bound function (easyrpc/server/router.hpp,
-- `invoker::apply` and `call`).
use easyrpc.Prelude.{◌≡◌, List, [], ◌∷◌, ◌++◌, append-nil, append_assoc, Bytes, arith, inl, inr}
use easyrpc.Prelude.Exec.{Exception, Exec, ok, throw, Result-cases, ◌>>=◌}
use easyrpc.EasyPack.{EasyPack, Yields}
use easyrpc.Router.Invoker.{
  Function, void_function, value_function, Frame, get, got, call, apply, try_log,
}

-- A body under `try_log` returns, whatever happens in it.
pub try_log-ok : {S : Type 0} (m : Exec S Unit) (s : S) → (try_log m s).0 ≡ ok tt
try_log-ok m s =
    let (r, s') = m s in
    elim (Result-cases r) [ inl (u, e) ↦ ground arith | inr (x, e) ↦ ground arith ]

try_log-try_log : {S : Type 0} (m : Exec S Unit) (s : S) → try_log (try_log m) s ≡ try_log m s
try_log-try_log m s =
    let (r, s') = m s in elim (Result-cases r) [ inl (u, e) ↦ rw e | inr (x, e) ↦ rw e ]

-- A block that ends as a `try_log` does lets no exception out for an outer one to catch.
try_log_outer :
    {S : Type 0} (m n : Exec S Unit) (s s' : S) → m s ≡ try_log n s' → try_log m s ≡ try_log n s'
try_log_outer m n s s' e = rw e (try_log-try_log n s')

module _ {p : EasyPack} {W : Type 0} where
  -- Reading may fail at any argument and the function may throw: the invoker of a bound function
  -- returns all the same, without an exception.
  pub apply-ok :
      (f : Function p W) (tys : List p.Ty) (args : List p.Value) (s : Frame p W)
      → (apply f tys args s).0 ≡ ok tt
  unfolding apply
  apply-ok f [] args s = try_log-ok (call f args) s
  apply-ok f (ty ∷ tys) args s = try_log-ok (do v ← get ty; apply f tys (args ++ v ∷ [])) s

  get-ok :
      (ty : p.Ty) (v : p.Value) (u : p.Unpacker) (s : Frame p W)
      → p.unpack_top ty s.parser ≡ ok (v, u)
      → get ty s ≡ (ok v, record s { parser = u })
  unfolding get
  get-ok ty v u s e = rw (e, got)

  -- Once all arguments are read, the function is called on them.
  pub apply_parsed :
      (f : Function p W) (tys : List p.Ty) (vs args : List p.Value) (s : Frame p W)
      → Yields p s.parser tys vs
      → (u : p.Unpacker) × (apply f tys args s
          ≡ try_log (call f (args ++ vs)) (record s { parser = u }))
  unfolding apply
  apply_parsed f [] [] args s y = (s.parser, rw append-nil)
  apply_parsed f [] (v ∷ vs) args s y = absurd y
  apply_parsed f (ty ∷ tys) [] args s y = absurd y
  apply_parsed f (ty ∷ tys) (v ∷ vs) args s (u, read, more) =
      let (u', e) = apply_parsed f tys vs (args ++ v ∷ []) (record s { parser = u }) more in
      (
        u',
        try_log_outer (do v' ← get ty; apply f tys (args ++ v' ∷ [])) (call f (args ++ v ∷ vs)) s
            (record s { parser = u' }) (rw (get-ok ty v u s read) (rw append_assoc at e)),
      )

  -- A function with a result: where its arguments are read and it returns, its result is packed into
  -- the string that the invoker was given.
  pub apply_value :
      (tys all : List p.Ty) (fn : List p.Value → Exec W p.Value) (vs : List p.Value) (s : Frame p W)
      (v : p.Value) (w : W) (bytes : Bytes)
      → Yields p s.parser tys vs
      → fn vs s.world ≡ (ok v, w)
      → p.pack_args (v ∷ []) ≡ ok bytes
      → (u : p.Unpacker) × (apply (value_function all fn) tys [] s
          ≡ (ok tt, record { parser = u; result = bytes; world = w }))
  unfolding call
  apply_value tys all fn vs s v w bytes y e packed =
      let (u, parsed) = apply_parsed (value_function all fn) tys vs [] s y in
      (u, rw (parsed, e, packed))

  -- A function without a result: the string is what packing nothing gives.
  pub apply_void :
      (tys all : List p.Ty) (fn : List p.Value → Exec W Unit) (vs : List p.Value) (s : Frame p W)
      (w : W) (bytes : Bytes)
      → Yields p s.parser tys vs
      → fn vs s.world ≡ (ok tt, w)
      → p.pack_args [] ≡ ok bytes
      → (u : p.Unpacker) × (apply (void_function all fn) tys [] s
          ≡ (ok tt, record { parser = u; result = bytes; world = w }))
  unfolding call
  apply_void tys all fn vs s w bytes y e packed =
      let (u, parsed) = apply_parsed (void_function all fn) tys vs [] s y in
      (u, rw (parsed, e, packed))

  -- A function that throws: the string stays as it was, and what the function wrote before stays
  -- written.
  pub apply_throws :
      (tys all : List p.Ty) (fn : List p.Value → Exec W p.Value) (vs : List p.Value) (s : Frame p W)
      (x : Exception) (w : W)
      → Yields p s.parser tys vs
      → fn vs s.world ≡ (throw x, w)
      → (u : p.Unpacker) × (apply (value_function all fn) tys [] s
          ≡ (ok tt, record { parser = u; result = s.result; world = w }))
  unfolding call
  apply_throws tys all fn vs s x w y e =
      let (u, parsed) = apply_parsed (value_function all fn) tys vs [] s y in (u, rw (parsed, e))

  -- How a bound function throws, without a result or with one.
  abbrev pub Throws : Function p W → List p.Value → W → Exception → W → Type 0
  Throws (void_function tys fn) vs w x w' = fn vs w ≡ (throw x, w')
  Throws (value_function tys fn) vs w x w' = fn vs w ≡ (throw x, w')

  pub apply-Throws :
      (f : Function p W) (tys : List p.Ty) (vs : List p.Value) (s : Frame p W) (x : Exception)
      (w : W)
      → Yields p s.parser tys vs
      → Throws f vs s.world x w
      → (u : p.Unpacker) × (apply f tys [] s
          ≡ (ok tt, record { parser = u; result = s.result; world = w }))
  unfolding call
  apply-Throws (void_function all fn) tys vs s x w y e =
      let (u, parsed) = apply_parsed (void_function all fn) tys vs [] s y in (u, rw (parsed, e))
  apply-Throws (value_function all fn) tys vs s x w y e = apply_throws tys all fn vs s x w y e
