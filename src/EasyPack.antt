-- ===== src/EasyPack.antt =====
-- What the program uses of easypack, the serialisation library, which is a submodule and not part
-- of the repository: packing values into a string, and reading them back one by one.
use easyrpc.Prelude.{◌≡◌, List, [], ◌∷◌, Bytes}
use easyrpc.Prelude.Exec.{Result, ok}

pub record EasyPack : Type 1 where
  -- the C++ types that can be packed, and the values of all of them
  pub Ty : Type 0
  pub Value : Type 0
  pub Unpacker : Type 0
  -- `pack p; p.pack_args(args...); p.get_string()`
  pub pack_args : List Value → Result Bytes
  -- the constructor of `unpack`
  pub unpack : Bytes → Result Unpacker
  -- `up.unpack_top(t)` and `up.unpack_args(t)` at a `t` of this type
  pub unpack_top : Ty → Unpacker → Result (Value × Unpacker)
  pub unpack_args : Ty → Unpacker → Result Value

-- An unpacker from which values of these types are read one after the other.
abbrev pub Yields : (p : EasyPack) → p.Unpacker → List p.Ty → List p.Value → Type 0
Yields p u [] [] = Unit {0}
Yields p u [] (v ∷ vs) = ⊥
Yields p u (t ∷ ts) [] = ⊥
Yields p u (t ∷ ts) (v ∷ vs) =
    (u' : p.Unpacker) × (p.unpack_top t u ≡ ok (v, u')) × Yields p u' ts vs

-- What the library documents: what was packed is read back, at the types that were packed.
pub record Packs (p : EasyPack) (ts : List p.Ty) (vs : List p.Value) : Type 0 where
  pub text : Bytes
  pub packed : p.pack_args vs ≡ ok text
  pub reader : p.Unpacker
  pub opened : p.unpack text ≡ ok reader
  pub yields : Yields p reader ts vs

pub record PacksOne (p : EasyPack) (t : p.Ty) (v : p.Value) : Type 0 where
  pub text : Bytes
  pub packed : p.pack_args (v ∷ []) ≡ ok text
  pub reader : p.Unpacker
  pub opened : p.unpack text ≡ ok reader
  pub unpacked : p.unpack_args t reader ≡ ok v
