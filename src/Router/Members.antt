-- ===== src/Router/Members.antt =====
-- Member functions (easyrpc/server/router.hpp, `bind_member_func` and `bind_member_func_raw`).
use easyrpc.Prelude.{some, ◌≡◌, refl, ap, List, [], ◌∷◌, ◌++◌, Bytes, length}
use easyrpc.Prelude.Exec.{Exec, ◌>>=◌}
use easyrpc.EasyPack.{EasyPack}
use easyrpc.Router.{
  Router, bind, bind_member, bind_raw, bind_member_raw, bind_non_member_func, bind_member_func,
  bind_non_member_func_raw, bind_member_func_raw,
}
use easyrpc.Router.Slots
use easyrpc.Router.Invoker.{
  Function, void_function, value_function, MemberFunction, void_member, value_member, RawFunction,
  void_raw, value_raw, RawMemberFunction, void_raw_member, value_raw_member, Frame, get, call,
  call_member, apply, apply_member, call_raw, call_member_raw, apply_raw, apply_member_raw, try_log,
}

module _ {p : EasyPack} {Self W : Type 0} where
  -- A member function with its object, as a function.
  abbrev pub on_object : Self → MemberFunction p Self W → Function p W
  on_object self (void_member tys f) = void_function tys (f self)
  on_object self (value_member tys f) = value_function tys (f self)

  call_member-call :
      (f : MemberFunction p Self W) (self : Self) (args : List p.Value)
      → call_member f self args ≡ call (on_object self f) args
  unfolding call call_member
  call_member-call (void_member tys f) self args = refl
  call_member-call (value_member tys f) self args = refl

  apply_member-apply :
      (f : MemberFunction p Self W) (self : Self) (tys : List p.Ty) (args : List p.Value)
      → apply_member f self tys args ≡ apply (on_object self f) tys args
  unfolding apply apply_member
  apply_member-apply f self [] args = ap try_log (call_member-call f self args)
  apply_member-apply f self (ty ∷ tys) args =
      ap (λ (k : p.Value → Exec (Frame p W) Unit). try_log (do v ← get ty; k v))
        (λ i v. apply_member-apply f self tys (args ++ v ∷ []) i)

module _ {Self W : Type 0} where
  abbrev pub on_object_raw : Self → RawMemberFunction Self W → RawFunction W
  on_object_raw self (void_raw_member f) = void_raw (f self)
  on_object_raw self (value_raw_member f) = value_raw (f self)

  apply_member_raw-apply_raw :
      (f : RawMemberFunction Self W) (self : Self)
      → apply_member_raw f self ≡ apply_raw (on_object_raw self f)
  unfolding apply_raw apply_member_raw call_raw call_member_raw
  apply_member_raw-apply_raw (void_raw_member f) self = refl
  apply_member_raw-apply_raw (value_raw_member f) self = refl

bind_member_lem :
    {p : EasyPack} {Self W C : Type 0} (protocol : Bytes) (f : MemberFunction p Self W)
    (self : Self) (r : Router p W C)
    → bind_member protocol f self r ≡ bind protocol (on_object self f) r
unfolding bind_member bind bind_member_func bind_non_member_func
bind_member_lem protocol (void_member tys f) self r =
    ap
      (λ func. record r {
        invoker_map =
            Slots.assign protocol (record { func = some func; param_size = length tys })
              r.invoker_map;
      })
      (apply_member-apply (void_member tys f) self tys [])
bind_member_lem protocol (value_member tys f) self r =
    ap
      (λ func. record r {
        invoker_map =
            Slots.assign protocol (record { func = some func; param_size = length tys })
              r.invoker_map;
      })
      (apply_member-apply (value_member tys f) self tys [])

-- Binding a member function and an object is binding the function that calls the one on the other,
-- in both modes of call.
pub bind_members :
    {p : EasyPack} {Self W C : Type 0} (protocol : Bytes) (f : MemberFunction p Self W)
    (g : RawMemberFunction Self W) (self : Self) (r : Router p W C)
    → (bind_member protocol f self r ≡ bind protocol (on_object self f) r)
      × (bind_member_raw protocol g self r ≡ bind_raw protocol (on_object_raw self g) r)
unfolding bind_member_raw bind_raw bind_member_func_raw bind_non_member_func_raw
bind_members protocol f g self r = (
  bind_member_lem protocol f self r,
  ap
      (λ func. record r {
        invoker_raw_map = Slots.assign protocol (record { func = some func }) r.invoker_raw_map;
      })
      (apply_member_raw-apply_raw g self),
)
