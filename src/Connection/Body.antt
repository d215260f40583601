-- ===== src/Connection/Body.antt =====
-- The handler of the body read (easyrpc/server/connection.hpp): what reaches the router, and when
-- the handler reads outside of its buffer.
use easyrpc.Prelude.{
  ℕ, ◌+◌, ◌≤◌, ◌^◌, ◌≡◌, ◌≢◌, ◌↔◌, refl, sym, ap, ◌∙◌, if◌then◌else◌, Bool, true, false, none,
  Bytes, length, arith, ◌++◌, take, drop, take-append, drop-append, length-append,
}
use native.Mathlib.Decide.{dec_le}
use easyrpc.Prelude.Outcome.{Outcome, done, waits, fault}
use easyrpc.Header.{CallMode}
use easyrpc.Header.Layout.{IsRequest}
use easyrpc.Asio.{Asio}
use easyrpc.Connection.{
  Connection, nothing, request_len, string_at, dispatch, finish, on_body, stop_timer, disconnect,
}
use easyrpc.Connection.Bounds.{string_at_parts, wrapped_outside}

-- The connection that the handler goes on with.
abbrev pub body_read : {a : Asio} → Bytes → Connection a → Connection a
body_read bytes c = stop_timer (record c { protocol_and_body = bytes; pending = nothing })

take_at : (n : ℕ) (xs ys : Bytes) → n ≡ length xs → take n (xs ++ ys) ≡ xs
take_at n xs ys e = rw e (take-append xs ys)

drop_at : (n : ℕ) (xs ys : Bytes) → n ≡ length xs → drop n (xs ++ ys) ≡ ys
drop_at n xs ys e = rw e (drop-append xs ys)

module _ {a : Asio} {R : Type 0} (route : Bytes → Bytes → CallMode → R → Outcome (Bool × R)) where
  on_body_open :
      (bytes : Bytes) (c : Connection a) (r : R)
      → a.is_open c.socket ≡ true
      → on_body route none bytes c r
        ≡ finish route (body_read bytes c) (
            dispatch route
              (string_at bytes 0 c.req_head.protocol_len)
              (string_at bytes c.req_head.protocol_len c.req_head.body_len)
              c.req_head.mode
              r)
  unfolding on_body stop_timer
  on_body_open bytes c r open_ = ground arith

  finish-ne-fault :
      (c : Connection a) (o : Outcome (Bool × R)) → o ≢ fault → finish route c o ≢ fault
  unfolding finish
  finish-ne-fault c (done (true, r)) h e = cc
  finish-ne-fault c (done (false, r)) h e = cc
  finish-ne-fault c waits h e = cc
  finish-ne-fault c fault h e = h refl

  -- The two parts of the buffer, where the lengths do not wrap.
  on_body_parts :
      (bytes : Bytes) (c : Connection a) (r : R)
      → a.is_open c.socket ≡ true
      → length bytes ≡ c.req_head.protocol_len + c.req_head.body_len
      → on_body route none bytes c r
        ≡ finish route (body_read bytes c) (
            route
              (take c.req_head.protocol_len bytes)
              (drop c.req_head.protocol_len bytes)
              c.req_head.mode
              r)
  unfolding dispatch
  on_body_parts bytes c r open_ e =
      let (first, second) = string_at_parts bytes c.req_head.protocol_len c.req_head.body_len e in
      on_body_open bytes c r open_
      ∙ ap (finish route (body_read bytes c)) (rw (first, second, dispatch))

  finish-done :
      (c : Connection a) (o : Bool) (r : R)
      → finish route c (done (o, r)) ≡ done (if o then c else disconnect c, r)
  unfolding finish
  finish-done c true r = refl
  finish-done c false r = refl

-- On an open connection whose header has fields that an `unsigned int` can hold, and whose buffer
-- has the length that the two lengths of the header add up to in `unsigned int`, the body handler
-- reads outside of its buffer exactly when the sum of the lengths wraps around 2^32; the router is
-- supposed to read nothing outside of its own.
pub on_body_faults_iff :
    {a : Asio} {R : Type 0} (route : Bytes → Bytes → CallMode → R → Outcome (Bool × R))
    (bytes : Bytes) (c : Connection a) (r : R)
    → ((protocol body : Bytes) (mode : CallMode) → route protocol body mode r ≢ fault)
    → IsRequest c.req_head
    → a.is_open c.socket ≡ true
    → length bytes ≡ request_len c.req_head
    → (on_body route none bytes c r ≡ fault)
      ↔ (2 ^ 32 ≤ c.req_head.protocol_len + c.req_head.body_len)
unfolding dispatch finish
on_body_faults_iff route bytes c r safe v open_ e = (only_wrapped, wrapped)
  where
    wrapped :
        2 ^ 32 ≤ c.req_head.protocol_len + c.req_head.body_len
        → on_body route none bytes c r ≡ fault
    wrapped w =
        on_body_open route bytes c r open_
        ∙ rw (wrapped_outside c.req_head bytes v e w, dispatch, finish)

    only_wrapped :
        on_body route none bytes c r ≡ fault
        → 2 ^ 32 ≤ c.req_head.protocol_len + c.req_head.body_len
    only_wrapped faults = elim (dec_le (2 ^ 32) (c.req_head.protocol_len + c.req_head.body_len)) [
      | yes w ↦ w
      | no small ↦ absurd (
          finish-ne-fault route (body_read bytes c) _ (safe _ _ _)
            (sym (on_body_parts route bytes c r open_ (e ∙ fits small)) ∙ faults))
    ]
      where
        fits :
            ¬ (2 ^ 32 ≤ c.req_head.protocol_len + c.req_head.body_len)
            → request_len c.req_head ≡ c.req_head.protocol_len + c.req_head.body_len
        fits small = omega arith

-- On an open socket, the body of a request whose header has the lengths of its protocol and its
-- body goes to the router as these two strings. The connection stays as it was, but for its buffer
-- and its timer, if the router takes the request, and is disconnected if it does not.
pub on_body_delivers :
    {a : Asio} {R : Type 0} (route : Bytes → Bytes → CallMode → R → Outcome (Bool × R))
    (protocol body : Bytes) (c : Connection a) (r r' : R) (routed : Bool)
    → a.is_open c.socket ≡ true
    → c.req_head.protocol_len ≡ length protocol
    → c.req_head.body_len ≡ length body
    → route protocol body c.req_head.mode r ≡ done (routed, r')
    → on_body route none (protocol ++ body) c r
      ≡ done (
        if routed
            then body_read (protocol ++ body) c
            else disconnect (body_read (protocol ++ body) c),
        r',
      )
on_body_delivers route protocol body c r r' routed open_ ep eb e =
    on_body_parts route (protocol ++ body) c r open_
      (omega (arith, length-append {0} protocol body))
    ∙ rw (take_at _ protocol body ep, drop_at _ protocol body ep, e)
        (finish-done route (body_read (protocol ++ body) c) routed r')
