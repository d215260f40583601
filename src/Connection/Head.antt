-- ===== src/Connection/Head.antt =====
-- The handler of the head read (easyrpc/server/connection.hpp).
use easyrpc.Prelude.{
  ◌≡◌, ◌≢◌, refl, ap, ◌∙◌, ◌⊎◌, inl, inr, true, false, Option, none, some, String, Bytes, replicate,
  arith, Bool-cases,
}
use native.Mathlib.Decide.{ℕ_discrete}
use easyrpc.Header.{ByteOrder, RequestHeader, request_bytes, request_of_bytes}
use easyrpc.Header.Layout.{IsRequest, request_round_trip}
use easyrpc.Asio.{Asio, AsioLaws}
use easyrpc.Connection.{
  Connection, nothing, body_bytes, request_len, head_accepted, on_head, stop_timer, disconnect,
}

module _ {a : Asio} where
  pub disconnect-closed :
      (laws : AsioLaws a) (c : Connection a) → a.is_open (disconnect c).socket ≡ false
  unfolding disconnect
  disconnect-closed laws c = ground (arith, laws.close_shuts (a.shutdown c.socket))

  timer-disconnect : (c : Connection a) → (disconnect c).timer ≡ c.timer
  unfolding disconnect
  timer-disconnect c = ground arith

  pending-disconnect : (c : Connection a) → (disconnect c).pending ≡ c.pending
  unfolding disconnect
  pending-disconnect c = ground arith

  stop_timer-disarms :
      (laws : AsioLaws a) (c : Connection a)
      → c.timeout_milli ≢ 0
      → a.is_armed (stop_timer c).timer.timer ≡ false
  unfolding stop_timer
  stop_timer-disarms laws c h = ground (arith, laws.cancel_disarms c.timer.timer)

  pending-stop_timer : (c : Connection a) → (stop_timer c).pending ≡ c.pending
  unfolding stop_timer
  pending-stop_timer c = ground arith

  -- What the head's guard leaves behind.
  pub record IsDropped (c : Connection a) : Type 0 where
    pub closed : a.is_open c.socket ≡ false
    pub disarmed : (c.timeout_milli ≡ 0) ⊎ (a.is_armed c.timer.timer ≡ false)
    pub idle : c.pending ≡ nothing

  timeout-disconnect :
      (c : Connection a) → (disconnect (stop_timer c)).timeout_milli ≡ c.timeout_milli
  unfolding disconnect stop_timer
  timeout-disconnect c = ground arith

  guard-IsDropped :
      (laws : AsioLaws a) (c : Connection a)
      → c.pending ≡ nothing
      → IsDropped (disconnect (stop_timer c))
  guard-IsDropped laws c e = record {
    closed = disconnect-closed laws (stop_timer c);
    disarmed = elim (ℕ_discrete c.timeout_milli 0) [
      | yes z ↦ inl (timeout-disconnect c ∙ z)
      | no h ↦ inr (
          ap (λ t. a.is_armed t.timer) (timer-disconnect (stop_timer c))
          ∙ stop_timer-disarms laws c h)
    ];
    idle = pending-disconnect (stop_timer c) ∙ pending-stop_timer c ∙ e;
  }

  -- The connection that the handler gives up, closed socket and failed read included.
  abbrev pub received : Bytes → Connection a → Connection a
  received bytes c = record c { head = bytes; pending = nothing }

  pub on_head_closed :
      (o : ByteOrder) (ec : Option String) (bytes : Bytes) (c : Connection a)
      → a.is_open c.socket ≡ false
      → on_head o ec bytes c ≡ disconnect (stop_timer (received bytes c))
  unfolding on_head
  on_head_closed o ec bytes c e = rw e

  pub on_head_failed :
      (o : ByteOrder) (message : String) (bytes : Bytes) (c : Connection a)
      → on_head o (some message) bytes c ≡ disconnect (stop_timer (received bytes c))
  unfolding on_head
  on_head_failed o message bytes c = ground arith

  pub on_head_rejected :
      (o : ByteOrder) (bytes : Bytes) (c : Connection a)
      → a.is_open c.socket ≡ true
      → head_accepted (request_of_bytes o bytes) ≡ false
      → on_head o none bytes c
        ≡ disconnect
            (stop_timer (record (received bytes c) { req_head = request_of_bytes o bytes }))
  unfolding on_head
  on_head_rejected o bytes c open_ e = rw (open_, e)

  -- A head is refused if the socket was closed, if the read failed, or if the header is not
  -- accepted. Then the socket is closed, the deadline is cancelled if there is a timeout, and no
  -- read is under way any more.
  pub on_head_refuses :
      (laws : AsioLaws a) (o : ByteOrder) (ec : Option String) (bytes : Bytes) (c : Connection a)
      → (a.is_open c.socket ≡ false)
        ⊎ (ec ≢ none)
        ⊎ (head_accepted (request_of_bytes o bytes) ≡ false)
      → IsDropped (on_head o ec bytes c)
  on_head_refuses laws o ec bytes c (inl shut) =
      rw (on_head_closed o ec bytes c shut) (guard-IsDropped laws (received bytes c) refl)
  on_head_refuses laws o (some message) bytes c (inr why) =
      rw (on_head_failed o message bytes c) (guard-IsDropped laws (received bytes c) refl)
  on_head_refuses laws o none bytes c (inr (inl failed)) = absurd (failed refl)
  on_head_refuses laws o none bytes c (inr (inr e)) = elim (Bool-cases (a.is_open c.socket)) [
    | inl open_ ↦ rw (on_head_rejected o bytes c open_ e) (guard-IsDropped laws _ refl)
    | inr shut ↦ rw (on_head_closed o none bytes c shut) (guard-IsDropped laws _ refl)
  ]

  -- A request header that is accepted, with fields that an `unsigned int` can hold and on an open
  -- socket: the body is read next, into a buffer of the length that `check_head` computed; the
  -- socket and the deadline stay as they are.
  pub on_head_accepts :
      (o : ByteOrder) (h : RequestHeader) (c : Connection a)
      → IsRequest h
      → a.is_open c.socket ≡ true
      → head_accepted h ≡ true
      → on_head o none (request_bytes o h) c ≡ record c {
        head = request_bytes o h;
        req_head = h;
        protocol_and_body = replicate (request_len h) 0;
        pending = body_bytes (request_len h);
      }
  unfolding on_head
  on_head_accepts o h c v open_ ok_ = ground (arith, (request_round_trip o h v).1)
