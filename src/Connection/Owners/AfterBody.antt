-- ===== src/Connection/Owners/AfterBody.antt =====
-- What the handler of the body leaves alone (easyrpc/server/connection.hpp).
use easyrpc.Prelude.{
  ◌≡◌, refl, ◌∙◌, inl, inr, Bool, true, false, Option, none, some, String, Bytes, arith, Bool-cases,
  if◌then◌else◌,
}
use easyrpc.Prelude.Outcome.{Outcome, done, waits, fault}
use easyrpc.Header.{CallMode}
use easyrpc.Asio.{Asio}
use easyrpc.Connection.{
  Connection, nothing, disconnect, stop_timer, finish, dispatch, read_done, on_body,
}
use easyrpc.Connection.Body.{body_read}
use easyrpc.Connection.Owners.{Keeps, Keeps-trans, Keeps-refl, Finished, disconnect-Keeps}

dispatch_state :
    {R : Type 0} (P : R → Type 0) (route : Bytes → Bytes → CallMode → R → Outcome (Bool × R))
    (protocol body : Option Bytes) (mode : CallMode) (b : Bool) (r r' : R)
    → ((protocol body : Bytes) (mode : CallMode) → route protocol body mode r ≡ done (b, r') → P r')
    → dispatch route protocol body mode r ≡ done (b, r')
    → P r'
unfolding dispatch
dispatch_state P route none body mode b r r' routed e = absurd cc
dispatch_state P route (some protocol) none mode b r r' routed e = absurd cc
dispatch_state P route (some protocol) (some body) mode b r r' routed e =
    routed protocol body mode e

module _ {a : Asio} where
  finish-Keeps :
      {R : Type 0} (route : Bytes → Bytes → CallMode → R → Outcome (Bool × R)) (c c' : Connection a)
      (o : Outcome (Bool × R)) (r' : R)
      → finish route c o ≡ done (c', r')
      → Finished c c'
  unfolding finish
  finish-Keeps route c c' (done (true, r)) r' e =
      let same : c ≡ c' = cc in rw⁻¹ same (Keeps-refl, refl)
  finish-Keeps route c c' (done (false, r)) r' e =
      let same : disconnect c ≡ c' = cc in rw⁻¹ same (disconnect-Keeps c)
  finish-Keeps route c c' waits r' e = cc
  finish-Keeps route c c' fault r' e = cc

  read_done-Keeps :
      {R : Type 0} (route : Bytes → Bytes → CallMode → R → Outcome (Bool × R)) (ec : Option String)
      (c c' : Connection a) (r r' : R)
      → read_done route ec c r ≡ done (c', r')
      → Finished c c'
  unfolding read_done
  read_done-Keeps route (some message) c c' r r' e =
      let same : disconnect c ≡ c' = cc in rw⁻¹ same (disconnect-Keeps c)
  read_done-Keeps route none c c' r r' e = finish-Keeps route c c' _ r' e

  on_body_after :
      {R : Type 0} (route : Bytes → Bytes → CallMode → R → Outcome (Bool × R)) (open_ : Bool)
      (ec : Option String) (c c' : Connection a) (r r' : R)
      → (if open_ then read_done route ec c r else done (c, r)) ≡ done (c', r')
      → Finished c c'
  on_body_after route true ec c c' r r' e = read_done-Keeps route ec c c' r r' e
  on_body_after route false ec c c' r r' e = let same : c ≡ c' = cc in rw⁻¹ same (Keeps-refl, refl)

  body_read-Keeps :
      (bytes : Bytes) (c : Connection a)
      → Keeps c (body_read bytes c) × ((body_read bytes c).pending ≡ nothing)
  unfolding stop_timer
  body_read-Keeps bytes c = ground arith

  -- However the body handler comes to its end, no read is under way then.
  pub on_body-Keeps :
      {R : Type 0} (route : Bytes → Bytes → CallMode → R → Outcome (Bool × R)) (ec : Option String)
      (bytes : Bytes) (c c' : Connection a) (r r' : R)
      → on_body route ec bytes c r ≡ done (c', r')
      → Keeps c c' × (c'.pending ≡ nothing)
  unfolding on_body read_done
  on_body-Keeps route ec bytes c c' r r' e =
      let (k₀, idle) = body_read-Keeps bytes c in
      let (k, same) = on_body_after route _ ec (body_read bytes c) c' r r' e in
      (Keeps-trans k₀ k, same ∙ idle)

  finish_state :
      {R : Type 0} (P : R → Type 0) (route : Bytes → Bytes → CallMode → R → Outcome (Bool × R))
      (c c' : Connection a) (o : Outcome (Bool × R)) (r' : R)
      → ((b : Bool) (r : R) → o ≡ done (b, r) → P r)
      → finish route c o ≡ done (c', r')
      → P r'
  unfolding finish
  finish_state P route c c' (done (true, r)) r' routed e =
      let same : r ≡ r' = cc in rw⁻¹ same (routed true r refl)
  finish_state P route c c' (done (false, r)) r' routed e =
      let same : r ≡ r' = cc in rw⁻¹ same (routed false r refl)
  finish_state P route c c' waits r' routed e = absurd cc
  finish_state P route c c' fault r' routed e = absurd cc

  -- The router's state changes as the router changes it, or not at all.
  pub on_body_state :
      {R : Type 0} (P : R → Type 0) (route : Bytes → Bytes → CallMode → R → Outcome (Bool × R))
      (ec : Option String) (bytes : Bytes) (c c' : Connection a) (r r' : R)
      → P r
      → ((protocol body : Bytes) (mode : CallMode) (b : Bool) (r' : R)
          → route protocol body mode r ≡ done (b, r')
          → P r')
      → on_body route ec bytes c r ≡ done (c', r')
      → P r'
  unfolding on_body read_done
  on_body_state {R} P route ec bytes c c' r r' kept routed e = by_socket _ ec (body_read bytes c) e
    where
      by_error :
          (ec : Option String) (c : Connection a) → read_done route ec c r ≡ done (c', r') → P r'
      by_error (some message) c e = let same : r ≡ r' = cc in rw⁻¹ same kept
      by_error none c e =
          finish_state P route c c' _ r'
            (λ b r'' d. dispatch_state P route _ _ _ b r r'' (λ p q m. routed p q m b r'') d) e

      by_socket :
          (open_ : Bool) (ec : Option String) (c : Connection a)
          → (if open_ then read_done route ec c r else done (c, r)) ≡ done (c', r')
          → P r'
      by_socket true ec c e = by_error ec c e
      by_socket false ec c e = let same : r ≡ r' = cc in rw⁻¹ same kept

  -- A read that fails ends the body handler without a call of the router.
  pub on_body_fails :
      {R : Type 0} (route : Bytes → Bytes → CallMode → R → Outcome (Bool × R)) (message : String)
      (bytes : Bytes) (c : Connection a) (r : R)
      → (c' : Connection a) × (on_body route (some message) bytes c r ≡ done (c', r))
  unfolding on_body read_done
  on_body_fails route message bytes c r = elim (Bool-cases (a.is_open (body_read bytes c).socket)) [
    | inl open_ ↦ (disconnect (body_read bytes c), rw open_)
    | inr shut ↦ (body_read bytes c, rw shut)
  ]
