-- ===== src/Connection/Owners.antt =====
-- What the methods of a connection leave alone, and which closures hold a shared pointer to it
-- (easyrpc/server/connection.hpp).
pub mod AfterBody
use easyrpc.Prelude.{
  ℕ, ◌≤◌, ◌≡◌, ◌≢◌, refl, ◌∙◌, inl, inr, Bool, true, Option, none, some, String, List, [], ◌∷◌,
  ◌++◌, Bytes, arith, Bool-cases,
}
use easyrpc.Header.{ByteOrder, request_of_bytes}
use easyrpc.Asio.{Asio}
use easyrpc.Timer.{run_all, on_wait}
use easyrpc.Connection.{
  Connection, Callback, Pending, nothing, head_bytes, body_bytes, disconnects, disconnect,
  stop_timer, start_timer, start, on_head, write, write_impl, run_callback, head_accepted,
}
use easyrpc.Connection.Deadline.{deadline}
use easyrpc.Connection.Head.{on_head_closed, on_head_failed, on_head_rejected, received}

-- How far a connection is from having read its request.
unfoldable pub pending_rank : Pending → ℕ
pending_rank nothing = 0
pending_rank (body_bytes n) = 2
pending_rank (head_bytes n) = 3

module _ {a : Asio} where
  -- The callbacks and the timeout stay as they are.
  pub record Keeps (c c' : Connection a) : Type 0 where
    pub timeout : c'.timeout_milli ≡ c.timeout_milli
    pub callbacks : c'.timer.func_vec ≡ c.timer.func_vec

  pub Keeps-trans : {c d e : Connection a} → Keeps c d → Keeps d e → Keeps c e
  Keeps-trans h k = record {
    timeout = k.timeout ∙ h.timeout;
    callbacks = k.callbacks ∙ h.callbacks;
  }

  pub disconnect-Keeps :
      (c : Connection a) → Keeps c (disconnect c) × ((disconnect c).pending ≡ c.pending)
  unfolding disconnect
  disconnect-Keeps c = ground arith

  pub stop_timer-Keeps :
      (c : Connection a) → Keeps c (stop_timer c) × ((stop_timer c).pending ≡ c.pending)
  unfolding stop_timer
  stop_timer-Keeps c = ground arith

  -- What a handler leaves of a connection: the callbacks as they were, and no head to read.
  abbrev pub Handled : Connection a → Connection a → Type 0
  Handled c c' = Keeps c c' × (pending_rank c'.pending ≤ 2)

  dropped-Handled : (c : Connection a) → c.pending ≡ nothing → Handled c (disconnect (stop_timer c))
  unfolding disconnect stop_timer pending_rank
  dropped-Handled c e = ground arith

  carried_over :
      {c c₀ c' : Connection a}
      → (c₀.timeout_milli ≡ c.timeout_milli) × (c₀.timer.func_vec ≡ c.timer.func_vec)
      → Handled c₀ c'
      → Handled c c'
  carried_over (e, f) (k, low) =
      (record { timeout = k.timeout ∙ e; callbacks = k.callbacks ∙ f }, low)

  read_body-Handled :
      (o : ByteOrder) (bytes : Bytes) (c : Connection a)
      → a.is_open c.socket ≡ true
      → head_accepted (request_of_bytes o bytes) ≡ true
      → Handled c (on_head o none bytes c)
  unfolding on_head pending_rank
  read_body-Handled o bytes c open_ accepted = rw (open_, accepted) ground arith

  pub on_head-Handled :
      (o : ByteOrder) (ec : Option String) (bytes : Bytes) (c : Connection a)
      → Handled c (on_head o ec bytes c)
  on_head-Handled o (some message) bytes c =
      rw (on_head_failed o message bytes c)
        (carried_over (refl, refl) (dropped-Handled (received bytes c) refl))
  on_head-Handled o none bytes c = elim (Bool-cases (a.is_open c.socket)) [
    | inr shut ↦
        rw (on_head_closed o none bytes c shut)
          (carried_over (refl, refl) (dropped-Handled (received bytes c) refl))
    | inl open_ ↦ elim (Bool-cases (head_accepted (request_of_bytes o bytes))) [
      | inl accepted ↦ read_body-Handled o bytes c open_ accepted
      | inr refused ↦
          rw (on_head_rejected o bytes c open_ refused)
            (carried_over (refl, refl) (dropped-Handled _ refl))
    ]
  ]

  pub write-Keeps :
      (o : ByteOrder) (body : Bytes) (c : Connection a)
      → Keeps c (write o body c).1 × ((write o body c).1.pending ≡ c.pending)
  unfolding write write_impl
  write-Keeps o body c = ground arith

  pub Keeps-refl : {c : Connection a} → Keeps c c
  Keeps-refl = record { timeout = refl; callbacks = refl }

  -- The callbacks, the timeout and the read that is under way stay as they are.
  abbrev pub Finished : Connection a → Connection a → Type 0
  Finished c c' = Keeps c c' × (c'.pending ≡ c.pending)

  run_all-Keeps :
      (fs : List Callback) (c : Connection a)
      → Keeps c (run_all run_callback fs c) × ((run_all run_callback fs c).pending ≡ c.pending)
  unfolding run_all run_callback
  run_all-Keeps [] c = (record { timeout = refl; callbacks = refl }, refl)
  run_all-Keeps (disconnects ∷ fs) c =
      let (k, e) = run_all-Keeps fs (disconnect c) in
      let (k₀, e₀) = disconnect-Keeps c in (Keeps-trans k₀ k, e ∙ e₀)

  pub deadline-Keeps :
      (failed : Bool) (c : Connection a)
      → Keeps c (deadline failed c) × ((deadline failed c).pending ≡ c.pending)
  unfolding on_wait
  deadline-Keeps failed c = ground (arith, run_all-Keeps c.timer.func_vec c)

  -- After `start`, the timer holds a closure with a pointer to the connection if there is a timeout.
  pub start-binds :
      (c : Connection a)
      → c.timeout_milli ≢ 0
      → (start c).timer.func_vec ≡ c.timer.func_vec ++ disconnects ∷ []
  unfolding start start_timer
  start-binds c h = ground arith
