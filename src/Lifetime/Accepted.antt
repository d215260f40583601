-- ===== src/Lifetime/Accepted.antt =====
-- The memory of a connection that the server has accepted (easyrpc/server/connection.hpp,
-- `start_timer` and the destructor; easyrpc/server/server.hpp, `accept`).
use easyrpc.Prelude.{
  ℕ, ◌≤◌, ◌≡◌, ◌≢◌, ◌↔◌, refl, ap, ◌∙◌, inl, inr, true, false, [], ◌∷◌, length, arith,
}
use easyrpc.Header.{ByteOrder}
use easyrpc.Asio.{Asio, AsioLaws}
use easyrpc.EasyPack.{EasyPack}
use easyrpc.Connection
use easyrpc.Connection.{Connection, disconnects}
use easyrpc.Connection.Owners.{pending_rank, start-binds}
use easyrpc.Server.{make_connection}
use easyrpc.Lifetime.{Life, Steps, Rests, destroyed, owners, readers, accepted}
use easyrpc.Lifetime.Callbacks.{rank}
use easyrpc.Lifetime.Ends.{
  IsIdle, Rests-IsIdle, IsIdle-Step, Steps-Keeps, kept_alive, left_in_memory, rank_alive,
  no_callbacks,
}

unowned : {a : Asio} (l : Life a) → IsIdle l → l.conn.timer.func_vec ≡ [] → owners l ≡ 0
unfolding owners readers
unowned l idle e = rw (idle.reads, idle.tasks, e)

module _ (a : Asio) (k : a.Socket) where
  callbacks_timed :
      (timeout_milli : ℕ)
      → timeout_milli ≢ 0
      → (accepted {a = a} timeout_milli k).conn.timer.func_vec ≡ disconnects ∷ []
  unfolding accepted make_connection
  callbacks_timed timeout_milli h =
      start-binds (record (make_connection timeout_milli) { socket = k }) h

  rank_timed : (timeout_milli : ℕ) → rank (accepted {a = a} timeout_milli k) ≤ 5
  unfolding accepted rank pending_rank Connection.start make_connection
  rank_timed timeout_milli = grind arith

  rank_untimed : rank (accepted {a = a} 0 k) ≤ 4
  unfolding accepted rank pending_rank Connection.start make_connection
  rank_untimed = grind arith

  callbacks_untimed : (accepted {a = a} 0 k).conn.timer.func_vec ≡ []
  unfolding accepted make_connection Connection.start
  callbacks_untimed = refl

  alive_accepted : (timeout_milli : ℕ) → (accepted {a = a} timeout_milli k).is_destroyed ≡ false
  unfolding accepted
  alive_accepted timeout_milli = refl

  unset_accepted : (accepted {a = a} 0 k).waits ≡ 0
  unfolding accepted
  unset_accepted = refl

-- If the timeout is not 0, a connection that the server has accepted takes at most four steps, and
-- it is never destroyed, since its timer keeps a callback with a pointer to it; it is left alone
-- exactly when no read is under way, no task holds it and no deadline is waited for.
pub timed_never_destroyed :
    {a : Asio} {p : EasyPack} {W : Type 0} (o : ByteOrder) (timeout_milli n : ℕ) (k : a.Socket)
    (l : Life a)
    → timeout_milli ≢ 0
    → Steps p W o (accepted timeout_milli k) n l
    → (n ≤ 4) × (l.is_destroyed ≡ false) × (Rests p W o l ↔ IsIdle l)
timed_never_destroyed {a} o timeout_milli n k l h steps =
    let (same, low) = Steps-Keeps o steps in
    let bound = ap length (callbacks_timed a k timeout_milli h) in
    let alive = kept_alive o (λ e. omega arith) (alive_accepted a k timeout_milli) steps in
    let few = rank_timed a k timeout_milli in
    let last = rank_alive l alive in
    let one : length l.conn.timer.func_vec ≡ 1 = ap length same ∙ bound in
    (
      omega arith,
      alive,
      (
        Rests-IsIdle o l,
        λ idle l' step.
            let (none_, _) = IsIdle-Step o l l' idle step in
            absurd (omega (arith, no_callbacks l none_)),
      ),
    )

-- If the timeout is 0, a connection that the server has accepted is destroyed and its socket is
-- closed once nothing more can happen to it, and this is after at most four steps.
pub untimed_destroyed :
    {a : Asio} {p : EasyPack} {W : Type 0} (laws : AsioLaws a) (o : ByteOrder) (n : ℕ)
    (k : a.Socket) (l : Life a)
    → Steps p W o (accepted 0 k) n l
    → Rests p W o l
    → (n ≤ 4) × (l.is_destroyed ≡ true) × (a.is_open l.conn.socket ≡ false)
untimed_destroyed {a} laws o n k l steps rests =
    let (same, low) = Steps-Keeps o steps in
    let few = rank_untimed a k in
    let no_owner = unowned l (Rests-IsIdle o l rests) (same ∙ callbacks_untimed a k) in
    let (_, ending) = left_in_memory o laws (unset_accepted a k) (alive_accepted a k 0) steps in
    elim ending [
      | inl alive ↦ absurd (rests _ (destroyed no_owner alive))
      | inr gone ↦ (omega arith, gone.gone, gone.closed)
    ]
