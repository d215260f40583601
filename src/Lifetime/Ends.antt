-- ===== src/Lifetime/Ends.antt =====
-- When a connection is destroyed, and when nothing more happens to it
-- (easyrpc/server/connection.hpp, the shared pointers).
use easyrpc.Prelude.{
  ℕ, zero, suc, ◌+◌, ◌≤◌, ◌≡◌, ◌≢◌, refl, sym, ap, ◌∙◌, ◌⊎◌, inl, inr, true, false, none, some, [],
  length, arith,
}
use easyrpc.Header.{ByteOrder}
use easyrpc.Asio.{Asio, AsioLaws}
use easyrpc.EasyPack.{EasyPack}
use easyrpc.Connection.{Pending, nothing, head_bytes, body_bytes, stop_timer, destroy}
use easyrpc.Connection.Head.{disconnect-closed}
use easyrpc.Connection.Owners.AfterBody.{on_body_fails}
use easyrpc.Lifetime.{
  Life, refused, verdict, Step, Steps, Rests, head_done, body_done, task_ends, raw_task_ends,
  task_dropped, wait_ends, destroyed, start, next, owners, readers,
}
use easyrpc.Lifetime.Callbacks.{rank, Step-Keeps, destroy-Finished}

-- Nothing runs on the connection, and nothing will.
pub record IsIdle {a : Asio} (l : Life a) : Type 0 where
  pub reads : l.conn.pending ≡ nothing
  pub tasks : l.tasks ≡ 0
  pub waits : l.waits ≡ 0

-- Destroyed, with no owner, and with its socket closed.
pub record IsGone {a : Asio} (l : Life a) : Type 0 where
  pub gone : l.is_destroyed ≡ true
  pub none_left : owners l ≡ 0
  pub closed : a.is_open l.conn.socket ≡ false

unowned_reads : (pending : Pending) → readers pending ≡ 0 → pending ≡ nothing
unfolding readers
unowned_reads nothing e = refl
unowned_reads (head_bytes n) e = absurd (omega arith)
unowned_reads (body_bytes n) e = absurd (omega arith)

pub no_callbacks : {a : Asio} (l : Life a) → owners l ≡ 0 → length l.conn.timer.func_vec ≡ 0
unfolding owners
no_callbacks l e = omega arith

pub rank_alive : {a : Asio} (l : Life a) → l.is_destroyed ≡ false → 1 ≤ rank l
unfolding rank
rank_alive l alive = rw alive omega arith

unowned-IsIdle : {a : Asio} (l : Life a) → owners l ≡ 0 → l.waits ≡ 0 → IsIdle l
unfolding owners
unowned-IsIdle l e unset = record {
  reads = unowned_reads l.conn.pending (omega arith);
  tasks = omega arith;
  waits = unset;
}

destroyed-IsGone :
    {a : Asio} (laws : AsioLaws a) (m : Life a)
    → owners m ≡ 0
    → IsGone (record m { conn = destroy m.conn; is_destroyed = true })
unfolding owners destroy
destroyed-IsGone laws m e =
    let (k, same) = destroy-Finished m.conn in
    record {
      gone = refl;
      none_left = rw (same, k.callbacks) e;
      closed = disconnect-closed laws (stop_timer m.conn);
    }

module _ {a : Asio} {p : EasyPack} {W : Type 0} (o : ByteOrder) where
  -- The callbacks of a life are those it began with, and each step takes one from its rank.
  pub Steps-Keeps :
      {l : Life a} {n : ℕ} {l' : Life a}
      → Steps p W o l n l'
      → (l'.conn.timer.func_vec ≡ l.conn.timer.func_vec) × (n + rank l' ≤ rank l)
  Steps-Keeps start = (refl, omega arith)
  Steps-Keeps (next {n} {m} {m'} steps step) =
      let (same, low) = Steps-Keeps steps in
      let (k, lower) = Step-Keeps o m m' step in (k.callbacks ∙ same, omega arith)

  pub Rests-IsIdle : (l : Life a) → Rests p W o l → IsIdle l
  Rests-IsIdle l rests = record {
    reads = reads l.conn.pending refl;
    tasks = tasks l.tasks refl;
    waits = waits l.waits refl;
  }
    where
      reads : (pending : Pending) → l.conn.pending ≡ pending → l.conn.pending ≡ nothing
      reads nothing e = e
      reads (head_bytes n) e = absurd (rests _ (head_done n none [] e))
      reads (body_bytes n) e =
          let (c, ended) = on_body_fails (verdict refused) "" [] l.conn l.tasks in
          absurd (rests _ (body_done n refused (some "") [] c l.tasks e ended))

      tasks : (n : ℕ) → l.tasks ≡ n → l.tasks ≡ 0
      tasks zero e = e
      tasks (suc n) e = absurd (rests _ (task_dropped n e))

      waits : (n : ℕ) → l.waits ≡ n → l.waits ≡ 0
      waits zero e = e
      waits (suc n) e = absurd (rests _ (wait_ends true n e))

  -- An idle connection takes no step but its destruction.
  pub IsIdle-Step :
      (l l' : Life a) → IsIdle l → Step p W o l l' → (owners l ≡ 0) × (l.is_destroyed ≡ false)
  IsIdle-Step l l' idle (head_done n ec bytes e) = absurd (cc (e, idle.reads))
  IsIdle-Step l l' idle (body_done n v ec bytes c tasks e ended) = absurd (cc (e, idle.reads))
  IsIdle-Step l l' idle (task_ends inv body w n e) = absurd (omega arith)
  IsIdle-Step l l' idle (raw_task_ends inv body w n e) = absurd (omega arith)
  IsIdle-Step l l' idle (task_dropped n e) = absurd (omega arith)
  IsIdle-Step l l' idle (wait_ends failed n e) = absurd (omega arith)
  IsIdle-Step l l' idle (destroyed none_ alive) = (none_, alive)

  -- A step destroys the connection, whose last owner is gone, or leaves it in memory or destroyed.
  Step-cases :
      (l l' : Life a)
      → Step p W o l l'
      → ((l'.is_destroyed ≡ l.is_destroyed) × (l'.waits ≤ l.waits))
        ⊎ ((owners l ≡ 0)
            × (l.is_destroyed ≡ false)
            × (l' ≡ record l { conn = destroy l.conn; is_destroyed = true }))
  Step-cases l l' (head_done n ec bytes e) = inl (refl, omega arith)
  Step-cases l l' (body_done n v ec bytes c tasks e ended) = inl (refl, omega arith)
  Step-cases l l' (task_ends inv body w n e) = inl (refl, omega arith)
  Step-cases l l' (raw_task_ends inv body w n e) = inl (refl, omega arith)
  Step-cases l l' (task_dropped n e) = inl (refl, omega arith)
  Step-cases l l' (wait_ends failed n e) = inl (refl, omega arith)
  Step-cases l l' (destroyed none_ alive) = inr (none_, alive, refl)

  -- A connection whose timer keeps a callback is not destroyed.
  pub kept_alive :
      {l : Life a} {n : ℕ} {l' : Life a}
      → length l.conn.timer.func_vec ≢ 0
      → l.is_destroyed ≡ false
      → Steps p W o l n l'
      → l'.is_destroyed ≡ false
  kept_alive bound alive start = alive
  kept_alive bound alive (next {n} {m} {m'} steps step) = elim (Step-cases m m' step) [
    | inl (same, _) ↦ same ∙ kept_alive bound alive steps
    | inr (none_, _, _) ↦
        absurd (bound (ap length (sym (Steps-Keeps steps).0) ∙ no_callbacks m none_))
  ]

  -- Without a timeout, no deadline is waited for, and a destroyed connection is left alone.
  pub left_in_memory :
      (laws : AsioLaws a) {l : Life a} {n : ℕ} {l' : Life a}
      → l.waits ≡ 0
      → l.is_destroyed ≡ false
      → Steps p W o l n l'
      → (l'.waits ≡ 0) × ((l'.is_destroyed ≡ false) ⊎ IsGone l')
  unfolding owners
  left_in_memory laws unset alive start = (unset, inl alive)
  left_in_memory laws unset alive (next {n} {m} {m'} steps step) =
      let (unset', before) = left_in_memory laws unset alive steps in
      after unset' before (Step-cases m m' step)
    where
      after :
          m.waits ≡ 0
          → (m.is_destroyed ≡ false) ⊎ IsGone m
          → ((m'.is_destroyed ≡ m.is_destroyed) × (m'.waits ≤ m.waits))
            ⊎ ((owners m ≡ 0)
                × (m.is_destroyed ≡ false)
                × (m' ≡ record m { conn = destroy m.conn; is_destroyed = true }))
          → (m'.waits ≡ 0) × ((m'.is_destroyed ≡ false) ⊎ IsGone m')
      after unset' (inl still) (inl (same, fewer)) = (omega arith, inl (same ∙ still))
      after unset' (inl still) (inr (none_, _, e)) =
          (rw e unset', inr (rw e (destroyed-IsGone laws m none_)))
      after unset' (inr gone) way =
          let (_, alive') = IsIdle-Step m m' (unowned-IsIdle m gone.none_left unset') step in
          absurd (cc (alive', gone.gone))
