-- ===== src/Lifetime/Callbacks.antt =====
-- What a step of a connection's life leaves alone, and how many steps there are
-- (easyrpc/server/connection.hpp).
use easyrpc.Prelude.{
  ℕ, ◌+◌, ◌<◌, ◌≤◌, ◌≡◌, ap, ◌∙◌, inl, inr, Bool, Option, String, Bytes, arith, suc, if◌then◌else◌,
}
use easyrpc.Prelude.Exec.{Exec, Result-cases, try_catch, ◌>>=◌}
use easyrpc.Prelude.Outcome.{done}
use easyrpc.Header.{ByteOrder, CallMode}
use easyrpc.Asio.{Asio}
use easyrpc.EasyPack.{EasyPack}
use easyrpc.Connection
use easyrpc.Connection.{
  Connection, Pending, nothing, head_bytes, body_bytes, on_head, on_body, disconnect, stop_timer,
  destroy,
}
use easyrpc.Connection.Owners.{
  Keeps, Keeps-trans, Keeps-refl, Finished, pending_rank, on_head-Handled, deadline-Keeps,
  write-Keeps, disconnect-Keeps, stop_timer-Keeps,
}
use easyrpc.Router.Invoker.{
  InvokerFunction, InvokerFunctionRaw, Site, invoke, invoke_raw, on_conn, give_up, run_func_raw,
}
use easyrpc.Router.Invoker.Invoke.{result_of, conn-result_of, invoke-result_of, conn-run_func_raw}
use easyrpc.Connection.Owners.AfterBody.{on_body-Keeps, on_body_state}
use easyrpc.Lifetime.{
  Life, Verdict, refused, dropped, queued, verdict, Step, head_done, body_done, task_ends,
  raw_task_ends, task_dropped, wait_ends, destroyed,
}

-- The router adds a task at most.
verdict_adds :
    (v : Verdict) (protocol body : Bytes) (mode : CallMode) (n : ℕ) (b : Bool) (n' : ℕ)
    → verdict v protocol body mode n ≡ done (b, n')
    → n' ≤ suc n
unfolding verdict
verdict_adds refused protocol body mode n b n' e = let same : n ≡ n' = cc in omega arith
verdict_adds dropped protocol body mode n b n' e = let same : n ≡ n' = cc in omega arith
verdict_adds queued protocol body mode n b n' e = let same : suc n ≡ n' = cc in omega arith

module _ {a : Asio} where
  Finished-trans : {c d e : Connection a} → Finished c d → Finished d e → Finished c e
  Finished-trans (k, s) (k', s') = (Keeps-trans k k', s' ∙ s)

  same_conn : {W : Type 0} (s s' : Site a W) → s'.conn ≡ s.conn → Finished s.conn s'.conn
  same_conn s s' e = (
    record { timeout = ap (λ c. c.timeout_milli) e; callbacks = ap (λ c. c.timer.func_vec) e },
    ap (λ c. c.pending) e,
  )

  sent-Finished :
      {W : Type 0} (o : ByteOrder) (result : Bytes) (s : Site a W)
      → Finished s.conn (try_catch (on_conn (Connection.write o result)) give_up s).1.conn
  sent-Finished o result s =
      let (r, c) = Connection.write o result s.conn in
      elim (Result-cases r) [
        | inl (u, e) ↦ rw e (write-Keeps o result s.conn)
        | inr (x, e) ↦ rw e (Finished-trans (write-Keeps o result s.conn) (disconnect-Keeps c))
      ]

  -- A task that computes its result without touching the connection, and then sends it.
  answer-Finished :
      {W : Type 0} (o : ByteOrder) (m : Exec (Site a W) Bytes) (s : Site a W)
      → (m s).1.conn ≡ s.conn
      → Finished s.conn
          (try_catch (m >>= λ result. on_conn (Connection.write o result)) give_up s).1.conn
  answer-Finished o m s same =
      let (r, s') = m s in
      elim (Result-cases r) [
        | inl (result, e) ↦ rw e (Finished-trans (same_conn s s' same) (sent-Finished o result s'))
        | inr (x, e) ↦ rw e (Finished-trans (same_conn s s' same) (disconnect-Keeps s'.conn))
      ]

  invoke-Finished :
      {p : EasyPack} {W : Type 0} (o : ByteOrder) (inv : InvokerFunction p W) (body : Bytes)
      (s : Site a W)
      → Finished s.conn (invoke o inv body s).1.conn
  invoke-Finished o inv body s =
      rw (invoke-result_of o inv body s)
        (answer-Finished o (result_of inv body) s (conn-result_of inv body s))

  invoke_raw-Finished :
      {W : Type 0} (o : ByteOrder) (inv : InvokerFunctionRaw W) (body : Bytes) (s : Site a W)
      → Finished s.conn (invoke_raw o inv body s).1.conn
  unfolding invoke_raw
  invoke_raw-Finished o inv body s =
      answer-Finished o (run_func_raw inv.func body) s (conn-run_func_raw inv.func body s)

  pub destroy-Finished : (c : Connection a) → Finished c (destroy c)
  unfolding destroy
  destroy-Finished c = Finished-trans (stop_timer-Keeps c) (disconnect-Keeps (stop_timer c))

  -- The steps that a connection may still take, if none adds a callback.
  unfoldable pub rank : Life a → ℕ
  rank l = pending_rank l.conn.pending + (l.tasks + (l.waits + (if l.is_destroyed then 0 else 1)))

  on_body-tasks :
      (v : Verdict) (ec : Option String) (bytes : Bytes) (c c' : Connection a) (n n' : ℕ)
      → on_body (verdict v) ec bytes c n ≡ done (c', n')
      → n' ≤ suc n
  on_body-tasks v ec bytes c c' n n' e =
      on_body_state (λ k. k ≤ suc n) (verdict v) ec bytes c c' n n' (omega arith)
        (λ protocol body mode b k. verdict_adds v protocol body mode n b k) e

module _ {a : Asio} {p : EasyPack} {W : Type 0} where
  -- No step adds a callback or changes the timeout, and each brings the connection nearer to its
  -- end.
  pub Step-Keeps :
      (o : ByteOrder) (l l' : Life a) → Step p W o l l' → Keeps l.conn l'.conn × (rank l' < rank l)
  unfolding rank pending_rank
  Step-Keeps o l l' (head_done n ec bytes e) =
      let (k, low) = on_head-Handled o ec bytes l.conn in
      let before = ap pending_rank e in (k, omega arith)
  Step-Keeps o l l' (body_done n v ec bytes c tasks e ended) =
      let (k, idle) = on_body-Keeps (verdict v) ec bytes l.conn c l.tasks tasks ended in
      let few = on_body-tasks v ec bytes l.conn c l.tasks tasks ended in
      let before = ap pending_rank e in let after = ap pending_rank idle in (k, omega arith)
  Step-Keeps o l l' (task_ends inv body w n e) =
      let (k, same) = invoke-Finished o inv body (record { conn = l.conn; world = w }) in
      let after = ap pending_rank same in (k, omega arith)
  Step-Keeps o l l' (raw_task_ends inv body w n e) =
      let (k, same) = invoke_raw-Finished o inv body (record { conn = l.conn; world = w }) in
      let after = ap pending_rank same in (k, omega arith)
  Step-Keeps o l l' (task_dropped n e) = (Keeps-refl, rw e omega arith)
  Step-Keeps o l l' (wait_ends failed n e) =
      let (k, same) = deadline-Keeps failed l.conn in
      let after = ap pending_rank same in (k, omega arith)
  Step-Keeps o l l' (destroyed none_ alive) =
      let (k, same) = destroy-Finished l.conn in
      let after = ap pending_rank same in (k, rw alive omega arith)
