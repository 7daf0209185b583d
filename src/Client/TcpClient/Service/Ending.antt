-- ===== src/Client/TcpClient/Service/Ending.antt =====
-- The service's thread of client_essential/TcpClient.hpp ends after the socket has been closed, so that
-- the destructor, which waits for it, returns.
use easy_voice_call.Base.{
  ℕ, ◌+◌, ◌<◌, ◌≡◌, ◌⊎◌, refl, ap, true, false, List, [], ◌∷◌, Option, none, some, arith, inl, inr,
  zero, suc, subst,
}
use easy_voice_call.Client.TcpClient.Service.{
  BoostAsioTcpClient, Reading, idle, connects, reads_header, reads_payload, Task, writes, closes,
  Turn, runs_task, completes_connect, completes_read, completes_write, step, run_posted, run_write,
  on_connecting, connected, on_read, can_read, header_read, payload_read, on_writing, can_write,
  written,
}
use easy_voice_call.Client.TcpClient.Service.Work.{work, Falls, Leads, step-Leads}

-- Nothing is posted, and no operation is in hand: the service's `run` returns.
pub record IsDone (s : BoostAsioTcpClient) : Type 0 where
  pub no_task : s.posted ≡ []
  pub no_read : s.reading ≡ idle
  pub no_write : s.client.writer.in_flight ≡ none

-- `run` returns, whichever handlers it runs and however their operations complete: it is done, or it
-- can run a handler, and it returns after any that it can run.
pub data Returns : BoostAsioTcpClient → Type 0 where
  at_once : (s : BoostAsioTcpClient) → IsDone s → Returns s
  goes_on :
      (s : BoostAsioTcpClient) (turn : Turn) (t : BoostAsioTcpClient)
      → step s turn ≡ some t
      → ((other : Turn) (u : BoostAsioTcpClient) → step s other ≡ some u → Returns u)
      → Returns s

-- A handler that can be run.
record Ready (s : BoostAsioTcpClient) : Type 0 where
  turn : Turn
  next : BoostAsioTcpClient
  made : step s turn ≡ some next

step-cases :
    (s : BoostAsioTcpClient) (tasks : List Task) (r : Reading) (o : Option (List ℕ))
    → s.posted ≡ tasks
    → s.reading ≡ r
    → s.client.writer.in_flight ≡ o
    → IsDone s ⊎ Ready s
unfolding step run_posted on_connecting on_read on_writing can_read can_write
step-cases s (closes ∷ tasks) r o e f g = inr (record {
  turn = runs_task;
  next = record s { socket_open = false; posted = tasks };
  made = ap (run_posted s) e;
})
step-cases s (writes msg ∷ tasks) r o e f g = inr (record {
  turn = runs_task;
  next = run_write (record s { posted = tasks }) msg;
  made = ap (run_posted s) e;
})
step-cases s [] (connects true) o e f g = inr (record {
  turn = completes_connect true;
  next = connected s true;
  made = ap (λ (q : Reading). on_connecting q s true) f;
})
step-cases s [] (connects false) o e f g = inr (record {
  turn = completes_connect true;
  next = connected s true;
  made = ap (λ (q : Reading). on_connecting q s true) f;
})
step-cases s [] (reads_header b) o e f g = inr (record {
  turn = completes_read none;
  next = header_read s none;
  made = ap (λ (q : Reading). on_read q s none) f;
})
step-cases s [] (reads_payload b) o e f g = inr (record {
  turn = completes_read none;
  next = payload_read s none;
  made = ap (λ (q : Reading). on_read q s none) f;
})
step-cases s [] idle (some bytes) e f g = inr (record {
  turn = completes_write (some 0);
  next = written s (some 0);
  made = ap (λ (q : Option (List ℕ)). on_writing q s (some 0)) g;
})
step-cases s [] idle none e f g = inl (record { no_task = e; no_read = f; no_write = g })

Leads-some :
    (s t : BoostAsioTcpClient) (o : Option BoostAsioTcpClient) → Leads s o → o ≡ some t → Falls s t
Leads-some s t o h e = subst (λ (q : Option BoostAsioTcpClient). Leads s q) e h

Returns-within : (n : ℕ) (s : BoostAsioTcpClient) → s.socket_open ≡ false → work s < n → Returns s
Returns-within zero s shut h = absurd (omega arith)
Returns-within (suc n) s shut h =
    elim (step-cases s s.posted s.reading s.client.writer.in_flight refl refl refl) [
      | inl over ↦ at_once s over
      | inr ready ↦ goes_on s ready.turn ready.next ready.made (λ other u e.
          let (still, less) = Leads-some s u (step s other) (step-Leads s other shut) e in
          Returns-within n u still (omega arith))
    ]

-- Once the task that the destructor posts has closed the socket, the service's thread ends, so that
-- the destructor returns: whatever is still posted and in hand, and in whichever order the handlers
-- run, some handler can be run until nothing is left, and that comes after finitely many.
pub closed-Returns :
    (s : BoostAsioTcpClient) (tasks : List Task)
    → s.posted ≡ closes ∷ tasks
    → (t : BoostAsioTcpClient) × (step s runs_task ≡ some t) × Returns t
unfolding step run_posted
closed-Returns s tasks e =
    let t : BoostAsioTcpClient = record s { socket_open = false; posted = tasks } in
    (t, ap (run_posted s) e, Returns-within (work t + 1) t refl (omega arith))
