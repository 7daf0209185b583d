-- ===== src/Client/TcpClient/Service/Work.antt =====
-- How much the service's thread of client_essential/TcpClient.hpp has left to do, and that a turn on a
-- closed socket leaves less.
use easy_voice_call.Base.{
  ℕ, ◌+◌, ◌≤◌, ◌<◌, ◌≡◌, ◌⊎◌, refl, if◌then◌else◌, Bool, true, false, List, [], ◌∷◌, Option, none,
  some, arith, inl, inr,
}
use easy_voice_call.NetPacket.{NetPacket, fix_header_length, payload_length}
use easy_voice_call.Server.TcpSession.{Writer}
use easy_voice_call.Client.TcpClient.{write, on_written, on_write_error, on_connect}
use easy_voice_call.Client.TcpClient.Service.{
  BoostAsioTcpClient, Reading, idle, connects, reads_header, reads_payload, Task, writes, closes,
  Turn, runs_task, completes_connect, completes_read, completes_write, step, run_posted, run_write,
  on_connecting, connected, on_read, can_read, header_read, payload_read, on_writing, can_write,
  written, close_socket,
}

-- How many handlers an operation may still cause: one that began on a closed socket fails, and one that
-- began on an open socket may start another one.
weight : Bool → ℕ
weight true = 2
weight false = 1

reading_work : Reading → ℕ
unfolding weight
reading_work idle = 0
reading_work (connects o) = weight o
reading_work (reads_header o) = weight o
reading_work (reads_payload o) = weight o

writing_work : Option (List ℕ) → Bool → ℕ
unfolding weight
writing_work none o = 0
writing_work (some bytes) o = weight o

posted_work : List Task → ℕ
posted_work [] = 0
posted_work (writes msg ∷ tasks) = 2 + posted_work tasks
posted_work (closes ∷ tasks) = 1 + posted_work tasks

-- The handlers that the service has or may get: 0 exactly when it has none, and its `run` returns.
pub work : BoostAsioTcpClient → ℕ
unfolding reading_work writing_work posted_work
work s =
    posted_work s.posted
    + reading_work s.reading
    + writing_work s.client.writer.in_flight s.write_began_open

-- A turn that leaves the socket closed and less to do.
abbrev pub Falls : BoostAsioTcpClient → BoostAsioTcpClient → Type 0
Falls s t = (t.socket_open ≡ false) × (work t < work s)

closed_work : (o : Option (List ℕ)) → writing_work o false ≤ 1
unfolding writing_work weight
closed_work none = omega arith
closed_work (some bytes) = omega arith

abbrev began : List NetPacket → Bool → Bool
began [] b = false
began (x ∷ xs) b = b

write-work :
    (w : Writer) (msg : NetPacket) (b : Bool) (q : List NetPacket)
    → w.write_msgs ≡ q
    → writing_work (write w msg).in_flight (began q b) ≤ writing_work w.in_flight b + 1
unfolding write
write-work w msg b [] e = omega (arith, closed_work (write w msg).in_flight)
write-work w msg b (x ∷ xs) e = rw e (omega arith)

run_write-Falls :
    (s : BoostAsioTcpClient) (msg : NetPacket)
    → s.socket_open ≡ false
    → ((run_write s msg).socket_open ≡ false) × (work (run_write s msg) ≤ work s + 1)
unfolding run_write work
run_write-Falls s msg shut =
    ground
      (arith, write-work s.client.writer msg s.write_began_open s.client.writer.write_msgs refl)

-- Where a turn can be made, it falls.
abbrev pub Leads : BoostAsioTcpClient → Option BoostAsioTcpClient → Type 0
Leads s none = Unit {0}
Leads s (some t) = Falls s t

if-Leads :
    (s : BoostAsioTcpClient) (b : Bool) (o : Option BoostAsioTcpClient)
    → (b ≡ true → Leads s o)
    → Leads s (if b then o else none)
if-Leads s true o h = h refl
if-Leads s false o h = tt

task-Leads :
    (s : BoostAsioTcpClient) (tasks : List Task)
    → s.socket_open ≡ false
    → s.posted ≡ tasks
    → Leads s (run_posted s tasks)
unfolding run_posted work posted_work
task-Leads s [] shut p = tt
task-Leads s (closes ∷ tasks) shut p = rw p (refl, omega arith)
task-Leads s (writes msg ∷ tasks) shut p =
    let later = run_write-Falls (record s { posted = tasks }) msg shut in
    (later.0, rw p (omega (arith, later.1)))

connect-Leads :
    (s : BoostAsioTcpClient) (r : Reading) (failed : Bool)
    → s.socket_open ≡ false
    → s.reading ≡ r
    → Leads s (on_connecting r s failed)
unfolding on_connecting connected close_socket on_connect work reading_work weight
connect-Leads s (connects true) true shut e = rw e (refl, omega arith)
connect-Leads s (connects false) true shut e = rw e (refl, omega arith)
connect-Leads s (connects true) false shut e = rw (e, shut) (refl, omega arith)
connect-Leads s (connects false) false shut e = tt
connect-Leads s idle failed shut e = tt
connect-Leads s (reads_header o) failed shut e = tt
connect-Leads s (reads_payload o) failed shut e = tt

header-Falls :
    (s : BoostAsioTcpClient) (result : Option (List ℕ)) (o : Bool)
    → s.socket_open ≡ false
    → s.reading ≡ reads_header o
    → (o ≡ true) ⊎ (result ≡ none)
    → Falls s (header_read s result)
unfolding header_read close_socket work reading_work weight
header-Falls s none true shut e h = rw e (refl, omega arith)
header-Falls s none false shut e h = rw e (refl, omega arith)
header-Falls s (some bytes) true shut e h = rw (e, shut) (ground arith)
header-Falls s (some bytes) false shut e h = ground arith

payload-Falls :
    (s : BoostAsioTcpClient) (result : Option (List ℕ)) (o : Bool)
    → s.socket_open ≡ false
    → s.reading ≡ reads_payload o
    → (o ≡ true) ⊎ (result ≡ none)
    → Falls s (payload_read s result)
unfolding payload_read close_socket work reading_work weight
payload-Falls s none true shut e h = rw e (refl, omega arith)
payload-Falls s none false shut e h = rw e (refl, omega arith)
payload-Falls s (some bytes) true shut e h = rw (e, shut) (refl, omega arith)
payload-Falls s (some bytes) false shut e h = ground arith

can_read-fresh :
    (o : Bool) (wanted : ℕ) (result : Option (List ℕ))
    → can_read o wanted result ≡ true
    → (o ≡ true) ⊎ (result ≡ none)
unfolding can_read
can_read-fresh true wanted result h = inl refl
can_read-fresh false wanted none h = inr refl
can_read-fresh false wanted (some bytes) h = cc

read-Leads :
    (s : BoostAsioTcpClient) (r : Reading) (result : Option (List ℕ))
    → s.socket_open ≡ false
    → s.reading ≡ r
    → Leads s (on_read r s result)
unfolding on_read
read-Leads s idle result shut e = tt
read-Leads s (connects o) result shut e = tt
read-Leads s (reads_header o) result shut e =
    if-Leads s (can_read o fix_header_length result) (some (header_read s result))
      (λ h. header-Falls s result o shut e (can_read-fresh o fix_header_length result h))
read-Leads s (reads_payload o) result shut e =
    if-Leads s (can_read o (payload_length s.read_msg) result) (some (payload_read s result))
      (λ h. payload-Falls s result o shut e (can_read-fresh o (payload_length s.read_msg) result h))

write-Falls :
    (s : BoostAsioTcpClient) (bytes : List ℕ) (result : Option ℕ)
    → s.socket_open ≡ false
    → s.client.writer.in_flight ≡ some bytes
    → can_write s.write_began_open result ≡ true
    → Falls s (written s result)
unfolding written on_write_error can_write work writing_work weight
write-Falls s bytes none shut e h =
    let old : writing_work s.client.writer.in_flight s.write_began_open ≡ 2 = rw (e, h) refl in
    let more : writing_work (on_written s.client.writer).in_flight s.socket_open ≤ 1 =
      rw shut (closed_work (on_written s.client.writer).in_flight) in
    (shut, omega (arith, old, more))
write-Falls s bytes (some n) shut e h = rw e (refl, ground arith)

write-Leads :
    (s : BoostAsioTcpClient) (o : Option (List ℕ)) (result : Option ℕ)
    → s.socket_open ≡ false
    → s.client.writer.in_flight ≡ o
    → Leads s (on_writing o s result)
unfolding on_writing
write-Leads s none result shut e = tt
write-Leads s (some bytes) result shut e =
    if-Leads s (can_write s.write_began_open result) (some (written s result))
      (λ h. write-Falls s bytes result shut e h)

pub step-Leads :
    (s : BoostAsioTcpClient) (turn : Turn) → s.socket_open ≡ false → Leads s (step s turn)
unfolding step
step-Leads s runs_task shut = task-Leads s s.posted shut refl
step-Leads s (completes_connect failed) shut = connect-Leads s s.reading failed shut refl
step-Leads s (completes_read result) shut = read-Leads s s.reading result shut refl
step-Leads s (completes_write result) shut =
    write-Leads s s.client.writer.in_flight result shut refl
