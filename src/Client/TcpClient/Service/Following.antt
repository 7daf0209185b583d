-- ===== src/Client/TcpClient/Service/Following.antt =====
-- A turn of the service's thread of client_essential/TcpClient.hpp goes on with the chain of its reads.
use easy_voice_call.Base.{
  ℕ, suc, ◌≡◌, ◌⊎◌, refl, ap, sym, ◌∙◌, Bool, true, false, List, [], ◌∷◌, ◌++◌, Option, none, some,
  length, if◌then◌else◌, arith, memcpy, append_assoc, inl, inr,
}
use easy_voice_call.NetPacket.{NetPacket, fix_header_length, check_header, payload_length}
use easy_voice_call.Client.TcpClient.Service.{
  BoostAsioTcpClient, Reading, idle, connects, reads_header, reads_payload, Task, writes, closes,
  Turn, runs_task, completes_connect, completes_read, completes_write, step, run_posted, run_write,
  on_connecting, connected, on_read, can_read, header_read, payload_read, on_writing, can_write,
  written, close_socket,
}
use easy_voice_call.Client.TcpClient.Service.Chain.{
  prepend, after_payload, loop, read_loop-round, read_loop-suc, loop-suc, header_bytes,
  payload_bytes,
}

abbrev pub bytes_of : Turn → List ℕ
bytes_of (completes_read (some bytes)) = bytes
bytes_of _ = []

-- What is read from `u` on continues what is read from `s` on.
abbrev pub Continues : BoostAsioTcpClient → List ℕ → BoostAsioTcpClient → Type 0
Continues s bytes u =
    (fuel : ℕ) (rest : List ℕ) (ps : List NetPacket)
    → loop u.reading fuel u.read_msg rest ≡ some ps
    → (qs : List NetPacket) × (loop s.reading (suc fuel) s.read_msg (bytes ++ rest) ≡ some qs)
      × (u.received ++ ps ≡ s.received ++ qs)

-- Where a turn can be made, the client stops reading or goes on with it.
abbrev pub Follows : BoostAsioTcpClient → List ℕ → Option BoostAsioTcpClient → Type 0
Follows s bytes none = Unit {0}
Follows s bytes (some u) = (u.reading ≡ idle) ⊎ Continues s bytes u

if-Follows :
    (s : BoostAsioTcpClient) (bytes : List ℕ) (b : Bool) (o : Option BoostAsioTcpClient)
    → (b ≡ true → Follows s bytes o)
    → Follows s bytes (if b then o else none)
if-Follows s bytes true o h = h refl
if-Follows s bytes false o h = tt

-- A turn that leaves what is read alone.
same-Continues :
    (s u : BoostAsioTcpClient)
    → u.reading ≡ s.reading
    → u.read_msg ≡ s.read_msg
    → u.received ≡ s.received
    → Continues s [] u
same-Continues s u e f g fuel rest ps read = (
  ps,
  loop-suc s.reading fuel s.read_msg rest ps (
      ap (λ (r : Reading). loop r fuel s.read_msg rest) (sym e)
      ∙ ap (λ (m : NetPacket). loop u.reading fuel m rest) (sym f)
      ∙ read),
  ap (λ (r : List NetPacket). r ++ ps) g,
)

task-Follows : (s : BoostAsioTcpClient) (tasks : List Task) → Follows s [] (run_posted s tasks)
unfolding run_posted run_write
task-Follows s [] = tt
task-Follows s (closes ∷ tasks) =
    inr (same-Continues s (record s { socket_open = false; posted = tasks }) refl refl refl)
task-Follows s (writes msg ∷ tasks) =
    inr (same-Continues s (run_write (record s { posted = tasks }) msg) refl refl refl)

connect-Follows :
    (s : BoostAsioTcpClient) (r : Reading) (failed : Bool)
    → s.reading ≡ r
    → Follows s [] (on_connecting r s failed)
unfolding on_connecting connected close_socket loop
connect-Follows s (connects true) true e = inl refl
connect-Follows s (connects false) true e = inl refl
connect-Follows s (connects true) false e = inr (λ fuel rest ps read. (
  ps,
  ap (λ (r : Reading). loop r (suc fuel) s.read_msg rest) e
      ∙ read_loop-suc fuel s.read_msg rest ps read,
  refl,
))
connect-Follows s (connects false) false e = tt
connect-Follows s idle failed e = tt
connect-Follows s (reads_header o) failed e = tt
connect-Follows s (reads_payload o) failed e = tt

can_read-length :
    (o : Bool) (wanted : ℕ) (bytes : List ℕ)
    → can_read o wanted (some bytes) ≡ true
    → length bytes ≡ wanted
unfolding can_read
can_read-length o wanted bytes h = ground arith

header-Follows :
    (s : BoostAsioTcpClient) (o : Bool) (bytes : List ℕ)
    → s.reading ≡ reads_header o
    → length bytes ≡ fix_header_length
    → Continues s bytes (header_read s (some bytes))
unfolding header_read check_header loop
header-Follows s o bytes e whole fuel rest ps read = (
  ps,
  ap (λ (r : Reading). loop r (suc fuel) s.read_msg (bytes ++ rest)) e
      ∙ read_loop-round fuel s.read_msg (bytes ++ rest)
      ∙ ap (after_payload fuel) (header_bytes s.read_msg bytes rest whole)
      ∙ read,
  refl,
)

payload-Follows :
    (s : BoostAsioTcpClient) (o : Bool) (bytes : List ℕ)
    → s.reading ≡ reads_payload o
    → length bytes ≡ payload_length s.read_msg
    → Continues s bytes (payload_read s (some bytes))
unfolding payload_read loop
payload-Follows s o bytes e whole fuel rest ps read =
    let msg : NetPacket = record {
      whole_packet = memcpy s.read_msg.whole_packet fix_header_length bytes;
    } in
    (
      msg ∷ ps,
      ap (λ (r : Reading). loop r (suc fuel) s.read_msg (bytes ++ rest)) e
          ∙ ap (after_payload (suc fuel)) (payload_bytes s.read_msg bytes rest whole)
          ∙ ap (prepend msg) (read_loop-suc fuel msg rest ps read),
      append_assoc s.received (msg ∷ []) ps,
    )

read-Follows :
    (s : BoostAsioTcpClient) (r : Reading) (result : Option (List ℕ))
    → s.reading ≡ r
    → Follows s (bytes_of (completes_read result)) (on_read r s result)
unfolding on_read
read-Follows s idle none e = tt
read-Follows s idle (some bytes) e = tt
read-Follows s (connects o) none e = tt
read-Follows s (connects o) (some bytes) e = tt
read-Follows s (reads_header o) none e =
    if-Follows s [] (can_read o fix_header_length none) (some (header_read s none))
      (λ h. inl (unfold header_read close_socket in refl))
read-Follows s (reads_header o) (some bytes) e =
    if-Follows s bytes (can_read o fix_header_length (some bytes))
      (some (header_read s (some bytes)))
      (λ h. inr (header-Follows s o bytes e (can_read-length o fix_header_length bytes h)))
read-Follows s (reads_payload o) none e =
    if-Follows s [] (can_read o (payload_length s.read_msg) none) (some (payload_read s none))
      (λ h. inl (unfold payload_read close_socket in refl))
read-Follows s (reads_payload o) (some bytes) e =
    if-Follows s bytes (can_read o (payload_length s.read_msg) (some bytes))
      (some (payload_read s (some bytes)))
      (λ h.
        inr (payload-Follows s o bytes e (can_read-length o (payload_length s.read_msg) bytes h)))

write-Follows :
    (s : BoostAsioTcpClient) (o : Option (List ℕ)) (result : Option ℕ)
    → Follows s [] (on_writing o s result)
unfolding on_writing written
write-Follows s none result = tt
write-Follows s (some bytes) none =
    if-Follows s [] (can_write s.write_began_open none) (some (written s none))
      (λ h. inr (same-Continues s (written s none) refl refl refl))
write-Follows s (some bytes) (some n) =
    if-Follows s [] (can_write s.write_began_open (some n)) (some (written s (some n)))
      (λ h. inr (same-Continues s (written s (some n)) refl refl refl))

pub step-Follows : (s : BoostAsioTcpClient) (turn : Turn) → Follows s (bytes_of turn) (step s turn)
unfolding step
step-Follows s runs_task = task-Follows s s.posted
step-Follows s (completes_connect failed) = connect-Follows s s.reading failed refl
step-Follows s (completes_read none) = read-Follows s s.reading none refl
step-Follows s (completes_read (some bytes)) = read-Follows s s.reading (some bytes) refl
step-Follows s (completes_write result) = write-Follows s s.client.writer.in_flight result

-- A client that reads no more stays so.
abbrev pub Idle : Option BoostAsioTcpClient → Type 0
Idle none = Unit {0}
Idle (some u) = u.reading ≡ idle

if-Idle : (b : Bool) (o : Option BoostAsioTcpClient) → Idle o → Idle (if b then o else none)
if-Idle true o h = h
if-Idle false o h = tt

pub step-Idle : (s : BoostAsioTcpClient) (turn : Turn) → s.reading ≡ idle → Idle (step s turn)
unfolding step
step-Idle s runs_task e = task s.posted
  where
    task : (tasks : List Task) → Idle (run_posted s tasks)
    task [] = tt
    task (closes ∷ tasks) = unfold run_posted in e
    task (writes msg ∷ tasks) = unfold run_posted run_write in e
step-Idle s (completes_connect failed) e = rw (e, on_connecting) tt
step-Idle s (completes_read result) e = rw (e, on_read) tt
step-Idle s (completes_write result) e = write s.client.writer.in_flight result
  where
    write : (o : Option (List ℕ)) (result : Option ℕ) → Idle (on_writing o s result)
    write none result = tt
    write (some bytes) none =
        if-Idle s.write_began_open (some (written s none)) (unfold written in e)
    write (some bytes) (some n) = e
