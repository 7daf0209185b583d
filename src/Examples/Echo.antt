-- ===== src/Examples/Echo.antt =====
-- The echo server at a concrete input: a datagram, an error, and a shorter datagram.
use easy_voice_call.Base.{ℕ, ◌≡◌, List, [], ◌∷◌, replicate, length-replicate, true, false}
use easy_voice_call.Server.RawUdp.{Endpoint}
use easy_voice_call.Server.Echo.{Arrival, UdpServer, run, run-echoes}

abbrev alice : Endpoint
alice = record { address = 10; port = 4000 }

abbrev bob : Endpoint
bob = record { address = 11; port = 4000 }

abbrev started : UdpServer
started = record { sender_endpoint = alice; data_buffer = replicate 1024 0 }

abbrev arrivals : List Arrival
arrivals =
    record { failed = false; sender = alice; datagram = 1 ∷ 2 ∷ 3 ∷ [] }
    ∷ record { failed = true; sender = bob; datagram = [] }
    ∷ record { failed = false; sender = bob; datagram = 4 ∷ [] }
    ∷ []

run-echoes_example :
    run started arrivals
    ≡ record { to = alice; bytes = 1 ∷ 2 ∷ 3 ∷ [] } ∷ record { to = bob; bytes = 4 ∷ [] } ∷ []
run-echoes_example = run-echoes started arrivals (length-replicate {A = ℕ} 1024 0)
