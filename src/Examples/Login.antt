-- ===== src/Examples/Login.antt =====
-- The login of a client at the UDP server, at a concrete input.
use easy_voice_call.Base.{refl, arith, false, true}
use easy_voice_call.NetPacket.{new, login_request}
use easy_voice_call.Server.RawUdp.{Arrival, on_datagram}
use easy_voice_call.System.Login.{LoggedIn, login-LoggedIn}
use easy_voice_call.Examples.Speech.{version, room, arrival, room-Distinct}

abbrev login : Arrival
login = record arrival { datagram = (new version login_request 0 20).whole_packet }

login-LoggedIn_example :
    LoggedIn version version 9 true login (on_datagram version false room login)
login-LoggedIn_example =
    login-LoggedIn version version 9 true false 20 room login (omega arith) (omega arith)
      (omega arith) (omega arith) refl refl room-Distinct (omega arith)
