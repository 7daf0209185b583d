-- ===== src/Lib.antt =====
-- easy-voice-call: a self-hosted voice chat. Clients send the packets of include/NetPacket.hpp over UDP
-- or TCP to a server, which forwards what one says to all others.
--
-- The parts and the files that model them:
-- NetPacket: include/NetPacket.hpp, the packet of a 20-byte header and a payload as a list of bytes,
-- its constructors and accessors. NetPacket.Parse describes the wire format without buffers.
-- ReturnType: include/ReturnType.hpp.
-- Server.Main: server/Server.cpp, the command line.
-- Server.RawUdp: server/RawUdpServer.hpp and .cpp. The room is the ordered set of connections and the
-- counter; a datagram is one step, whose result is the list of datagrams sent. Server.Echo:
-- server/UdpServer.hpp, an echo server that is not started.
-- Server.Room: server/Room.hpp, join, leave and the handling of a message. Server.TcpSession:
-- server/TcpServer.hpp, the framing of a connection's input and the queue of its output, whose
-- asynchronous writes are steps of their own. Server.TcpServer: all sessions and the room together, as
-- one step relation of accepting, reading, and of writes that complete or fail.
-- Client.RawUdpClient: client_essential/net_engine/RawUdpClient.cpp. Client.TcpClient:
-- client_essential/TcpClient.hpp, in the same manner; Client.TcpClient.Service: its object and the
-- handlers of its io_service, from init to the destructor.
-- Audio: client_essential/audio_engine/, the peak meter (VolumeMeter), the recorded microphone (InStub,
-- and Pcm for its file), and the way from a received packet over the jitter buffer to the speaker
-- (Downstream), with the file that records what is played (Downstream.Dump).
-- Audio.VolumeMeter.Rms: client_essential/audio_engine/AudioVolumeMeter_RMS.hpp, which no client uses.
-- Audio.Fade, Audio.Codec and Audio.ZeroCrossingRate: Fade.hpp there, client_essential/OpusEnc.hpp and
-- OpusDec.hpp, and include/ZeroCrossingRate.hpp, which the program does not call. Audio.Endpoint: the
-- endpoints of client_essential/CallbackStyle*.hpp over PortAudio, for Android, and without a device.
-- Audio.Alsa: client_essential/Alsa.hpp, the blocking reads and writes of the sound card.
-- Android: client_android/app/src/main/cpp/Entry.cpp, what the Java side calls; Android.Worker
-- and Android.Call: Worker.cpp there, its init and what it has in common with the desktop's. The other
-- files of that folder are copies of include/ and client_essential/.
-- Cli: client_cli/Entry.cpp, main of the command-line client.
-- Worker.Setup, Worker.Voice and Worker.Call: client_essential/Worker.cpp, its init and syncStop, the
-- way from the microphone to a packet, and the phases of a call, whose trace is a list of actions.
-- Worker.Sound: the callback of the sound card in it, which joins microphone, network and speaker.
-- Desktop: client_qt5/mainwindow.cpp, what the widgets of the window show, and the events that other
-- threads post to it. Desktop.Settings: the file of its settings, and the configuration of the worker.
-- System.Speech joins constructor, server and client over UDP, System.Login a client's login,
-- System.Conversation a worker, the UDP server and the downstream processor of another client,
-- System.Stream a client that keeps speaking and one that listens over UDP,
-- System.TcpConversation two clients and the server over TCP, System.Duration the timer of a call and
-- the window, and System.Recording the dump file of a call and the recorded microphone.
-- Base holds what all share; Examples has the runs at concrete inputs.
--
-- The clients' Worker hands packets to a client, a client's packets reach the server's receive loop,
-- and the packets it forwards reach the Worker's callback, which hands them to the downstream processor.
--
-- Conventions. Fields of 16 and 32 bits are written out modulo 2^16 and 2^32, counters likewise. A
-- pointer is a number, by which the sets of shared pointers are ordered and compared. Clocks, the
-- allocator, and what sockets, other threads and, in System.Stream, the network do are arguments; the
-- other modules of System take each datagram as delivered. The read loops of TCP run on fuel;
-- one round a packet and one more is enough, and so is the length of the input plus one. All other
-- loops are recursion on a list, or on the number of polls in the source.
--
-- Not modelled: Boost.Asio beyond what its calls are handed and give back, Boost's lock-free queue
-- (an interface with laws and a list that meets them), its property tree and JSON files (the same), opus and the WebRTC filters (parameters),
-- floating-point arithmetic, log lines, Qt's drawing, PortAudio and AAudio themselves, and the profiler.
pub mod Base
pub mod ReturnType
pub mod NetPacket
pub mod Server
pub mod Client
pub mod Audio
pub mod Worker
pub mod System
pub mod Desktop
pub mod Cli
pub mod Android
pub mod Examples
