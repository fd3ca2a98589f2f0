-- ===== src/Sockets/Api.antt =====
-- The socket layer of the driver as the interface that the protocol clients take.
use wiznet_driver.Base.{true, some}
use wiznet_driver.Net.{Net}
use wiznet_driver.Driver.{World, Hal}
use wiznet_driver.Driver.Blocking.{Os}
use wiznet_driver.Sockets.Open
use wiznet_driver.Sockets.Transfer

abbrev pub driver_net : Hal → Os → Net
driver_net hal os = record {
  World = World;
  socket = Open.socket hal os;
  close = Open.close hal os;
  connect = λ sn addr port w. Open.connect hal os sn (some addr) port w;
  disconnect = Open.disconnect hal os;
  send = λ sn buf w. Transfer.send hal sn (some buf) w;
  sendto = λ sn buf addr port w. Transfer.sendto hal sn (some buf) (some addr) port w;
  receive = λ sn len w. Transfer.recv hal sn true len w;
  recvfrom = λ sn len w. Transfer.recvfrom hal sn true len w;
  status = Open.get_socket_status;
  tick = os.tick;
  delay = os.delay;
  rand = os.rand;
}
