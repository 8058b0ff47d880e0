-- ===== src/Lib.antt =====
-- Huasi is a server that gives HTTP access to the nodes of a ZWave network, and in part of an EnOcean
-- network. A client sends `GET /node/<id>` to read the parameters of a node and
-- `POST /node/<id>?name=value&...` to set them.
--
-- The parts of the program and their files here, with paths from the root of the repository:
--   * Cast.antt and Parameters.antt: src/cast.hpp and src/Parameters.cpp, texts for numbers and the
--     parameters of a node. `cast<D>(s)` is `to_integer` with the modulus of the unsigned type, and
--     `cast<std::string>(s)` is `to_text`; the accessors have their names in lower case.
--   * ZWave.antt: src/zwave. Request and Frame are the requests and the bytes of a frame, Protocol is
--     ZWaveProtocol, Classes, Fibaro and Command are the command classes, and Network is
--     ZWaveNetwork.
--   * EnOcean.antt: src/enocean. Crc is the checksum, Protocol is EnOceanProtocol, and Network is
--     EnOceanNetwork. Both protocols have a Port, which puts them on the one of Port.antt.
--   * Gateway.antt: src/Gateway.cpp. Codec has decodeQuery and encodeQuery, Query the loops over
--     arguments and parameters, Handler has onRequest, and Connection has onData and the callbacks of
--     src/http/HttpChannel.cpp before it; Connection.Clients has many connections on one network.
--   * Http.antt: src/http. Url is Url.hpp, Response and Headers are the two sides of HttpChannel, and
--     Client is what a client makes of an answer by the rules of HTTP/1.1.
--   * Channel.antt: src/Channel.cpp with the reference counts of src/Object.hpp, and in Wire the bytes
--     that its writes put on the socket.
--   * Port.antt: the serial port and the timer under both protocols, with what may fail and be late.
--   * Server.antt: src/Server.cpp, the acceptor over all its channels.
--   * Program.antt: src/main.cpp, its arguments, and the event loop over the network and the server.
--   * Pointer.antt: src/ptr.hpp over the reference counts of src/Object.hpp.
--   * Prelude.antt has what the others share, and Examples.antt cases at concrete inputs.
--
-- How they interact: a channel receives data, the HTTP parser calls the callbacks of Http.Headers,
-- and their last one calls the gateway. The gateway asks the network through the interface
-- `NetworkOps`, which Gateway.Handler.ZWaveOps fills with the ZWave network. The network hands requests
-- to the protocol, and the protocol calls the network through the record `Handlers` when a frame has
-- arrived.
--
-- Gateway.Connection puts together the parser, the callbacks and the gateway, and its Clients many
-- connections. Gateway.Handler.ZWaveOps.System puts the serial port and the gateway together, and
-- Program the port, the connections and the server. Line.antt is the abstract specification of the two
-- serial protocols: a line of requests.
--
-- How the state is modelled: an object is a record and a method a function from a state to a state.
-- What is written to the serial line and reported as an error is a log in the state. An asynchronous
-- operation is two things: the call that starts it, and an event that runs its handler. The steps of
-- the event loop are the data types `Step`, and `Reach` is any sequence of them. In Run of the two
-- protocols each handler of the timer runs as soon as its timer has run out, which `time_passes`
-- puts together, and no read fails; in Port the handler may be late and reads may fail. The field
-- `asked` of both protocols keeps what sendRequest got; the code has no such list. Channel has the
-- two steps too: `run_out` is the timer, which asio keeps, and `on_wait` its handler.
--
-- Bounds and fuel: numbers of the machine are natural numbers, and a result that the code cuts to one,
-- two or four bytes is cut by `%`. The loop over received bytes has one unit of fuel more than there
-- are bytes in the buffer; each round removes one at least. The loop that prints a number has as much
-- fuel as the number and one more; each round divides it by ten.
--
-- Not modelled: asio and the HTTP parser are other projects, their events and results are parameters
-- and steps. `atoi` is a parameter too. The output for debugging is left out, and what objects hold
-- besides counts of references is not freed with them. A byte behind the end of the receive buffer
-- reads as zero, and the flag `overrun` of the network records such a read.
pub mod Cast
pub mod Channel
pub mod EnOcean
pub mod Examples
pub mod Gateway
pub mod Http
pub mod Line
pub mod Parameters
pub mod Pointer
pub mod Port
pub mod Prelude
pub mod Program
pub mod Server
pub mod ZWave
