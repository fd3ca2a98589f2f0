-- ===== src/Lib.antt =====
-- The WIZnet W5500 driver: a socket library for STM32 processors that reaches the W5500 Ethernet
-- chip over SPI with DMA, and four protocol clients on top of it. The development models the C and
-- C++ sources under Src and Inc.
--
-- The parts, from the bottom up:
-- - Queue (Inc/queue.hpp): the circular queue template, one function for each function of it.
--   Queue/Spec is the bounded double-ended list that it stands for, Queue/Valid the representation
--   invariant, Queue/Window the items as windows into the array, Queue/Refine the refinement.
--   Queue/PutBack is about an item that is taken and put back, and Queue/Front about the item at
--   the front.
-- - Memory: the memory that the driver reaches through pointers, by region and offset: the copies
--   of the registers, and the buffers of the application.
-- - Driver (Inc/w5500.hpp, Inc/w5500_macros.h, Src/w5500.cpp): the types and globals. A function
--   that changes globals takes and returns the record World. Encode has the generate...Cmd
--   functions, Engine dmaTXCompleteCallback, kickStartCommands and handleSPIFailure, Pending
--   sendPendingData and receivePendingData, Complete dmaRXCompleteCallback, Isr the interrupt and
--   timer callbacks, Blocking enqueueSetReg, enqueueGetReg and the poll loops, Hardware
--   setWiznetHardware, Init initWizchip, Buffers getTXBufferIndex and getRXBufferIndex. Names are
--   those of the code in snake case. Engine/Keeps says which properties the engine keeps whatever
--   it does, Engine/Refused is about failing transfers, Engine/Started about the transfer that a
--   command starts, Isr/Exchange, Ended, Drained and Pushed about the command queue as it is
--   worked off, Buffers/Layout, Placed and Queued about the places of segments, and Sound about
--   the invariant of the whole state, with Isr/Invariant for the interrupts. The invariant has a
--   bound: indices of the buffers are int16_t, and only in buffers of less than 2^15 bytes is
--   every negative index the -1 that says that there is no room. Init/Queued is about the settings
--   that initWizchip makes.
-- - Net (Inc/socket.h): the interface of the socket functions, as a record. The clients are
--   written against any such record.
-- - Sockets (Src/socket.cpp): the socket functions. Sockets/Api makes the record Net of them.
--   Sockets/Reachable is the step relation of the interrupts and the socket functions; its
--   IsCareful says which runs keep segments apart. Sockets/Transfer/Sent is about what send
--   queues, Received and Output about what recv returns, and Datagrams and Unpacked about the
--   datagrams that recvfrom takes.
-- - Udp (Src/udp_client.c), Dns (Src/dns_client.c), Ntp (Src/ntp_client.c) and WebSocket
--   (Src/websocket_client.c): the clients. A client's globals are a record Client. An error code
--   is a constructor (in WebSocket the C function's number), and the Text module of a client has
--   its table of error texts. WebSocket/Handshake has the request and the test of the answer,
--   WebSocket/Client/Connect has ws_client_connect. WebSocket/Frame/Server is the description of a
--   server's frames, and WebSocket/Client/Frames and Control are about what the client does with
--   them. Ntp/Client/Answered and Concluded are about the exchange with the time server,
--   Dns/Client/Retry about the one with the name server, and Dns/Client/Answered, Concluded,
--   Prompt, Resolved and Lookups about what a lookup returns. Udp/Queued and
--   WebSocket/Client/Queued are about clients over the driver's own socket layer.
--   Dns/Name/Reference is the description of host names that the validation is compared with.
-- - Base: shared names, tests, lists, bits, integers and characters.
--
-- How the parts interact: a socket function pushes commands to the command queue. The first push
-- to the empty queue calls kickStartCommands, which starts a DMA transfer; the end of each
-- transfer is an interrupt, which works on the received bytes, pops the next command and starts
-- its transfer. Isr has the interrupts as a data type, and handle_all runs a sequence of them.
-- What the code takes from outside is a parameter: the record Hal says which starts of transfers
-- the HAL accepts and what uninitialised commands hold, the record Os gives the clock and random
-- numbers.
--
-- Numbers are natural numbers, with the wrap-around of the C types written out. A C string is the
-- list of its characters before the NUL, and a null pointer is none. A critical section is one
-- step, since nothing may interrupt it.
--
-- Bounds and fuel: the loop of the name decoder takes as many rounds between two jumps as the
-- packet has bytes, and 10 jumps, as in the code; the name skipper takes as many rounds as the
-- packet has bytes. The wait for an answer takes as many rounds as the timeout has milliseconds,
-- since every round waits for some; Ntp/Client/Waited shows that they are enough. The loops over
-- attempts take fuel from the caller, and none is the result of a loop that has not ended. A poll
-- loop takes as many rounds as its timeout has milliseconds, and the wait for the answer to the
-- handshake 6000 rounds, one for each millisecond. Numbers in the text of the handshake have at
-- most 5 digits, as a port has. recv takes as many rounds as segments are queued. The calls of
-- dmaTXCompleteCallback through the queue's callback take depth 1.
--
-- Not modelled: the declarations of Inc/w5500_driver.h, and those constants of Inc/w5500_macros.h,
-- the register header of the chip's maker, that no function uses. The HAL's handles are numbers,
-- and its functions are calls in a list. Pointers have 32 bits where an index before a buffer's
-- start is added to them, and are otherwise offsets without a bound. What an interrupt writes to a
-- client's event flags while ws_client_connect waits is not followed. The peculiarities of memory
-- behind the C pointers that no function of the code relies on, such as padding, are left out. A
-- ping of more than 58 bytes, whose answer does not fit the 64 bytes of ws_tx_temp, is answered
-- here as if it did, and the NUL that ws_client_connect writes behind an answer of 2048 bytes is
-- not written.
pub mod Base
pub mod Queue
pub mod Memory
pub mod Net
pub mod Driver
pub mod Sockets
pub mod Dns
pub mod Ntp
pub mod Udp
pub mod WebSocket
