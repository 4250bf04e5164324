-- ===== src/Lib.antt =====
-- Greybus for Zephyr: a device that speaks the Greybus protocol, as a node, or as the bridge and SVC
-- between an AP and nodes. The model covers the path of a message through the firmware: framing on a
-- serial line, allocation, the receive queue, the protocol handlers, and the routing between interfaces.
--
-- Parts, and the files that model them (paths are the repository's):
--   Hdlc         subsys/greybus/transport/hdlc: the driver's state is a record, each received byte a step;
--                frames delivered and bytes sent are logs. Hdlc/Crc.antt has the checksum as a function.
--   Uart         subsys/greybus/transport/uart.c: a message in a frame, and a frame back to a message.
--   Tcpip        subsys/greybus/transport/tcpip.c: messages over a TCP connection, whose reads and writes
--                are cut up by the network; Tcpip/Rounds.antt the rounds of the receiving thread.
--   I2cTarget    subsys/greybus/transport/i2c.c: messages out of the bytes that a bus controller writes.
--   Messages     subsys/greybus/greybus_messages.c and include/greybus/greybus_messages.h: allocation,
--                replies, copies; Messages/Ids.antt the operation ids, Messages/Interleaving.antt two
--                threads that take ids, one atomic operation at a time; Messages/Wire.antt how messages follow one
--                another on a transport, Messages/Received.antt what a receiver makes of one.
--   Transport    subsys/greybus/greybus_transport.h and .c: sending and answering. A handler returns the
--                list of its effects: messages sent, messages freed, driver calls; Transport/Stateful.antt has handlers with a state.
--   Core         subsys/greybus/greybus-core.c: results of operations; Core/Cports.antt cports, listening
--                and notifications; Core/Worker.antt the receive queue as a step relation.
--   Gpio         subsys/greybus/gpio.c: the GPIO protocol and its interrupts.
--   Control      subsys/greybus/control-gpb.c: the control protocol.
--   I2c          subsys/greybus/i2c.c: the I2C protocol, with the bus driver's state passed on.
--   Spi          subsys/greybus/spi.c: the SPI protocol; Spi/Requests.antt lays a transfer request out.
--   Camera       subsys/greybus/camera_data.c, frames cut into messages, and Camera/Management.antt
--                subsys/greybus/camera.c, the requests of the camera and its states.
--   Audio        subsys/greybus/audio.c: the audio protocol; Audio/Topology.antt what it describes.
--   Pwm          subsys/greybus/pwm-protocol.c; Pwm/Settings.antt states what it promises.
--   UartProtocol subsys/greybus/uart.c: the UART protocol, not the transport.
--   Manifest     subsys/greybus/platform/manifest.c: the manifest the AP asks for, and its reader.
--   Loopback     subsys/greybus/loopback.c and vibrator.c.
--   FwDownload   subsys/greybus/fw_download.c: the download of firmware in blocks.
--   FwManagement subsys/greybus/fw_management.c: the requests that start a download.
--   Interfaces   subsys/greybus/interfaces.c: the table of interfaces.
--   Apbridge     subsys/greybus/apbridge.c: connections and routing.
--   Svc          subsys/greybus/svc.c: the SVC behind the bridge.
--   Base has what they share; Samples has the values of the tests, which stand in the modules Tests.
--
-- A function keeps its name. State is passed explicitly; `Option` marks undefined behaviour (a NULL or
-- dangling pointer, a read past a buffer, a failed assert) as `none`; an `int` result is a ℤ with negated
-- errnos, numbered as in Zephyr's own libc. The host is little-endian with a 32-bit size_t.
-- Numbers are natural numbers with the wrap-around written out where the code's types can wrap.
--
-- Not under the repository, and parameters: the heap (`alloc`), crc16_ccitt, the drivers of peripherals,
-- flash and bootloader, the video driver, sockets, ring buffers and pipes, the transport backend, the callbacks of interfaces, and the outcome of waits.
--
-- Bounds: the receive buffer has the 512 bytes of hdlc.h; the GPIO loop runs over the 32 pins of a port;
-- the exchange of a download (`serve`) takes a number of rounds as fuel, for which the image's length in
-- bytes is enough, since each round writes at least one byte; the reader of a manifest takes one round for each descriptor and
-- one more. A read of n bytes from a socket takes n + 1 rounds, since each round brings a byte or ends the loop;
-- the loops that take messages out of the ring buffer, and fragments out of a frame, take one round more
-- than there are bytes.
--
-- Not modelled: the ring buffer between the UART's interrupt and its work queue, the
-- protocols raw, log, lights, HID, USB, SDIO and power supply, the set-up of sockets and of the I2C target, start-up and certificates. Messages to the
-- system's log are left out.
pub mod Apbridge
pub mod Audio
pub mod Base
pub mod Camera
pub mod Control
pub mod Core
pub mod FwDownload
pub mod FwManagement
pub mod Gpio
pub mod Hdlc
pub mod I2c
pub mod I2cTarget
pub mod Interfaces
pub mod Loopback
pub mod Manifest
pub mod Messages
pub mod Pwm
pub mod Samples
pub mod Spi
pub mod Svc
pub mod Tcpip
pub mod Transport
pub mod Uart
pub mod UartProtocol
