-- ===== src/Lib.antt =====
-- A model of the TAP-Windows kernel driver: its DHCP masquerade, its answers to ARP and IPv6
-- neighbor discovery, its transmit path with the queues between the host and the application, the
-- writes of the application with the way back of their frames, the pause of the miniport, the
-- requests of its device and of NDIS, its loading, and the helpers below these; and of the custom
-- actions with which its installer package replaces an older driver.
--
-- Parts, and how they interact. The host sends lists of frames (AdapterSendNetBufferLists); each
-- frame may get an 802.1Q tag, may be caught by the DHCP masquerade or, in point-to-point mode, be
-- answered or dropped, and waits otherwise in the packet queue for a read of the application
-- (TapDeviceRead). Answers go back to the host through IndicateReceivePacket. Lists of frames
-- are completed to NDIS, or held by flow control until the packet queue drains. A write of the
-- application (TapDeviceWrite) goes to the host as a list, which holds the request until the host
-- returns it; AdapterPause waits for all of them.
--
-- Base       src/endian.h, machine words (wrap-around written out), memory as lists of bytes
-- Checksum   ip_checksum, udp_checksum (src/dhcp.c), icmpv6_checksum (src/txpath.c)
-- Mac        src/macinfo.c and src/macinfo.h
-- Proto      the packed structs of src/proto.h and src/dhcp.h, with encoders and casts
-- Ndis       the members of IRP and NET_BUFFER_LIST that the driver reads or sets
-- Adapter    TAP_ADAPTER_CONTEXT (src/adapter.h), the readiness tests of src/adapter.c; below it
--            Queue and Irps, the packet queue and the pending reads of src/mem.c
-- Receive    IndicateReceivePacket of src/rxpath.c
-- Dhcp       src/dhcp.c: Options (SetDHCPOpt), Scan (GetDHCPMessageType), Reply (BuildDHCPPre,
--            SetChecksumDHCPMsg, SendDHCPMsg), Process (DHCPMessageOurs, ProcessDHCP)
-- Transmit   src/txpath.c: Vlan (with TapStrip8021Q of src/rxpath.c), Arp (ProcessARP), Neighbor
--            (HandleIPv6NeighborDiscovery), Frame (tapAdapterTransmit), Read
--            (tapCompletePendingReadIrp, tapProcessSendPacketQueue, flow control, TapDeviceRead),
--            Send (AdapterSendNetBufferLists)
-- Frames     the frame types and counts of src/adapter.c
-- Write      src/rxpath.c: TapDeviceWrite, TapSharedSendPacket, AdapterReturnNetBufferLists
-- Device     src/device.c: the requests of TapDeviceControl, tapResetAdapterState; below it Session,
--            the opening and closing of the device and its destruction, and Info, the requests
--            that print
-- Oid        src/oidrequest.c: the requests that set, Query those that ask, Handler the entry points
-- Lifecycle  src/adapter.c: AdapterPause with its wait as steps beside those of other threads,
--            AdapterRestart, AdapterReset, AdapterShutdownEx, AdapterHalt; Refine has the
--            writes and returns of src/rxpath.c as runs of these steps
-- Create     src/adapter.c: AdapterCreate, with tapReadConfiguration and CreateTapDevice
--            (src/device.c)
-- Contexts   the global list of adapters and their reference counts (src/adapter.h, src/adapter.c)
-- History    one call of the driver after another, of all the parts above: Operation and run
-- DebugLog   src/error.c: MyDebugPrint and GetDebugLine, the log of the debug build
-- Driver     src/tapdrvr.c: DriverEntry and TapDriverUnload
-- Lock       src/lock.h: the mutex, as moves of threads
-- Installer  msm/installation.c: the adapters; below it Package (InstallDriver, RemoveDriver) and
--            Actions (InstallOrUpdate, Uninstall)
-- Msi        msm/msi.c: MsiEvaluate, and Process (MsiProcess, WriteRegKeys), which calls Installer
-- Tests      concrete adapters and packets, and the theorems at them
--
-- State and operations. An operation takes the adapter and returns it changed, with what the C
-- function returns. Frames handed to NDIS, completed requests and completed lists of frames are
-- recorded in the adapter (`indicated`, `completed_irps`, `completed_nbls`), and so are the lists that
-- the host has (`in_flight`). A multi-byte member of
-- a packet holds what the little-endian machine reads there, so values in network order stand
-- under `htons` and `htonl` as in the source. Memory is a list of bytes; a read past its end gives
-- 0, and the parser of DHCP options, which must not read there, reports it instead.
--
-- Parameters. What the allocators of the system answer is a record of Booleans (`Pool`), and what
-- fresh memory holds is an argument (`unset`). What the registry holds (`Settings`), what NDIS answers
-- when an adapter is created (`Answers`) and what the system answers when the driver is loaded
-- (`Loader`) are records. What the headers of NDIS and the build say to the OID requests is a record
-- (`System`), and what formats a text of the log is a function (`Printf`). Windows is for the
-- installer a record of functions of all that was asked before (`Windows`), what Windows Installer
-- answers is another (`Session`), and so are the scanning functions of the C runtime (`Runtime`).
--
-- Threads. Spin locks are held over each operation, so the operations are steps that do not overlap;
-- the pause, which holds none while it waits, is a relation of smaller steps (`Drains`, `Arrives`),
-- and so is the mutex (`Move`). The loops of IoCsqRemoveNextIrp are those of the driver's callbacks.
--
-- Fuel. The carry loop of the checksums has fuel 3, the scan of DHCP options the number of bytes,
-- tapProcessSendPacketQueue and tapIrpCsqFlush the number of pending requests plus one, and
-- tapFlushSendPacketQueue the number of packets plus one. The theorems below say that this is enough.
--
-- Not modelled: the names of the devices, the attributes that NDIS is told of and the table of
-- handlers, the dumps of packets, the messages of the installer, and the build scripts. Debug output
-- has no effect on the state of the adapter.
-- An enumeration of devices or drivers is the list of its elements, and the loop that grows the
-- buffer for the drivers in the kernel (IsDriverLoaded) is taken with its last round.
mod Base
pub mod Checksum
pub mod Mac
pub mod Proto
pub mod Ndis
pub mod Adapter
pub mod Receive
pub mod Dhcp
pub mod Frames
pub mod Transmit
pub mod Write
pub mod DebugLog
pub mod Lock
pub mod Driver
pub mod Installer
pub mod Msi
pub mod Device
pub mod Oid
pub mod Lifecycle
pub mod Contexts
pub mod Create
pub mod History
mod Tests
