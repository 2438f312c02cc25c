-- ===== src/Lib.antt =====
-- Satura Bridge: firmware of an ESP32 that shares a Wi-Fi uplink with a phone over Bluetooth PAN.
--
-- The parts and how they interact. The Wi-Fi worker (main/wifi_manager.c) owns every decision on the
-- uplink: other tasks post events to its queue, it reads the saved networks (main/nvs_storage.c over
-- main/storage.c), and it reports through the shared variables of main/app_state.c, whose setters publish
-- on the event bus. The DNS server (main/dns_server.c) answers the phone from its cache, from the
-- upstream server, or with the address of the gateway. main/bt_pan.c follows the phone's connection,
-- main/nat_bridge.c translates packets where a downlink and an uplink are up. The web portal
-- (main/http_server.c, main/http_routes.c, main/clipboard.c, with the text helpers of main/http_utils.c)
-- stores networks, the proxy and the name, and posts to the worker; a request for another host goes through
-- main/proxy_relay.c to the proxy of main/proxy_gateway.c. main/watchdog.c watches the worker, the DNS
-- task and the heap. main/main.c and main/app_bootstrap.c start all of these, and main/board holds the power
-- and reads the battery.
--
-- The files.
--   Prelude          Boolean tests, lists over native numbers, bytes and C strings, integers.
--   HttpUtils        main/http_utils.c: html_escape, url_encode, url_decode, is_foreign_host. A buffer is
--                    its size, a text its bytes without the NUL.
--   Buffer           pages that are printed piece by piece with snprintf.
--   Clipboard        main/clipboard.c: clip_store_t, clip_add, clip_pin, clip_unpin, clip_delete; Page has
--                    the page, Actions the two handlers that change the store.
--   AppState         main/app_state.c, and the event types of main/event_bus.h.
--   Storage          main/storage.c over NVS, which is a parameter; Storage/Laws has its documented laws.
--   Networks         main/nvs_storage.c: the memory image of the blob, loading, saving and editing.
--   Wifi             main/wifi_manager.c. State has the types, Scan and Candidates the scan and the list
--                    of candidates, Machine the worker's handlers, Inbox the queue and the settle task;
--                    Radio the driver's events, the soft reset and the start; Flash fills the interface of
--                    saved networks with main/nvs_storage.c.
--   Dns              main/dns_server.c: the cache, the captive reply, forwarding, one turn of the task,
--                    the watchdog; Served says where a reply comes from, Handover has the steps by which one
--                    task replaces another.
--   BtPan            main/bt_pan.c: the events of the Bluetooth stack, and the timer that makes the bridge
--                    visible again; Netif has the interface of the link and the polling of the signal,
--                    Setup the calls of bt_pan_init.
--   Links            main/event_bus.c, main/link_registry.c, main/nat_bridge.c; Netif the search for an
--                    interface of lwIP.
--   Bridge           the worker, the Bluetooth handlers, the event bus and the NAT over one state, as steps
--                    in any order. Announce and Phone say what each part publishes when it writes a flag,
--                    Nat and Settled when the NAT agrees with the links, Parts that each part keeps its
--                    invariant in the whole. Address, Arrivals and Lost follow one session of a phone,
--                    which Service puts together.
--   Chip             main/main.c, main/uptime.c and the addresses for phones of main/app_bootstrap.c.
--   Boot             main/app_bootstrap.c: the start as a function of what the chip answers. Restart is about
--                    what was saved before, System about all that can follow.
--   Board            main/board and main/battery.c. Single is the arithmetic on float, Core2 and PlusTwo the
--                    boards, Tables their formulas over all readings.
--   Proxy            main/proxy_gateway.c: the configuration of the upstream proxy.
--   Relay            main/proxy_relay.c: the head of the reply, which Lines and Fields describe by its fields,
--                    the body, and in Request and Sent the request.
--   Routes           main/http_routes.c: Pages and Forms the texts, NetworksPage and Views the handlers that
--                    show a page, Handlers those that change the device; Table is main/http_server.c,
--                    Battery the line that the board gives the status page.
--   DeviceName       main/device_name.c.
--   Watchdog         main/watchdog.c.
--   Tests            concrete inputs for the theorems.
--
-- Conventions. Numbers are native; a 32-bit counter keeps its `%`. An array with its count is the list of
-- its live entries, except `candidate_list`, which is the whole array, so that a read behind its end
-- shows. An RSSI of r dBm is the number r + 128. A handler of the worker is a function on its whole
-- state that also lists the calls of the driver; the answers of the driver are its arguments. A critical
-- section is one step. The loop over the labels of a DNS name runs on fuel of one step for each byte of
-- the query, which is enough since every step moves on.
--
-- The whole. A step of Bridge is one entry of a task into the code: an event of a stack with the handlers
-- of the bus that it runs, a round of the worker, or a callback on the thread of lwIP. Between two steps any
-- other may come. `float` is computed as IEEE 754 single precision does, on whole numbers.
--
-- Pages. A page is the text in its buffer with the length that the code counts; a call of snprintf with a
-- place behind the buffer is marked, and what the C library makes of it is left open.
--
-- Not modelled. The driver, lwIP, FreeRTOS, the HTTP server's library and NVS are parameters: what a call
-- of theirs brings is an argument, or a record of functions with their documented laws. Logging, the
-- settings of pins and buses, and mutexes, which are taken to be obtained, are left out, and
-- `tcpip_callback` is taken to accept every call. components/ is a copy of BTstack's port.
pub mod Prelude
pub mod HttpUtils
pub mod Clipboard
pub mod AppState
pub mod Storage
pub mod Networks
pub mod Wifi
pub mod Dns
pub mod Board
pub mod Boot
pub mod BtPan
pub mod Chip
pub mod Bridge
pub mod Links
pub mod Buffer
pub mod Relay
pub mod Routes
pub mod DeviceName
pub mod Watchdog
pub mod Proxy
mod Tests
