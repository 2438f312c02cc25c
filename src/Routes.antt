-- ===== src/Routes.antt =====
-- main/http_routes.c: the pages and handlers of the web portal, and the table of main/http_server.c.
-- The parts of `esp_http_server.h` and of lwIP that the handlers call are parameters.
pub mod Pages
pub mod Forms
pub mod Handlers
pub mod Views
pub mod NetworksPage
pub mod Table
pub mod Connect
pub mod PageSize
pub mod PageFit
pub mod Numbers
pub mod Settings
pub mod Dispatch
pub mod Battery
pub mod Whole
use satura_bridge.Prelude.{
  Bool, List, Option, [], ◌∷◌, ℕ, ◌+◌, ◌-◌, ◌*◌, ◌==◌, ◌&&◌, if◌then◌else◌, leb, true, ◌||◌, ℤ, pos,
  negsuc, c_string,
}
use satura_bridge.HttpUtils.{url_decode}
use satura_bridge.Wifi.State.{Wifi, WifiEvt}
use satura_bridge.Proxy.{ProxyState}
use satura_bridge.DeviceName.{NameState}

-- `query_value` is `httpd_query_key_value` with a string, a key and the size of the buffer: whether it
-- returned ESP_OK, and the text it left in a buffer that was empty. `is_address` is `inet_pton`.
pub record HttpLib : Type 0 where
  pub query_value : List ℕ → List ℕ → ℕ → Bool × List ℕ
  pub is_address : List ℕ → Bool

-- Of a request: its `Host` and its query, for a buffer of the given size, and the body that
-- `httpd_req_recv` brings with one call, each none for an error.
pub record PortalRequest : Type 0 where
  pub host : ℕ → Option (List ℕ)
  pub query : ℕ → Option (List ℕ)
  pub received : ℕ → Option (List ℕ)

-- What the client gets: nothing at all, an error, the redirect `302 Found`, an HTML page that is not
-- to be cached, another text, `204 No Content`, or what the relay or the clipboard brings.
pub data Response : Type 0 where
  silence failed no_memory no_content relay clipboard : Response
  found page plain : List ℕ → Response

-- The state that the handlers reach. The flash is that of `wifi`; `reboots` counts the tasks that
-- restart the chip.
pub record Device (F : Type 0) : Type 0 where
  pub wifi : Wifi F
  pub queue : Option (List WifiEvt)
  pub proxy : ProxyState
  pub name : NameState
  pub reboots : ℕ

-- What else a page shows: whether `malloc` succeeds, the clock in seconds, the heap in bytes, and the
-- battery with whether it is charging, each none where it is not known.
pub record Display : Type 0 where
  pub allocated : Bool
  pub up : ℕ
  pub free_heap : ℕ
  pub battery : Option ℕ
  pub charging : Option Bool

-- What `url_decode` leaves in a buffer of n bytes, read as a string.
abbrev pub decoded : List ℕ → ℕ → List ℕ
decoded text n = c_string (url_decode text n)

abbrev pub is_digit : ℕ → Bool
is_digit c = leb b'0' c && leb c b'9'

-- An empty text has digits only.
unfoldable pub is_digits_only : List ℕ → Bool
is_digits_only [] = true
is_digits_only (c ∷ s) = is_digit c && is_digits_only s

-- The value of the digits at the front, behind the number `n` read so far.
unfoldable pub digits_value : ℕ → List ℕ → ℕ
digits_value n [] = n
digits_value n (c ∷ s) =
    let rest = digits_value (n * 10 + (c - b'0')) s in if is_digit c then rest else n

-- `atoi` of the C library, for a number that fits an `int`.
unfoldable pub atoi : List ℕ → ℤ
atoi [] = pos 0
atoi (c ∷ s) =
    let rest = atoi s in
    if c == b' ' || leb 9 c && leb c 13
    then rest
    else (if c == b'-'
        then (let n = digits_value 0 s in if n == 0 then pos 0 else negsuc (n - 1))
        else (if c == b'+' then pos (digits_value 0 s) else pos (digits_value 0 (c ∷ s))))
