-- ===== src/BtPan/Netif.antt =====
-- main/bt_pan.c: the interface of the Bluetooth link, which is looked up once and then kept, and the
-- polling of the signal strength with its one registration at a time.
use satura_bridge.Prelude.{
  Bool, List, Option, ℕ, [], false, true, none, some, if◌then◌else◌, ◌+◌, ◌++◌, ◌∷◌, ◌-◌, ap, arith,
  ◌==◌, ◌≡◌,
}
use satura_bridge.Links.Netif.{Netif, find_netif, in_bridge_subnet}

abbrev pub cached_or : Option ℕ → Option ℕ → Option ℕ
cached_or (some cached) found = some cached
cached_or none found = found

-- What is returned, and the new `cached_netif`, which are the same.
unfoldable pub bt_pan_get_netif : List Netif → Option ℕ → Option ℕ × Option ℕ
unfolding find_netif
bt_pan_get_netif netif_list cached_netif =
    let found = cached_or cached_netif (find_netif in_bridge_subnet netif_list) in (found, found)

-- `rssi_poll_pending`, the registrations that wait on the main thread, and the handles whose signal
-- was asked for.
pub record RssiPoll : Type 0 where
  pub rssi_poll_pending : Bool
  pub queued : ℕ
  pub asked : List ℕ

unfoldable pub bt_pan_request_rssi_poll : RssiPoll → RssiPoll
bt_pan_request_rssi_poll p =
    if p.rssi_poll_pending then p else record p { rssi_poll_pending = true; queued = p.queued + 1 }

abbrev pub asked_for : Option ℕ → List ℕ
asked_for none = []
asked_for (some h) = h ∷ []

-- `rssi_poll_cb` on the main thread, with the handle of that moment.
unfoldable pub rssi_poll_cb : Option ℕ → RssiPoll → RssiPoll
rssi_poll_cb handle p = record p {
  rssi_poll_pending = false;
  queued = p.queued - 1;
  asked = p.asked ++ asked_for handle;
}

pub data PollStep : Type 0 where
  requested : PollStep
  polled : Option ℕ → PollStep

-- The stack runs a registration only if one waits.
unfoldable pub poll_step : PollStep → RssiPoll → RssiPoll
unfolding bt_pan_request_rssi_poll rssi_poll_cb
poll_step requested p = bt_pan_request_rssi_poll p
poll_step (polled handle) p = if p.queued == 0 then p else rssi_poll_cb handle p

unfoldable pub poll_run : List PollStep → RssiPoll → RssiPoll
unfolding poll_step
poll_run [] p = p
poll_run (s ∷ ss) p = poll_run ss (poll_step s p)

-- The flag stands for the one registration.
unfoldable pub IsOnePoll : RssiPoll → Type 0
IsOnePoll p = p.queued ≡ (if p.rssi_poll_pending then 1 else 0)

poll_step-IsOnePoll : (s : PollStep) (p : RssiPoll) → IsOnePoll p → IsOnePoll (poll_step s p)
unfolding IsOnePoll poll_step bt_pan_request_rssi_poll rssi_poll_cb
poll_step-IsOnePoll requested p v = ground arith
poll_step-IsOnePoll (polled handle) p v = ground arith

-- The one registration is never given to the main thread while it waits there, whatever the order of
-- requests and of callbacks.
pub poll_run-IsOnePoll :
    (ss : List PollStep) (p : RssiPoll) → IsOnePoll p → IsOnePoll (poll_run ss p)
unfolding poll_run
poll_run-IsOnePoll [] p v = v
poll_run-IsOnePoll (s ∷ ss) p v = poll_run-IsOnePoll ss (poll_step s p) (poll_step-IsOnePoll s p v)

-- Once an interface was found, it is answered whatever the interfaces are then, also when no phone is
-- connected.
pub bt_pan_get_netif-kept :
    (before after : List Netif) (cached_netif : Option ℕ) (n : ℕ)
    → (bt_pan_get_netif before cached_netif).0 ≡ some n
    → (bt_pan_get_netif after (bt_pan_get_netif before cached_netif).1).0 ≡ some n
unfolding bt_pan_get_netif
bt_pan_get_netif-kept before after cached_netif n e =
    ap (λ c. cached_or c (find_netif in_bridge_subnet after)) e
