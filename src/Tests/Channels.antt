-- ===== src/Tests/Channels.antt =====
-- The messages of a data channel on a small state.
use selkies_core.Prelude.{
  ℕ, ◌≡◌, refl, List, [], ◌∷◌, ◌++◌, none, some, true, false, Text, codes, unwrap_or, if◌then◌else◌,
  arith,
}
use selkies_core.Config.{config_default}
use selkies_core.Config.Validate.{config_default-IsValid}
use selkies_core.Settings
use selkies_core.Settings.Bounds.{new-InBounds}
use selkies_core.Clipboard
use selkies_core.Clipboard.Invariant.{new-Inv}
use selkies_core.Shared
use selkies_core.Shared.{apply_pending_resize}
use selkies_core.Shared.Subscribers.{Op, none_yet, waiting, expected, run, run-waiting}
use selkies_core.Upload.Transfer.{idle}
use selkies_core.Input.{parse_input_text}
use selkies_core.Dispatch.{World, Outside, ChannelData, handle_messages, handle_datachannel_data}
use selkies_core.Dispatch.Invariant.{Inv, handle_messages-Inv}
use selkies_core.Dispatch.Routes.{
  InputTag, events_of, SameBut, handle_datachannel_data-input, resize_message, fits, same_size,
  accept_all, apply_pending_resize-message,
}
use selkies_core.Tests.Uploads.{willing, root, services}
use selkies_core.Tests.Events.{api, parse_addr, default_webrtc, default_fits}

abbrev calls : List (Op ℕ)
calls =
    Op.subscribe
    ∷ Op.send 5
    ∷ Op.subscribe
    ∷ Op.send 6
    ∷ Op.send 7
    ∷ Op.close 0
    ∷ Op.recv 1
    ∷ Op.send 8
    ∷ []

run-waiting_example : waiting 1 (run calls none_yet).channels ≡ expected 1 calls 0 none
run-waiting_example = run-waiting 1 calls

-- The second receiver has taken 6, and waits for 7 and 8.
waits_for_two : expected 1 calls 0 none ≡ some (7 ∷ 8 ∷ [])
unfolding expected
waits_for_two = refl

-- Bytes are read as characters one by one.
abbrev pub outside : Outside ℕ
outside = record {
  now = 1000;
  home = none;
  file_system = willing;
  services = services;
  json = api;
  from_utf8 = λ b. some b;
  as_bytes = λ t. t;
  xxh64 = λ b seed. seed;
}

abbrev pub world : World
world = record {
  upload = idle root [];
  clipboard = Clipboard.new true true;
  settings = Settings.new (config_default true);
  shared = Shared.new (config_default true);
  events = [];
  last_pong = 0;
  clipboard_log = [];
}

world-Inv : Inv root world
unfolding Shared.new
world-Inv = record {
  upload = record { dir = refl; handle = refl; below = tt; size = (refl, refl); log = tt };
  clipboard = new-Inv true true;
  settings =
      new-InBounds parse_addr (config_default true) (config_default-IsValid parse_addr true)
        default_webrtc default_fits;
  resize = tt;
  events = tt;
  log = tt;
}

abbrev message : Text → Outside ℕ × ChannelData
message t = (outside, record { binary = false; payload = t })

handle_messages-Inv_example : Inv root (
    handle_messages
      (message (codes "r,800x600") ∷ message (codes "cw,abc") ∷ message (codes "m,1,2") ∷ [])
      world)
handle_messages-Inv_example =
    handle_messages-Inv root
      (message (codes "r,800x600") ∷ message (codes "cw,abc") ∷ message (codes "m,1,2") ∷ []) world
      world-Inv

handle_datachannel_data-input_example :
    SameBut world
      (handle_datachannel_data outside (record { binary = false; payload = codes "kd,97" }) world)
    × ((handle_datachannel_data outside
          (record { binary = false; payload = codes "kd,97" })
          world).events
        ≡ world.events ++ events_of (parse_input_text (codes "kd,97")))
handle_datachannel_data-input_example =
    handle_datachannel_data-input outside (codes "kd,97") InputTag.key_down (codes "97") world refl

apply_pending_resize-message_example :
    (let asked =
        (handle_datachannel_data outside
          (record { binary = false; payload = resize_message 800 600 })
          world).shared in
      (fits 800 600 ≡ false → asked ≡ world.shared)
      × (fits 800 600 ≡ true
          → ((apply_pending_resize accept_all asked).display_size ≡ (
              if same_size world.shared.display_size 800 600
              then unwrap_or world.shared.pending_resize world.shared.display_size
              else (800, 600)))
            × ((apply_pending_resize accept_all asked).pending_resize ≡ none)))
apply_pending_resize-message_example =
    apply_pending_resize-message outside (resize_message 800 600) 800 600 world (omega arith)
      (omega arith) refl
