-- ===== src/Examples/Virtual.antt =====
-- A bridge with two HAN devices, and one that stands for a device.
use hanfun_io_tivity.Prelude.{ℕ, ◌+◌, ◌≡◌, refl, true, false, [], ◌∷◌, some, none, arith, replicate}
use hanfun_io_tivity.HanClient.DeviceTable.{DeviceTableMessage}
use hanfun_io_tivity.Discovery.{not_seen}
use hanfun_io_tivity.Virtualization.Publish.{discover}
use hanfun_io_tivity.Virtualization.Publish.Refinement.{
  request, turn, run, run_timer, run-timer, Holds, publications,
}
use hanfun_io_tivity.Virtualization.Identity.{Library, hash, IsMarked, version, hash-version}
use hanfun_io_tivity.Virtualization.Table.{
  started, running, Bridge, World, get_device_table_cb, destroy,
}
use hanfun_io_tivity.Virtualization.Table.Stale.{destroy-get_device_table_cb}

run-timer_example :
    run
      (request 10 ∷ turn 10 ∷ request 11 ∷ turn 12 ∷ [])
      (record { tasks = discover 5 ∷ []; rd_publish_task = none; next_task = 1 })
    ≡ some (run_timer (request 10 ∷ turn 10 ∷ request 11 ∷ turn 12 ∷ []) none)
run-timer_example = run-timer (request 10 ∷ turn 10 ∷ request 11 ∷ turn 12 ∷ []) (5 ∷ []) 1

abbrev library : Library
library = record {
  sha1 = λ text. some (replicate 20 255);
  uuid_text = λ id. some id;
  unset_digest = replicate 20 0;
  unset_id = replicate 16 0;
}

hash-version_example :
    IsMarked (replicate 20 255) (hash library (replicate 5 1) (replicate 2 2))
    × (version (hash library (replicate 5 1) (replicate 2 2)) ≡ some 15)
hash-version_example =
    hash-version library (replicate 5 1) (replicate 2 2) (replicate 20 255) refl refl

abbrev outside : World
outside = record {
  lib = library;
  seen = λ launches piid. not_seen;
  set_properties = λ ipui emc. false;
}

abbrev idle : Bridge
idle = record {
  sender = 0;
  secure_mode = true;
  han_state = started;
  han_client = record {
    initialized = true;
    bound = true;
    receiving = true;
    has_table_cb = true;
    sent = [];
  };
  get_devices_next_tick = 0;
  unanswered = none;
  launches = [];
  devices = [];
  presence = [];
  resources = [];
  queue = record { tasks = []; rd_publish_task = none; next_task = 1 };
}

-- The answer with one device.
abbrev answer : DeviceTableMessage
answer = record {
  dev_index = 2;
  no_of_devices = 1;
  dev_ids = some 1 ∷ [];
  dev_ipuis = some (replicate 5 1) ∷ [];
  dev_emcs = some (replicate 2 1) ∷ [];
}

abbrev standing : Bridge
standing = record idle { sender = 3 }

held : Holds none standing.queue
unfolding Holds publications
held = (refl, refl)

destroy-get_device_table_cb_example :
    (b' : Bridge) × (get_device_table_cb outside 10 answer standing ≡ some b')
    × (b'.han_state ≡ running)
    × (b'.devices ≡ (1, false) ∷ [])
    × (b'.presence ≡ 1 ∷ [])
    × Holds (some (10 + 1)) b'.queue
    × ((id : ℕ) → destroy id b' ≡ none)
destroy-get_device_table_cb_example =
    destroy-get_device_table_cb outside 10 answer 1 (replicate 5 1) (replicate 2 1) none standing
      (λ e. omega arith) refl refl refl held
