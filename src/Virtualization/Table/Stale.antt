-- ===== src/Virtualization/Table/Stale.antt =====
-- The virtual devices of src/bridge.cpp after `GetDeviceTableCB`, and `Destroy` of an address.
use hanfun_io_tivity.Prelude.{
  ℕ, ◌+◌, false, List, [], ◌∷◌, ◌++◌, Option, some, none, if◌then◌else◌, ◌>>=◌, ◌==◌, ◌≡◌, ◌≢◌,
  refl, ap, arith,
}
use hanfun_io_tivity.Virtualization.Publish.Refinement.{Holds, request_publication-Holds}
use hanfun_io_tivity.Prelude.Bytes.{Bytes}
use hanfun_io_tivity.HanClient.DeviceTable.{DeviceTableMessage}
use hanfun_io_tivity.Virtualization.Table.{
  running, cell, Bridge, World, virtualize_device, get_device_table_cb, destroy_resources, destroy,
}

destroy_resources-append :
    (id : ℕ) (rs : List (Option ℕ)) → destroy_resources id (rs ++ (none ∷ [])) ≡ none
unfolding destroy_resources
destroy_resources-append id [] = refl
destroy_resources-append id (none ∷ rs) = refl
destroy_resources-append id (some a ∷ rs) =
    ap
      (λ (o : Option (List (Option ℕ))).
        o >>= λ rest. some (if a == id then rest else some a ∷ rest))
      (destroy_resources-append id rs)

-- A bridge that stands for a device, with its publications in order, gets an answer whose first device
-- has an identifier, an IPUI and an EMC: it runs, has the device, alive or not, and the device's presence, and publishes a second
-- later; but from then on `Destroy` of any address is undefined, since it reads the address of the
-- device's resource, in which nothing was stored.
pub destroy-get_device_table_cb :
    (w : World) (now : ℕ) (t : DeviceTableMessage) (address : ℕ) (ipui emc : Bytes)
    (deadline : Option ℕ) (b : Bridge)
    → b.sender ≢ 0
    → cell t.dev_ids 0 ≡ some address
    → cell t.dev_ipuis 0 ≡ some ipui
    → cell t.dev_emcs 0 ≡ some emc
    → Holds deadline b.queue
    → (b' : Bridge) × (get_device_table_cb w now t b ≡ some b')
      × (b'.han_state ≡ running)
      × (b'.devices ≡ b.devices ++ ((address, w.set_properties ipui emc) ∷ []))
      × (b'.presence ≡ b.presence ++ (address ∷ []))
      × Holds (some (now + 1)) b'.queue
      × ((id : ℕ) → destroy id b' ≡ none)
unfolding destroy get_device_table_cb virtualize_device
destroy-get_device_table_cb w now t address ipui emc deadline b h k1 k2 k3 holds =
    let (q, r, later) = request_publication-Holds now deadline b.queue holds in
    let b' : Bridge = record b {
      unanswered = none;
      devices = b.devices ++ ((address, w.set_properties ipui emc) ∷ []);
      presence = b.presence ++ (address ∷ []);
      resources = b.resources ++ (none ∷ []);
      queue = q;
      han_state = running;
    } in
    let other : (b.sender == 0) ≡ false = ground arith in
    (
      b',
      rw (other, k1, k2, k3, r),
      refl,
      refl,
      refl,
      later,
      λ id. rw (destroy_resources-append id b.resources),
    )
