-- ===== src/Discovery/Balance/Handlers.antt =====
-- The handlers of src/bridge.cpp, each of which starts as the owner of its context.
use hanfun_io_tivity.Prelude.{ℕ, ◌&&◌, ◌≡◌, Bool, true, Option, some, none, List, [], ◌∷◌}
use hanfun_io_tivity.Discovery.{
  Context, World, SeenState, not_seen, seen_native, seen_virtual, M, pure, ◌>>=◌, RepPayload,
  UrlInfo,
}
use hanfun_io_tivity.Stack.{Constants, DevAddr}
use hanfun_io_tivity.Resource.{Resource, Device}
use hanfun_io_tivity.Resource.Links.{Moved}
use hanfun_io_tivity.Discovery.Iterator.{current, differs_from_end}
use hanfun_io_tivity.Prelude.Bytes.{codes}
use hanfun_io_tivity.Discovery.Callbacks.{
  resources_from, kept, restart, on_platform, on_device_configuration, on_platform_configuration,
  after_links, on_collection, get_seen_state, request_resource, start_resources, get_introspection,
  next_collection, get_collection, get_platform_configuration, request_platform, on_device,
}
use hanfun_io_tivity.Discovery.Introspection.{
  next_resource, advance_resource, on_introspection, on_introspection_data, on_resource, try_urls,
  parse_introspection_payload, or_start_resources,
}
use hanfun_io_tivity.Discovery.Balance.Steps.{
  Step, Step->>=, Step-pure, Step-fault, Step-if, Step-if_true, Step-if_taken, Step-option,
  Step-read, Step-write, Step-continue, Step-push_task, Step-push_presence, Step-destroy_piid,
  Step-need, Step-get_secure_mode,
}

module _ {p : Option ℕ} (oc : Constants) (w : World) where
  Step-kept :
      {l : Option ℕ} {m : M Bool} (a : ℕ)
      → Step p l m (kept a)
      → Step p l (m >>= λ taken. pure (kept a taken)) (λ r. r)
  Step-kept a h = Step->>= h λ taken. Step-pure (kept a taken)

  Step-seen {ℓ} :
      {A : Type ℓ} {l : Option ℕ} {f : A → Option ℕ} {m n k : M A} (s : SeenState)
      → Step p l m f
      → Step p l n f
      → Step p l k f
      → Step p l (elim s [ not_seen ↦ m | seen_native ↦ n | seen_virtual ↦ k ]) f
  Step-seen not_seen h h' h'' = h
  Step-seen seen_native h h' h'' = h'
  Step-seen seen_virtual h h' h'' = h''

  Step-list {ℓ κ} :
      {A : Type ℓ} {B : Type κ} {l : Option ℕ} {f : A → Option ℕ} {n : M A} {s : B → List B → M A}
      (xs : List B)
      → Step p l n f
      → ((x : B) (xs' : List B) → Step p l (s x xs') f)
      → Step p l (elim xs [ [] ↦ n | x ∷ xs' ↦ s x xs' ]) f
  Step-list [] h h' = h
  Step-list (x ∷ xs) h h' = h' x xs

  request_resource-Step :
      (a : ℕ) (c : Context) → Step p (some a) (request_resource oc w a c) (kept a)
  unfolding request_resource
  request_resource-Step a c = Step-option (current c.it) Step-fault (λ q. Step-continue w a _ _ _)

  start_resources-Step : (a : ℕ) → Step p (some a) (start_resources oc w a) (kept a)
  unfolding start_resources
  start_resources-Step a = Step->>= (Step-get_secure_mode (some a)) λ secure_mode.
      Step->>= (Step-read a)
        λ c. Step->>= (Step-write a _) λ _. request_resource-Step a (restart oc w secure_mode c)

  parse_introspection_payload-Step :
      (a : ℕ) → Step p (some a) (parse_introspection_payload oc w a) (λ _. some a)
  unfolding parse_introspection_payload
  parse_introspection_payload-Step a = Step->>= (Step-read a) λ c. Step-push_presence (some a) _

  try_urls-Step :
      (a : ℕ) (addr : DevAddr) (us : List UrlInfo)
      → Step p (some a) (try_urls oc w a addr us) (λ r. r)
  unfolding try_urls
  try_urls-Step a addr [] = Step-pure (some a)
  try_urls-Step a addr (u ∷ us) = Step-option u.protocol (Step-pure (some a)) λ protocol.
      Step-option u.url (Step-pure (some a)) λ url.
        Step-if _
          (Step->>= (Step-continue w a _ _ _)
            λ taken. Step-if_taken a taken (try_urls-Step a addr us))
          (try_urls-Step a addr us)

  module _ (alloc : w.alloc ≡ true) where
    get_introspection-Step : (a : ℕ) → Step p (some a) (get_introspection oc w a) (kept a)
    unfolding get_introspection
    get_introspection-Step a = Step->>= (Step-read a) λ c.
        Step-option _ (Step-if_true _ w.alloc alloc (start_resources-Step a))
          λ r. Step-continue w a _ _ _

    next_collection-Step :
        (a : ℕ) (q : ℕ × Option Resource) → Step p (some a) (next_collection oc w a q) (kept a)
    unfolding next_collection
    next_collection-Step a (i, found) = Step->>= (Step-read a) λ c.
        Step->>= (Step-write a _)
          λ _. Step-option found (get_introspection-Step a) λ r. Step-continue w a _ _ _

    get_collection-Step : (a : ℕ) → Step p (some a) (get_collection oc w a) (kept a)
    unfolding get_collection
    get_collection-Step a = Step->>= (Step-read a) λ c. next_collection-Step a _

    get_platform_configuration-Step :
        (a : ℕ) → Step p (some a) (get_platform_configuration oc w a) (kept a)
    unfolding get_platform_configuration
    get_platform_configuration-Step a =
        Step->>= (Step-read a)
          λ c. Step-option _ (get_collection-Step a) λ r. Step-continue w a _ _ _

    or_start_resources-Step : (l : Option ℕ) → Step p l (or_start_resources oc w l) (λ r. r)
    unfolding or_start_resources
    or_start_resources-Step none = Step-pure none
    or_start_resources-Step (some a) =
        Step-if w.alloc (Step-kept a (start_resources-Step a)) Step-fault

    request_platform-Step :
        (a : ℕ) (d : Device) → Step p (some a) (request_platform oc w a d) (λ r. r)
    unfolding request_platform
    request_platform-Step a d = Step-kept a (Step-continue w a _ _ _)

    pub on_device-Step :
        (a : ℕ) (payload : RepPayload) → Step p (some a) (on_device oc w a payload) (λ r. r)
    unfolding on_device
    on_device-Step a payload = Step->>= (Step-read a) λ c.
        Step-seen (get_seen_state oc w payload.piid)
          (Step-if _
            (Step->>= (Step-need (some a) payload.piid)
              λ piid. Step->>= (Step-push_task a _ piid) λ _. Step-pure none)
            (request_platform-Step a c.device))
          (Step-pure (some a))
          (Step-if _ (request_platform-Step a c.device) (
            Step->>= (Step-need (some a) payload.piid) λ piid.
              Step->>= (Step-destroy_piid (some a) piid) λ _. request_platform-Step a c.device))

    pub on_platform-Step :
        (a : ℕ) (payload : RepPayload) → Step p (some a) (on_platform oc w a payload) (λ r. r)
    unfolding on_platform
    on_platform-Step a payload = Step->>= (Step-read a) λ c.
        Step-kept a (Step-option _ (get_platform_configuration-Step a) λ r. Step-continue w a _ _ _)

    pub on_device_configuration-Step :
        (a : ℕ) (payload : RepPayload)
        → Step p (some a) (on_device_configuration oc w a payload) (λ r. r)
    unfolding on_device_configuration
    on_device_configuration-Step a payload = Step-kept a (get_platform_configuration-Step a)

    pub on_platform_configuration-Step :
        (a : ℕ) → Step p (some a) (on_platform_configuration oc w a) (λ r. r)
    unfolding on_platform_configuration
    on_platform_configuration-Step a = Step-kept a (get_collection-Step a)

    after_links-Step : (a : ℕ) (q : Bool × Moved) → Step p (some a) (after_links oc w a q) (λ r. r)
    unfolding after_links
    after_links-Step a (success, m) = Step->>= (Step-read a) λ c. Step->>= (Step-write a _) λ _.
        Step-if success (Step-if m.rit_valid (Step-kept a (next_collection-Step a _)) Step-fault)
          (Step-pure (some a))

    pub on_collection-Step :
        (a : ℕ) (payload : RepPayload) → Step p (some a) (on_collection oc w a payload) (λ r. r)
    unfolding on_collection
    on_collection-Step a payload = Step->>= (Step-read a) λ c.
        Step-list (resources_from c.rit c.device.resources) Step-fault
          λ r rs. Step-option _ Step-fault λ moved. after_links-Step a moved

    pub on_introspection-Step :
        (a : ℕ) (r : Option (DevAddr × RepPayload))
        → Step p (some a) (on_introspection oc w a r) (λ r'. r')
    unfolding on_introspection
    on_introspection-Step a none = or_start_resources-Step (some a)
    on_introspection-Step a (some (addr, payload)) =
        Step-option payload.url_info (or_start_resources-Step (some a))
          λ urls. Step->>= (try_urls-Step a addr urls) λ l. or_start_resources-Step l

    pub on_introspection_data-Step :
        (a : ℕ) (r : Option RepPayload)
        → Step p (some a) (on_introspection_data oc w a r) (λ r'. r')
    unfolding on_introspection_data
    on_introspection_data-Step a none = or_start_resources-Step (some a)
    on_introspection_data-Step a (some payload) =
        Step->>= (parse_introspection_payload-Step a) λ _. Step-pure (some a)

    next_resource-Step : (a : ℕ) (c : Context) → Step p (some a) (next_resource oc w a c) (λ r. r)
    unfolding next_resource
    next_resource-Step a c =
        Step-if (differs_from_end c.it) (Step-kept a (request_resource-Step a c)) (
          Step-if w.alloc
            (Step-if (w.set_object (codes "paths") && w.set_object (codes "definitions"))
              (Step->>= (parse_introspection_payload-Step a) λ _. Step-pure (some a))
              (Step-pure (some a)))
            (Step-pure (some a)))

    advance_resource-Step :
        (a : ℕ) (c : Context) → Step p (some a) (advance_resource oc w a c) (λ r. r)
    unfolding advance_resource
    advance_resource-Step a c = Step->>= (Step-get_secure_mode (some a)) λ secure_mode.
        Step-option _ Step-fault
          λ it. Step->>= (Step-write a _) λ _. next_resource-Step a (record c { it = it })

    pub on_resource-Step : (a : ℕ) → Step p (some a) (on_resource oc w a) (λ r. r)
    unfolding on_resource
    on_resource-Step a = Step->>= (Step-read a) λ c. Step-option (current c.it) Step-fault λ q.
        Step-option c.definitions Step-fault λ definitions.
          Step-option _ (Step-pure (some a)) λ definitions'. Step-option c.paths Step-fault λ paths.
            Step-option _ (Step-pure (some a)) λ paths'. Step->>= (Step-write a _) λ _.
              advance_resource-Step a
                (record c { definitions = some definitions'; paths = some paths' })
