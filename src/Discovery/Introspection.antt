-- ===== src/Discovery/Introspection.antt =====
-- The introspection in the client callbacks of src/bridge.cpp: `GetIntrospectionCB`,
-- `GetIntrospectionDataCB` and `GetCB`. Each handler returns what its local `context` points to at
-- `exit`. The adapters of TCP_ADAPTER are not tried in `GetIntrospectionCB`, where that option does
-- not compile.
use hanfun_io_tivity.Prelude.{ℕ, ◌&&◌, ◌||◌, List, [], ◌∷◌, ◌++◌, Option, some, none, if◌then◌else◌}
use hanfun_io_tivity.Prelude.Bytes.{Bytes, codes, bytes_eq}
use hanfun_io_tivity.Stack.{Constants, DevAddr}
use hanfun_io_tivity.Resource.{info, has_resource_type}
use hanfun_io_tivity.Discovery.{
  Callback, World, Context, Presence, M, pure, fault, ◌>>=◌, ◌>>◌, UrlInfo, RepPayload,
}
use hanfun_io_tivity.Discovery.Iterator.{next, differs_from_end, current}
use hanfun_io_tivity.Discovery.Ops.{
  read_context, write_context, continue_discovery, push_presence, get_secure_mode,
}
use hanfun_io_tivity.Discovery.Callbacks.{kept, request_resource, start_resources}

module _ (oc : Constants) (w : World) where
  -- The loop over the urls in `GetIntrospectionCB`; a url that is not set ends it.
  unfoldable pub try_urls : ℕ → DevAddr → List UrlInfo → M (Option ℕ)
  try_urls a addr [] = pure (some a)
  try_urls a addr (u ∷ us) = elim u.protocol [
    | none ↦ pure (some a)
    | some protocol ↦ elim u.url [
      | none ↦ pure (some a)
      | some url ↦
          if bytes_eq protocol (codes "coap") || bytes_eq protocol (codes "coaps")
          then (continue_discovery w a url (addr ∷ []) Callback.get_introspection_data >>= λ taken.
              if taken then pure none else try_urls a addr us)
          else try_urls a addr us
    ]
  ]

  -- The part behind `exit` of `GetIntrospectionCB` and `GetIntrospectionDataCB`, which goes round
  -- for ever where the payloads cannot be allocated.
  unfoldable pub or_start_resources : Option ℕ → M (Option ℕ)
  unfolding start_resources
  or_start_resources none = pure none
  or_start_resources (some a) =
      if w.alloc then (do taken ← start_resources oc w a; pure (kept a taken)) else fault

  -- `GetIntrospectionCB`, from a context and the payload, which may be NULL, with the address that
  -- the response came from.
  unfoldable pub on_introspection : ℕ → Option (DevAddr × RepPayload) → M (Option ℕ)
  unfolding try_urls or_start_resources
  on_introspection a none = or_start_resources (some a)
  on_introspection a (some (addr, payload)) = elim payload.url_info [
    | none ↦ or_start_resources (some a)
    | some urls ↦ try_urls a addr urls >>= or_start_resources
  ]

  -- `ParseIntrospectionPayload`, which always succeeds, and the new presence.
  unfoldable pub parse_introspection_payload : ℕ → M (Unit {0})
  parse_introspection_payload a = do
    c ← read_context a
    push_presence (Presence.oc c.device.di 5 w.now)

  -- `GetIntrospectionDataCB`.
  unfoldable pub on_introspection_data : ℕ → Option RepPayload → M (Option ℕ)
  unfolding parse_introspection_payload or_start_resources
  on_introspection_data a none = or_start_resources (some a)
  on_introspection_data a (some payload) = do parse_introspection_payload a; pure (some a)

  -- A name that is added unless it is there; `none` where the payload does not take it.
  unfoldable add_name : Bytes → List Bytes → Option (List Bytes)
  unfolding has_resource_type
  add_name name names =
      if has_resource_type names name
      then some names
      else if w.set_object name
      then some (names ++ name ∷ [])
      else none

  -- The end of `GetCB`: the next pair, or the result.
  unfoldable pub next_resource : ℕ → Context → M (Option ℕ)
  unfolding request_resource parse_introspection_payload
  next_resource a c =
      if differs_from_end c.it
      then (do taken ← request_resource oc w a c; pure (kept a taken))
      else if w.alloc
      then (if w.set_object (codes "paths") && w.set_object (codes "definitions")
          then (do parse_introspection_payload a; pure (some a))
          else pure (some a))
      else pure (some a)

  unfoldable pub advance_resource : ℕ → Context → M (Option ℕ)
  unfolding next_resource
  advance_resource a c = do
    secure_mode ← get_secure_mode
    elim (next oc secure_mode c.it) [
      | none ↦ fault
      | some it ↦ (do
        write_context a (record c { it = it })
        next_resource a (record c { it = it }))
    ]

  -- `GetCB`: it reads the payloads `definitions` and `paths`, which must not be NULL.
  unfoldable pub on_resource : ℕ → M (Option ℕ)
  unfolding add_name advance_resource
  on_resource a = do
    c ← read_context a
    elim (current c.it) [
      | none ↦ fault
      | some p ↦ elim c.definitions [
        | none ↦ fault
        | some definitions ↦ elim (add_name p.1 definitions) [
          | none ↦ pure (some a)
          | some definitions' ↦ elim c.paths [
            | none ↦ fault
            | some paths ↦ elim (add_name (info p.0).uri paths) [
              | none ↦ pure (some a)
              | some paths' ↦ (do
                let c' = record c { definitions = some definitions'; paths = some paths' }
                write_context a c'
                advance_resource a c')
            ]
          ]
        ]
      ]
    ]
