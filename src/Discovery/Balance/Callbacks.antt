-- ===== src/Discovery/Balance/Callbacks.antt =====
-- The response callbacks of src/bridge.cpp as wholes, from the look into `discovered_` to the end.
use hanfun_io_tivity.Prelude.{ℕ, ◌≡◌, refl, ◌⊎◌, true, Option, some, none, Option-cases, inl, inr}
use hanfun_io_tivity.Prelude.Assoc.{lookup, erase, erase-none}
use hanfun_io_tivity.Stack.{Constants}
use hanfun_io_tivity.Discovery.{Bridge, World, Callback, M, ◌>>=◌, RepPayload, ClientResponse}
use hanfun_io_tivity.Discovery.Ops.{find_discovered, erase_discovered, delete_context, rep_payload}
use hanfun_io_tivity.Discovery.Callbacks.{
  Handler, on_device, on_platform, on_device_configuration, on_collection,
}
use hanfun_io_tivity.Discovery.Introspection.{}
use hanfun_io_tivity.Discovery.Steps.{
  finish, finish_resource, with_payload, with_context, rep_with_addr, respond,
}
use hanfun_io_tivity.Discovery.Balance.{Balanced, Safe, Safe->>=}
use hanfun_io_tivity.Discovery.Balance.Ops.{
  delete_context_lem, erase_discovered_lem, Balanced-start, Balanced-same,
}
use hanfun_io_tivity.Discovery.Balance.Steps.{Step}
use hanfun_io_tivity.Discovery.Balance.Handlers.{
  on_device-Step, on_platform-Step, on_device_configuration-Step, on_platform_configuration-Step,
  on_collection-Step, on_introspection-Step, on_introspection_data-Step, on_resource-Step,
}

-- What a callback leaves when it is through: no local pointer and no entry of its own.
abbrev pub Through : M (Unit {0}) → Bridge → Type 0
Through m b = Safe (λ _. Balanced none none) (m b)

module _ (h : ℕ) (b : Bridge) where
  finish_lem : (l : Option ℕ) → Balanced l (some h) b → Through (finish h l) b
  unfolding finish
  finish_lem l i =
      Safe->>= (λ _. Balanced none (some h)) (λ _. Balanced none none) (delete_context l) _ b
        (delete_context_lem (some h) b l i) (λ _ b' i'. erase_discovered_lem none h b' i')

  finish_resource_lem : (l : Option ℕ) → Balanced l (some h) b → Through (finish_resource h l) b
  unfolding finish_resource
  finish_resource_lem l i =
      Safe->>= (λ _. Balanced l none) (λ _. Balanced none none) (erase_discovered h) _ b
        (erase_discovered_lem l h b i) (λ _ b' i'. delete_context_lem none b' l i')

  -- An entry that is not there leaves the map as it is.
  erase_discovered-none :
      lookup h b.discovered ≡ none → Balanced none none b → Through (erase_discovered h) b
  unfolding erase_discovered
  erase_discovered-none e i =
      Balanced-same none none b (record b { discovered = erase h b.discovered }) refl
        (erase-none h b.discovered e) refl refl refl i

module _ (h : ℕ) (b : Bridge) (i : Balanced none none b) where
  found_lem :
      (body : Option ℕ → M (Unit {0}))
      → (lookup h b.discovered ≡ none → Through (body none) b)
      → ((a : ℕ) → Balanced (some a) (some h) b → Through (body (some a)) b)
      → Through (find_discovered h >>= body) b
  unfolding find_discovered
  found_lem body absent present = go (Option-cases (lookup h b.discovered))
    where
      go :
          (lookup h b.discovered ≡ none) ⊎ ((a : ℕ) × (lookup h b.discovered ≡ some a))
          → Through (body (lookup h b.discovered)) b
      go (inl e) = rw e (absent e)
      go (inr (a, e)) = rw e (present a (Balanced-start a h b e i))

  absent_lem : lookup h b.discovered ≡ none → Through (finish h none) b
  unfolding finish delete_context
  absent_lem e = erase_discovered-none h b e i

  absent_resource_lem : lookup h b.discovered ≡ none → Through (finish_resource h none) b
  unfolding finish_resource
  absent_resource_lem e =
      Safe->>= (λ _. Balanced none none) (λ _. Balanced none none) (erase_discovered h) _ b
        (erase_discovered-none h b e i) (λ _ b' i'. delete_context_lem none b' none i')

  -- A handler and an end that disposes of what the handler leaves.
  ended_lem :
      (m : M (Option ℕ)) (end : Option ℕ → M (Unit {0})) (a : ℕ)
      → Step (some h) (some a) m (λ l. l)
      → ((b' : Bridge) (l : Option ℕ) → Balanced l (some h) b' → Through (end l) b')
      → Balanced (some a) (some h) b
      → Through (m >>= end) b
  ended_lem m end a s t i' =
      Safe->>= (λ l. Balanced l (some h)) (λ _. Balanced none none) m end b (s.run b i')
        (λ l b' i''. t b' l i'')

  with_payload_lem :
      (handler : Handler) (r : Option ClientResponse)
      → ((a : ℕ) (payload : RepPayload) → Step (some h) (some a) (handler a payload) (λ l. l))
      → Through (with_payload handler h r) b
  unfolding with_payload
  with_payload_lem handler r s = found_lem _ absent_lem (λ a i'. payload_case a i' (rep_payload r))
    where
      payload_case :
          (a : ℕ)
          → Balanced (some a) (some h) b
          → (o : Option RepPayload)
          → Through
              (elim o [ none ↦ finish h (some a) | some payload ↦ handler a payload >>= finish h ])
              b
      payload_case a i' none = finish_lem h b (some a) i'
      payload_case a i' (some payload) =
          ended_lem (handler a payload) (finish h) a (s a payload) (finish_lem h) i'

  with_context_lem :
      (handler : ℕ → M (Option ℕ)) (end : Option ℕ → M (Unit {0}))
      → (lookup h b.discovered ≡ none → Through (end none) b)
      → ((a : ℕ) → Step (some h) (some a) (handler a) (λ l. l))
      → ((b' : Bridge) (l : Option ℕ) → Balanced l (some h) b' → Through (end l) b')
      → Through (with_context handler end h) b
  unfolding with_context
  with_context_lem handler end absent s t =
      found_lem _ absent (λ a i'. ended_lem (handler a) end a (s a) t i')

  -- Where every context has one owner before a response, the callback of the response uses no dead
  -- context, and if it ends, every context has one owner again: none is lost and none is freed twice.
  -- The condition is that memory can be allocated.
  pub respond-Balanced :
      (oc : Constants) (w : World)
      → w.alloc ≡ true
      → (cb : Callback) (r : Option ClientResponse) → Through (respond oc w cb h r) b
  unfolding respond
  respond-Balanced oc w e Callback.get_device r =
      with_payload_lem (on_device oc w) r (on_device-Step oc w e)
  respond-Balanced oc w e Callback.get_platform r =
      with_payload_lem (on_platform oc w) r (on_platform-Step oc w e)
  respond-Balanced oc w e Callback.get_device_configuration r =
      with_payload_lem (on_device_configuration oc w) r (on_device_configuration-Step oc w e)
  respond-Balanced oc w e Callback.get_platform_configuration r =
      with_context_lem _ _ absent_lem (on_platform_configuration-Step oc w e) (finish_lem h)
  respond-Balanced oc w e Callback.get_collection r =
      with_payload_lem (on_collection oc w) r (on_collection-Step oc w e)
  respond-Balanced oc w e Callback.get_introspection r =
      with_context_lem _ _ absent_lem (λ a. on_introspection-Step oc w e a (rep_with_addr r))
        (finish_lem h)
  respond-Balanced oc w e Callback.get_introspection_data r =
      with_context_lem _ _ absent_lem (λ a. on_introspection_data-Step oc w e a (rep_payload r))
        (finish_lem h)
  respond-Balanced oc w e Callback.get_resource r =
      with_context_lem _ _ absent_resource_lem (on_resource-Step oc w e) (finish_resource_lem h)
